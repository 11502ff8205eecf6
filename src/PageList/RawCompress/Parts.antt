-- ===== src/PageList/RawCompress/Parts.antt =====
-- The parts of `parse_partsize_fdpage_list`: the loop ends, and the parts make up the pages.
use s3fs_fuse.Base.{
  ℕ, zero, suc, ◌+◌, ◌-◌, ◌*◌, ◌≤◌, ◌<◌, min, ◌≡◌, refl, sym, ◌∙◌, inl, inr, true, false, ◌&&◌,
  none, some, List, [], ◌∷◌, ◌++◌, arith, ltb, leb, ◌==◌, if◌then◌else◌, Bool-cases, All,
  All-append, if-true, if-false,
}
use s3fs_fuse.PageList.{Fdpage, next}
use s3fs_fuse.PageList.View.{
  flags, flags_at, Contiguous, Contiguous-append, Contiguous-eq, end_from, end_from-append,
  end_from-eq, flags_at-append,
}
use s3fs_fuse.PageList.RawCompress.{divide, parse_partsize, page_parts}

-- The bounds on the parts of an area of `n` bytes: at most twice `max_partsize`, and no small rest.
abbrev pub IsPart : ℕ → ℕ → Fdpage → Type 0
IsPart max_partsize n q = (q.bytes ≤ max_partsize * 2) × (min max_partsize n ≤ q.bytes)

IsPart-mono :
    (max_partsize n m : ℕ) (ps : List Fdpage)
    → min max_partsize m ≤ min max_partsize n
    → All (IsPart max_partsize n) ps
    → All (IsPart max_partsize m) ps
IsPart-mono max_partsize n m [] h a = tt
IsPart-mono max_partsize n m (p ∷ ps) h a = (omega arith, IsPart-mono max_partsize n m ps h a.1)

pub record IsDivision (max_partsize : ℕ) (p : Fdpage) (start n : ℕ) (ps : List Fdpage)
    : Type 0 where
  pub contiguous : Contiguous start ps
  pub same_end : end_from start ps ≡ start + n
  pub parts : All (IsPart max_partsize n) ps
  pub bytes :
      (b : ℕ) → flags_at b ps ≡ (if leb start b && ltb b (start + n) then some (flags p) else none)

divide_lem :
    (fuel max_partsize : ℕ) (p : Fdpage) (start n : ℕ)
    → 0 < max_partsize
    → n < fuel
    → (ps : List Fdpage) × (divide fuel max_partsize p start n ≡ some ps)
      × IsDivision max_partsize p start n ps
unfolding divide
divide_lem zero max_partsize p start n h k = absurd (omega arith)
divide_lem (suc fuel) max_partsize p start n h k = elim (Bool-cases (n == 0)) [
  | inl e ↦ (
    [],
    rw e,
    record { contiguous = tt; same_end = ground arith; parts = tt; bytes = λ b. ground arith },
  )
  | inr e ↦ elim (Bool-cases (ltb (max_partsize * 2) n)) [
    | inl e' ↦
        let (ps, q, d) =
          divide_lem fuel max_partsize p (start + max_partsize) (n - max_partsize) h
            (ground arith) in
        (
          record p { offset = start; bytes = max_partsize } ∷ ps,
          rw (e, e', q),
          record {
            contiguous = (refl, d.contiguous);
            same_end = d.same_end ∙ ground arith;
            parts = (
              ground arith,
              IsPart-mono max_partsize (n - max_partsize) n ps (ground arith) d.parts,
            );
            bytes = λ b. ground (arith, d.bytes b);
          },
        )
    | inr e' ↦ (
      record p { offset = start; bytes = n } ∷ [],
      rw (e, e'),
      record {
        contiguous = (refl, tt);
        same_end = ground arith;
        parts = (ground arith, tt);
        bytes = λ b. ground arith;
      },
    )
  ]
]

-- What `parse_partsize_fdpage_list` does to a list from `o` on.
pub record IsParsed (max_partsize o : ℕ) (ps qs : List Fdpage) : Type 0 where
  pub contiguous : Contiguous o qs
  pub same_end : end_from o qs ≡ end_from o ps
  pub small : All (λ q. q.modified ≡ true → q.bytes ≤ max_partsize * 2) qs
  pub bytes : (b : ℕ) → flags_at b qs ≡ flags_at b ps

small_of_parts :
    (max_partsize n : ℕ) (ps : List Fdpage)
    → All (IsPart max_partsize n) ps
    → All (λ q. q.modified ≡ true → q.bytes ≤ max_partsize * 2) ps
small_of_parts max_partsize n [] a = tt
small_of_parts max_partsize n (p ∷ ps) a = (λ _. a.0.0, small_of_parts max_partsize n ps a.1)

page_parts_lem :
    (max_partsize : ℕ) (p : Fdpage)
    → 0 < max_partsize
    → (qs : List Fdpage) × (page_parts max_partsize p ≡ some qs)
      × IsParsed max_partsize p.offset (p ∷ []) qs
unfolding page_parts
page_parts_lem max_partsize p h = elim (Bool-cases p.modified) [
  | inl e ↦
      let (ps, q, d) = divide_lem (suc p.bytes) max_partsize p p.offset p.bytes h (omega arith) in
      (
        ps,
        if-true p.modified _ _ e ∙ q,
        record {
          contiguous = d.contiguous;
          same_end = d.same_end;
          small = small_of_parts max_partsize p.bytes ps d.parts;
          bytes = λ b. d.bytes b;
        },
      )
  | inr e ↦ (
    p ∷ [],
    if-false p.modified _ _ e,
    record { contiguous = (refl, tt); same_end = refl; small = (λ q. cc, tt); bytes = λ b. refl },
  )
]

-- With a positive part size `parse_partsize_fdpage_list` ends. It divides the list into pages that
-- hold the same bytes with the same flags, and no modified page has more than two part sizes.
pub parse_partsize_lem :
    (max_partsize o : ℕ) (ps : List Fdpage)
    → 0 < max_partsize
    → Contiguous o ps
    → (qs : List Fdpage) × (parse_partsize max_partsize ps ≡ some qs)
      × IsParsed max_partsize o ps qs
unfolding parse_partsize
parse_partsize_lem max_partsize o [] h c =
    ([], refl, record { contiguous = tt; same_end = refl; small = tt; bytes = λ b. refl })
parse_partsize_lem max_partsize o (p ∷ ps) h c =
    let (qs, e, d) = page_parts_lem max_partsize p h in
    let (rs, e', d') = parse_partsize_lem max_partsize (next p) ps h c.1 in
    let q : end_from o qs ≡ next p = end_from-eq o p.offset qs (sym c.0) ∙ d.same_end in
    (
      qs ++ rs,
      rw (e, e'),
      record {
        contiguous =
            Contiguous-append o qs rs (Contiguous-eq p.offset o qs d.contiguous c.0)
              (Contiguous-eq (next p) (end_from o qs) rs d'.contiguous (sym q));
        same_end = rw end_from-append (end_from-eq (end_from o qs) (next p) rs q ∙ d'.same_end);
        small =
            All-append (λ q. q.modified ≡ true → q.bytes ≤ max_partsize * 2) qs rs d.small d'.small;
        bytes = λ b. ground (arith, flags_at-append b qs rs, d.bytes b, d'.bytes b);
      },
    )

-- Pages that are not modified are not divided.
pub parse_partsize-unmodified :
    (max_partsize : ℕ) (ps : List Fdpage)
    → All (λ p. p.modified ≡ false) ps
    → parse_partsize max_partsize ps ≡ some ps
unfolding parse_partsize
parse_partsize-unmodified max_partsize [] a = refl
parse_partsize-unmodified max_partsize (p ∷ ps) a =
    rw (parse_partsize-unmodified max_partsize ps a.1, if-false p.modified _ _ a.0)

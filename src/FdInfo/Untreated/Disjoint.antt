-- ===== src/FdInfo/Untreated/Disjoint.antt =====
-- Which uploaded parts are canceled.
use s3fs_fuse.FdInfo.Untreated.{cancel_loop, is_apart, area_end, Canceled}
use s3fs_fuse.FdInfo.{Filepart}
use s3fs_fuse.Base.{
  ℕ, ◌+◌, ◌-◌, ◌≤◌, ◌≡◌, refl, ap, ◌∙◌, ◌⊎◌, inl, inr, Bool, true, false, not, ◌&&◌, List, [], ◌∷◌,
  arith, ltb, if◌then◌else◌, Bool-cases, All, if-elim, if-true, All-imp,
}

-- The parts lie one behind the other, none of them empty.
abbrev pub IsInOrder : List Filepart → Type 0
IsInOrder [] = Unit
IsInOrder (f ∷ l) = (1 ≤ f.size) × All (λ g. f.startpos + f.size ≤ g.startpos) l × IsInOrder l

-- No byte of the part is in the area.
abbrev pub IsApart : ℕ → ℕ → Filepart → Type 0
IsApart s z f = (f.startpos + f.size ≤ s) ⊎ (s + z ≤ f.startpos)

-- Behind a part that ends after the area, the area does not grow any more.
cancel_loop-behind :
    (s z : ℕ) (l : List Filepart)
    → 1 ≤ z
    → All (λ g. s + z ≤ g.startpos) l
    → cancel_loop s z l ≡ record { upload_list = l; cancel_upload_list = []; aligned_size = z }
unfolding cancel_loop
cancel_loop-behind s z [] h a = refl
cancel_loop-behind s z (f ∷ l) h a =
    let ih = cancel_loop-behind s z l h a.1 in
    let b = a.0 in
    if-true (is_apart s z f) _ _ (ground arith)
    ∙ ap (λ (c : Canceled). record c { upload_list = f ∷ c.upload_list }) ih

-- The area only grows.
pub aligned_size-cancel_loop : (s z : ℕ) (l : List Filepart) → z ≤ (cancel_loop s z l).aligned_size
unfolding cancel_loop
aligned_size-cancel_loop s z [] = omega arith
aligned_size-cancel_loop s z (f ∷ l) =
    let ih1 = aligned_size-cancel_loop s z l in
    let ih2 = aligned_size-cancel_loop s (area_end s z f) l in
    if-elim (λ (c : Canceled). z ≤ c.aligned_size) (is_apart s z f) _ _ (λ _. ih1)
      (λ e. ground arith)

module _ (s : ℕ) where
  -- What is left after the loop lies outside the area, as it is then.
  pub IsApart-cancel_loop :
      (z : ℕ) (l : List Filepart)
      → 1 ≤ z
      → IsInOrder l
      → All (IsApart s (cancel_loop s z l).aligned_size) (cancel_loop s z l).upload_list
  unfolding cancel_loop
  IsApart-cancel_loop z [] h o = tt
  IsApart-cancel_loop z (f ∷ l) h o =
      let ih = IsApart-cancel_loop z l h o.2 in
      let grown = IsApart-cancel_loop (area_end s z f) l (let p = o.0 in ground arith) o.2 in
      let o0 = o.0 in
      if-elim (λ (c : Canceled). All (IsApart s c.aligned_size) c.upload_list) (is_apart s z f)
        (record (cancel_loop s z l) { upload_list = f ∷ (cancel_loop s z l).upload_list })
        (record (cancel_loop s (area_end s z f) l) {
          cancel_upload_list = f ∷ (cancel_loop s (area_end s z f) l).cancel_upload_list;
        })
        (λ e. elim (Bool-cases (ltb (f.startpos + f.size - 1) s)) [
          | inl q ↦ (inl (ground arith), ih)
          | inr q ↦
              let b : s + z ≤ f.startpos = (ground arith) in
              let c = cancel_loop-behind s z l h (
                All-imp (λ g. f.startpos + f.size ≤ g.startpos) (λ g. s + z ≤ g.startpos)
                  (λ g k. omega arith) l o.1) in
              (inr (rw c b), ih)
        ])
        (λ _. grown)

-- The part has a byte in the area from `s` on up to `e`.
abbrev pub has_common : ℕ → ℕ → Filepart → Bool
has_common s e f = ltb s (f.startpos + f.size) && ltb f.startpos e

-- The parts that pass a test.
abbrev pub keep_if : (Filepart → Bool) → List Filepart → List Filepart
keep_if p [] = []
keep_if p (f ∷ l) = if p f then f ∷ keep_if p l else keep_if p l

keep_if-eq :
    (p q : Filepart → Bool) (l : List Filepart) → All (λ f. p f ≡ q f) l → keep_if p l ≡ keep_if q l
keep_if-eq p q [] a = refl
keep_if-eq p q (f ∷ l) a =
    ap (λ b. if b then f ∷ keep_if p l else keep_if p l) a.0
    ∙ ap (λ r. if q f then f ∷ r else r) (keep_if-eq p q l a.1)

-- Those with a byte in the area are canceled, all others are kept, in their order.
abbrev pub IsDivided : ℕ → ℕ → List Filepart → Canceled → Type 0
IsDivided s e l c =
    (c.cancel_upload_list ≡ keep_if (has_common s e) l)
    × (c.upload_list ≡ keep_if (λ f. not (has_common s e f)) l)

-- The area that has grown up to the end of a part has no more bytes in common with those behind it.
IsDivided-grown :
    (s z : ℕ) (f : Filepart) (l : List Filepart) (c : Canceled)
    → 1 ≤ z
    → All (λ g. f.startpos + f.size ≤ g.startpos) l
    → IsDivided s (s + area_end s z f) l c
    → IsDivided s (s + z) l c
IsDivided-grown s z f l c h o d =
    let e : All (λ g. has_common s (s + area_end s z f) g ≡ has_common s (s + z) g) l =
      All-imp (λ g. f.startpos + f.size ≤ g.startpos)
        (λ g. has_common s (s + area_end s z f) g ≡ has_common s (s + z) g) (λ g k. ground arith) l
        o in
    (
      d.0 ∙ keep_if-eq (has_common s (s + area_end s z f)) (has_common s (s + z)) l e,
      d.1
          ∙ keep_if-eq (λ g. not (has_common s (s + area_end s z f) g))
              (λ g. not (has_common s (s + z) g)) l
              (All-imp (λ g. has_common s (s + area_end s z f) g ≡ has_common s (s + z) g)
                (λ g. not (has_common s (s + area_end s z f) g) ≡ not (has_common s (s + z) g))
                (λ g k. ap not k) l e),
    )

pub IsDivided-cancel_loop :
    (s z : ℕ) (l : List Filepart) → 1 ≤ z → IsInOrder l → IsDivided s (s + z) l (cancel_loop s z l)
unfolding cancel_loop
IsDivided-cancel_loop s z [] h o = (refl, refl)
IsDivided-cancel_loop s z (f ∷ l) h o =
    let o0 = o.0 in
    let ih = IsDivided-cancel_loop s z l h o.2 in
    let grown =
      IsDivided-grown s z f l (cancel_loop s (area_end s z f) l) h o.1
        (IsDivided-cancel_loop s (area_end s z f) l (ground arith) o.2) in
    if-elim (IsDivided s (s + z) (f ∷ l)) (is_apart s z f)
      (record (cancel_loop s z l) { upload_list = f ∷ (cancel_loop s z l).upload_list })
      (record (cancel_loop s (area_end s z f) l) {
        cancel_upload_list = f ∷ (cancel_loop s (area_end s z f) l).cancel_upload_list;
      })
      (λ e.
        let b : has_common s (s + z) f ≡ false = ground arith in
        (rw b ih.0, rw b (ap (λ r. f ∷ r) ih.1)))
      (λ e.
        let b : has_common s (s + z) f ≡ true = ground arith in
        (rw b (ap (λ r. f ∷ r) grown.0), rw b grown.1))

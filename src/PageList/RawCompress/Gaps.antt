-- ===== src/PageList/RawCompress/Gaps.antt =====
-- `compress_fdpage_list_ignore_modify` of areas with gaps between them: where no page is loaded it
-- fills the gaps, so the areas become one.
use s3fs_fuse.Base.{
  ℕ, ◌+◌, ◌-◌, ◌≤◌, ◌<◌, ◌≡◌, refl, ◌∙◌, inl, inr, true, false, List, [], ◌∷◌, ◌++◌, arith, ◌==◌,
  if◌then◌else◌, Bool-cases, length, All,
}
use s3fs_fuse.PageList.{Fdpage, next}
use s3fs_fuse.PageList.View.{covers}
use s3fs_fuse.PageList.RawCompress.{raw_step, raw_from, raw_compress, ignoring_modify, masked}

-- Unloaded pages in ascending order that start at `o` at the earliest and end at `e` at the latest.
abbrev pub Ascends : ℕ → List Fdpage → ℕ → Type 0
Ascends o [] e = o ≤ e
Ascends o (p ∷ ps) e = (o ≤ p.offset) × (p.loaded ≡ false) × Ascends (next p) ps e

pub Ascends-push :
    (o e e' : ℕ) (ps : List Fdpage) (q : Fdpage)
    → Ascends o ps e
    → e ≤ q.offset
    → q.loaded ≡ false
    → next q ≤ e'
    → Ascends o (ps ++ q ∷ []) e'
Ascends-push o e e' [] q a h u k = (omega arith, u, k)
Ascends-push o e e' (p ∷ ps) q a h u k = (a.0, a.1, Ascends-push (next p) e e' ps q a.2 h u k)

pub Ascends-mono : (o e e' : ℕ) (ps : List Fdpage) → Ascends o ps e → e ≤ e' → Ascends o ps e'
Ascends-mono o e e' [] a h = omega arith
Ascends-mono o e e' (p ∷ ps) a h = (a.0, a.1, Ascends-mono (next p) e e' ps a.2 h)

le_of_covers : (b o e : ℕ) (ps : List Fdpage) → Ascends o ps e → covers b ps ≡ true → o ≤ b
le_of_covers b o e [] a h = absurd (cc)
le_of_covers b o e (p ∷ ps) a h = ground (arith, le_of_covers b (next p) e ps a.2)

abbrev one_page : Fdpage → ℕ → List Fdpage
one_page last n = record last { bytes = n } ∷ []

abbrev widened : Fdpage → Fdpage → Fdpage
widened last p = record last { bytes = if p.bytes == 0 then last.bytes else next p - last.offset }

raw_from-widened :
    (last p : Fdpage) (ps : List Fdpage)
    → last.loaded ≡ false
    → p.loaded ≡ false
    → next last ≤ p.offset
    → raw_from (ignoring_modify false) last (p ∷ ps)
      ≡ raw_from (ignoring_modify false) (widened last p) ps
unfolding raw_from raw_step
raw_from-widened last p ps u v h = ground arith

raw_from-nil_unloaded : (last : Fdpage) → raw_from (ignoring_modify false) last [] ≡ last ∷ []
unfolding raw_from
raw_from-nil_unloaded last = refl

Ascends-widened :
    (last p : Fdpage) (e : ℕ) (ps : List Fdpage)
    → next last ≤ p.offset
    → Ascends (next p) ps e
    → Ascends (next (widened last p)) ps e
Ascends-widened last p e [] h a = ground arith
Ascends-widened last p e (q ∷ ps) h a = ground arith

-- Unloaded areas become one page that ends where the last of them does.
raw_from_unloaded :
    (last : Fdpage) (e : ℕ) (ps : List Fdpage)
    → last.loaded ≡ false
    → Ascends (next last) ps e
    → (n : ℕ) × (raw_from (ignoring_modify false) last ps ≡ record last { bytes = n } ∷ [])
      × (last.bytes ≤ n)
      × (last.offset + n ≤ e)
      × ((b : ℕ) → covers b ps ≡ true → b < last.offset + n)
raw_from_unloaded last e [] u a =
    (last.bytes, raw_from-nil_unloaded last, omega arith, omega arith, λ b h. absurd (cc))
raw_from_unloaded last e (p ∷ ps) u a =
    let (n, q, h, k, inside) =
      raw_from_unloaded (widened last p) e ps u (Ascends-widened last p e ps a.0 a.2) in
    (n, raw_from-widened last p ps u a.1 a.0 ∙ q, ground arith, k, λ b c. ground (arith, inside b))

-- The areas are covered by the copy, which is one page or none.
pub record IsCover (ps qs : List Fdpage) : Type 0 where
  pub one : length qs ≤ 1
  pub unmodified : All (λ q. q.modified ≡ false) qs
  pub covered : (b : ℕ) → covers b ps ≡ true → covers b qs ≡ true

pub raw_compress-IsCover :
    (o e : ℕ) (ps : List Fdpage)
    → Ascends o ps e
    → IsCover ps (raw_compress (ignoring_modify false) ps)
unfolding raw_compress
raw_compress-IsCover o e [] a = record { one = omega arith; unmodified = tt; covered = λ b h. h }
raw_compress-IsCover o e (p ∷ ps) a = elim (Bool-cases (p.bytes == 0)) [
  | inl z ↦
      let ih = raw_compress-IsCover (next p) e ps a.2 in
      rw z (record {
        one = ih.one;
        unmodified = ih.unmodified;
        covered = λ b c. ih.covered b (ground arith);
      })
  | inr z ↦
      let (n, q, h, k, inside) =
        raw_from_unloaded (masked (ignoring_modify false) p) e ps a.1 a.2 in
      rw (z, q)
        (record {
          one = omega arith;
          unmodified = (refl, tt);
          covered = λ b c. ground (arith, inside b, le_of_covers b (next p) e ps a.2);
        })
]

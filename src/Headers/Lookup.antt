-- ===== src/Headers/Lookup.antt =====
-- Lookups in headers after an assignment; names that differ in case are the same.
use s3fs_fuse.Headers.{header, nocase_eq, set_header, to_lower, Headers, nocase_ltb}
use s3fs_fuse.Base.{
  ℕ, ◌≡◌, refl, sym, ap, ◌∙◌, Bool, true, false, some, List, [], ◌∷◌, map, if◌then◌else◌, if-elim,
  if-true, if-false, str_eq, str_eq_refl, str_eq-eq,
}

lower_eq : (s t : List ℕ) → nocase_eq s t ≡ true → map to_lower s ≡ map to_lower t
unfolding nocase_eq
lower_eq s t h = str_eq-eq (map to_lower s) (map to_lower t) h

-- Two names that are the same are the same as any third.
pub nocase_eq-same : (k s t : List ℕ) → nocase_eq s t ≡ true → nocase_eq k s ≡ nocase_eq k t
unfolding nocase_eq
nocase_eq-same k s t h = ap (str_eq (map to_lower k)) (lower_eq s t h)

nocase_eq_refl : (s : List ℕ) → nocase_eq s s ≡ true
unfolding nocase_eq
nocase_eq_refl s = str_eq_refl (map to_lower s)

pub nocase_eq-left : (k t x : List ℕ) → nocase_eq k t ≡ true → nocase_eq k x ≡ nocase_eq t x
unfolding nocase_eq
nocase_eq-left k t x h = ap (λ s. str_eq s (map to_lower x)) (lower_eq k t h)

pub header-same : (k t : List ℕ) (m : Headers) → nocase_eq k t ≡ true → header k m ≡ header t m
unfolding header
header-same k t [] h = refl
header-same k t (x ∷ m) h =
    let ih = header-same k t m h in
    let e = nocase_eq-left k t x.0 h in
    ap (λ b. if b then some x.1 else header k m) e
    ∙ ap (λ r. if nocase_eq t x.0 then some x.1 else r) ih

-- Conditionals on tests that agree, and on tests of which one fails.
if-agree :
    {A : Type 0} (a b : Bool) (u w z : A)
    → a ≡ b
    → (if b then u else z) ≡ (if a then u else if b then w else z)
if-agree true b u w z h = if-true b u z (sym h)
if-agree false b u w z h = if-false b u z (sym h) ∙ sym (if-false b w z (sym h))

if-swap :
    {A : Type 0} (a b : Bool) (u w z : A)
    → (a ≡ true → b ≡ false)
    → (if b then w else if a then u else z) ≡ (if a then u else if b then w else z)
if-swap true b u w z h = if-false b w u (h refl)
if-swap false b u w z h = refl

-- The value under a name that was assigned is the new one, under any other name it is as before.
pub header-set_header :
    (k t v : List ℕ) (m : Headers)
    → header k (set_header t v m) ≡ (if nocase_eq k t then some v else header k m)
unfolding header set_header
header-set_header k t v [] = refl
header-set_header k t v (x ∷ m) =
    let ih = header-set_header k t v m in
    let kt = nocase_eq k t in
    let kx = nocase_eq k x.0 in
    if-elim (λ (w : Headers). header k w ≡ (if kt then some v else header k (x ∷ m)))
      (nocase_eq t x.0) ((x.0, v) ∷ m) _
      (λ e. if-agree kt kx (some v) (some x.1) (header k m) (nocase_eq-same k t x.0 e))
      (λ e.
        if-elim (λ (w : Headers). header k w ≡ (if kt then some v else header k (x ∷ m)))
          (nocase_ltb t x.0) ((t, v) ∷ x ∷ m) (x ∷ set_header t v m) (λ _. refl)
          (λ _.
            ap (λ r. if kx then some x.1 else r) ih
            ∙ if-swap kt kx (some v) (some x.1) (header k m) (λ h. nocase_eq-left k t x.0 h ∙ e)))

-- ===== src/MetaHeader/Merge.antt =====
-- What `merge_headers` leaves in the base.
use s3fs_fuse.Headers.Lookup.{header-set_header, header-same}
use s3fs_fuse.Headers.{Headers, header, nocase_eq, set_header}
use s3fs_fuse.MetaHeader.{merge_headers, is_some, has_header}
use s3fs_fuse.Base.{
  ℕ, ◌≡◌, refl, sym, ap, ◌∙◌, inl, inr, Bool, true, false, ◌||◌, Option, none, some, List, [], ◌∷◌,
  if◌then◌else◌, Bool-cases, if-elim,
}

abbrev pub or_else : Option (List ℕ) → Option (List ℕ) → Option (List ℕ)
or_else none r = r
or_else (some v) r = some v

-- The last value of a header in a list.
abbrev pub last_value : List ℕ → Headers → Option (List ℕ)
last_value k [] = none
last_value k (x ∷ l) = or_else (last_value k l) (if nocase_eq k x.0 then some x.1 else none)

-- The value after the merge: from the additional headers if there is one, unless only headers that
-- the base has are taken and it has none.
abbrev pub merged : Bool → Option (List ℕ) → Option (List ℕ) → Option (List ℕ)
merged true l b = or_else l b
merged false l none = none
merged false l (some w) = or_else l (some w)

-- One round in which the header is set.
merged-set :
    (f b : Bool) (l r : Option (List ℕ)) (v : List ℕ)
    → (f || is_some r) ≡ true
    → b ≡ true
    → merged f l (some v) ≡ merged f (or_else l (some v)) r
merged-set true b none r v h e = refl
merged-set true b (some w) r v h e = refl
merged-set false b l none v h e = cc
merged-set false b none (some u) v h e = refl
merged-set false b (some w) (some u) v h e = refl

or_else-none : (l : Option (List ℕ)) → or_else l none ≡ l
or_else-none none = refl
or_else-none (some v) = refl

-- After merge_headers each header has the last value of it in the additional headers, if there is one
-- and, without add_noexist, the base had the header; all others have the value that they had.
pub header-merge_headers :
    (add_noexist : Bool) (k : List ℕ) (additional base : Headers)
    → header k (merge_headers add_noexist base additional).0
      ≡ merged add_noexist (last_value k additional) (header k base)
unfolding merge_headers
header-merge_headers add_noexist k [] base = merged-nothing add_noexist (header k base)
  where
    merged-nothing : (f : Bool) (r : Option (List ℕ)) → r ≡ merged f none r
    merged-nothing true r = refl
    merged-nothing false none = refl
    merged-nothing false (some v) = refl
header-merge_headers add_noexist k (x ∷ additional) base =
    let l = last_value k additional in
    let set = header-merge_headers add_noexist k additional (set_header x.0 x.1 base) in
    let left = header-merge_headers add_noexist k additional base in
    if-elim
      (λ (r : Headers × Bool).
        header k r.0
        ≡ merged add_noexist (or_else l (if nocase_eq k x.0 then some x.1 else none))
            (header k base))
      (add_noexist || has_header x.0 base)
      ((merge_headers add_noexist (set_header x.0 x.1 base) additional).0, true)
      (merge_headers add_noexist base additional)
      (λ e.
        set
        ∙ ap (merged add_noexist l) (header-set_header k x.0 x.1 base)
        ∙ elim (Bool-cases (nocase_eq k x.0)) [
          | inl q ↦ rw q (
              merged-set add_noexist true l (header k base) x.1
                (ap (λ r. add_noexist || is_some r) (header-same k x.0 base q) ∙ e) refl)
          | inr q ↦ rw q (ap (λ r. merged add_noexist r (header k base)) (sym (or_else-none l)))
        ])
      (λ e. left ∙ elim (Bool-cases (nocase_eq k x.0)) [
        | inl q ↦
            absent add_noexist l _ (header k base)
              (ap (λ r. add_noexist || is_some r) (header-same k x.0 base q) ∙ e)
        | inr q ↦ rw q (ap (λ r. merged add_noexist r (header k base)) (sym (or_else-none l)))
      ])
  where
    absent :
        (f : Bool) (l l' r : Option (List ℕ))
        → (f || is_some r) ≡ false
        → merged f l r ≡ merged f l' r
    absent true l l' r h = cc
    absent false l l' none h = refl
    absent false l l' (some v) h = cc

-- ===== src/S3ObjList/Names/LastName.antt =====
-- `GetLastName` finds the last of the names in the order of `compare`.
use s3fs_fuse.S3ObjList.{S3obj}
use s3fs_fuse.S3ObjList.Names.{get_last_name, last_name_from, last_name_of}
use s3fs_fuse.Base.{
  ℕ, ◌≡◌, refl, inl, inr, Bool, true, false, List, [], ◌∷◌, arith, if◌then◌else◌, Bool-cases, All,
  if-elim, str_ltb,
}

str_ltb-not_back : (s t : List ℕ) → str_ltb s t ≡ true → str_ltb t s ≡ false
str_ltb-not_back [] [] h = cc
str_ltb-not_back [] (d ∷ t) h = refl
str_ltb-not_back (c ∷ s) [] h = cc
str_ltb-not_back (c ∷ s) (d ∷ t) h = elim (Bool-cases (str_ltb s t)) [
  | inl e ↦ let ih = str_ltb-not_back s t e in ground arith
  | inr e ↦ ground arith
]

-- "Not before" goes on from one to the next.
not_before_trans :
    (s t u : List ℕ) → str_ltb s t ≡ false → str_ltb t u ≡ false → str_ltb s u ≡ false
not_before_trans s t [] h k = refl
not_before_trans [] [] (e ∷ u) h k = cc
not_before_trans [] (d ∷ t) (e ∷ u) h k = cc
not_before_trans (c ∷ s) [] (e ∷ u) h k = cc
not_before_trans (c ∷ s) (d ∷ t) (e ∷ u) h k = elim (Bool-cases (str_ltb s t)) [
  | inl x ↦ ground arith
  | inr x ↦ elim (Bool-cases (str_ltb t u)) [
    | inl y ↦ ground arith
    | inr y ↦ let ih = not_before_trans s t u x y in ground arith
  ]
]

str_ltb-same : (s : List ℕ) → str_ltb s s ≡ false
str_ltb-same [] = refl
str_ltb-same (c ∷ s) = let ih = str_ltb-same s in ground arith

-- No name of the entries is behind `n`.
abbrev pub IsLastOf : List ℕ → S3obj → Type 0
IsLastOf n = All (λ x. str_ltb n (last_name_of x.1) ≡ false)

IsLastOf-last_name_from :
    (r : Bool × List ℕ) (m : S3obj)
    → (str_ltb (last_name_from r m).1 r.1 ≡ false) × IsLastOf (last_name_from r m).1 m
unfolding last_name_from
IsLastOf-last_name_from r [] = (str_ltb-same r.1, tt)
IsLastOf-last_name_from r (x ∷ m) =
    let n = last_name_of x.1 in
    if-elim
      (λ (w : Bool × List ℕ).
        (str_ltb (last_name_from w m).1 r.1 ≡ false)
        × ((str_ltb (last_name_from w m).1 n ≡ false) × IsLastOf (last_name_from w m).1 m))
      (str_ltb r.1 n) (true, n) r
      (λ e.
        let ih = IsLastOf-last_name_from (true, n) m in
        (not_before_trans _ n r.1 ih.0 (str_ltb-not_back r.1 n e), (ih.0, ih.1)))
      (λ e. let ih = IsLastOf-last_name_from r m in (ih.0, (not_before_trans _ r.1 n ih.0 e, ih.1)))

none_found :
    (r : Bool × List ℕ) (m : S3obj)
    → (r.0 ≡ false → r.1 ≡ [])
    → (last_name_from r m).0 ≡ false
    → (last_name_from r m).1 ≡ []
unfolding last_name_from
none_found r [] h e = h e
none_found r (x ∷ m) h e =
    none_found (if str_ltb r.1 (last_name_of x.1) then (true, last_name_of x.1) else r) m
      (if-elim (λ (w : Bool × List ℕ). w.0 ≡ false → w.1 ≡ []) (str_ltb r.1 (last_name_of x.1)) _ _
        (λ _ q. cc) (λ _. h))
      e

-- No entry's name, the original one or else the normalized one, is behind the name that GetLastName
-- finds in the order of bytes, and if it finds none, its result is the empty string.
pub get_last_name_lem :
    (m : S3obj)
    → IsLastOf (get_last_name m).1 m × ((get_last_name m).0 ≡ false → (get_last_name m).1 ≡ [])
unfolding get_last_name
get_last_name_lem m =
    ((IsLastOf-last_name_from (false, []) m).1, none_found (false, []) m (λ e. refl))

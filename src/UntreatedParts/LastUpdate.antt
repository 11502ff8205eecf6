-- ===== src/UntreatedParts/LastUpdate.antt =====
-- `RowGetPart`, `GetLastUpdatePart`, `ReplaceLastUpdatePart` and `RemoveLastUpdatePart`: the part
-- with the last tag.
use s3fs_fuse.UntreatedParts.View.{in_range, held}
use s3fs_fuse.UntreatedParts.{
  row_get_part, remove_last_update_part, get_last_from, replace_from, UntreatedPart,
  replace_last_update_part, row_get_from, remove_from, UntreatedParts, replaced,
  get_last_update_part, with_list,
}
use s3fs_fuse.Base.{
  ℕ, ◌≤◌, ◌<◌, ◌≡◌, refl, sym, ap, ◌∙◌, subst, ◌⊎◌, inl, inr, Bool, true, false, not, ◌||◌, Option,
  none, some, List, [], ◌∷◌, arith, ltb, leb, ◌==◌, ℤ, pos, negsuc, if-elim, if-true, if-false,
}

-- What `RowGetPart` may return for some parts: bytes that they hold, as many as were asked for.
abbrev IsTaken : ℕ → ℕ → List UntreatedPart → Option (ℕ × ℕ) → Type 0
IsTaken max_size min_size ps none = Unit
IsTaken max_size min_size ps (some x) =
    (min_size ≤ x.1) × (x.1 ≤ max_size) × ((b : ℕ) → in_range x.0 x.1 b ≡ true → held b ps ≡ true)

IsTaken-cons :
    (x y : ℕ) (p : UntreatedPart) (ps : List UntreatedPart) (r : Option (ℕ × ℕ))
    → IsTaken x y ps r
    → IsTaken x y (p ∷ ps) r
IsTaken-cons x y p ps none h = tt
IsTaken-cons x y p ps (some z) h = (h.0, h.1, λ b k. let w = h.2 b k in ground arith)

IsTaken-row_get_from :
    (x y : ℕ) (lastpart : Bool) (t : ℕ) (ps : List UntreatedPart)
    → y ≤ x
    → IsTaken x y ps (row_get_from x y lastpart t ps)
unfolding row_get_from
IsTaken-row_get_from x y lastpart t [] h = tt
IsTaken-row_get_from x y lastpart t (p ∷ ps) h =
    let rest = IsTaken-cons x y p ps _ (IsTaken-row_get_from x y lastpart t ps h) in
    if-elim (IsTaken x y (p ∷ ps)) (not lastpart || p.untreated_tag == t) _ _
      (λ e.
        if-elim (IsTaken x y (p ∷ ps)) (leb y p.size) _ _
          (λ e1.
            if-elim (λ k. IsTaken x y (p ∷ ps) (some (p.start, k))) (leb p.size x) _ _
              (λ e2. (ground arith, ground arith, λ b k. ground arith))
              (λ e2. (h, omega arith, λ b k. ground arith)))
          (λ e1. if-elim (IsTaken x y (p ∷ ps)) lastpart _ _ (λ e2. tt) (λ e2. rest)))
      (λ e. rest)

-- RowGetPart returns at least min_size and at most max_size bytes, all of them held by the parts,
-- and nothing for wrong sizes.
pub row_get_part_lem :
    (max_size min_size : ℤ) (lastpart : Bool) (u : UntreatedParts) (a k : ℕ)
    → row_get_part max_size min_size lastpart u ≡ some (a, k)
    → (x y : ℕ) × (max_size ≡ pos x)
      × (min_size ≡ pos y)
      × (y ≤ k)
      × (k ≤ x)
      × ((b : ℕ) → in_range a k b ≡ true → held b u.untreated_list ≡ true)
unfolding row_get_part
row_get_part_lem (negsuc x) min_size lastpart u a k e = cc
row_get_part_lem (pos x) (negsuc y) lastpart u a k e = cc
row_get_part_lem (pos x) (pos y) lastpart u a k e =
    let taken = subst (IsTaken x y u.untreated_list) e (
      if-elim (IsTaken x y u.untreated_list) (leb x 0 || ltb x y) _ _ (λ h. tt)
        (λ h. IsTaken-row_get_from x y lastpart u.last_tag u.untreated_list (ground arith))) in
    (x, y, refl, refl, taken.0, taken.1, taken.2)

-- What the loop of `ReplaceLastUpdatePart` may return.
abbrev IsReplaced : ℕ → ℕ → ℕ → List UntreatedPart → Option (List UntreatedPart) → Type 0
IsReplaced s n t ps none = get_last_from t ps ≡ none
IsReplaced s n t ps (some qs) =
    (get_last_from t qs ≡ some (s, n)) × ((x : ℕ × ℕ) × (get_last_from t ps ≡ some x))

IsReplaced-cons :
    (s n t : ℕ) (p : UntreatedPart) (ps : List UntreatedPart) (r : Option (List UntreatedPart))
    → (p.untreated_tag == t) ≡ false
    → IsReplaced s n t ps r
    → IsReplaced s n t (p ∷ ps) (elim r [ none ↦ none | some qs ↦ some (p ∷ qs) ])
unfolding get_last_from
IsReplaced-cons s n t p ps none e h = if-false _ _ _ e ∙ h
IsReplaced-cons s n t p ps (some qs) e h =
    (if-false _ _ _ e ∙ h.0, (h.1.0, if-false _ _ _ e ∙ h.1.1))

IsReplaced-replace_from :
    (s n t : ℕ) (ps : List UntreatedPart)
    → 0 < n
    → IsReplaced s n t ps (replace_from s (pos n) t ps)
unfolding replace_from get_last_from replaced
IsReplaced-replace_from s n t [] h = refl
IsReplaced-replace_from s n t (p ∷ ps) h =
    let ih = IsReplaced-replace_from s n t ps h in
    if-elim (IsReplaced s n t (p ∷ ps)) (p.untreated_tag == t) _ _
      (λ e.
        if-elim (λ qs. IsReplaced s n t (p ∷ ps) (some qs)) (ltb 0 n) _ _
          (λ k. (if-true _ _ _ e, ((p.start, p.size), if-true _ _ _ e)))
          (λ k. absurd (ground arith)))
      (λ e. IsReplaced-cons s n t p ps _ e ih)

-- ReplaceLastUpdatePart with a positive size fails and changes nothing exactly if no part has the
-- last tag; else GetLastUpdatePart then returns the new start and size.
pub replace_last_update_part_lem :
    (s n : ℕ) (u : UntreatedParts)
    → 0 < n
    → ((get_last_update_part u ≡ none) × (replace_last_update_part s (pos n) u ≡ (false, u)))
      ⊎ (((x : ℕ × ℕ) × (get_last_update_part u ≡ some x))
          × ((replace_last_update_part s (pos n) u).0 ≡ true)
          × (get_last_update_part (replace_last_update_part s (pos n) u).1 ≡ some (s, n)))
unfolding replace_last_update_part
replace_last_update_part_lem s n u h =
    go (replace_from s (pos n) u.last_tag u.untreated_list)
      (IsReplaced-replace_from s n u.last_tag u.untreated_list h)
  where
    go :
        (r : Option (List UntreatedPart))
        → IsReplaced s n u.last_tag u.untreated_list r
        → ((get_last_update_part u ≡ none) × (with_list u r ≡ (false, u)))
          ⊎ (((x : ℕ × ℕ) × (get_last_update_part u ≡ some x))
              × ((with_list u r).0 ≡ true)
              × (get_last_update_part (with_list u r).1 ≡ some (s, n)))
    go none k = inl (k, refl)
    go (some ps) k = inr (k.1, refl, k.0)

replace_from-erase :
    (s t : ℕ) (n : ℤ) (ps : List UntreatedPart)
    → ((p : UntreatedPart) (qs : List UntreatedPart) → replaced s n p qs ≡ qs)
    → replace_from s n t ps ≡ remove_from t ps
unfolding replace_from remove_from
replace_from-erase s t n [] h = refl
replace_from-erase s t n (p ∷ ps) h = rw (replace_from-erase s t n ps h, h p ps) refl

-- RemoveLastUpdatePart does what ReplaceLastUpdatePart does with a size that is not positive.
pub remove_last_update_part-eq :
    (s n : ℕ) (u : UntreatedParts)
    → (remove_last_update_part u ≡ replace_last_update_part s (negsuc n) u)
      × (remove_last_update_part u ≡ replace_last_update_part s (pos 0) u)
unfolding remove_last_update_part replace_last_update_part replaced
remove_last_update_part-eq s n u = (
  ap (with_list u)
      (sym (replace_from-erase s u.last_tag (negsuc n) u.untreated_list (λ p qs. refl))),
  ap (with_list u) (sym (replace_from-erase s u.last_tag (pos 0) u.untreated_list (λ p qs. refl))),
)

-- ===== src/Base/Maps.antt =====
-- Strings as keys, and a `std::map` from strings: a list of entries in the order of their keys, by
-- bytes.
use s3fs_fuse.Base.{}
use Prim.Native.Nat.{ℕ}
use mathlib.Core.Path.{◌≡◌, refl, sym, ap, ◌∙◌}
use mathlib.Core.Logic.{◌≢◌, inl, inr}
use mathlib.Core.Bool.{Bool, true, false, ◌&&◌, ◌||◌}
use mathlib.Core.Option.{Option, none, some}
use mathlib.Core.List.{List, [], ◌∷◌}
use native.Mathlib.Omega.{arith}
use s3fs_fuse.Base.Tests.{ltb, ◌==◌, if◌then◌else◌, if-elim, if-true, if-false, Bool-cases}

abbrev pub str_eq : List ℕ → List ℕ → Bool
str_eq [] [] = true
str_eq [] (d ∷ t) = false
str_eq (c ∷ s) [] = false
str_eq (c ∷ s) (d ∷ t) = c == d && str_eq s t

-- `compare` is negative.
abbrev pub str_ltb : List ℕ → List ℕ → Bool
str_ltb s [] = false
str_ltb [] (d ∷ t) = true
str_ltb (c ∷ s) (d ∷ t) = ltb c d || (c == d && str_ltb s t)

abbrev pub Map {ℓ} : Type ℓ → Type ℓ
Map A = List (List ℕ × A)

pub str_eq_refl : (s : List ℕ) → str_eq s s ≡ true
str_eq_refl [] = refl
str_eq_refl (c ∷ s) = let ih = str_eq_refl s in ground arith

pub str_eq-eq : (s t : List ℕ) → str_eq s t ≡ true → s ≡ t
str_eq-eq [] [] h = refl
str_eq-eq [] (d ∷ t) h = cc
str_eq-eq (c ∷ s) [] h = cc
str_eq-eq (c ∷ s) (d ∷ t) h =
    let e : c ≡ d = ground arith in let ih = str_eq-eq s t (ground arith) in rw (e, ih) refl

pub str_eq-not : (s t : List ℕ) → s ≢ t → str_eq s t ≡ false
str_eq-not s t h = elim (Bool-cases (str_eq s t)) [
  | inl e ↦ absurd (h (str_eq-eq s t e))
  | inr e ↦ e
]

module _ {ℓ} {A : Type ℓ} where
  -- `find`, `operator[]` and an assignment, and `erase`.
  unfoldable pub find : List ℕ → Map A → Option A
  find k [] = none
  find k (x ∷ m) = let rest = find k m in if str_eq k x.0 then some x.1 else rest

  unfoldable pub put : List ℕ → A → Map A → Map A
  put k v [] = (k, v) ∷ []
  put k v (x ∷ m) =
      let rest = put k v m in
      if str_eq k x.0 then (k, v) ∷ m else if str_ltb k x.0 then (k, v) ∷ x ∷ m else x ∷ rest

  unfoldable pub erase : List ℕ → Map A → Map A
  erase k [] = []
  erase k (x ∷ m) = let rest = erase k m in if str_eq k x.0 then rest else x ∷ rest

  find-nil : (k : List ℕ) → find k [] ≡ none
  unfolding find
  find-nil k = refl

  find-hit : (k : List ℕ) (v : A) (m : Map A) → find k ((k, v) ∷ m) ≡ some v
  unfolding find
  find-hit k v m = if-true (str_eq k k) (some v) (find k m) (str_eq_refl k)

  find-miss :
      (k : List ℕ) (x : List ℕ × A) (m : Map A) → str_eq k x.0 ≡ false → find k (x ∷ m) ≡ find k m
  unfolding find
  find-miss k x m h = if-false (str_eq k x.0) (some x.1) (find k m) h

  pub find-put : (k : List ℕ) (v : A) (m : Map A) → find k (put k v m) ≡ some v
  unfolding put
  find-put k v [] = find-hit k v []
  find-put k v (x ∷ m) =
      if-elim (λ w. find k w ≡ some v) (str_eq k x.0) _ _ (λ e. find-hit k v m)
        (λ e.
          if-elim (λ w. find k w ≡ some v) (str_ltb k x.0) _ _ (λ e1. find-hit k v (x ∷ m))
            (λ e1. find-miss k x (put k v m) e ∙ find-put k v m))

  -- The entry in front, by whether it has the key.
  pub find-first :
      (k : List ℕ) (y : A) (x : List ℕ × A) (m : Map A)
      → find k (x ∷ m) ≡ some y
      → str_eq k x.0 ≡ true
      → x.1 ≡ y
  unfolding find
  find-first k y x m h e = let q = sym (if-true (str_eq k x.0) (some x.1) (find k m) e) ∙ h in cc

  pub find-later :
      (k : List ℕ) (y : A) (x : List ℕ × A) (m : Map A)
      → find k (x ∷ m) ≡ some y
      → str_eq k x.0 ≡ false
      → find k m ≡ some y
  unfolding find
  find-later k y x m h e = sym (if-false (str_eq k x.0) (some x.1) (find k m) e) ∙ h

  -- Two entries with the same rest behind.
  find-same :
      (k : List ℕ) (x : List ℕ × A) (m m' : Map A)
      → find k m ≡ find k m'
      → find k (x ∷ m) ≡ find k (x ∷ m')
  unfolding find
  find-same k x m m' h = ap (λ r. if str_eq k x.0 then some x.1 else r) h

  pub find-put_other :
      (k k' : List ℕ) (v : A) (m : Map A) → k' ≢ k → find k' (put k v m) ≡ find k' m
  unfolding put
  find-put_other k k' v [] h = find-miss k' (k, v) [] (str_eq-not k' k h)
  find-put_other k k' v (x ∷ m) h =
      if-elim (λ w. find k' w ≡ find k' (x ∷ m)) (str_eq k x.0) _ _
        (λ e.
          let q = str_eq-eq k x.0 e in
          find-miss k' (k, v) m (str_eq-not k' k h)
          ∙ sym (find-miss k' x m (str_eq-not k' x.0 (λ p. h (p ∙ sym q)))))
        (λ e.
          if-elim (λ w. find k' w ≡ find k' (x ∷ m)) (str_ltb k x.0) _ _
            (λ e1. find-miss k' (k, v) (x ∷ m) (str_eq-not k' k h))
            (λ e1. find-same k' x (put k v m) m (find-put_other k k' v m h)))

  pub find-erase : (k : List ℕ) (m : Map A) → find k (erase k m) ≡ none
  unfolding erase
  find-erase k [] = find-nil k
  find-erase k (x ∷ m) =
      if-elim (λ w. find k w ≡ none) (str_eq k x.0) _ _ (λ e. find-erase k m)
        (λ e. find-miss k x (erase k m) e ∙ find-erase k m)

  pub find-erase_other : (k k' : List ℕ) (m : Map A) → k' ≢ k → find k' (erase k m) ≡ find k' m
  unfolding erase
  find-erase_other k k' [] h = refl
  find-erase_other k k' (x ∷ m) h =
      if-elim (λ w. find k' w ≡ find k' (x ∷ m)) (str_eq k x.0) _ _
        (λ e.
          let q = str_eq-eq k x.0 e in
          find-erase_other k k' m h
          ∙ sym (find-miss k' x m (str_eq-not k' x.0 (λ p. h (p ∙ sym q)))))
        (λ e. find-same k' x (erase k m) m (find-erase_other k k' m h))

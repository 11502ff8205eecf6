-- ===== src/StatCache/Erase.antt =====
-- How long the symbolic link cache is after `erase`, `erase_items` and an assignment.
use s3fs_fuse.StatCache.Size.{has_key, HasUniqueKeys}
use s3fs_fuse.StatCache.{erase_items, Item}
use s3fs_fuse.Base.{
  ℕ, suc, ◌+◌, ◌≤◌, ◌≡◌, sym, ◌∙◌, subst, inl, inr, true, false, some, List, [], ◌∷◌, arith,
  Bool-cases, length, if-elim, if-false, Map, bool_clash, str_eq, str_ltb, str_eq_refl, str_eq-eq,
  find, put, erase,
}

length-erase_le : {A : Type 0} (k : List ℕ) (m : Map A) → length (erase k m) ≤ length m
unfolding erase
length-erase_le k [] = omega arith
length-erase_le k (x ∷ m) =
    let ih = length-erase_le k m in
    if-elim (λ w. length w ≤ suc (length m)) (str_eq k x.0) (erase k m) (x ∷ erase k m)
      (λ _. omega arith) (λ _. omega arith)

-- An entry that is there is erased.
pub length-erase :
    {A : Type 0} (k : List ℕ) (m : Map A) → has_key k m ≡ true → suc (length (erase k m)) ≤ length m
unfolding erase
length-erase k [] h = cc
length-erase k (x ∷ m) h =
    if-elim (λ w. suc (length w) ≤ suc (length m)) (str_eq k x.0) (erase k m) (x ∷ erase k m)
      (λ _. let q = length-erase_le k m in omega arith)
      (λ e. let ih = length-erase k m (ground arith) in omega arith)

has_key-erase :
    {A : Type 0} (k b : List ℕ) (m : Map A)
    → str_eq b k ≡ false
    → has_key b m ≡ true
    → has_key b (erase k m) ≡ true
unfolding erase
has_key-erase k b [] e h = h
has_key-erase k b (x ∷ m) e h =
    if-elim (λ w. has_key b w ≡ true) (str_eq k x.0) (erase k m) (x ∷ erase k m)
      (λ q.
        let z = subst (λ y. str_eq b y ≡ false) (str_eq-eq k x.0 q) e in
        has_key-erase k b m e (ground arith))
      (λ q. elim (Bool-cases (str_eq b x.0)) [
        | inl r ↦ ground arith
        | inr r ↦ let ih = has_key-erase k b m e (ground arith) in ground arith
      ])

-- Items that are in the cache, with different keys, are all erased.
pub length-erase_items :
    {A : Type 0} (l : List (Item A)) (m : Map A)
    → HasUniqueKeys l
    → ((b : List ℕ) → has_key b l ≡ true → has_key b m ≡ true)
    → length (erase_items l m) + length l ≤ length m
unfolding erase_items
length-erase_items [] m u f = omega arith
length-erase_items (x ∷ l) m u f =
    let hx = f x.0 (let e = str_eq_refl x.0 in ground arith) in
    let ih = length-erase_items l (erase x.0 m) u.1 (λ b h.
      has_key-erase x.0 b m
        (elim (Bool-cases (str_eq b x.0)) [
          | inr e ↦ e
          | inl e ↦
              absurd
                (bool_clash _ h (subst (λ y. has_key y l ≡ false) (sym (str_eq-eq b x.0 e)) u.0))
        ])
        (f b (ground arith))) in
    let q = length-erase x.0 m hx in omega arith

pub length-put : {A : Type 0} (k : List ℕ) (v : A) (m : Map A) → length (put k v m) ≤ suc (length m)
unfolding put
length-put k v [] = omega arith
length-put k v (x ∷ m) =
    let ih = length-put k v m in
    if-elim (λ w. length w ≤ suc (suc (length m))) (str_eq k x.0) ((k, v) ∷ m) _ (λ _. omega arith)
      (λ _.
        if-elim (λ w. length w ≤ suc (suc (length m))) (str_ltb k x.0) ((k, v) ∷ x ∷ m)
          (x ∷ put k v m) (λ _. omega arith) (λ _. omega arith))

pub has_key-find :
    {A : Type 0} (k : List ℕ) (m : Map A) (y : A) → find k m ≡ some y → has_key k m ≡ true
unfolding find
has_key-find k [] y h = cc
has_key-find k (x ∷ m) y h = elim (Bool-cases (str_eq k x.0)) [
  | inl e ↦ ground arith
  | inr e ↦
      let ih = has_key-find k m y (sym (if-false (str_eq k x.0) (some x.1) (find k m) e) ∙ h) in
      ground arith
]

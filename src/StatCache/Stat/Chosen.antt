-- ===== src/StatCache/Stat/Chosen.antt =====
-- The entries that `TruncateCache` chooses to remove: among those that may be removed.
use s3fs_fuse.StatCache.Size.{HasUniqueKeys, has_key, IsPart}
use s3fs_fuse.StatCache.{erase_items, Item}
use s3fs_fuse.StatCache.Stat.{StatCacheEntry, pop_to, is_free}
use s3fs_fuse.Base.{
  ℕ, zero, suc, ◌+◌, min, ◌≡◌, refl, sym, ap, ◌∙◌, subst, inl, inr, false, some, List, [], ◌∷◌,
  arith, if◌then◌else◌, Bool-cases, length, if-elim, Map, bool_clash, str_eq, str_eq-eq, find,
  erase, find-first, find-later,
}

module _ {B : Type 0} where
  -- The entries that may be removed, and how many may not.
  unfoldable pub free_items : Map (StatCacheEntry B) → Map (StatCacheEntry B)
  free_items [] = []
  free_items (x ∷ m) = let rest = free_items m in if is_free x.1 then x ∷ rest else rest

  unfoldable pub count_locked : Map (StatCacheEntry B) → ℕ
  count_locked [] = 0
  count_locked (x ∷ m) = let rest = count_locked m in if is_free x.1 then rest else rest + 1

  pub length-free_items :
      (m : Map (StatCacheEntry B)) → length (free_items m) + count_locked m ≡ length m
  unfolding free_items count_locked
  length-free_items [] = omega arith
  length-free_items (x ∷ m) = elim (Bool-cases (is_free x.1)) [
    | inl e ↦ let ih = length-free_items m in rw e (omega arith)
    | inr e ↦ let ih = length-free_items m in rw e (omega arith)
  ]

  free_items-erase :
      (k : List ℕ) (m : Map (StatCacheEntry B)) → free_items (erase k m) ≡ erase k (free_items m)
  unfolding free_items erase
  free_items-erase k [] = refl
  free_items-erase k (x ∷ m) =
      let ih = free_items-erase k m in
      elim (Bool-cases (str_eq k x.0)) [
        | inl e ↦ elim (Bool-cases (is_free x.1)) [ inl f ↦ rw (e, f, e) ih | inr f ↦ rw (e, f) ih ]
        | inr e ↦ elim (Bool-cases (is_free x.1)) [
          | inl f ↦ rw (e, f, e, ih) refl
          | inr f ↦ rw (e, f) ih
        ]
      ]

  pub free_items-erase_items :
      (l : List (Item (StatCacheEntry B))) (m : Map (StatCacheEntry B))
      → free_items (erase_items l m) ≡ erase_items l (free_items m)
  unfolding erase_items
  free_items-erase_items [] m = refl
  free_items-erase_items (x ∷ l) m =
      free_items-erase_items l (erase x.0 m) ∙ ap (erase_items l) (free_items-erase x.0 m)

  has_key-free_items :
      (k : List ℕ) (m : Map (StatCacheEntry B))
      → has_key k m ≡ false
      → has_key k (free_items m) ≡ false
  unfolding free_items
  has_key-free_items k [] h = h
  has_key-free_items k (x ∷ m) h =
      let ih = has_key-free_items k m (ground arith) in
      if-elim (λ w. has_key k w ≡ false) (is_free x.1) (x ∷ free_items m) (free_items m)
        (λ _. ground arith) (λ _. ih)

  pub HasUniqueKeys-free_items :
      (m : Map (StatCacheEntry B)) → HasUniqueKeys m → HasUniqueKeys (free_items m)
  unfolding free_items
  HasUniqueKeys-free_items [] u = u
  HasUniqueKeys-free_items (x ∷ m) u =
      let ih = HasUniqueKeys-free_items m u.1 in
      if-elim HasUniqueKeys (is_free x.1) (x ∷ free_items m) (free_items m)
        (λ _. (has_key-free_items x.0 m u.0, ih)) (λ _. ih)

  -- An entry that may not be removed is not one of them.
  pub find-not_free :
      (k : List ℕ) (y : StatCacheEntry B) (m : Map (StatCacheEntry B))
      → HasUniqueKeys m
      → find k m ≡ some y
      → is_free y ≡ false
      → has_key k (free_items m) ≡ false
  unfolding free_items
  find-not_free k y [] u h e = refl
  find-not_free k y (x ∷ m) u h e = elim (Bool-cases (str_eq k x.0)) [
    | inl q ↦
        let z = find-first k y x m h q in
        let f : is_free x.1 ≡ false = ap is_free z ∙ e in
        rw f
          (has_key-free_items k m (subst (λ b. has_key b m ≡ false) (sym (str_eq-eq k x.0 q)) u.0))
    | inr q ↦
        let ih = find-not_free k y m u.1 (find-later k y x m h q) e in
        if-elim (λ w. has_key k w ≡ false) (is_free x.1) (x ∷ free_items m) (free_items m)
          (λ _. ground arith) (λ _. ih)
  ]

  pub has_key-pop_to : (n : ℕ) (l : List (Item (StatCacheEntry B))) → IsPart l (pop_to n l)
  unfolding pop_to
  has_key-pop_to zero l k h = cc
  has_key-pop_to (suc n) [] k h = h
  has_key-pop_to (suc n) (x ∷ l) k h = elim (Bool-cases (str_eq k x.0)) [
    | inl e ↦ ground arith
    | inr e ↦ let ih = has_key-pop_to n l k (ground arith) in ground arith
  ]

  pub HasUniqueKeys-pop_to :
      (n : ℕ) (l : List (Item (StatCacheEntry B))) → HasUniqueKeys l → HasUniqueKeys (pop_to n l)
  unfolding pop_to
  HasUniqueKeys-pop_to zero l u = tt
  HasUniqueKeys-pop_to (suc n) [] u = u
  HasUniqueKeys-pop_to (suc n) (x ∷ l) u = (
    elim (Bool-cases (has_key x.0 (pop_to n l))) [
      | inl e ↦ absurd (bool_clash _ (has_key-pop_to n l x.0 e) u.0)
      | inr e ↦ e
    ],
    HasUniqueKeys-pop_to n l u.1,
  )

  pub length-pop_to :
      (n : ℕ) (l : List (Item (StatCacheEntry B))) → length (pop_to n l) ≡ min n (length l)
  unfolding pop_to
  length-pop_to zero l = omega arith
  length-pop_to (suc n) [] = omega arith
  length-pop_to (suc n) (x ∷ l) = let ih = length-pop_to n l in omega arith

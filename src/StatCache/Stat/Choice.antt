-- ===== src/StatCache/Stat/Choice.antt =====
-- The second loop of `TruncateCache`.
use s3fs_fuse.StatCache.Size.{
  HasUniqueKeys, has_key, IsChosen, has_key-insert, HasUniqueKeys-insert, chosen-in, chosen-not_in,
  length-insert,
}
use s3fs_fuse.StatCache.{Item, insert_by_age}
use s3fs_fuse.StatCache.Stat.Chosen.{
  free_items, count_locked, has_key-pop_to, HasUniqueKeys-pop_to, length-pop_to,
}
use s3fs_fuse.StatCache.Stat.{StatCacheEntry, choose, pop_to, stat_before, is_free}
use s3fs_fuse.Base.{
  ℕ, zero, suc, ◌+◌, ◌-◌, min, ◌≡◌, sym, ◌∙◌, inl, inr, Bool, true, false, ◌||◌, List, [], ◌∷◌,
  arith, if◌then◌else◌, Bool-cases, length, Map, bool_clash, str_eq, str_eq_refl,
}

module _ {B : Type 0} (w : Map (StatCacheEntry B)) where
  abbrev pub ChoosesWell : ℕ → List (Item (StatCacheEntry B)) → Map (StatCacheEntry B) → Type 0
  ChoosesWell n l m =
      HasUniqueKeys l
      → HasUniqueKeys (free_items m)
      → ((b : List ℕ) → has_key b l ≡ true → has_key b w ≡ true)
      → ((b : List ℕ)
          → has_key b (free_items m) ≡ true
          → (has_key b w ≡ true) × (has_key b l ≡ false))
      → IsChosen w (min (n - count_locked m) (length l + length (free_items m))) (choose n l m)

  not_popped :
      (n : ℕ) (l : List (Item (StatCacheEntry B))) (b : List ℕ)
      → has_key b l ≡ false
      → has_key b (pop_to n l) ≡ false
  not_popped n l b h = elim (Bool-cases (has_key b (pop_to n l))) [
    | inr e ↦ e
    | inl e ↦ absurd (bool_clash _ (has_key-pop_to n l b e) h)
  ]

  choose-step :
      (n : ℕ) (l : List (Item (StatCacheEntry B))) (x : Item (StatCacheEntry B))
      (m : Map (StatCacheEntry B))
      → ((n : ℕ) (l : List (Item (StatCacheEntry B))) → ChoosesWell n l m)
      → HasUniqueKeys l
      → ((b : List ℕ) → has_key b l ≡ true → has_key b w ≡ true)
      → (b : Bool) → HasUniqueKeys (if b then x ∷ free_items m else free_items m)
      → ((k : List ℕ)
          → has_key k (if b then x ∷ free_items m else free_items m) ≡ true
          → (has_key k w ≡ true) × (has_key k l ≡ false))
      → IsChosen w
          (min
            (suc n - (if b then count_locked m else count_locked m + 1))
            (length l + length (if b then x ∷ free_items m else free_items m)))
          (elim b as (λ _. List (Item (StatCacheEntry B))) [
            | true ↦ choose (suc n) (pop_to (suc n) (insert_by_age stat_before x l)) m
            | false ↦ choose n (pop_to n l) m
          ])
  choose-step n l x m rec u f true v g =
      let hx = g x.0 (let e = str_eq_refl x.0 in ground arith) in
      let s = insert_by_age stat_before x l in
      let l' = pop_to (suc n) s in
      let part : (b : List ℕ) → has_key b l' ≡ true → (str_eq b x.0 || has_key b l) ≡ true =
        λ b h. sym (has_key-insert stat_before b x l) ∙ has_key-pop_to (suc n) s b h in
      let ih =
        rec (suc n) l'
          (HasUniqueKeys-pop_to (suc n) s (HasUniqueKeys-insert stat_before x l hx.1 u)) v.1
          (chosen-in x l l' part w hx.0 f)
          (λ b h. (
            (g b (let e = h in ground arith)).0,
            chosen-not_in x l l' part (free_items m) v.0 b h (g b (let e = h in ground arith)).1,
          )) in
      (ih.0, ih.1, omega (arith, ih.2, length-pop_to (suc n) s, length-insert stat_before x l))
  choose-step n l x m rec u f false v g =
      let ih =
        rec n (pop_to n l) (HasUniqueKeys-pop_to n l u) v (λ b h. f b (has_key-pop_to n l b h))
          (λ b h. ((g b h).0, not_popped n l b (g b h).1)) in
      (ih.0, ih.1, omega (arith, ih.2, length-pop_to n l))

  -- The loop chooses entries of `w` that may be removed, each once, and as many as are too many after
  -- those that may not be removed are counted.
  pub IsChosen-choose :
      (n : ℕ) (l : List (Item (StatCacheEntry B))) (m : Map (StatCacheEntry B)) → ChoosesWell n l m
  unfolding choose free_items count_locked
  IsChosen-choose n l [] u v f g = (u, f, omega arith)
  IsChosen-choose zero l (x ∷ m) u v f g = (u, f, omega arith)
  IsChosen-choose (suc n) l (x ∷ m) u v f g =
      choose-step n l x m (λ n l. IsChosen-choose n l m) u f (is_free x.1) v g

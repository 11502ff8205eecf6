-- ===== src/StatCache/Stat/Found.antt =====
-- Lookups after `TruncateCache`: what is not in the cache is not in it afterwards.
use s3fs_fuse.StatCache.Notruncate.{ends_in_slash}
use s3fs_fuse.StatCache.Stat.{
  truncate_cache, erase_stale, truncate_stats, StatCacheEntry, choose, is_free, Cache, find_path,
  or_without_slash, with_path,
}
use s3fs_fuse.StatCache.{erase_items, Item, Timespec, is_expire_stat_cache_time}
use s3fs_fuse.Base.{
  ℕ, ◌+◌, ◌-◌, ◌≡◌, refl, sym, ap, ◌∙◌, ◌⊎◌, inl, inr, Bool, true, false, not, ◌&&◌, Option, none,
  some, List, [], ◌∷◌, ◌++◌, arith, ltb, Bool-cases, length, if-elim, if-true, if-false, Map,
  str_eq, find, erase,
}

module _ {B : Type 0} where
  pub find-erase-none :
      (k b : List ℕ) (m : Map (StatCacheEntry B)) → find k m ≡ none → find k (erase b m) ≡ none
  unfolding erase find
  find-erase-none k b [] h = h
  find-erase-none k b (x ∷ m) h = elim (Bool-cases (str_eq k x.0)) [
    | inl e ↦ let q = sym (if-true (str_eq k x.0) (some x.1) (find k m) e) ∙ h in cc
    | inr e ↦
        let h' = sym (if-false (str_eq k x.0) (some x.1) (find k m) e) ∙ h in
        let ih = find-erase-none k b m h' in
        if-elim (λ w. find k w ≡ none) (str_eq b x.0) (erase b m) (x ∷ erase b m) (λ _. ih)
          (λ _. if-false (str_eq k x.0) (some x.1) (find k (erase b m)) e ∙ ih)
  ]

  find-erase_stale-none :
      (now : Timespec) (expire : ℕ) (k : List ℕ) (m : Map (StatCacheEntry B))
      → find k m ≡ none
      → find k (erase_stale now expire m) ≡ none
  unfolding erase_stale find
  find-erase_stale-none now expire k [] h = h
  find-erase_stale-none now expire k (x ∷ m) h = elim (Bool-cases (str_eq k x.0)) [
    | inl e ↦ let q = sym (if-true (str_eq k x.0) (some x.1) (find k m) e) ∙ h in cc
    | inr e ↦
        let h' = sym (if-false (str_eq k x.0) (some x.1) (find k m) e) ∙ h in
        let ih = find-erase_stale-none now expire k m h' in
        if-elim (λ w. find k w ≡ none)
          (is_free x.1 && is_expire_stat_cache_time now x.1.cache_date expire)
          (erase_stale now expire m) (x ∷ erase_stale now expire m) (λ _. ih)
          (λ _. if-false (str_eq k x.0) (some x.1) (find k (erase_stale now expire m)) e ∙ ih)
  ]

  find-erase_items-none :
      (k : List ℕ) (l : List (Item (StatCacheEntry B))) (m : Map (StatCacheEntry B))
      → find k m ≡ none
      → find k (erase_items l m) ≡ none
  unfolding erase_items
  find-erase_items-none k [] m h = h
  find-erase_items-none k (x ∷ l) m h =
      find-erase_items-none k l (erase x.0 m) (find-erase-none k x.0 m h)

  find-truncate_stats-none :
      (n : ℕ) (k : List ℕ) (m : Map (StatCacheEntry B))
      → find k m ≡ none
      → find k (truncate_stats n m) ≡ none
  unfolding truncate_stats
  find-truncate_stats-none n k m h =
      if-elim (λ w. find k w ≡ none) (ltb (length m) n) m _ (λ _. h)
        (λ _. find-erase_items-none k (choose (length m - n + 1) [] m) m h)

  pub find-truncate_cache-none :
      (now : Timespec) (check_only_oversize_case : Bool) (c : Cache B) (k : List ℕ)
      → find k c.stat_cache ≡ none
      → find k (truncate_cache now check_only_oversize_case c) ≡ none
  unfolding truncate_cache
  find-truncate_cache-none now check_only_oversize_case c k h =
      if-elim (λ w. find k w ≡ none) _ c.stat_cache _ (λ _. h)
        (λ _.
          if-elim (λ w. find k (truncate_stats c.cache_size w) ≡ none) c.is_expire_time
            (erase_stale now c.expire_time c.stat_cache) c.stat_cache
            (λ _.
              find-truncate_stats-none c.cache_size k (erase_stale now c.expire_time c.stat_cache)
                (find-erase_stale-none now c.expire_time k c.stat_cache h))
            (λ _. find-truncate_stats-none c.cache_size k c.stat_cache h))

  pub find_path-found :
      (key : List ℕ) (overcheck : Bool) (m : Map (StatCacheEntry B)) (x : StatCacheEntry B)
      → (overcheck && not (ends_in_slash key)) ≡ false
      → find key m ≡ some x
      → find_path key overcheck m ≡ some (key, x)
  unfolding find_path
  find_path-found key overcheck m x h k =
      ap (or_without_slash key m) (if-false (overcheck && not (ends_in_slash key)) _ none h)
      ∙ ap (with_path key) k

  -- The entry under the path with a "/" added, if that is looked for first and is there, or else the
  -- one under the path.
  abbrev pub IsFoundAt : List ℕ → Bool → Map (StatCacheEntry B) → List ℕ → StatCacheEntry B → Type 0
  IsFoundAt key overcheck m k x =
      ((overcheck ≡ true)
        × (ends_in_slash key ≡ false)
        × (k ≡ key ++ b'/' ∷ [])
        × (find k m ≡ some x))
      ⊎ ((k ≡ key)
          × (find k m ≡ some x)
          × (overcheck ≡ true → ends_in_slash key ≡ false → find (key ++ b'/' ∷ []) m ≡ none))

  pub find_path-IsFoundAt :
      (key : List ℕ) (overcheck : Bool) (m : Map (StatCacheEntry B)) (k : List ℕ)
      (x : StatCacheEntry B)
      → IsFoundAt key overcheck m k x
      → find_path key overcheck m ≡ some (k, x)
  unfolding find_path
  find_path-IsFoundAt key overcheck m k x (inl h) =
      ap (or_without_slash key m) (
        if-true (overcheck && not (ends_in_slash key)) (find (key ++ b'/' ∷ []) m) none
          (let o = h.0 in let s = h.1 in ground arith)
        ∙ ap (λ w. find w m) (sym h.2)
        ∙ h.3)
      ∙ ap (λ w. some (w, x)) (sym h.2)
  find_path-IsFoundAt key overcheck m k x (inr h) =
      ap (or_without_slash key m) (
        if-elim (λ (r : Option (StatCacheEntry B)). r ≡ none) (overcheck && not (ends_in_slash key))
          (find (key ++ b'/' ∷ []) m) none (λ e. h.2 (ground arith) (ground arith)) (λ _. refl))
      ∙ ap (λ w. with_path key (find w m)) (sym h.0)
      ∙ ap (with_path key) h.1
      ∙ ap (λ w. some (w, x)) (sym h.0)

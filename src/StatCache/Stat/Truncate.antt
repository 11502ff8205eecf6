-- ===== src/StatCache/Stat/Truncate.antt =====
-- What `TruncateCache` leaves in the stat cache.
use s3fs_fuse.StatCache.Stat.Choice.{
  IsChosen-choose, IsChosen-choose, IsChosen-choose, IsChosen-choose, IsChosen-choose,
  IsChosen-choose, IsChosen-choose, IsChosen-choose, IsChosen-choose,
}
use s3fs_fuse.StatCache.Erase.{length-erase_items}
use s3fs_fuse.StatCache.Size.{HasUniqueKeys, has_key, IsChosen}
use s3fs_fuse.StatCache.{Timespec, erase_items, Item, is_expire_stat_cache_time, is_empty}
use s3fs_fuse.StatCache.Stat.{
  truncate_stats, erase_stale, StatCacheEntry, Cache, is_free, truncate_cache, choose,
}
use s3fs_fuse.StatCache.Stat.Chosen.{
  free_items, count_locked, find-not_free, length-free_items, HasUniqueKeys-free_items,
  free_items-erase_items,
}
use s3fs_fuse.Base.{
  ℕ, suc, ◌+◌, ◌-◌, ◌≤◌, min, ◌≡◌, refl, sym, ap, ◌∙◌, subst, inl, inr, Bool, true, false, ◌&&◌,
  ◌||◌, some, List, [], ◌∷◌, arith, ltb, Bool-cases, length, if-elim, if-true, Map, bool_clash,
  str_eq, str_eq_refl, find, erase, find-first, find-later, find-erase_other,
}

module _ {B : Type 0} where
  find-erase_stale :
      (now : Timespec) (expire : ℕ) (k : List ℕ) (y : StatCacheEntry B) (m : Map (StatCacheEntry B))
      → find k m ≡ some y
      → is_free y ≡ false
      → find k (erase_stale now expire m) ≡ some y
  unfolding erase_stale find
  find-erase_stale now expire k y [] h e = h
  find-erase_stale now expire k y (x ∷ m) h e = elim (Bool-cases (str_eq k x.0)) [
    | inl q ↦
        let z = find-first k y x m h q in
        let f : is_free x.1 ≡ false = ap is_free z ∙ e in
        rw f (if-true (str_eq k x.0) (some x.1) (find k (erase_stale now expire m)) q ∙ ap some z)
    | inr q ↦
        let ih = find-erase_stale now expire k y m (find-later k y x m h q) e in
        if-elim (λ w. find k w ≡ some y)
          (is_free x.1 && is_expire_stat_cache_time now x.1.cache_date expire)
          (erase_stale now expire m) (x ∷ erase_stale now expire m) (λ _. ih) (λ _. rw q ih)
  ]

  has_key-erase_stale :
      (now : Timespec) (expire : ℕ) (k : List ℕ) (m : Map (StatCacheEntry B))
      → has_key k m ≡ false
      → has_key k (erase_stale now expire m) ≡ false
  unfolding erase_stale
  has_key-erase_stale now expire k [] h = h
  has_key-erase_stale now expire k (x ∷ m) h =
      let ih = has_key-erase_stale now expire k m (ground arith) in
      if-elim (λ w. has_key k w ≡ false)
        (is_free x.1 && is_expire_stat_cache_time now x.1.cache_date expire)
        (erase_stale now expire m) (x ∷ erase_stale now expire m) (λ _. ih) (λ _. ground arith)

  HasUniqueKeys-erase_stale :
      (now : Timespec) (expire : ℕ) (m : Map (StatCacheEntry B))
      → HasUniqueKeys m
      → HasUniqueKeys (erase_stale now expire m)
  unfolding erase_stale
  HasUniqueKeys-erase_stale now expire [] u = u
  HasUniqueKeys-erase_stale now expire (x ∷ m) u =
      let ih = HasUniqueKeys-erase_stale now expire m u.1 in
      if-elim HasUniqueKeys (is_free x.1 && is_expire_stat_cache_time now x.1.cache_date expire)
        (erase_stale now expire m) (x ∷ erase_stale now expire m) (λ _. ih)
        (λ _. (has_key-erase_stale now expire x.0 m u.0, ih))

  find-erase_items :
      (k : List ℕ) (l : List (Item (StatCacheEntry B))) (m : Map (StatCacheEntry B))
      → has_key k l ≡ false
      → find k (erase_items l m) ≡ find k m
  unfolding erase_items
  find-erase_items k [] m h = refl
  find-erase_items k (x ∷ l) m h =
      find-erase_items k l (erase x.0 m) (ground arith)
      ∙ find-erase_other x.0 k m (λ e.
        bool_clash (str_eq k x.0) (subst (λ y. str_eq k y ≡ true) e (str_eq_refl k)) (ground arith))

  free_nil : free_items {B = B} [] ≡ []
  unfolding free_items
  free_nil = refl

  -- The items that the last loop removes.
  chosen :
      (n : ℕ) (m : Map (StatCacheEntry B))
      → HasUniqueKeys m
      → IsChosen
          (free_items m)
          (min (n - count_locked m) (0 + length (free_items m)))
          (choose n [] m)
  chosen n m u =
      IsChosen-choose (free_items m) n [] m tt (HasUniqueKeys-free_items m u) (λ b e. cc)
        (λ b e. (e, refl))

  find-truncate_stats :
      (cache_size : ℕ) (k : List ℕ) (y : StatCacheEntry B) (m : Map (StatCacheEntry B))
      → HasUniqueKeys m
      → find k m ≡ some y
      → is_free y ≡ false
      → find k (truncate_stats cache_size m) ≡ some y
  unfolding truncate_stats
  find-truncate_stats cache_size k y m u h e =
      let l = choose (length m - cache_size + 1) [] m in
      if-elim (λ w. find k w ≡ some y) (ltb (length m) cache_size) m (erase_items l m) (λ _. h)
        (λ _.
          find-erase_items k l m (elim (Bool-cases (has_key k l)) [
            | inr q ↦ q
            | inl q ↦ absurd (
                bool_clash _ ((chosen (length m - cache_size + 1) m u).1 k q)
                  (find-not_free k y m u h e))
          ])
          ∙ h)

  length-truncate_stats :
      (cache_size : ℕ) (m : Map (StatCacheEntry B))
      → 1 ≤ cache_size
      → HasUniqueKeys m
      → suc (length (free_items (truncate_stats cache_size m))) ≤ cache_size
  unfolding truncate_stats
  length-truncate_stats cache_size m h u =
      let n = length m - cache_size + 1 in
      let l = choose n [] m in
      let c = chosen n m u in
      let q = length-erase_items l (free_items m) c.0 c.1 in
      let r = c.2 in
      let s = length-free_items m in
      if-elim (λ w. suc (length (free_items w)) ≤ cache_size) (ltb (length m) cache_size) m
        (erase_items l m) (λ e. ground arith)
        (λ e.
          subst (λ w. suc (length w) ≤ cache_size) (sym (free_items-erase_items l m))
            (ground arith))

module _ {B : Type 0} (now : Timespec) (check_only_oversize_case : Bool) (c : Cache B) where
  -- In a cache with each key once, TruncateCache leaves every entry unchanged whose no-truncate count
  -- is above 0.
  pub truncate_cache-keeps :
      (key : List ℕ) (x : StatCacheEntry B)
      → HasUniqueKeys c.stat_cache
      → find key c.stat_cache ≡ some x
      → 1 ≤ x.notruncate
      → find key (truncate_cache now check_only_oversize_case c) ≡ some x
  unfolding truncate_cache
  truncate_cache-keeps key x u h k =
      if-elim (λ w. find key w ≡ some x) _ c.stat_cache _ (λ _. h)
        (λ _.
          if-elim (λ w. find key (truncate_stats c.cache_size w) ≡ some x) c.is_expire_time
            (erase_stale now c.expire_time c.stat_cache) c.stat_cache
            (λ _.
              find-truncate_stats c.cache_size key x (erase_stale now c.expire_time c.stat_cache)
                (HasUniqueKeys-erase_stale now c.expire_time c.stat_cache u)
                (find-erase_stale now c.expire_time key x c.stat_cache h (ground arith))
                (ground arith))
            (λ _. find-truncate_stats c.cache_size key x c.stat_cache u h (ground arith)))

  -- With a cache size of 1 or more and each key once, fewer entries than the cache size are left by
  -- TruncateCache, when those whose no-truncate count is above 0 are not counted.
  pub length-truncate_cache :
      1 ≤ c.cache_size
      → HasUniqueKeys c.stat_cache
      → suc (length (free_items (truncate_cache now check_only_oversize_case c))) ≤ c.cache_size
  unfolding truncate_cache
  length-truncate_cache h u =
      if-elim (λ w. suc (length (free_items w)) ≤ c.cache_size)
        (is_empty c.stat_cache
          || (check_only_oversize_case && ltb (length c.stat_cache) c.cache_size))
        c.stat_cache _ (λ e. small c.stat_cache e)
        (λ _.
          if-elim (λ w. suc (length (free_items (truncate_stats c.cache_size w))) ≤ c.cache_size)
            c.is_expire_time (erase_stale now c.expire_time c.stat_cache) c.stat_cache
            (λ _.
              length-truncate_stats c.cache_size (erase_stale now c.expire_time c.stat_cache) h
                (HasUniqueKeys-erase_stale now c.expire_time c.stat_cache u))
            (λ _. length-truncate_stats c.cache_size c.stat_cache h u))
    where
      small :
          (m : Map (StatCacheEntry B))
          → (is_empty m || (check_only_oversize_case && ltb (length m) c.cache_size)) ≡ true
          → suc (length (free_items m)) ≤ c.cache_size
      small [] e = rw free_nil h
      small (x ∷ m) e = let q = length-free_items (x ∷ m) in ground arith

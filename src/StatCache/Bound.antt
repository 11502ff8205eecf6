-- ===== src/StatCache/Bound.antt =====
-- What `AddSymlink` leaves in the symbolic link cache.
use s3fs_fuse.StatCache.Erase.{length-erase, length-put, has_key-find, length-erase_items}
use s3fs_fuse.StatCache.Size.{has_key, HasUniqueKeys, IsChosen-oldest_from}
use s3fs_fuse.StatCache.{
  erase_expired, truncate_to, Timespec, StatCache, SymlinkCache, SymlinkCacheEntry, add_symlink,
  truncate_symlink, is_empty, new_entry, is_expire_stat_cache_time, oldest_from, erase_items,
}
use s3fs_fuse.Base.{
  ℕ, suc, ◌+◌, ◌-◌, ◌≤◌, ◌≡◌, refl, ◌≢◌, Bool, true, false, ◌&&◌, ◌||◌, Option, none, some, List,
  [], ◌∷◌, arith, ltb, length, if-elim, Map, find, erase, find-put,
}

has_key-erase_expired :
    (now : Timespec) (expire : ℕ) (k : List ℕ) (m : SymlinkCache)
    → has_key k m ≡ false
    → has_key k (erase_expired now expire m) ≡ false
unfolding erase_expired
has_key-erase_expired now expire k [] h = h
has_key-erase_expired now expire k (x ∷ m) h =
    let ih = has_key-erase_expired now expire k m (ground arith) in
    if-elim (λ w. has_key k w ≡ false) (is_expire_stat_cache_time now x.1.cache_date expire)
      (erase_expired now expire m) (x ∷ erase_expired now expire m) (λ _. ih) (λ _. ground arith)

HasUniqueKeys-erase_expired :
    (now : Timespec) (expire : ℕ) (m : SymlinkCache)
    → HasUniqueKeys m
    → HasUniqueKeys (erase_expired now expire m)
unfolding erase_expired
HasUniqueKeys-erase_expired now expire [] u = u
HasUniqueKeys-erase_expired now expire (x ∷ m) u =
    let ih = HasUniqueKeys-erase_expired now expire m u.1 in
    if-elim HasUniqueKeys (is_expire_stat_cache_time now x.1.cache_date expire) _ _ (λ _. ih)
      (λ _. (has_key-erase_expired now expire x.0 m u.0, ih))

-- There is room for one more entry.
length-truncate_to :
    (cache_size : ℕ) (m : SymlinkCache)
    → 1 ≤ cache_size
    → HasUniqueKeys m
    → suc (length (truncate_to cache_size m)) ≤ cache_size
unfolding truncate_to
length-truncate_to cache_size m h u =
    let n = length m - cache_size + 1 in
    let l = oldest_from n [] m in
    let c = IsChosen-oldest_from m n [] m tt u (λ b e. cc) (λ b e. (e, refl)) in
    let q = length-erase_items l m c.0 c.1 in
    let r = c.2 in
    if-elim (λ w. suc (length w) ≤ cache_size) (ltb (length m) cache_size) m (erase_items l m)
      (λ e. ground arith) (λ e. ground arith)

module _ {S : Type 0} (now : Timespec) (key value : List ℕ) (c : StatCache S) where
  length-truncate_symlink :
      1 ≤ c.cache_size
      → c.stat_cache ≢ []
      → HasUniqueKeys c.symlink_cache
      → suc (length (truncate_symlink now true c)) ≤ c.cache_size
  unfolding truncate_symlink
  length-truncate_symlink h k u =
      if-elim (λ w. suc (length w) ≤ c.cache_size)
        (is_empty c.stat_cache || (true && ltb (length c.symlink_cache) c.cache_size))
        c.symlink_cache _ (λ e. let z = not_empty c.stat_cache k in ground arith)
        (λ _. length-truncate_to c.cache_size _ h (
          if-elim HasUniqueKeys c.is_expire_time _ _
            (λ _. HasUniqueKeys-erase_expired now c.expire_time c.symlink_cache u) (λ _. u)))
    where
      not_empty : (m : Map S) → m ≢ [] → is_empty m ≡ false
      not_empty [] n = absurd (n refl)
      not_empty (x ∷ m) n = refl

  -- The cache to which the new entry is added.
  length-added :
      (r : Option SymlinkCacheEntry)
      → find key c.symlink_cache ≡ r
      → 1 ≤ c.cache_size
      → c.stat_cache ≢ []
      → HasUniqueKeys c.symlink_cache
      → length c.symlink_cache ≤ c.cache_size
      → suc (
          length (elim r as (λ _. SymlinkCache) [
            | some x ↦ erase key c.symlink_cache
            | none ↦ truncate_symlink now true c
          ]))
        ≤ c.cache_size
  length-added none e h k u b = length-truncate_symlink h k u
  length-added (some x) e h k u b =
      let q = length-erase key c.symlink_cache (has_key-find key c.symlink_cache x e) in omega arith

  -- With a cache size of 1 or more and a stat cache that is not empty, AddSymlink succeeds, the
  -- entry of the key is then the new link with the time now, and a symbolic link cache that had not
  -- more entries than the cache size, each key once, has not more either.
  pub add_symlink_lem :
      1 ≤ c.cache_size
      → c.stat_cache ≢ []
      → HasUniqueKeys c.symlink_cache
      → length c.symlink_cache ≤ c.cache_size
      → ((add_symlink now key value c).0 ≡ true)
        × (find key (add_symlink now key value c).1.symlink_cache ≡ some (new_entry now value))
        × (length (add_symlink now key value c).1.symlink_cache ≤ c.cache_size)
  unfolding add_symlink
  add_symlink_lem h k u b =
      if-elim
        (λ (r : Bool × StatCache S).
          (r.0 ≡ true)
          × (find key r.1.symlink_cache ≡ some (new_entry now value))
          × (length r.1.symlink_cache ≤ c.cache_size))
        (ltb c.cache_size 1) (true, c) _ (λ e. absurd (ground arith))
        (λ _. (
          refl,
          find-put key (new_entry now value) _,
          (let p =
                length-put key (new_entry now value)
                  (elim (find key c.symlink_cache) as (λ _. SymlinkCache) [
                    | some x ↦ erase key c.symlink_cache
                    | none ↦ truncate_symlink now true c
                  ]) in
              let q = length-added (find key c.symlink_cache) refl h k u b in omega arith),
        ))

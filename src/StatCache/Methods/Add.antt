-- ===== src/StatCache/Methods/Add.antt =====
-- What `AddStat` leaves in the stat cache.
use s3fs_fuse.StatCache.Notruncate.{add_notruncate_cache}
use s3fs_fuse.StatCache.Stat.Truncate.{truncate_cache-keeps}
use s3fs_fuse.StatCache.Stat.Found.{find-truncate_cache-none}
use s3fs_fuse.StatCache.Size.{HasUniqueKeys}
use s3fs_fuse.StatCache.Methods.Del.{del_stat-gone, del_stat-other}
use s3fs_fuse.StatCache.Stat.{Cache, StatCacheEntry, truncate_cache}
use s3fs_fuse.Headers.{Headers}
use s3fs_fuse.StatCache.{Timespec}
use s3fs_fuse.StatCache.Methods.{Environment, make_room, new_stat, add_stat, del_stat, other_key}
use s3fs_fuse.Base.{
  ℕ, ◌≤◌, ◌≡◌, refl, ◌∙◌, ◌≢◌, Bool, true, false, not, ◌&&◌, ◌||◌, Option, none, some, List, arith,
  ltb, leb, if◌then◌else◌, if-elim, Map, find, put, erase, find-put, find-put_other,
}

module _ {B : Type 0} (env : Environment B) (now : Timespec) (key : List ℕ) where
  -- `make_room` by whether the key is there.
  make_room-cases :
      (c : Cache B) (P : Map (StatCacheEntry B) → Type 0)
      → P (del_stat env key c).stat_cache
      → (find key c.stat_cache ≡ none → P (truncate_cache now true c))
      → P (make_room env now key c).stat_cache
  unfolding make_room
  make_room-cases c P h k = go (find key c.stat_cache) refl
    where
      go :
          (r : Option (StatCacheEntry B))
          → find key c.stat_cache ≡ r
          → P
              (elim r as (λ _. Cache B) [
                | some x ↦ del_stat env key c
                | none ↦ record c { stat_cache = truncate_cache now true c }
              ]).stat_cache
      go none e = k e
      go (some x) e = h

  pub make_room-gone : (c : Cache B) → find key (make_room env now key c).stat_cache ≡ none
  make_room-gone c =
      make_room-cases c (λ m. find key m ≡ none) (del_stat-gone env key c)
        (find-truncate_cache-none now true c key)

  make_room-keeps :
      (c : Cache B) (k : List ℕ) (x : StatCacheEntry B)
      → HasUniqueKeys c.stat_cache
      → k ≢ key
      → k ≢ other_key key
      → find k c.stat_cache ≡ some x
      → 1 ≤ x.notruncate
      → find k (make_room env now key c).stat_cache ≡ some x
  make_room-keeps c k x u n1 n2 h p =
      make_room-cases c (λ m. find k m ≡ some x) (del_stat-other env key k c n1 n2 ∙ h)
        (λ _. truncate_cache-keeps now true c k x u h p)

  module _ (meta : Headers) (forcedir no_truncate : Bool) (c : Cache B) where
    -- What `AddStat` returns and the entry that it makes, by what the conversion returns.
    abbrev pub Outcome : Option B → Bool × Cache B → Type 0
    Outcome none r = (r.0 ≡ false) × (find key r.1.stat_cache ≡ none)
    Outcome (some stbuf) r =
        (r.0 ≡ true)
        × (find key r.1.stat_cache ≡ some (new_stat env now stbuf meta forcedir no_truncate))

    -- The cache after a conversion that succeeds.
    abbrev pub with_stat : B → Cache B
    with_stat stbuf = record (make_room env now key c) {
      stat_cache =
          put key (new_stat env now stbuf meta forcedir no_truncate)
            (make_room env now key c).stat_cache;
      symlink_cache =
          if env.is_lnk stbuf
          then (make_room env now key c).symlink_cache
          else erase key (make_room env now key c).symlink_cache;
      notruncate_file_cache =
          if no_truncate
          then (add_notruncate_cache env.mydirname env.mybasename key
              (make_room env now key c).notruncate_file_cache).1
          else (make_room env now key c).notruncate_file_cache;
    }

    pub add_stat_lem :
        (no_truncate || leb 1 c.cache_size) ≡ true
        → Outcome
            (env.convert_header_to_stat key meta forcedir)
            (add_stat env now key meta forcedir no_truncate c)
    unfolding add_stat
    add_stat_lem h =
        if-elim (Outcome (env.convert_header_to_stat key meta forcedir))
          (not no_truncate && ltb c.cache_size 1) (true, c) _
          (λ e. absurd (let q = h in clash no_truncate q e))
          (λ _. go (env.convert_header_to_stat key meta forcedir))
      where
        clash :
            (b : Bool) → (b || leb 1 c.cache_size) ≡ true → (not b && ltb c.cache_size 1) ≡ true → ⊥
        clash true h e = cc
        clash false h e = ground arith

        go :
            (r : Option B)
            → Outcome r (elim r as (λ _. Bool × Cache B) [
              | none ↦ (false, make_room env now key c)
              | some stbuf ↦ (true, with_stat stbuf)
            ])
        go none = (refl, make_room-gone c)
        go (some stbuf) = (refl, find-put key _ (make_room env now key c).stat_cache)

    -- In a cache with each key once, an entry of another path whose no-truncate count is above 0 is
    -- the same after AddStat, also when AddStat fails. Another path is one that differs from the path
    -- by more than a "/" at its end.
    pub add_stat-keeps :
        (k : List ℕ) (x : StatCacheEntry B)
        → HasUniqueKeys c.stat_cache
        → k ≢ key
        → k ≢ other_key key
        → find k c.stat_cache ≡ some x
        → 1 ≤ x.notruncate
        → find k (add_stat env now key meta forcedir no_truncate c).1.stat_cache ≡ some x
    unfolding add_stat
    add_stat-keeps k x u n1 n2 h p =
        let kept = make_room-keeps c k x u n1 n2 h p in
        if-elim (λ (r : Bool × Cache B). find k r.1.stat_cache ≡ some x)
          (not no_truncate && ltb c.cache_size 1) (true, c) _ (λ _. h)
          (λ _. go kept (env.convert_header_to_stat key meta forcedir))
      where
        go :
            find k (make_room env now key c).stat_cache ≡ some x
            → (r : Option B)
            → find k
                (elim r as (λ _. Bool × Cache B) [
                  | none ↦ (false, make_room env now key c)
                  | some stbuf ↦ (true, with_stat stbuf)
                ]).1.stat_cache
              ≡ some x
        go kept none = kept
        go kept (some stbuf) =
            find-put_other key k (new_stat env now stbuf meta forcedir no_truncate)
              (make_room env now key c).stat_cache n1
            ∙ kept

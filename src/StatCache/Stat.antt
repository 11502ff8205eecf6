-- ===== src/StatCache/Stat.antt =====
-- The stat cache of `class StatCache` (src/cache.h, src/cache.cpp): its entries, the headers they keep,
-- the search, and `TruncateCache`. `B` stands for `struct stat`.
pub mod Chosen
mod Choice
pub mod Truncate
pub mod Found
use s3fs_fuse.StatCache.Notruncate.{ends_in_slash, add_slash, is_empty_str}
use s3fs_fuse.Headers.{Headers, nocase_eq, set_header, nocase_prefix, unset_header}
use s3fs_fuse.StatCache.{
  Item, Timespec, erase_items, StatCache, insert_by_age, is_empty, is_out_first,
  is_expire_stat_cache_time,
}
use s3fs_fuse.Base.{
  ℕ, zero, suc, ◌+◌, ◌-◌, Bool, true, false, not, ◌&&◌, ◌||◌, Option, none, some, List, [], ◌∷◌,
  ltb, ◌==◌, if◌then◌else◌, length, Map, find, erase,
}

pub record StatCacheEntry (B : Type 0) : Type 0 where
  pub stbuf : B
  pub hit_count : ℕ
  pub cache_date : Timespec
  pub meta : Headers
  pub isforce : Bool
  pub noobjcache : Bool
  pub notruncate : ℕ

abbrev pub Cache : Type 0 → Type 0
Cache B = StatCache (StatCacheEntry B)

-- The headers that the cache keeps.
unfoldable pub is_kept_header : List ℕ → Bool
is_kept_header tag =
    nocase_eq tag
      (b'c' ∷ b'o' ∷ b'n' ∷ b't' ∷ b'e' ∷ b'n' ∷ b't' ∷ b'-' ∷ b't' ∷ b'y' ∷ b'p' ∷ b'e' ∷ [])
    || nocase_eq tag (
        b'c' ∷ b'o' ∷ b'n' ∷ b't' ∷ b'e' ∷ b'n' ∷ b't' ∷ b'-' ∷ b'l' ∷ b'e' ∷ b'n' ∷ b'g' ∷ b't'
        ∷ b'h' ∷ [])
    || nocase_eq tag (b'e' ∷ b't' ∷ b'a' ∷ b'g' ∷ [])
    || nocase_eq tag (
        b'l' ∷ b'a' ∷ b's' ∷ b't' ∷ b'-' ∷ b'm' ∷ b'o' ∷ b'd' ∷ b'i' ∷ b'f' ∷ b'i' ∷ b'e' ∷ b'd'
        ∷ [])
    || nocase_prefix tag (b'x' ∷ b'-' ∷ b'a' ∷ b'm' ∷ b'z' ∷ [])

-- The loop of `AddStat` over the headers.
unfoldable pub keep_headers : Headers → Headers → Headers
keep_headers [] kept = kept
keep_headers (x ∷ meta) kept =
    keep_headers meta (if is_kept_header x.0 then set_header x.0 x.1 kept else kept)

-- The loop of `UpdateMetaStats`.
pub update_headers : Headers → Headers → Headers
update_headers [] kept = kept
update_headers (x ∷ meta) kept = update_headers meta (
    if is_empty_str x.1
    then unset_header x.0 kept
    else if is_kept_header x.0
    then set_header x.0 x.1 kept
    else kept)

module _ {B : Type 0} where
  -- An entry may be removed by `TruncateCache`.
  abbrev pub is_free : StatCacheEntry B → Bool
  is_free x = x.notruncate == 0

  abbrev pub is_expired : Timespec → Cache B → StatCacheEntry B → Bool
  is_expired now c x =
      is_free x && c.is_expire_time && is_expire_stat_cache_time now x.cache_date c.expire_time

  -- `sort_statiterlist`
  abbrev pub stat_before : Item (StatCacheEntry B) → Item (StatCacheEntry B) → Bool
  stat_before a b = is_out_first a.1.cache_date a.1.hit_count b.1.cache_date b.1.hit_count

  -- The first loop of `TruncateCache`.
  unfoldable pub erase_stale : Timespec → ℕ → Map (StatCacheEntry B) → Map (StatCacheEntry B)
  erase_stale now expire [] = []
  erase_stale now expire (x ∷ m) =
      let rest = erase_stale now expire m in
      if is_free x.1 && is_expire_stat_cache_time now x.1.cache_date expire then rest else x ∷ rest

  -- `sort` and the `pop_back`s that leave `n` items; the list is kept sorted.
  unfoldable pub pop_to : ℕ → List (Item (StatCacheEntry B)) → List (Item (StatCacheEntry B))
  pop_to zero l = []
  pop_to (suc n) [] = []
  pop_to (suc n) (x ∷ l) = x ∷ pop_to n l

  -- The second loop, which ends when `erase_count` is 0. An entry that may not go makes it one less.
  unfoldable pub choose :
      ℕ → List (Item (StatCacheEntry B)) → Map (StatCacheEntry B) → List (Item (StatCacheEntry B))
  choose erase_count l [] = l
  choose zero l (x ∷ m) = l
  choose (suc n) l (x ∷ m) = elim (is_free x.1) [
    | true ↦ choose (suc n) (pop_to (suc n) (insert_by_age stat_before x l)) m
    | false ↦ choose n (pop_to n l) m
  ]

  unfoldable pub truncate_stats : ℕ → Map (StatCacheEntry B) → Map (StatCacheEntry B)
  truncate_stats cache_size m =
      if ltb (length m) cache_size
      then m
      else erase_items (choose (length m - cache_size + 1) [] m) m

  -- `TruncateCache`; the return value is always true.
  unfoldable pub truncate_cache : Timespec → Bool → Cache B → Map (StatCacheEntry B)
  truncate_cache now check_only_oversize_case c =
      if is_empty c.stat_cache
        || (check_only_oversize_case && ltb (length c.stat_cache) c.cache_size)
      then c.stat_cache
      else truncate_stats c.cache_size
          (if c.is_expire_time then erase_stale now c.expire_time c.stat_cache else c.stat_cache)

  abbrev pub with_path : List ℕ → Option (StatCacheEntry B) → Option (List ℕ × StatCacheEntry B)
  with_path key none = none
  with_path key (some x) = some (key, x)

  abbrev pub or_without_slash :
      List ℕ
      → Map (StatCacheEntry B)
      → Option (StatCacheEntry B)
      → Option (List ℕ × StatCacheEntry B)
  or_without_slash key m (some x) = some (add_slash key, x)
  or_without_slash key m none = with_path key (find key m)

  -- The search of `GetStat` and `IsNoObjectCache`: the path that is found and its entry.
  pub find_path : List ℕ → Bool → Map (StatCacheEntry B) → Option (List ℕ × StatCacheEntry B)
  find_path key overcheck m =
      or_without_slash key m
        (if overcheck && not (ends_in_slash key) then find (add_slash key) m else none)

  -- The last step of `AddStat` and `AddNoObjectCache`: no symbolic link is cached under the key.
  abbrev pub drop_symlink : List ℕ → Cache B → Cache B
  drop_symlink key c = record c { symlink_cache = erase key c.symlink_cache }

  -- An entry that is hit.
  abbrev pub hit_stat : Timespec → Bool → StatCacheEntry B → StatCacheEntry B
  hit_stat now is_interval x = record x {
    hit_count = x.hit_count + 1;
    cache_date = if is_interval then now else x.cache_date;
  }

-- ===== src/StatCache.antt =====
-- The symbolic link cache of `class StatCache` (src/cache.h, src/cache.cpp). The clock is a parameter
-- of each method that reads it, the time now. `stat_cache` is the other cache of the class, whose
-- entries have any type `S`; the methods here only test whether it is empty. The mutex is held over
-- each method.
mod Attributes
pub mod Notruncate
pub mod Stat
pub mod Methods
mod Size
mod Erase
mod Bound
mod Tests
mod StatTests
use s3fs_fuse.Base.{
  ℕ, ◌+◌, ◌-◌, Bool, true, false, ◌&&◌, ◌||◌, Option, none, some, List, [], ◌∷◌, ltb, ◌==◌,
  if◌then◌else◌, length, ℤ, pos, negsuc, Map, find, put, erase,
}

pub record Timespec : Type 0 where
  pub tv_sec : ℕ
  pub tv_nsec : ℕ

-- -1, 0 or 1.
unfoldable pub compare_stat_cache_time : Timespec → Timespec → ℤ
compare_stat_cache_time ts1 ts2 =
    if ltb ts1.tv_sec ts2.tv_sec
    then negsuc 0
    else if ltb ts2.tv_sec ts1.tv_sec
    then pos 1
    else if ltb ts1.tv_nsec ts2.tv_nsec
    then negsuc 0
    else if ltb ts2.tv_nsec ts1.tv_nsec
    then pos 1
    else pos 0

-- `0 < n`
abbrev pub is_positive : ℤ → Bool
is_positive (pos n) = ltb 0 n
is_positive (negsuc n) = false

-- The source takes `expire` off the seconds of the time now, which may give a negative number; here it
-- is added to the other time, with the same result.
unfoldable pub is_expire_stat_cache_time : Timespec → Timespec → ℕ → Bool
is_expire_stat_cache_time now ts expire =
    is_positive (compare_stat_cache_time now (record ts { tv_sec = ts.tv_sec + expire }))

pub record SymlinkCacheEntry : Type 0 where
  pub link : List ℕ
  pub hit_count : ℕ
  pub cache_date : Timespec

abbrev pub SymlinkCache : Type 0
SymlinkCache = Map SymlinkCacheEntry

abbrev pub Item : Type 0 → Type 0
Item A = List ℕ × A

-- An entry is older, or as old and hit less often.
pub is_out_first : Timespec → ℕ → Timespec → ℕ → Bool
is_out_first date1 hits1 date2 hits2 = elim (compare_stat_cache_time date1 date2) [
  | negsuc n ↦ true
  | pos n ↦ n == 0 && ltb hits1 hits2
]

-- `sort_symlinkiterlist`
abbrev pub sorts_before : Item SymlinkCacheEntry → Item SymlinkCacheEntry → Bool
sorts_before a b = is_out_first a.1.cache_date a.1.hit_count b.1.cache_date b.1.hit_count

pub record StatCache (S : Type 0) : Type 0 where
  pub stat_cache : Map S
  pub is_expire_time : Bool
  pub is_expire_interval_type : Bool
  pub expire_time : ℕ
  pub cache_size : ℕ
  pub use_negative_cache : Bool
  pub symlink_cache : SymlinkCache
  pub notruncate_file_cache : Map (List (List ℕ))

-- The first loop of `TruncateSymlink`.
pub erase_expired : Timespec → ℕ → SymlinkCache → SymlinkCache
erase_expired now expire [] = []
erase_expired now expire (x ∷ m) =
    let rest = erase_expired now expire m in
    if is_expire_stat_cache_time now x.1.cache_date expire then rest else x ∷ rest

-- `push_back` and `sort` of a list that is sorted.
pub insert_by_age : {A : Type 0} → (Item A → Item A → Bool) → Item A → List (Item A) → List (Item A)
insert_by_age before x [] = x ∷ []
insert_by_age before x (y ∷ l) =
    let rest = insert_by_age before x l in if before x y then x ∷ y ∷ l else y ∷ rest

-- `pop_back`
abbrev pub pop_back : {A : Type 0} → List (Item A) → List (Item A)
pop_back [] = []
pop_back (x ∷ []) = []
pop_back (x ∷ y ∷ l) = x ∷ pop_back (y ∷ l)

abbrev pub keep_count : {A : Type 0} → ℕ → List (Item A) → List (Item A)
keep_count n l = if ltb n (length l) then pop_back l else l

-- The second loop: the `n` items that sort first.
pub oldest_from : ℕ → List (Item SymlinkCacheEntry) → SymlinkCache → List (Item SymlinkCacheEntry)
oldest_from n l [] = l
oldest_from n l (x ∷ m) = oldest_from n (keep_count n (insert_by_age sorts_before x l)) m

-- The last loop.
pub erase_items : {A : Type 0} → List (Item A) → Map A → Map A
erase_items [] m = m
erase_items (x ∷ l) m = erase_items l (erase x.0 m)

pub truncate_to : ℕ → SymlinkCache → SymlinkCache
truncate_to cache_size m =
    if ltb (length m) cache_size
    then m
    else erase_items (oldest_from (length m - cache_size + 1) [] m) m

abbrev pub new_entry : Timespec → List ℕ → SymlinkCacheEntry
new_entry now value = record { link = value; hit_count = 0; cache_date = now }

-- An entry that is hit.
abbrev pub hit : Timespec → Bool → SymlinkCacheEntry → SymlinkCacheEntry
hit now is_interval x = record {
  link = x.link;
  hit_count = x.hit_count + 1;
  cache_date = if is_interval then now else x.cache_date;
}

module _ {S : Type 0} where
  abbrev pub is_empty : Map S → Bool
  is_empty [] = true
  is_empty (x ∷ m) = false

  -- `TruncateSymlink`; the return value is always true.
  pub truncate_symlink : Timespec → Bool → StatCache S → SymlinkCache
  truncate_symlink now check_only_oversize_case c =
      if is_empty c.stat_cache
        || (check_only_oversize_case && ltb (length c.symlink_cache) c.cache_size)
      then c.symlink_cache
      else truncate_to c.cache_size (
          if c.is_expire_time
          then erase_expired now c.expire_time c.symlink_cache
          else c.symlink_cache)

  pub add_symlink : Timespec → List ℕ → List ℕ → StatCache S → Bool × StatCache S
  add_symlink now key value c = if ltb c.cache_size 1 then (true, c) else (
    true,
    record c {
      symlink_cache = put key (new_entry now value) (elim (find key c.symlink_cache) [
        | some x ↦ erase key c.symlink_cache
        | none ↦ truncate_symlink now true c
      ]);
    },
  )

  pub get_symlink : Timespec → List ℕ → StatCache S → Option (List ℕ) × StatCache S
  get_symlink now key c = elim (find key c.symlink_cache) [
    | none ↦ (none, c)
    | some x ↦
        if c.is_expire_time && is_expire_stat_cache_time now x.cache_date c.expire_time
        then (none, record c { symlink_cache = erase key c.symlink_cache })
        else (
          some x.link,
          record c {
            symlink_cache = put key (hit now c.is_expire_interval_type x) c.symlink_cache;
          },
        )
  ]

-- ===== src/StatCache/Attributes.antt =====
-- The settings of `class StatCache` (src/cache.cpp): the constructor, `Clear` and the methods that read
-- or set one of them. A setter returns the old value beside the new state.
use s3fs_fuse.StatCache.{StatCache}
use s3fs_fuse.Base.{
  ℕ, ◌*◌, Bool, true, false, none, some, List, [], if◌then◌else◌, ℤ, pos, negsuc, find, erase,
}

module _ {S : Type 0} where
  abbrev pub init : StatCache S
  init = record {
    stat_cache = [];
    is_expire_time = true;
    is_expire_interval_type = false;
    expire_time = 15 * 60;
    cache_size = 100_000;
    use_negative_cache = true;
    symlink_cache = [];
    notruncate_file_cache = [];
  }

  abbrev pub set_cache_size : ℕ → StatCache S → ℕ × StatCache S
  set_cache_size size c = (c.cache_size, record c { cache_size = size })

  abbrev pub get_expire_time : StatCache S → ℤ
  get_expire_time c = if c.is_expire_time then pos c.expire_time else negsuc 0

  abbrev pub set_expire_time : ℕ → Bool → StatCache S → ℕ × StatCache S
  set_expire_time expire is_interval c = (
    c.expire_time,
    record c { is_expire_time = true; is_expire_interval_type = is_interval; expire_time = expire },
  )

  abbrev pub unset_expire_time : StatCache S → ℤ × StatCache S
  unset_expire_time c = (
    get_expire_time c,
    record c { is_expire_time = false; is_expire_interval_type = false; expire_time = 0 },
  )

  abbrev pub set_negative_cache : Bool → StatCache S → Bool × StatCache S
  set_negative_cache flag c = (c.use_negative_cache, record c { use_negative_cache = flag })

  -- The other two maps keep what they have.
  abbrev pub clear : StatCache S → StatCache S
  clear c = record c { stat_cache = [] }

  -- `DelSymlinkHasLock`: whether there was an entry.
  abbrev pub del_symlink : List ℕ → StatCache S → Bool × StatCache S
  del_symlink key c = (
    elim (find key c.symlink_cache) [ none ↦ false | some x ↦ true ],
    record c { symlink_cache = erase key c.symlink_cache },
  )

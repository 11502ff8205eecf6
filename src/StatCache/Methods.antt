-- ===== src/StatCache/Methods.antt =====
-- The methods of `class StatCache` on the stat cache (src/cache.cpp). `B` stands for `struct stat`. The
-- time now is a parameter of each method that reads the clock; the mutex is held over each method.
pub mod Del
pub mod Add
pub mod Get
pub mod Hit
pub mod Recall
pub mod Flags
use s3fs_fuse.StatCache.Stat.{
  Cache, drop_symlink, is_expired, StatCacheEntry, truncate_cache, update_headers, keep_headers,
  hit_stat, find_path,
}
use s3fs_fuse.StatCache.{Timespec}
use s3fs_fuse.Headers.{Headers, header}
use s3fs_fuse.StatCache.Notruncate.{
  ends_in_slash, add_slash, add_notruncate_cache, is_empty_str, del_notruncate_cache,
}
use s3fs_fuse.Base.{
  ℕ, ◌+◌, ◌-◌, Bool, true, false, not, ◌&&◌, ◌||◌, Option, none, some, List, [], ◌∷◌, ltb, ◌==◌,
  if◌then◌else◌, str_eq, find, put, erase,
}

-- `GetStat` is given an ETag, the entry has one, and they differ.
abbrev pub is_other_etag : Option (List ℕ) → Option (List ℕ) → Bool
is_other_etag none r = false
is_other_etag (some petag) none = false
is_other_etag (some petag) (some stretag) = not (str_eq petag stretag)

abbrev pub without_last : List ℕ → List ℕ
without_last [] = []
without_last (c ∷ []) = []
without_last (c ∷ d ∷ s) = c ∷ without_last (d ∷ s)

-- The key with another ending, under which `DelStat` looks too.
abbrev pub other_key : List ℕ → List ℕ
other_key [] = []
other_key (c ∷ s) = if ends_in_slash (c ∷ s) then without_last (c ∷ s) else add_slash (c ∷ s)

-- What the methods call outside of the class. `set_mode` and `zero_stat` are `st_mode = …` and the
-- value-initialised `struct stat`.
pub record Environment (B : Type 0) : Type 0 where
  pub mydirname : List ℕ → List ℕ
  pub mybasename : List ℕ → List ℕ
  pub convert_header_to_stat : List ℕ → Headers → Bool → Option B
  pub get_mode : Headers → List ℕ → ℕ
  pub is_lnk : B → Bool
  pub set_mode : ℕ → B → B
  pub zero_stat : B

module _ {B : Type 0} (env : Environment B) where
  abbrev pub del_entry : List ℕ → Cache B → Cache B
  del_entry key c = elim (find key c.stat_cache) [
    | none ↦ c
    | some x ↦ record c {
      stat_cache = erase key c.stat_cache;
      notruncate_file_cache =
          (del_notruncate_cache env.mydirname env.mybasename key c.notruncate_file_cache).1;
    }
  ]

  -- `DelStatHasLock`; the return value is always true.
  pub del_stat : List ℕ → Cache B → Cache B
  del_stat key c =
      let d = del_entry key c in
      if is_empty_str key || str_eq key (b'/' ∷ []) then d else del_entry (other_key key) d

  -- `GetStat` once the entry is found. The values that it copies out.
  abbrev pub get_found :
      Timespec
      → Option (List ℕ)
      → Cache B
      → List ℕ × StatCacheEntry B
      → Option (B × Headers × Bool) × Cache B
  get_found now petag c p =
      if is_expired now c p.1
      then (none, del_stat p.0 c)
      else if p.1.noobjcache
      then (none, if c.use_negative_cache then c else del_stat p.0 c)
      else if is_other_etag petag (header (b'e' ∷ b't' ∷ b'a' ∷ b'g' ∷ []) p.1.meta)
      then (none, del_stat p.0 c)
      else (
        some (p.1.stbuf, p.1.meta, p.1.isforce),
        record c { stat_cache = put p.0 (hit_stat now c.is_expire_interval_type p.1) c.stat_cache },
      )

  pub get_stat :
      Timespec → List ℕ → Bool → Option (List ℕ) → Cache B → Option (B × Headers × Bool) × Cache B
  get_stat now key overcheck petag c = elim (find_path key overcheck c.stat_cache) [
    | none ↦ (none, c)
    | some p ↦ get_found now petag c p
  ]

  -- `IsNoObjectCache` once the entry is found.
  abbrev pub no_object_found : Timespec → Cache B → List ℕ × StatCacheEntry B → Bool × Cache B
  no_object_found now c p =
      if not p.1.noobjcache
      then (false, c)
      else if is_expired now c p.1
      then (false, del_stat p.0 c)
      else (
        true,
        if c.is_expire_interval_type
            then record c { stat_cache = put p.0 (record p.1 { cache_date = now }) c.stat_cache }
            else c,
      )

  pub is_no_object_cache : Timespec → List ℕ → Bool → Cache B → Bool × Cache B
  is_no_object_cache now key overcheck c =
      if not c.use_negative_cache then (false, c) else elim (find_path key overcheck c.stat_cache) [
        | none ↦ (false, c)
        | some p ↦ no_object_found now c p
      ]

  -- The cache in which `AddStat` and `AddNoObjectCache` make an entry.
  pub make_room : Timespec → List ℕ → Cache B → Cache B
  make_room now key c = elim (find key c.stat_cache) [
    | some x ↦ del_stat key c
    | none ↦ record c { stat_cache = truncate_cache now true c }
  ]

  abbrev pub new_stat : Timespec → B → Headers → Bool → Bool → StatCacheEntry B
  new_stat now stbuf meta forcedir no_truncate = record {
    stbuf = stbuf;
    hit_count = 0;
    cache_date = now;
    meta = keep_headers meta [];
    isforce = forcedir;
    noobjcache = false;
    notruncate = if no_truncate then 1 else 0;
  }

  pub add_stat : Timespec → List ℕ → Headers → Bool → Bool → Cache B → Bool × Cache B
  add_stat now key meta forcedir no_truncate c =
      if not no_truncate && ltb c.cache_size 1
      then (true, c)
      else (let d = make_room now key c in
          elim (env.convert_header_to_stat key meta forcedir) [
            | none ↦ (false, d)
            | some stbuf ↦ (
              true,
              record d {
                stat_cache = put key (new_stat now stbuf meta forcedir no_truncate) d.stat_cache;
                symlink_cache =
                    if env.is_lnk stbuf then d.symlink_cache else erase key d.symlink_cache;
                notruncate_file_cache =
                    if no_truncate
                    then (add_notruncate_cache env.mydirname env.mybasename key
                        d.notruncate_file_cache).1
                    else d.notruncate_file_cache;
              },
            )
          ])

  pub update_meta_stats : Timespec → List ℕ → Headers → Cache B → Cache B
  update_meta_stats now key meta c =
      if ltb c.cache_size 1 then c else elim (find key c.stat_cache) [
        | none ↦ c
        | some x ↦ record c {
          stat_cache =
              put key
                (record x {
                  meta = update_headers meta x.meta;
                  cache_date = now;
                  stbuf = env.set_mode (env.get_mode meta key) x.stbuf;
                })
                c.stat_cache;
        }
      ]

  -- The entry for an object that does not exist.
  abbrev pub no_object : Timespec → StatCacheEntry B
  no_object now = record {
    stbuf = env.zero_stat;
    hit_count = 0;
    cache_date = now;
    meta = [];
    isforce = false;
    noobjcache = true;
    notruncate = 0;
  }

  -- The return value is always true.
  pub add_no_object_cache : Timespec → List ℕ → Cache B → Cache B
  add_no_object_cache now key c =
      if not c.use_negative_cache || ltb c.cache_size 1
      then c
      else (let d = make_room now key c in
          drop_symlink key (record d { stat_cache = put key (no_object now) d.stat_cache }))

  -- `ChangeNoTruncateFlag` once the entry is found.
  abbrev pub change_found : List ℕ → Bool → Cache B → StatCacheEntry B → Cache B
  change_found key no_truncate c x =
      if no_truncate
      then record c {
        stat_cache = put key (record x { notruncate = x.notruncate + 1 }) c.stat_cache;
        notruncate_file_cache =
            if x.notruncate == 0
            then (add_notruncate_cache env.mydirname env.mybasename key c.notruncate_file_cache).1
            else c.notruncate_file_cache;
      }
      else if x.notruncate == 0
      then c
      else record c {
        stat_cache = put key (record x { notruncate = x.notruncate - 1 }) c.stat_cache;
        notruncate_file_cache =
            if x.notruncate == 1
            then (del_notruncate_cache env.mydirname env.mybasename key c.notruncate_file_cache).1
            else c.notruncate_file_cache;
      }

  unfoldable pub change_no_truncate_flag : List ℕ → Bool → Cache B → Cache B
  change_no_truncate_flag key no_truncate c = elim (find key c.stat_cache) [
    | none ↦ c
    | some x ↦ change_found key no_truncate c x
  ]

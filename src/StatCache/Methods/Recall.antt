-- ===== src/StatCache/Methods/Recall.antt =====
-- `GetStat` after `AddStat`, and the cache of objects that do not exist.
use s3fs_fuse.StatCache.Stat.Found.{find_path-found}
use s3fs_fuse.StatCache.Methods.Add.{with_stat, Outcome, add_stat_lem}
use s3fs_fuse.StatCache.Notruncate.{ends_in_slash}
use s3fs_fuse.StatCache.Methods.Get.{
  SameSettings, SameSettings-make_room, is_given_up, Got-get_stat, is_no_object_cache_run,
}
use s3fs_fuse.StatCache.Stat.{Cache, keep_headers}
use s3fs_fuse.Headers.{Headers}
use s3fs_fuse.StatCache.{Timespec, is_expire_stat_cache_time}
use s3fs_fuse.StatCache.Methods.{
  Environment, add_stat, make_room, get_stat, new_stat, add_no_object_cache, no_object,
  is_no_object_cache,
}
use s3fs_fuse.Base.{
  ℕ, ◌≤◌, ◌≡◌, refl, ◌∙◌, subst, Bool, true, false, not, ◌&&◌, ◌||◌, Option, none, some, List, [],
  arith, ltb, leb, ◌==◌, if◌then◌else◌, if-elim, find, find-put,
}

module _ {B : Type 0} (env : Environment B) (now later : Timespec) (key : List ℕ) where
  SameSettings-add_stat :
      (meta : Headers) (forcedir no_truncate : Bool) (c : Cache B)
      → SameSettings c (add_stat env now key meta forcedir no_truncate c).1
  unfolding add_stat
  SameSettings-add_stat meta forcedir no_truncate c =
      if-elim (λ (r : Bool × Cache B). SameSettings c r.1) (not no_truncate && ltb c.cache_size 1)
        (true, c) _ (λ _. (refl, refl)) (λ _. go (env.convert_header_to_stat key meta forcedir))
    where
      go :
          (r : Option B)
          → SameSettings c
              (elim r as (λ _. Bool × Cache B) [
                | none ↦ (false, make_room env now key c)
                | some stbuf ↦ (true, with_stat env now key meta forcedir no_truncate c stbuf)
              ]).1
      go none = SameSettings-make_room env now key c
      go (some stbuf) = SameSettings-make_room env now key c

  -- When the headers convert, and the cache size is 1 or more or the flag is given, GetStat finds
  -- under the path what AddStat was given: the converted values, the headers that are kept and the
  -- flag for a directory. This holds until the entry expires, for an entry that may not be removed
  -- always, as long as GetStat does not look for the path with a "/" first and gets no ETag.
  pub get_stat-add_stat :
      (meta : Headers) (forcedir no_truncate overcheck : Bool) (stbuf : B) (c : Cache B)
      → env.convert_header_to_stat key meta forcedir ≡ some stbuf
      → (no_truncate || leb 1 c.cache_size) ≡ true
      → (overcheck && not (ends_in_slash key)) ≡ false
      → (no_truncate || not (is_expire_stat_cache_time later now c.expire_time)) ≡ true
      → (get_stat env later key overcheck none
          (add_stat env now key meta forcedir no_truncate c).1).0
        ≡ some (stbuf, keep_headers meta [], forcedir)
  get_stat-add_stat meta forcedir no_truncate overcheck stbuf c h k o e =
      let x = new_stat env now stbuf meta forcedir no_truncate in
      let d = (add_stat env now key meta forcedir no_truncate c).1 in
      let found =
        subst
          (λ r.
            Outcome env now key meta forcedir no_truncate c r
              (add_stat env now key meta forcedir no_truncate c))
          h (add_stat_lem env now key meta forcedir no_truncate c k) in
      let s : d.expire_time ≡ c.expire_time =
        (SameSettings-add_stat meta forcedir no_truncate c).0 in
      let kept : is_given_up later none d x ≡ false =
        (rw s (not_expired no_truncate d.is_expire_time e)) in
      ((Got-get_stat env later key overcheck none d (key, x)
          (find_path-found key overcheck d.stat_cache x o found.1)).2
        kept refl).0
    where
      not_expired :
          (b t : Bool)
          → (b || not (is_expire_stat_cache_time later now c.expire_time)) ≡ true
          → ((((if b then 1 else 0) == 0) && t && is_expire_stat_cache_time later now c.expire_time)
              || false
              || false)
            ≡ false
      not_expired true t e = refl
      not_expired false t e = ground arith

  add_no_object_cache-find :
      (c : Cache B)
      → c.use_negative_cache ≡ true
      → 1 ≤ c.cache_size
      → (find key (add_no_object_cache env now key c).stat_cache ≡ some (no_object env now))
        × SameSettings c (add_no_object_cache env now key c)
  unfolding add_no_object_cache
  add_no_object_cache-find c n h =
      if-elim
        (λ (r : Cache B). (find key r.stat_cache ≡ some (no_object env now)) × SameSettings c r)
        (not c.use_negative_cache || ltb c.cache_size 1) c _ (λ e. absurd (ground arith))
        (λ _. (
          find-put key (no_object env now) (make_room env now key c).stat_cache,
          SameSettings-make_room env now key c,
        ))

  -- With the negative cache in use and a cache size of 1 or more, until the entry expires, a path
  -- given to AddNoObjectCache is known not to exist: IsNoObjectCache returns true for it, and GetStat
  -- finds nothing and leaves the cache as it is; as long as they do not look for the path with a "/"
  -- first.
  pub is_no_object_cache-add_no_object_cache :
      (overcheck : Bool) (petag : Option (List ℕ)) (c : Cache B)
      → c.use_negative_cache ≡ true
      → 1 ≤ c.cache_size
      → (overcheck && not (ends_in_slash key)) ≡ false
      → is_expire_stat_cache_time later now c.expire_time ≡ false
      → let d = add_no_object_cache env now key c in
        ((is_no_object_cache env later key overcheck d).0 ≡ true)
        × ((get_stat env later key overcheck petag d).0 ≡ none)
        × ((get_stat env later key overcheck petag d).1 ≡ d)
  is_no_object_cache-add_no_object_cache overcheck petag c n h o e =
      let d = add_no_object_cache env now key c in
      let q = add_no_object_cache-find c n h in
      let f = find_path-found key overcheck d.stat_cache (no_object env now) o q.0 in
      let kept : is_expire_stat_cache_time later now d.expire_time ≡ false = (rw q.1.0 e) in
      let used : d.use_negative_cache ≡ true = q.1.1 ∙ n in
      let got =
        (Got-get_stat env later key overcheck petag d (key, no_object env now) f).1
          (rw (kept, used) (ground arith)) refl in
      (
        is_no_object_cache_run env later key overcheck d (no_object env now) used f refl
            (ground arith),
        got.0,
        got.1,
      )

-- ===== src/StatCache/Methods/Flags.antt =====
-- `ChangeNoTruncateFlag` counts the openings of a file that is not uploaded yet.
use s3fs_fuse.StatCache.Stat.Truncate.{truncate_cache-keeps}
use s3fs_fuse.StatCache.Size.{HasUniqueKeys}
use s3fs_fuse.StatCache.Stat.{Cache, StatCacheEntry, truncate_cache}
use s3fs_fuse.StatCache.{Timespec}
use s3fs_fuse.StatCache.Methods.{Environment, change_no_truncate_flag, change_found}
use s3fs_fuse.Base.{
  ℕ, ◌+◌, ◌-◌, ◌≡◌, sym, ap, ◌∙◌, subst, Bool, true, false, none, some, List, arith, ◌==◌, if-elim,
  find, find-put,
}

module _ {B : Type 0} (env : Environment B) (key : List ℕ) where
  change_flag-found :
      (flag : Bool) (c : Cache B) (x : StatCacheEntry B) (P : Cache B → Type 0)
      → find key c.stat_cache ≡ some x
      → P (change_found env key flag c x)
      → P (change_no_truncate_flag env key flag c)
  unfolding change_no_truncate_flag
  change_flag-found flag c x P h p =
      subst
        (λ r. P (elim r as (λ _. Cache B) [ none ↦ c | some x ↦ change_found env key flag c x ]))
        (sym h) p

  -- In a cache that has each key once after the flag of an entry is set: the entry whose flag is set
  -- and then taken back has the no-truncate count that it had, and is otherwise unchanged; in between
  -- TruncateCache does not remove it.
  pub change_no_truncate_flag-back :
      (now : Timespec) (b : Bool) (c : Cache B) (x : StatCacheEntry B)
      → HasUniqueKeys (change_no_truncate_flag env key true c).stat_cache
      → find key c.stat_cache ≡ some x
      → let d = change_no_truncate_flag env key true c in
        (find key (truncate_cache now b d) ≡ some (record x { notruncate = x.notruncate + 1 }))
        × (find key (change_no_truncate_flag env key false d).stat_cache ≡ some x)
  change_no_truncate_flag-back now b c x u h =
      let x' : StatCacheEntry B = record x { notruncate = x.notruncate + 1 } in
      let d = change_no_truncate_flag env key true c in
      let f : find key d.stat_cache ≡ some x' =
        change_flag-found true c x (λ e. find key e.stat_cache ≡ some x') h
          (find-put key x' c.stat_cache) in
      (
        truncate_cache-keeps now b d key x' u f (omega arith),
        change_flag-found false d x' (λ e. find key e.stat_cache ≡ some x) f
            (if-elim (λ (e : Cache B). find key e.stat_cache ≡ some x) (x'.notruncate == 0) d _
              (λ e. absurd (ground arith))
              (λ _.
                find-put key (record x' { notruncate = x'.notruncate - 1 }) d.stat_cache
                ∙ ap (λ n. some (record x { notruncate = n })) (omega arith))),
      )

-- ===== src/StatCache/Methods/Get.antt =====
-- What `GetStat` and `IsNoObjectCache` return.
use s3fs_fuse.StatCache.Methods.Del.{del_stat-gone}
use s3fs_fuse.Headers.{Headers, header}
use s3fs_fuse.StatCache.Notruncate.{del_notruncate_cache, is_empty_str}
use s3fs_fuse.StatCache.{Timespec}
use s3fs_fuse.StatCache.Methods.{
  Environment, make_room, del_entry, get_stat, del_stat, other_key, is_other_etag, get_found,
  is_no_object_cache, no_object_found,
}
use s3fs_fuse.StatCache.Stat.{
  find_path, Cache, StatCacheEntry, truncate_cache, is_expired, hit_stat,
}
use s3fs_fuse.Base.{
  ℕ, ◌≡◌, refl, sym, ◌∙◌, subst, Bool, true, false, not, ◌&&◌, ◌||◌, Option, none, some, List, [],
  ◌∷◌, arith, if◌then◌else◌, if-elim, bool_clash, str_eq, find, erase, find-put,
}

abbrev pub etag_tag : List ℕ
etag_tag = b'e' ∷ b't' ∷ b'a' ∷ b'g' ∷ []

module _ {B : Type 0} where
  -- The settings on which lookups depend.
  abbrev pub SameSettings : Cache B → Cache B → Type 0
  SameSettings c d = (d.expire_time ≡ c.expire_time) × (d.use_negative_cache ≡ c.use_negative_cache)

  -- The entry is given up: it is expired, it stands for an object that does not exist while those
  -- are not cached, or it has another ETag.
  abbrev pub is_given_up : Timespec → Option (List ℕ) → Cache B → StatCacheEntry B → Bool
  is_given_up now petag c x =
      is_expired now c x
      || (x.noobjcache && not c.use_negative_cache)
      || (not x.noobjcache && is_other_etag petag (header etag_tag x.meta))

  abbrev pub Got :
      Timespec
      → Option (List ℕ)
      → Cache B
      → List ℕ × StatCacheEntry B
      → Option (B × Headers × Bool) × Cache B
      → Type 0
  Got now petag c p r =
      (is_given_up now petag c p.1 ≡ true → (r.0 ≡ none) × (find p.0 r.1.stat_cache ≡ none))
      × (is_given_up now petag c p.1 ≡ false → p.1.noobjcache ≡ true → (r.0 ≡ none) × (r.1 ≡ c))
      × (is_given_up now petag c p.1 ≡ false
          → p.1.noobjcache ≡ false
          → (r.0 ≡ some (p.1.stbuf, p.1.meta, p.1.isforce))
            × (find p.0 r.1.stat_cache ≡ some (hit_stat now c.is_expire_interval_type p.1)))

module _ {B : Type 0} (env : Environment B) where
  SameSettings-del_entry : (key : List ℕ) (c : Cache B) → SameSettings c (del_entry env key c)
  SameSettings-del_entry key c =
      elim (find key c.stat_cache)
        as (λ r. SameSettings c (elim r as (λ _. Cache B) [
          | none ↦ c
          | some x ↦ record c {
            stat_cache = erase key c.stat_cache;
            notruncate_file_cache =
                (del_notruncate_cache env.mydirname env.mybasename key c.notruncate_file_cache).1;
          }
        ])) [ none ↦ (refl, refl) | some x ↦ (refl, refl) ]

  SameSettings-del_stat : (key : List ℕ) (c : Cache B) → SameSettings c (del_stat env key c)
  unfolding del_stat
  SameSettings-del_stat key c =
      let p = SameSettings-del_entry key c in
      let q = SameSettings-del_entry (other_key key) (del_entry env key c) in
      if-elim (SameSettings c) (is_empty_str key || str_eq key (b'/' ∷ [])) (del_entry env key c)
        (del_entry env (other_key key) (del_entry env key c)) (λ _. p) (λ _. (q.0 ∙ p.0, q.1 ∙ p.1))

  pub SameSettings-make_room :
      (now : Timespec) (key : List ℕ) (c : Cache B) → SameSettings c (make_room env now key c)
  unfolding make_room
  SameSettings-make_room now key c =
      elim (find key c.stat_cache)
        as (λ r. SameSettings c (elim r as (λ _. Cache B) [
          | some x ↦ del_stat env key c
          | none ↦ record c { stat_cache = truncate_cache now true c }
        ])) [ none ↦ (refl, refl) | some x ↦ SameSettings-del_stat key c ]

  -- By the tests of the code.
  pub Got-get_stat :
      (now : Timespec) (key : List ℕ) (overcheck : Bool) (petag : Option (List ℕ)) (c : Cache B)
      (p : List ℕ × StatCacheEntry B)
      → find_path key overcheck c.stat_cache ≡ some p
      → Got now petag c p (get_stat env now key overcheck petag c)
  unfolding get_stat
  Got-get_stat now key overcheck petag c p h =
      subst
        (λ r. Got now petag c p (elim r as (λ _. Option (B × Headers × Bool) × Cache B) [
          | none ↦ (none, c)
          | some p ↦ get_found env now petag c p
        ]))
        (sym h)
        (if-elim (Got now petag c p) (is_expired now c p.1) (none, del_stat env p.0 c) _
          (λ e. (
            λ _. (refl, del_stat-gone env p.0 c),
            (λ f. absurd (ground arith)),
            λ f. absurd (ground arith),
          ))
          (λ e.
            if-elim (Got now petag c p) p.1.noobjcache
              (none, if c.use_negative_cache then c else del_stat env p.0 c) _
              (λ n. no_object_got e n c.use_negative_cache refl)
              (λ n.
                if-elim (Got now petag c p) (is_other_etag petag (header etag_tag p.1.meta))
                  (none, del_stat env p.0 c) _
                  (λ q. (
                    λ _. (refl, del_stat-gone env p.0 c),
                    (λ f. absurd (ground arith)),
                    λ f. absurd (ground arith),
                  ))
                  (λ q. (
                    (λ f. absurd (ground arith)),
                    (λ f g. absurd (bool_clash _ g n)),
                    λ _ _. (refl, find-put p.0 _ c.stat_cache),
                  )))))
    where
      no_object_got :
          is_expired now c p.1 ≡ false
          → p.1.noobjcache ≡ true
          → (b : Bool) → c.use_negative_cache ≡ b
          → Got now petag c p (none, if b then c else del_stat env p.0 c)
      no_object_got e n true u =
          ((λ f. absurd (ground arith)), (λ _ _. (refl, refl)), λ f g. absurd (bool_clash _ n g))
      no_object_got e n false u = (
        (λ _. (refl, del_stat-gone env p.0 c)),
        (λ f. absurd (ground arith)),
        λ f. absurd (ground arith),
      )

  -- `IsNoObjectCache` at an entry for a missing object.
  pub is_no_object_cache_run :
      (now : Timespec) (key : List ℕ) (overcheck : Bool) (c : Cache B) (x : StatCacheEntry B)
      → c.use_negative_cache ≡ true
      → find_path key overcheck c.stat_cache ≡ some (key, x)
      → x.noobjcache ≡ true
      → is_expired now c x ≡ false
      → (is_no_object_cache env now key overcheck c).0 ≡ true
  unfolding is_no_object_cache
  is_no_object_cache_run now key overcheck c x u f n e =
      if-elim (λ (r : Bool × Cache B). r.0 ≡ true) (not c.use_negative_cache) (false, c) _
        (λ q. absurd (ground arith))
        (λ _.
          subst
            (λ r.
              (elim r as (λ _. Bool × Cache B) [
                | none ↦ (false, c)
                | some p ↦ no_object_found env now c p
              ]).0
              ≡ true)
            (sym f)
            (if-elim (λ (r : Bool × Cache B). r.0 ≡ true) (not x.noobjcache) (false, c) _
              (λ q. absurd (ground arith))
              (λ _.
                if-elim (λ (r : Bool × Cache B). r.0 ≡ true) (is_expired now c x)
                  (false, del_stat env key c) _ (λ q. absurd (bool_clash _ q e)) (λ _. refl))))

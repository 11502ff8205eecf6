-- ===== src/StatCache/Methods/Hit.antt =====
-- Why `GetStat` returns an entry that it finds, or why not.
use s3fs_fuse.StatCache.Stat.Found.{IsFoundAt, find_path-IsFoundAt}
use s3fs_fuse.StatCache.Methods.Del.{del_stat-gone}
use s3fs_fuse.StatCache.Methods.{is_other_etag, Environment, get_stat, del_stat, get_found}
use s3fs_fuse.StatCache.Methods.Get.{etag_tag}
use s3fs_fuse.Headers.{Headers, header}
use s3fs_fuse.StatCache.Stat.{Cache, StatCacheEntry, is_expired, find_path, hit_stat}
use s3fs_fuse.StatCache.{is_expire_stat_cache_time, Timespec, compare_stat_cache_time}
use s3fs_fuse.Base.{
  ℕ, ◌+◌, ◌<◌, ◌≡◌, refl, sym, subst, ◌≢◌, ◌⊎◌, inl, inr, Bool, true, false, Option, none, some,
  List, arith, ltb, if◌then◌else◌, Bool-cases, if-elim, str_eq, str_eq_refl, str_eq-eq, find, put,
  find-put,
}

-- One time is after another.
abbrev pub IsAfter : Timespec → Timespec → Type 0
IsAfter a b = (b.tv_sec < a.tv_sec) ⊎ ((a.tv_sec ≡ b.tv_sec) × (b.tv_nsec < a.tv_nsec))

-- The entry may be removed and its time is over.
abbrev pub IsStale : {B : Type 0} → Timespec → Cache B → StatCacheEntry B → Type 0
IsStale now c x =
    (x.notruncate ≡ 0)
    × (c.is_expire_time ≡ true)
    × IsAfter now (record x.cache_date { tv_sec = x.cache_date.tv_sec + c.expire_time })

-- The result of `GetStat` at an entry `x` under the path `k`, and the cache afterwards.
pub data GotStat {B : Type 0} (now : Timespec) (petag : Option (List ℕ)) (c : Cache B) (k : List ℕ)
    (x : StatCacheEntry B) : Option (B × Headers × Bool) × Cache B → Type 0 where
  stale :
      (d : Cache B)
      → IsStale now c x
      → find k d.stat_cache ≡ none
      → GotStat now petag c k x (none, d)
  missing_not_cached :
      (d : Cache B)
      → x.noobjcache ≡ true
      → c.use_negative_cache ≡ false
      → find k d.stat_cache ≡ none
      → GotStat now petag c k x (none, d)
  missing :
      ¬ IsStale now c x
      → x.noobjcache ≡ true
      → c.use_negative_cache ≡ true
      → GotStat now petag c k x (none, c)
  other_etag :
      (d : Cache B) (e e' : List ℕ)
      → x.noobjcache ≡ false
      → petag ≡ some e
      → header etag_tag x.meta ≡ some e'
      → e ≢ e'
      → find k d.stat_cache ≡ none
      → GotStat now petag c k x (none, d)
  hit :
      (d : Cache B)
      → ¬ IsStale now c x
      → x.noobjcache ≡ false
      → ((e e' : List ℕ) → petag ≡ some e → header etag_tag x.meta ≡ some e' → e ≡ e')
      → find k d.stat_cache
        ≡ some (record x {
          hit_count = x.hit_count + 1;
          cache_date = if c.is_expire_interval_type then now else x.cache_date;
        })
      → GotStat now petag c k x (some (x.stbuf, x.meta, x.isforce), d)

is_expire-IsAfter :
    (now t : Timespec) (n : ℕ)
    → is_expire_stat_cache_time now t n ≡ true
    → IsAfter now (record t { tv_sec = t.tv_sec + n })
unfolding is_expire_stat_cache_time compare_stat_cache_time
is_expire-IsAfter now t n h = elim (Bool-cases (ltb (t.tv_sec + n) now.tv_sec)) [
  | inl e ↦ inl (ground arith)
  | inr e ↦ inr (ground arith, ground arith)
]

is_expire-not-IsAfter :
    (now t : Timespec) (n : ℕ)
    → is_expire_stat_cache_time now t n ≡ false
    → ¬ IsAfter now (record t { tv_sec = t.tv_sec + n })
unfolding is_expire_stat_cache_time compare_stat_cache_time
is_expire-not-IsAfter now t n h (inl a) = ground arith
is_expire-not-IsAfter now t n h (inr a) = let s = a.0 in let m = a.1 in ground arith

-- Two ETags that are there differ, or there are not two that differ.
other_etag-cases :
    (petag r : Option (List ℕ))
    → is_other_etag petag r ≡ true
    → (e : List ℕ) × (e' : List ℕ) × (petag ≡ some e) × (r ≡ some e') × (e ≢ e')
other_etag-cases none r h = absurd cc
other_etag-cases (some e) none h = absurd cc
other_etag-cases (some e) (some e') h = (
  e,
  e',
  refl,
  refl,
  λ p. let z = subst (λ w. str_eq e w ≡ true) p (str_eq_refl e) in ground arith,
)

same_etag-cases :
    (petag r : Option (List ℕ))
    → is_other_etag petag r ≡ false
    → (e e' : List ℕ) → petag ≡ some e
    → r ≡ some e'
    → e ≡ e'
same_etag-cases petag r h e e' p q =
    let r' = subst (λ w. is_other_etag petag w ≡ false) q h in
    let p' = subst (λ w. is_other_etag w (some e') ≡ false) p r' in str_eq-eq e e' (ground arith)

module _ {B : Type 0} (now : Timespec) (c : Cache B) (x : StatCacheEntry B) where
  IsStale-is_expired : is_expired now c x ≡ true → IsStale now c x
  IsStale-is_expired h =
      (ground arith, ground arith, is_expire-IsAfter now x.cache_date c.expire_time (ground arith))

  is_expired-not-IsStale : is_expired now c x ≡ false → ¬ IsStale now c x
  is_expired-not-IsStale h s =
      let free = s.0 in
      let timed = s.1 in
      elim (Bool-cases (is_expire_stat_cache_time now x.cache_date c.expire_time)) [
        | inl e ↦ ground arith
        | inr e ↦ is_expire-not-IsAfter now x.cache_date c.expire_time e s.2
      ]

module _ {B : Type 0} (env : Environment B) where
  -- By what the search returns.
  GotStat-get_stat :
      (now : Timespec) (key : List ℕ) (overcheck : Bool) (petag : Option (List ℕ)) (c : Cache B)
      (k : List ℕ) (x : StatCacheEntry B)
      → find_path key overcheck c.stat_cache ≡ some (k, x)
      → GotStat now petag c k x (get_stat env now key overcheck petag c)
  unfolding get_stat
  GotStat-get_stat now key overcheck petag c k x h =
      subst
        (λ r. GotStat now petag c k x (elim r as (λ _. Option (B × Headers × Bool) × Cache B) [
          | none ↦ (none, c)
          | some p ↦ get_found env now petag c p
        ]))
        (sym h)
        (if-elim (GotStat now petag c k x) (is_expired now c x) (none, del_stat env k c) _
          (λ e. stale (del_stat env k c) (IsStale-is_expired now c x e) (del_stat-gone env k c))
          (λ e.
            if-elim (GotStat now petag c k x) x.noobjcache
              (none, if c.use_negative_cache then c else del_stat env k c) _
              (λ n. no_object e n c.use_negative_cache refl)
              (λ n.
                if-elim (GotStat now petag c k x) (is_other_etag petag (header etag_tag x.meta))
                  (none, del_stat env k c) _
                  (λ q.
                    let o = other_etag-cases petag (header etag_tag x.meta) q in
                    other_etag (del_stat env k c) o.0 o.1 n o.2 o.3 o.4 (del_stat-gone env k c))
                  (λ q.
                    hit
                      (record c {
                        stat_cache = put k (hit_stat now c.is_expire_interval_type x) c.stat_cache;
                      })
                      (is_expired-not-IsStale now c x e) n
                      (same_etag-cases petag (header etag_tag x.meta) q)
                      (find-put k _ c.stat_cache)))))
    where
      no_object :
          is_expired now c x ≡ false
          → x.noobjcache ≡ true
          → (b : Bool) → c.use_negative_cache ≡ b
          → GotStat now petag c k x (none, if b then c else del_stat env k c)
      no_object e n true u = missing (is_expired-not-IsStale now c x e) n u
      no_object e n false u = missing_not_cached (del_stat env k c) n u (del_stat-gone env k c)

  -- For an entry that is under the path, or, with overcheck, under the path with a "/" added, where
  -- GetStat looks first, it does one of these. It returns nothing and the entry is no longer
  -- in the cache: then the entry has no no truncate flag and its time is over while entries expire, or
  -- it stands for a missing object while those are not cached, or it has another ETag than the one
  -- given. It returns nothing and the cache stays as it is: then the entry stands for a missing object,
  -- those are cached, and it has not expired. Or it returns what the entry has, which has not expired,
  -- is no missing object and has no other ETag; in the cache its hit count is one more, and its time is
  -- the one of the call if each use renews it.
  pub get_stat_lem :
      (now : Timespec) (key : List ℕ) (overcheck : Bool) (petag : Option (List ℕ)) (c : Cache B)
      (k : List ℕ) (x : StatCacheEntry B)
      → IsFoundAt key overcheck c.stat_cache k x
      → GotStat now petag c k x (get_stat env now key overcheck petag c)
  get_stat_lem now key overcheck petag c k x h =
      GotStat-get_stat now key overcheck petag c k x
        (find_path-IsFoundAt key overcheck c.stat_cache k x h)

-- ===== src/StatCache/StatTests.antt =====
-- The theorems on the stat cache, at a cache of size 1 with a file "a" that is not uploaded yet and an
-- object "b".
use s3fs_fuse.StatCache.Notruncate.Listed.{get_notruncate_cache-add_notruncate_cache}
use s3fs_fuse.StatCache.Methods.Del.{del_stat-find}
use s3fs_fuse.StatCache.Methods.Add.{add_stat-keeps}
use s3fs_fuse.StatCache.Methods.Recall.{get_stat-add_stat}
use s3fs_fuse.StatCache.Methods.Flags.{change_no_truncate_flag-back}
use s3fs_fuse.StatCache.Methods.Hit.{GotStat, get_stat_lem}
use s3fs_fuse.StatCache.Stat.Chosen.{free_items}
use s3fs_fuse.StatCache.Notruncate.{add_notruncate_cache, has_name, get_notruncate_cache}
use s3fs_fuse.StatCache.Stat.Truncate.{truncate_cache-keeps, length-truncate_cache}
use s3fs_fuse.StatCache.Size.{HasUniqueKeys}
use s3fs_fuse.Headers.{Headers, nocase_eq, nocase_prefix, set_header}
use s3fs_fuse.StatCache.{
  Timespec, insert_by_age, erase_items, is_expire_stat_cache_time, compare_stat_cache_time,
}
use s3fs_fuse.StatCache.Methods.{
  Environment, del_stat, add_stat, get_stat, change_no_truncate_flag, other_key,
}
use s3fs_fuse.StatCache.Stat.{
  Cache, truncate_cache, keep_headers, StatCacheEntry, truncate_stats, is_kept_header, erase_stale,
  choose, pop_to,
}
use s3fs_fuse.Base.{
  ℕ, suc, ◌≤◌, ◌≡◌, refl, subst, ◌≢◌, inl, inr, true, false, ◌||◌, none, some, List, [], ◌∷◌, arith,
  length, bool_clash, str_eq, str_eq_refl, find, put, erase,
}

-- Headers convert unless there are none; every path lies in "/d".
abbrev test_env : Environment ℕ
test_env = record {
  mydirname = λ _. b'/' ∷ b'd' ∷ [];
  mybasename = λ key. key;
  convert_header_to_stat = λ key meta forcedir. elim meta [ [] ↦ none | x ∷ m ↦ some 7 ];
  get_mode = λ meta key. 420;
  is_lnk = λ _. false;
  set_mode = λ mode stbuf. mode;
  zero_stat = 0;
}

abbrev at_second : ℕ → Timespec
at_second n = record { tv_sec = n; tv_nsec = 0 }

abbrev test_entry : ℕ → StatCacheEntry ℕ
test_entry notruncate = record {
  stbuf = 5;
  hit_count = 0;
  cache_date = at_second 5;
  meta = [];
  isforce = false;
  noobjcache = false;
  notruncate = notruncate;
}

abbrev path_a : List ℕ
path_a = b'a' ∷ []

abbrev path_b : List ℕ
path_b = b'b' ∷ []

abbrev path_c : List ℕ
path_c = b'c' ∷ []

abbrev test_cache : Cache ℕ
test_cache = record {
  stat_cache = (path_a, test_entry 1) ∷ (path_b, test_entry 0) ∷ [];
  is_expire_time = true;
  is_expire_interval_type = false;
  expire_time = 900;
  cache_size = 1;
  use_negative_cache = true;
  symlink_cache = [];
  notruncate_file_cache = [];
}

abbrev test_headers : Headers
test_headers = (b'E' ∷ b'T' ∷ b'a' ∷ b'g' ∷ [], b'1' ∷ []) ∷ (b'd' ∷ [], b'2' ∷ []) ∷ []

-- The object goes, the file stays.
truncate_removes : truncate_cache (at_second 6) true test_cache ≡ (path_a, test_entry 1) ∷ []
unfolding truncate_cache truncate_stats erase_stale choose pop_to insert_by_age erase_items erase
    is_expire_stat_cache_time compare_stat_cache_time
truncate_removes = refl

-- "ETag" is kept, "d" is not.
keep_headers_run : keep_headers test_headers [] ≡ (b'E' ∷ b'T' ∷ b'a' ∷ b'g' ∷ [], b'1' ∷ []) ∷ []
unfolding keep_headers is_kept_header nocase_eq nocase_prefix set_header
keep_headers_run = refl

-- Strings that the test tells apart differ.
differ : (s t : List ℕ) → str_eq s t ≡ false → s ≢ t
differ s t h e = bool_clash (str_eq s t) (subst (λ y. str_eq s y ≡ true) e (str_eq_refl s)) h

test_cache-HasUniqueKeys : HasUniqueKeys test_cache.stat_cache
test_cache-HasUniqueKeys = (refl, (refl, tt))

find-path_a : find path_a test_cache.stat_cache ≡ some (test_entry 1)
unfolding find
find-path_a = refl

flag_set-HasUniqueKeys :
    HasUniqueKeys (change_no_truncate_flag test_env path_a true test_cache).stat_cache
unfolding change_no_truncate_flag find put
flag_set-HasUniqueKeys = (refl, (refl, tt))

truncate_cache-keeps_example :
    find path_a (truncate_cache (at_second 6) true test_cache) ≡ some (test_entry 1)
truncate_cache-keeps_example =
    truncate_cache-keeps (at_second 6) true test_cache path_a (test_entry 1)
      test_cache-HasUniqueKeys find-path_a (omega arith)

length-truncate_cache_example :
    suc (length (free_items (truncate_cache (at_second 6) true test_cache))) ≤ 1
length-truncate_cache_example =
    length-truncate_cache (at_second 6) true test_cache (omega arith) test_cache-HasUniqueKeys

abbrev path_b_slash : List ℕ
path_b_slash = b'b' ∷ b'/' ∷ []

del_stat-find_example :
    (find path_b_slash (del_stat test_env path_b_slash test_cache).stat_cache ≡ none)
    × (find path_b (del_stat test_env path_b_slash test_cache).stat_cache ≡ none)
    × ((k : List ℕ)
        → k ≢ path_b_slash
        → k ≢ path_b
        → find k (del_stat test_env path_b_slash test_cache).stat_cache
          ≡ find k test_cache.stat_cache)
del_stat-find_example =
    del_stat-find test_env path_b_slash path_b test_cache (differ path_b_slash [] refl)
      (differ path_b_slash (b'/' ∷ []) refl) (inl refl)

add_stat-keeps_example :
    find path_a
      (add_stat test_env (at_second 6) path_c test_headers false true test_cache).1.stat_cache
    ≡ some (test_entry 1)
add_stat-keeps_example =
    add_stat-keeps test_env (at_second 6) path_c test_headers false true test_cache path_a
      (test_entry 1) test_cache-HasUniqueKeys (differ path_a path_c refl)
      (differ path_a (other_key path_c) refl) find-path_a (omega arith)

get_stat_lem_example :
    GotStat
      (at_second 6)
      none
      test_cache
      path_a
      (test_entry 1)
      (get_stat test_env (at_second 6) path_a false none test_cache)
get_stat_lem_example =
    get_stat_lem test_env (at_second 6) path_a false none test_cache path_a (test_entry 1)
      (inr (refl, find-path_a, (λ e. absurd (bool_clash false e refl))))

-- A second later the entry has not expired.
not_expired : is_expire_stat_cache_time (at_second 7) (at_second 6) 900 ≡ false
unfolding is_expire_stat_cache_time compare_stat_cache_time
not_expired = refl

get_stat-add_stat_example :
    (get_stat test_env
      (at_second 7)
      path_c
      false
      none
      (add_stat test_env (at_second 6) path_c test_headers true false test_cache).1).0
    ≡ some (7, keep_headers test_headers [], true)
get_stat-add_stat_example =
    get_stat-add_stat test_env (at_second 6) (at_second 7) path_c test_headers true false false 7
      test_cache refl refl refl (rw not_expired refl)

change_no_truncate_flag-back_example :
    let d = change_no_truncate_flag test_env path_a true test_cache in
    (find path_a (truncate_cache (at_second 6) true d) ≡ some (test_entry 2))
    × (find path_a (change_no_truncate_flag test_env path_a false d).stat_cache
        ≡ some (test_entry 1))
change_no_truncate_flag-back_example =
    change_no_truncate_flag-back test_env path_a (at_second 6) true test_cache (test_entry 1)
      flag_set-HasUniqueKeys find-path_a

get_notruncate_cache-add_notruncate_cache_example :
    let dir : List ℕ = b'/' ∷ b'd' ∷ [] in
    let m' = (add_notruncate_cache test_env.mydirname test_env.mybasename path_a []).1 in
    has_name path_a (get_notruncate_cache dir [] m').1
    ≡ true || has_name path_a (get_notruncate_cache dir [] []).1
get_notruncate_cache-add_notruncate_cache_example =
    get_notruncate_cache-add_notruncate_cache test_env.mydirname test_env.mybasename path_a []
      path_a [] refl

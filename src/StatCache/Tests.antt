-- ===== src/StatCache/Tests.antt =====
-- The theorem on the symbolic link cache, at a cache of size 1 that is full.
use s3fs_fuse.StatCache.Bound.{add_symlink_lem}
use s3fs_fuse.StatCache.{
  StatCache, add_symlink, Timespec, new_entry, truncate_symlink, truncate_to, erase_expired,
  is_expire_stat_cache_time, compare_stat_cache_time, erase_items, oldest_from, insert_by_age,
}
use mathlib.Core.List.{nil≢cons}
use s3fs_fuse.Base.{
  ℕ, ◌≤◌, ◌≡◌, refl, sym, true, false, some, [], ◌∷◌, arith, length, Map, find, put, erase,
}

abbrev at_time : ℕ → Timespec
at_time n = record { tv_sec = n; tv_nsec = 0 }

-- The link "l" under the key "a"; `stat_cache` has the entries given.
abbrev full_cache : Map ℕ → StatCache ℕ
full_cache m = record {
  stat_cache = m;
  is_expire_time = true;
  is_expire_interval_type = false;
  expire_time = 900;
  cache_size = 1;
  use_negative_cache = true;
  notruncate_file_cache = [];
  symlink_cache = (97 ∷ [], new_entry (at_time 5) (108 ∷ [])) ∷ [];
}

-- The older entry goes if the stat cache is not empty, and stays if it is.
add_removes :
    (add_symlink (at_time 6) (98 ∷ []) (109 ∷ []) (full_cache ((97 ∷ [], 0) ∷ []))).1.symlink_cache
    ≡ (98 ∷ [], new_entry (at_time 6) (109 ∷ [])) ∷ []
unfolding add_symlink find erase put truncate_symlink truncate_to erase_expired
    is_expire_stat_cache_time compare_stat_cache_time erase_items oldest_from insert_by_age
add_removes = refl

add_exceeds :
    length (add_symlink (at_time 6) (98 ∷ []) (109 ∷ []) (full_cache [])).1.symlink_cache ≡ 2
unfolding add_symlink find erase put truncate_symlink
add_exceeds = refl

add_symlink_lem_example :
    ((add_symlink (at_time 6) (98 ∷ []) (109 ∷ []) (full_cache ((97 ∷ [], 0) ∷ []))).0 ≡ true)
    × (find
          (98 ∷ [])
          (add_symlink
            (at_time 6)
            (98 ∷ [])
            (109 ∷ [])
            (full_cache ((97 ∷ [], 0) ∷ []))).1.symlink_cache
        ≡ some (new_entry (at_time 6) (109 ∷ [])))
    × (length
          (add_symlink
            (at_time 6)
            (98 ∷ [])
            (109 ∷ [])
            (full_cache ((97 ∷ [], 0) ∷ []))).1.symlink_cache
        ≤ 1)
add_symlink_lem_example =
    add_symlink_lem (at_time 6) (98 ∷ []) (109 ∷ []) (full_cache ((97 ∷ [], 0) ∷ [])) (omega arith)
      (λ e. nil≢cons (sym e)) (refl, tt) (omega arith)

-- ===== src/MetaHeader/Stat/Attributes.antt =====
-- The attributes that `convert_header_to_stat` sets.
use s3fs_fuse.HeaderNames.{ctime_tag, atime_tag}
use s3fs_fuse.Headers.{Headers}
use s3fs_fuse.MetaHeader.{
  Time, is_dir, get_mode, get_size, get_mtime, get_other_time, is_reg, get_blocks-zero,
}
use s3fs_fuse.MetaHeader.Stat.{System, convert_header_to_stat, is_negative, checked_time, zero_stat}
use s3fs_fuse.Base.{ℕ, ◌≡◌, refl, Bool, true, false, List, pos, if-elim, if-true, if-false}

is_negative-checked_time :
    (t : Time) → is_negative (checked_time zero_stat.st_mtim t).tv_sec ≡ false
is_negative-checked_time t =
    if-elim (λ (u : Time). is_negative u.tv_sec ≡ false) (is_negative t.tv_sec) _ t (λ _. refl)
      (λ e. e)

-- No time is before 1970; a directory has the size 4096 and every other file that of the header
-- Content-Length; the number of blocks is 0, whatever the size is.
pub convert_header_to_stat_lem :
    (system : System) (path : List ℕ) (meta : Headers) (forcedir : Bool)
    → let s = convert_header_to_stat system path meta forcedir in
      (is_negative s.st_mtim.tv_sec ≡ false)
      × (is_negative s.st_ctim.tv_sec ≡ false)
      × (is_negative s.st_atim.tv_sec ≡ false)
      × (is_dir s.st_mode ≡ true → s.st_size ≡ pos 4096)
      × (is_dir s.st_mode ≡ false → s.st_size ≡ get_size system.strtoll meta)
      × (s.st_blocks ≡ 0)
unfolding convert_header_to_stat
convert_header_to_stat_lem system path meta forcedir =
    let mode = get_mode system.strtoll system.complement_stat meta path true forcedir in
    (
      is_negative-checked_time (get_mtime system.strtoll system.last_modified meta true),
      is_negative-checked_time
          (get_other_time system.strtoll system.last_modified ctime_tag meta true),
      is_negative-checked_time
          (get_other_time system.strtoll system.last_modified atime_tag meta true),
      (λ e. if-true (is_dir mode) _ _ e),
      (λ e. if-false (is_dir mode) _ _ e),
      if-elim (λ n. n ≡ 0) (is_reg mode) _ _ (λ _. get_blocks-zero) (λ _. refl),
    )

-- ===== src/MetaHeader/Stat.antt =====
-- `convert_header_to_stat` of src/metaheader.cpp. Of `struct stat` the members that it sets.
use s3fs_fuse.HeaderNames.{
  ctime_tag, atime_tag, uid_tag, owner_tag, goog_uid_tag, gid_tag, group_tag, goog_gid_tag,
}
use s3fs_fuse.Headers.{Headers}
use s3fs_fuse.MetaHeader.{
  get_blocks, Time, Parsed, get_mode, is_reg, get_mtime, get_other_time, is_dir, get_size, get_id,
}
pub mod Attributes
use s3fs_fuse.Base.{ℕ, Bool, true, false, List, if◌then◌else◌, ℤ, pos, negsuc}

pub record Stat : Type 0 where
  pub st_nlink : ℕ
  pub st_mode : ℕ
  pub st_blocks : ℕ
  pub st_blksize : ℕ
  pub st_mtim : Time
  pub st_ctim : Time
  pub st_atim : Time
  pub st_size : ℤ
  pub st_uid : ℕ
  pub st_gid : ℕ

-- `*pst = {}`
abbrev pub zero_stat : Stat
zero_stat = record {
  st_nlink = 0;
  st_mode = 0;
  st_blocks = 0;
  st_blksize = 0;
  st_mtim = record { tv_sec = pos 0; tv_nsec = pos 0 };
  st_ctim = record { tv_sec = pos 0; tv_nsec = pos 0 };
  st_atim = record { tv_sec = pos 0; tv_nsec = pos 0 };
  st_size = pos 0;
  st_uid = 0;
  st_gid = 0;
}

abbrev pub is_negative : ℤ → Bool
is_negative (pos n) = false
is_negative (negsuc n) = true

-- `get_blocks` of a size that is not negative.
abbrev pub blocks_of : ℤ → ℕ
blocks_of (pos n) = get_blocks n
blocks_of (negsuc n) = 0

-- The time that is set, given the one that `pst` has.
abbrev pub checked_time : Time → Time → Time
checked_time old t =
    if is_negative old.tv_sec
    then record old { tv_sec = pos 0 }
    else if is_negative t.tv_sec
    then record { tv_sec = pos 0; tv_nsec = pos 0 }
    else t

-- What the conversion calls outside of the program.
pub record System : Type 0 where
  pub strtoll : List ℕ → ℕ → Parsed
  pub last_modified : List ℕ → ℤ
  pub geteuid : ℕ
  pub getegid : ℕ
  pub complement_stat : Bool

-- For a path and a result that are not null, when the return value is true.
unfoldable pub convert_header_to_stat : System → List ℕ → Headers → Bool → Stat
convert_header_to_stat system path meta forcedir =
    let mode = get_mode system.strtoll system.complement_stat meta path true forcedir in
    record {
      st_nlink = 1;
      st_mode = mode;
      st_blocks = if is_reg mode then blocks_of zero_stat.st_size else zero_stat.st_blocks;
      st_blksize = 4096;
      st_mtim =
          checked_time zero_stat.st_mtim (get_mtime system.strtoll system.last_modified meta true);
      st_ctim =
          checked_time zero_stat.st_ctim
            (get_other_time system.strtoll system.last_modified ctime_tag meta true);
      st_atim =
          checked_time zero_stat.st_atim
            (get_other_time system.strtoll system.last_modified atime_tag meta true);
      st_size = if is_dir mode then pos 4096 else get_size system.strtoll meta;
      st_uid = get_id system.strtoll uid_tag owner_tag goog_uid_tag system.geteuid meta;
      st_gid = get_id system.strtoll gid_tag group_tag goog_gid_tag system.getegid meta;
    }

-- ===== src/MetaHeader/Tests.antt =====
-- The theorems on attributes, where `strtoll` reads decimal numbers only.
use s3fs_fuse.MetaHeader.Merge.{merged, last_value, header-merge_headers}
use s3fs_fuse.MetaHeader.{
  raw_mode, get_mode, get_mtime, is_dir, get_size, get_other_time, get_time, get_lastmodified,
  get_id, cvt_strtoofft, s3fs_strtoofft, get_blocks, merge_headers,
}
use s3fs_fuse.HeaderNames.{content_length_tag}
use s3fs_fuse.MetaHeader.Stat.Attributes.{convert_header_to_stat_lem}
use s3fs_fuse.MetaHeader.ModeOf.{GotMode}
use s3fs_fuse.MetaHeader.Mode.{get_mode_lem}
use s3fs_fuse.Headers.{Headers, header, nocase_eq, set_header}
use s3fs_fuse.MetaHeader.Stat.{System, convert_header_to_stat, is_negative}
use s3fs_fuse.Base.{ℕ, ◌+◌, ◌-◌, ◌*◌, ◌≡◌, refl, true, false, List, [], ◌∷◌, pos}

abbrev value_of : ℕ → List ℕ → ℕ
value_of n [] = n
value_of n (c ∷ s) = value_of (10 * n + (c - b'0')) s

abbrev test_system : System
test_system = record {
  strtoll = λ s base. record { value = pos (value_of 0 s); left = []; is_out_of_range = false };
  last_modified = λ s. pos 100;
  geteuid = 1000;
  getegid = 1000;
  complement_stat = false;
}

-- A file of 700 bytes.
abbrev file_headers : Headers
file_headers = (content_length_tag, b'7' ∷ b'0' ∷ b'0' ∷ []) ∷ []

abbrev file_path : List ℕ
file_path = b'f' ∷ []

-- The attributes of a regular file with the mode 0640, of 700 bytes in no blocks.
file_run : convert_header_to_stat test_system file_path file_headers false ≡ record {
  st_nlink = 1;
  st_mode = 33184;
  st_blocks = 0;
  st_blksize = 4096;
  st_mtim = record { tv_sec = pos 0; tv_nsec = pos 0 };
  st_ctim = record { tv_sec = pos 0; tv_nsec = pos 0 };
  st_atim = record { tv_sec = pos 0; tv_nsec = pos 0 };
  st_size = pos 700;
  st_uid = 1000;
  st_gid = 1000;
}
unfolding convert_header_to_stat get_mode raw_mode get_mtime get_other_time get_time
    get_lastmodified get_size get_id cvt_strtoofft s3fs_strtoofft header nocase_eq get_blocks
file_run = refl

convert_header_to_stat_lem_example :
    let s = convert_header_to_stat test_system file_path file_headers false in
    (is_negative s.st_mtim.tv_sec ≡ false)
    × (is_negative s.st_ctim.tv_sec ≡ false)
    × (is_negative s.st_atim.tv_sec ≡ false)
    × (is_dir s.st_mode ≡ true → s.st_size ≡ pos 4096)
    × (is_dir s.st_mode ≡ false → s.st_size ≡ get_size test_system.strtoll file_headers)
    × (s.st_blocks ≡ 0)
convert_header_to_stat_lem_example =
    convert_header_to_stat_lem test_system file_path file_headers false

get_mode_lem_example :
    GotMode test_system.strtoll false file_headers file_path true true
      (get_mode test_system.strtoll false file_headers file_path true true)
get_mode_lem_example = get_mode_lem test_system.strtoll false file_headers file_path true true

-- "ETag" is in the base as "etag"; "a" is not.
abbrev base_headers : Headers
base_headers = (b'e' ∷ b't' ∷ b'a' ∷ b'g' ∷ [], b'1' ∷ []) ∷ []

abbrev more_headers : Headers
more_headers = (b'E' ∷ b'T' ∷ b'a' ∷ b'g' ∷ [], b'2' ∷ []) ∷ (b'a' ∷ [], b'3' ∷ []) ∷ []

merge_run :
    merge_headers false base_headers more_headers
    ≡ ((b'e' ∷ b't' ∷ b'a' ∷ b'g' ∷ [], b'2' ∷ []) ∷ [], true)
unfolding merge_headers set_header header nocase_eq
merge_run = refl

header-merge_headers_example :
    header (b'a' ∷ []) (merge_headers false base_headers more_headers).0
    ≡ merged false (last_value (b'a' ∷ []) more_headers) (header (b'a' ∷ []) base_headers)
header-merge_headers_example = header-merge_headers false (b'a' ∷ []) more_headers base_headers

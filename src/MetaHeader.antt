-- ===== src/MetaHeader.antt =====
-- Conversions from HTTP headers to file attributes: src/metaheader.cpp and `s3fs_strtoofft` of
-- src/string_util.cpp. `strtoll`, the conversion of a date, `geteuid` and `getegid` are parameters, and
-- so is the option complement_stat. A `mode_t` is a number of 32 bits; a number that is or'ed to bits
-- that are 0 is added.
use s3fs_fuse.HeaderNames.{
  mtime_tag, last_modified_tag, content_type_tag, mode_tag, x_directory, content_length_tag,
  ctime_tag, permissions_tag, goog_mtime_tag, unix_directory, goog_mode_tag, binary_stream,
  atime_tag, uid_tag, application_stream, gid_tag, text_plain, owner_tag, group_tag,
}
use s3fs_fuse.Headers.{Headers, header, set_header}
mod Merge
mod ModeOf
mod Mode
mod Stat
mod Tests
use s3fs_fuse.Base.{
  ℕ, ◌+◌, ◌-◌, ◌/◌, ◌%◌, ◌^◌, ◌≡◌, refl, Bool, true, false, not, ◌&&◌, ◌||◌, Option, none, some,
  List, [], ◌∷◌, ltb, ◌==◌, if◌then◌else◌, ℤ, pos, negsuc, str_eq,
}

-- `std::string::erase` from a character on, and what is behind it.
pub before_char : ℕ → List ℕ → List ℕ
before_char c [] = []
before_char c (d ∷ s) = let rest = before_char c s in if c == d then [] else d ∷ rest

pub behind_char : ℕ → List ℕ → Option (List ℕ)
behind_char c [] = none
behind_char c (d ∷ s) = let rest = behind_char c s in if c == d then some s else rest

pub record Time : Type 0 where
  pub tv_sec : ℤ
  pub tv_nsec : ℤ

abbrev pub default_timespec : Time
default_timespec = record { tv_sec = negsuc 0; tv_nsec = pos 0 }

-- What `strtoll` returns: the value, what is left of the string, and whether `errno` is set.
pub record Parsed : Type 0 where
  pub value : ℤ
  pub left : List ℕ
  pub is_out_of_range : Bool

abbrev pub is_empty_text : List ℕ → Bool
is_empty_text [] = true
is_empty_text (c ∷ s) = false

-- `static_cast` to an unsigned type of 32 bits.
abbrev pub to_unsigned : ℤ → ℕ
to_unsigned (pos n) = n % 2 ^ 32
to_unsigned (negsuc n) = 2 ^ 32 - 1 - n % 2 ^ 32

abbrev pub ends_with_slash : List ℕ → Bool
ends_with_slash [] = false
ends_with_slash (c ∷ []) = c == b'/'
ends_with_slash (c ∷ d ∷ s) = ends_with_slash (d ∷ s)

-- The file type of a mode: the bits of `S_IFMT`.
abbrev pub file_type : ℕ → ℕ
file_type mode = mode / 4096 % 16

abbrev pub s_ifdir : ℕ
s_ifdir = 16384

abbrev pub s_ifreg : ℕ
s_ifreg = 32768

abbrev pub is_dir : ℕ → Bool
is_dir mode = file_type mode == 4

abbrev pub is_reg : ℕ → Bool
is_reg mode = file_type mode == 8

pub get_blocks : ℕ → ℕ
get_blocks size = size / 512 + (if size % 512 == 0 then 0 else 1)

pub get_blocks-zero : get_blocks 0 ≡ 0
unfolding get_blocks
get_blocks-zero = refl

-- `0 < n`
abbrev pub is_above_zero : ℤ → Bool
is_above_zero (pos n) = ltb 0 n
is_above_zero (negsuc n) = false

abbrev pub is_zero_or_one : ℤ → Bool
is_zero_or_one (pos n) = ltb n 2
is_zero_or_one (negsuc n) = false

abbrev pub is_zero : ℤ → Bool
is_zero (pos n) = n == 0
is_zero (negsuc n) = false

-- `&= ~bit`
abbrev pub cut_bit : ℕ → ℕ → ℕ
cut_bit bit mode = if mode / bit % 2 == 0 then mode else mode - bit

abbrev pub is_some : Option (List ℕ) → Bool
is_some none = false
is_some (some s) = true

abbrev pub has_header : List ℕ → Headers → Bool
has_header tag meta = is_some (header tag meta)

-- With complement_stat, a mode without any permission gets those to read.
abbrev pub least_permission : Bool → ℕ → ℕ
least_permission complement_stat mode =
    if complement_stat && (mode % 512 == 0)
    then mode + 256 + (if mode / 16384 % 2 == 0 then 0 else 64)
    else mode

module _ (strtoll : List ℕ → ℕ → Parsed) where
  -- `none` for false.
  pub s3fs_strtoofft : List ℕ → ℕ → Option ℤ
  s3fs_strtoofft str base =
      let r = strtoll str base in
      if is_empty_text str || r.is_out_of_range || not (is_empty_text r.left)
      then none
      else some r.value

  pub cvt_strtoofft : List ℕ → ℕ → ℤ
  cvt_strtoofft str base = elim (s3fs_strtoofft str base) [ none ↦ pos 0 | some n ↦ n ]

  pub cvt_string_to_time : List ℕ → Time
  cvt_string_to_time str = record {
    tv_sec = cvt_strtoofft (before_char b'.' str) 10;
    tv_nsec = elim (behind_char b'.' str) [ none ↦ pos 0 | some s ↦ cvt_strtoofft s 10 ];
  }

  pub get_time : Headers → List ℕ → Time
  get_time meta tag = elim (header tag meta) [
    | none ↦ default_timespec
    | some s ↦ cvt_string_to_time s
  ]

  pub get_size : Headers → ℤ
  get_size meta = elim (header content_length_tag meta) [
    | none ↦ pos 0
    | some s ↦ cvt_strtoofft s 10
  ]

  module _ (last_modified : List ℕ → ℤ) where
    pub get_lastmodified : Headers → ℤ
    get_lastmodified meta = elim (header last_modified_tag meta) [
      | none ↦ negsuc 0
      | some s ↦ last_modified s
    ]

    abbrev pub or_last_modified : Headers → Bool → Time
    or_last_modified meta overcheck =
        if overcheck
        then record { tv_sec = get_lastmodified meta; tv_nsec = pos 0 }
        else default_timespec

    pub get_mtime : Headers → Bool → Time
    get_mtime meta overcheck =
        let t = get_time meta mtime_tag in
        let g = get_time meta goog_mtime_tag in
        if is_above_zero t.tv_sec
        then t
        else if is_above_zero g.tv_sec
        then g
        else or_last_modified meta overcheck

    -- `get_ctime` and `get_atime`, by the header.
    pub get_other_time : List ℕ → Headers → Bool → Time
    get_other_time tag meta overcheck =
        let t = get_time meta tag in
        if is_above_zero t.tv_sec then t else or_last_modified meta overcheck

  -- `get_uid` and `get_gid`, by the three headers and the value without them.
  pub get_id : List ℕ → List ℕ → List ℕ → ℕ → Headers → ℕ
  get_id tag s3sync_tag goog_tag own meta = elim (header tag meta) [
    | some s ↦ to_unsigned (cvt_strtoofft s 0)
    | none ↦ elim (header s3sync_tag meta) [
      | some s ↦ to_unsigned (cvt_strtoofft s 0)
      | none ↦ elim (header goog_tag meta) [ some s ↦ to_unsigned (cvt_strtoofft s 0) | none ↦ own ]
    ]
  ]

  -- The mode that the headers give, and whether s3sync has set it.
  pub raw_mode : Headers → List ℕ → ℕ × Bool
  raw_mode meta strpath = elim (header mode_tag meta) [
    | some s ↦ (to_unsigned (cvt_strtoofft s 0), false)
    | none ↦ elim (header permissions_tag meta) [
      | some s ↦ (to_unsigned (cvt_strtoofft s 0), true)
      | none ↦ elim (header goog_mode_tag meta) [
        | some s ↦ (to_unsigned (cvt_strtoofft s 8), false)
        | none ↦ (if ends_with_slash strpath then 488 else 416, false)
      ]
    ]
  ]

  -- The file type that is or'ed to a mode without one, by the content type.
  abbrev pub type_of_content : Bool → Headers → List ℕ → List ℕ → ℕ
  type_of_content complement_stat meta strpath content =
      if str_eq content x_directory || str_eq content unix_directory
      then s_ifdir
      else if ends_with_slash strpath
      then (if str_eq content binary_stream || str_eq content application_stream
          then s_ifdir
          else if complement_stat && str_eq content text_plain && is_zero_or_one (get_size meta)
          then s_ifdir
          else s_ifreg)
      else s_ifreg

  abbrev pub guess_type : Bool → Headers → List ℕ → Bool → ℕ
  guess_type complement_stat meta strpath forcedir =
      if forcedir then s_ifdir else elim (header content_type_tag meta) [
        | none ↦ s_ifreg
        | some s ↦ type_of_content complement_stat meta strpath (before_char b';' s)
      ]

  pub get_mode : Bool → Headers → List ℕ → Bool → Bool → ℕ
  get_mode complement_stat meta strpath checkdir forcedir =
      let r = raw_mode meta strpath in
      if not (file_type r.0 == 0)
      then r.0
      else if not r.1
      then least_permission complement_stat
          (r.0 + (if checkdir then guess_type complement_stat meta strpath forcedir else 0))
      else if not checkdir
      then cut_bit s_ifreg (cut_bit s_ifdir r.0)
      else r.0

pub is_need_check_obj_detail : (List ℕ → ℕ → Parsed) → Headers → Bool
is_need_check_obj_detail strtoll meta =
    if not (is_zero (get_size strtoll meta))
      || has_header mode_tag meta
      || has_header mtime_tag meta
      || has_header ctime_tag meta
      || has_header atime_tag meta
      || has_header uid_tag meta
      || has_header gid_tag meta
      || has_header owner_tag meta
      || has_header group_tag meta
      || has_header permissions_tag meta
    then false
    else elim (header content_type_tag meta) [ none ↦ false | some s ↦ not (str_eq x_directory s) ]

-- The base afterwards and whether a header was added.
pub merge_headers : Bool → Headers → Headers → Headers × Bool
merge_headers add_noexist base [] = (base, false)
merge_headers add_noexist base (x ∷ additional) =
    let set = merge_headers add_noexist (set_header x.0 x.1 base) additional in
    let left = merge_headers add_noexist base additional in
    if add_noexist || has_header x.0 base then (set.0, true) else left

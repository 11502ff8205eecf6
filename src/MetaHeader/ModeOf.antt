-- ===== src/MetaHeader/ModeOf.antt =====
-- The mode of a file, described by the headers.
use s3fs_fuse.HeaderNames.{
  x_directory, content_type_tag, mode_tag, unix_directory, binary_stream, permissions_tag,
  application_stream, goog_mode_tag, text_plain,
}
use s3fs_fuse.Headers.{Headers, header}
use s3fs_fuse.MetaHeader.{
  Parsed, file_type, ends_with_slash, before_char, to_unsigned, cvt_strtoofft, is_zero_or_one,
  get_size,
}
use s3fs_fuse.Base.{
  ℕ, ◌+◌, ◌%◌, ◌≡◌, ◌≢◌, ◌⊎◌, Bool, true, false, ◌&&◌, ◌||◌, none, some, List, ◌==◌, if◌then◌else◌,
  str_eq,
}

-- The mode that the headers give, and whether s3sync has set it: the first of the three headers that
-- is there counts, the one of GCS in octal; without any it goes by the path.
pub data HeaderMode (strtoll : List ℕ → ℕ → Parsed) (meta : Headers) (strpath : List ℕ)
    : ℕ → Bool → Type 0 where
  by_mode :
      (s : List ℕ)
      → header mode_tag meta ≡ some s
      → HeaderMode strtoll meta strpath (to_unsigned (cvt_strtoofft strtoll s 0)) false
  by_permissions :
      (s : List ℕ)
      → header mode_tag meta ≡ none
      → header permissions_tag meta ≡ some s
      → HeaderMode strtoll meta strpath (to_unsigned (cvt_strtoofft strtoll s 0)) true
  by_goog_mode :
      (s : List ℕ)
      → header mode_tag meta ≡ none
      → header permissions_tag meta ≡ none
      → header goog_mode_tag meta ≡ some s
      → HeaderMode strtoll meta strpath (to_unsigned (cvt_strtoofft strtoll s 8)) false
  by_path :
      (n : ℕ)
      → header mode_tag meta ≡ none
      → header permissions_tag meta ≡ none
      → header goog_mode_tag meta ≡ none
      → n ≡ (if ends_with_slash strpath then 488 else 416)
      → HeaderMode strtoll meta strpath n false

module _ (strtoll : List ℕ → ℕ → Parsed) (complement_stat : Bool) (meta : Headers)
    (strpath : List ℕ) where
  -- The content type is a directory's: always, or for a path with a slash at its end.
  abbrev pub is_dir_content : List ℕ → Bool
  is_dir_content s =
      str_eq s x_directory
      || str_eq s unix_directory
      || (ends_with_slash strpath
          && (str_eq s binary_stream
              || str_eq s application_stream
              || (complement_stat
                  && str_eq s text_plain
                  && is_zero_or_one (get_size strtoll meta))))

  abbrev pub looks_like_dir : Bool
  looks_like_dir = elim (header content_type_tag meta) [
    | none ↦ false
    | some s ↦ is_dir_content (before_char b';' s)
  ]

-- The permission that is added to a mode without any, with complement_stat.
abbrev pub added : Bool → ℕ → ℕ → ℕ
added complement_stat m bits = if complement_stat && (m % 512 == 0) then bits else 0

-- The mode that is returned.
pub data GotMode (strtoll : List ℕ → ℕ → Parsed) (complement_stat : Bool) (meta : Headers)
    (strpath : List ℕ) (checkdir forcedir : Bool) : ℕ → Type 0 where
  kept :
      (m : ℕ) (is_s3sync : Bool)
      → HeaderMode strtoll meta strpath m is_s3sync
      → (file_type m ≢ 0) ⊎ (is_s3sync ≡ true)
      → GotMode strtoll complement_stat meta strpath checkdir forcedir m
  unchecked :
      (m : ℕ)
      → HeaderMode strtoll meta strpath m false
      → file_type m ≡ 0
      → checkdir ≡ false
      → GotMode strtoll complement_stat meta strpath checkdir forcedir
          (m + added complement_stat m 256)
  directory :
      (m : ℕ)
      → HeaderMode strtoll meta strpath m false
      → file_type m ≡ 0
      → checkdir ≡ true
      → (forcedir || looks_like_dir strtoll complement_stat meta strpath) ≡ true
      → GotMode strtoll complement_stat meta strpath checkdir forcedir
          (m + 16384 + added complement_stat m 320)
  regular :
      (m : ℕ)
      → HeaderMode strtoll meta strpath m false
      → file_type m ≡ 0
      → checkdir ≡ true
      → (forcedir || looks_like_dir strtoll complement_stat meta strpath) ≡ false
      → GotMode strtoll complement_stat meta strpath checkdir forcedir
          (m + 32768 + added complement_stat m 256)

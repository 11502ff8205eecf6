-- ===== src/MetaHeader/Mode.antt =====
-- The mode that `get_mode` returns.
use s3fs_fuse.HeaderNames.{
  x_directory, unix_directory, binary_stream, application_stream, text_plain, content_type_tag,
  mode_tag, permissions_tag, goog_mode_tag,
}
use s3fs_fuse.MetaHeader.ModeOf.{
  added, looks_like_dir, is_dir_content, HeaderMode, by_mode, by_permissions, by_goog_mode, by_path,
  GotMode, kept, unchecked, directory, regular,
}
use s3fs_fuse.Headers.{Headers, header}
use s3fs_fuse.MetaHeader.{
  Parsed, file_type, least_permission, cut_bit, guess_type, get_mode, s_ifreg, raw_mode, s_ifdir,
  type_of_content, ends_with_slash, is_zero_or_one, get_size, before_char, to_unsigned,
  cvt_strtoofft,
}
use s3fs_fuse.Base.{
  ℕ, ◌+◌, ◌/◌, ◌%◌, ◌≡◌, refl, sym, subst, inl, inr, Bool, true, false, not, ◌&&◌, ◌||◌, Option,
  none, some, List, arith, ◌==◌, if◌then◌else◌, if-elim, str_eq,
}

least_permission-unchecked :
    (b : Bool) (m : ℕ) → file_type m ≡ 0 → least_permission b (m + 0) ≡ m + added b m 256
least_permission-unchecked b m h = ground arith

least_permission-directory :
    (b : Bool) (m : ℕ)
    → file_type m ≡ 0
    → least_permission b (m + 16384) ≡ m + 16384 + added b m 320
least_permission-directory b m h = ground arith

least_permission-regular :
    (b : Bool) (m : ℕ)
    → file_type m ≡ 0
    → least_permission b (m + 32768) ≡ m + 32768 + added b m 256
least_permission-regular b m h = ground arith

-- The tests of the content type in one.
dir-cases :
    (p q e b a c : Bool) (d r : ℕ)
    → (if p || q then d else if e then (if b || a then d else if c then d else r) else r)
      ≡ (if p || q || (e && (b || a || c)) then d else r)
dir-cases p q e b a c d r = ground arith

-- The bits that are to be cut are not there.
uncut : (m : ℕ) → file_type m ≡ 0 → cut_bit s_ifreg (cut_bit s_ifdir m) ≡ m
uncut m h =
    let a : m / 16384 % 2 ≡ 0 = omega arith in
    let b : m / 32768 % 2 ≡ 0 = omega arith in
    if-elim (λ n. cut_bit s_ifreg n ≡ m) (m / s_ifdir % 2 == 0) m _
      (λ _.
        if-elim (λ n. n ≡ m) (m / s_ifreg % 2 == 0) m _ (λ _. refl) (λ e. absurd (ground arith)))
      (λ e. absurd (ground arith))

module _ (strtoll : List ℕ → ℕ → Parsed) (complement_stat : Bool) (meta : Headers)
    (strpath : List ℕ) where
  HeaderMode-raw_mode :
      let r = raw_mode strtoll meta strpath in HeaderMode strtoll meta strpath r.0 r.1
  unfolding raw_mode
  HeaderMode-raw_mode =
      go (header mode_tag meta) (header permissions_tag meta) (header goog_mode_tag meta) refl refl
        refl
    where
      go :
          (a b c : Option (List ℕ))
          → header mode_tag meta ≡ a
          → header permissions_tag meta ≡ b
          → header goog_mode_tag meta ≡ c
          → let r : ℕ × Bool = elim a [
            | some s ↦ (to_unsigned (cvt_strtoofft strtoll s 0), false)
            | none ↦ elim b [
              | some s ↦ (to_unsigned (cvt_strtoofft strtoll s 0), true)
              | none ↦ elim c [
                | some s ↦ (to_unsigned (cvt_strtoofft strtoll s 8), false)
                | none ↦ (if ends_with_slash strpath then 488 else 416, false)
              ]
            ]
          ] in
            HeaderMode strtoll meta strpath r.0 r.1
      go (some s) b c p q r = by_mode s p
      go none (some s) c p q r = by_permissions s p q
      go none none (some s) p q r = by_goog_mode s p q r
      go none none none p q r = by_path _ p q r refl

  guess_type-dir :
      (forcedir : Bool)
      → guess_type strtoll complement_stat meta strpath forcedir
        ≡ (if forcedir || looks_like_dir strtoll complement_stat meta strpath then 16384 else 32768)
  guess_type-dir true = refl
  guess_type-dir false = go (header content_type_tag meta)
    where
      content :
          (s : List ℕ)
          → type_of_content strtoll complement_stat meta strpath s
            ≡ (if is_dir_content strtoll complement_stat meta strpath s then 16384 else 32768)
      content s =
          dir-cases (str_eq s x_directory) (str_eq s unix_directory) (ends_with_slash strpath)
            (str_eq s binary_stream) (str_eq s application_stream)
            (complement_stat && str_eq s text_plain && is_zero_or_one (get_size strtoll meta)) 16384
            32768

      go :
          (r : Option (List ℕ))
          → elim r as (λ _. ℕ) [
            | none ↦ s_ifreg
            | some s ↦ type_of_content strtoll complement_stat meta strpath (before_char b';' s)
          ]
            ≡ (if (elim r as (λ _. Bool) [
              | none ↦ false
              | some s ↦ is_dir_content strtoll complement_stat meta strpath (before_char b';' s)
            ])
                then 16384
                else 32768)
      go none = refl
      go (some s) = content (before_char b';' s)

  -- GetMode takes the mode of the first of the three headers that is there, the last one in octal, and
  -- without any 0750 or 0640, by the slash at the path's end. A mode with a file type, or one that
  -- s3sync has set, is returned as it is. To any other one checkdir adds the type: a directory when it
  -- is forced or when the content type, without its parameters, is a directory's, or is one of the
  -- general types, or text of at most one byte with complement_stat, for a path with a slash at its
  -- end; else a regular file. With complement_stat and without any permission it can be read then, and
  -- entered if it is a directory.
  pub get_mode_lem :
      (checkdir forcedir : Bool)
      → GotMode strtoll complement_stat meta strpath checkdir forcedir
          (get_mode strtoll complement_stat meta strpath checkdir forcedir)
  unfolding get_mode
  get_mode_lem checkdir forcedir =
      let r = raw_mode strtoll meta strpath in
      let h = HeaderMode-raw_mode in
      if-elim (GotMode strtoll complement_stat meta strpath checkdir forcedir)
        (not (file_type r.0 == 0)) r.0 _ (λ e. kept r.0 r.1 h (inl (ground arith)))
        (λ e.
          let z : file_type r.0 ≡ 0 = ground arith in
          if-elim (GotMode strtoll complement_stat meta strpath checkdir forcedir) (not r.1) _ _
            (λ s. guess checkdir r.0 r.1 h z (ground arith))
            (λ s.
              if-elim (GotMode strtoll complement_stat meta strpath checkdir forcedir)
                (not checkdir) _ r.0
                (λ _.
                  subst (GotMode strtoll complement_stat meta strpath checkdir forcedir)
                    (sym (uncut r.0 z)) (kept r.0 r.1 h (inr (ground arith))))
                (λ _. kept r.0 r.1 h (inr (ground arith)))))
    where
      checked :
          (m : ℕ)
          → HeaderMode strtoll meta strpath m false
          → file_type m ≡ 0
          → GotMode strtoll complement_stat meta strpath true forcedir (
              least_permission complement_stat (
                m
                + (if forcedir || looks_like_dir strtoll complement_stat meta strpath
                    then 16384
                    else 32768)))
      checked m h z =
          if-elim
            (λ t.
              GotMode strtoll complement_stat meta strpath true forcedir
                (least_permission complement_stat (m + t)))
            (forcedir || looks_like_dir strtoll complement_stat meta strpath) 16384 32768
            (λ e.
              subst (GotMode strtoll complement_stat meta strpath true forcedir)
                (sym (least_permission-directory complement_stat m z)) (directory m h z refl e))
            (λ e.
              subst (GotMode strtoll complement_stat meta strpath true forcedir)
                (sym (least_permission-regular complement_stat m z)) (regular m h z refl e))

      guess :
          (c : Bool) (m : ℕ) (s : Bool)
          → HeaderMode strtoll meta strpath m s
          → file_type m ≡ 0
          → s ≡ false
          → GotMode strtoll complement_stat meta strpath c forcedir (
              least_permission complement_stat
                (m + (if c then guess_type strtoll complement_stat meta strpath forcedir else 0)))
      guess c m true h z e = cc
      guess false m false h z e =
          subst (GotMode strtoll complement_stat meta strpath false forcedir)
            (sym (least_permission-unchecked complement_stat m z)) (unchecked m h z refl)
      guess true m false h z e =
          subst
            (λ t.
              GotMode strtoll complement_stat meta strpath true forcedir
                (least_permission complement_stat (m + t)))
            (sym (guess_type-dir forcedir)) (checked m h z)

-- ===== src/PageList/Resize.antt =====
-- `Resize` against the byte view.
use s3fs_fuse.Base.{
  ℕ, ◌-◌, ◌≤◌, ◌<◌, ◌≡◌, refl, sym, ◌∙◌, Bool, ◌&&◌, ◌||◌, none, some, [], ◌∷◌, ◌++◌, arith, ltb,
  if◌then◌else◌,
}
use mathlib.Core.Option.{Option}
use native.Mathlib.Decide.{dec_lt}
use s3fs_fuse.PageList.{Fdpage, PageList, size, compress, resize_area, resize}
use s3fs_fuse.PageList.View.{
  Flags, flags_at, Contiguous, Contiguous-append, end_from, end_from-append, flags_at-append,
  flags_at-inside, flags_at-past, size_of-end_from,
}
use s3fs_fuse.PageList.Compress.{
  flags_at-compress_pages, Contiguous-compress_pages, end_from-compress_pages, IsCompressed,
  IsCompressed-compress_pages,
}
use s3fs_fuse.PageList.Cut.{flags_at-cut_pages, Contiguous-cut_pages}

pub size-end_from : (l : PageList) → size l ≡ end_from 0 l.pages
unfolding size
size-end_from l = size_of-end_from l.pages

abbrev pub byte : PageList → ℕ → Option Flags
byte l b = flags_at b l.pages

-- A list of pages that starts at the start of the file and has no gap.
abbrev pub IsWhole : PageList → Type 0
IsWhole l = Contiguous 0 l.pages

pub byte-past : (b : ℕ) (l : PageList) → IsWhole l → size l ≤ b → byte l b ≡ none
byte-past b l w h = flags_at-past b 0 l.pages w (omega (arith, size-end_from l))

pub compress-IsWhole : (l : PageList) → IsWhole l → IsWhole (compress l)
unfolding compress
compress-IsWhole l w = Contiguous-compress_pages l.pages w

pub size-compress : (l : PageList) → IsWhole l → size (compress l) ≡ size l
unfolding compress
size-compress l w =
    size-end_from (compress l) ∙ end_from-compress_pages l.pages w ∙ sym (size-end_from l)

pub byte-compress : (b : ℕ) (l : PageList) → IsWhole l → byte (compress l) b ≡ byte l b
unfolding compress
byte-compress b l w = flags_at-compress_pages b 0 l.pages w

module _ (n : ℕ) (is_loaded is_modified : Bool) (l : PageList) (w : IsWhole l) where
  abbrev added : Fdpage
  added = record { offset = size l; bytes = n - size l; loaded = is_loaded; modified = is_modified }

  added-IsWhole :
      size l < n → Contiguous 0 (l.pages ++ added ∷ []) × (end_from 0 (l.pages ++ added ∷ []) ≡ n)
  added-IsWhole h = (
    Contiguous-append 0 l.pages (added ∷ []) w (size-end_from l, tt),
    rw end_from-append (omega (arith)),
  )

  byte-added :
      (b : ℕ)
      → flags_at b (l.pages ++ added ∷ []) ≡ (
          if ltb b (size l)
          then byte l b
          else if ltb b n
          then some (is_loaded, is_modified)
          else none)
  byte-added b = rw flags_at-append (elim (dec_lt b (size l)) [
    | yes h ↦
        let (f, e) = flags_at-inside b 0 l.pages w (omega arith) (omega (arith, size-end_from l)) in
        rw e (ground (arith))
    | no h ↦ ground (arith, byte-past b l w)
  ])

  pub resize_area-IsWhole :
      IsWhole (resize_area n is_loaded is_modified l)
      × (end_from 0 (resize_area n is_loaded is_modified l).pages ≡ n)
  unfolding resize_area
  resize_area-IsWhole =
      ground (arith, size-end_from l, added-IsWhole, Contiguous-cut_pages n 0 l.pages w)

  byte-resize_area :
      (b : ℕ)
      → byte (resize_area n is_loaded is_modified l) b ≡ (
          if ltb b n
          then if ltb b (size l) then byte l b else some (is_loaded, is_modified)
          else none)
  unfolding resize_area
  byte-resize_area b =
      ground (arith, byte-added b, flags_at-cut_pages b n 0 l.pages w, byte-past b l w)

  pub resize-IsWhole : IsWhole (resize n is_loaded is_modified l)
  unfolding resize
  resize-IsWhole = compress-IsWhole (resize_area n is_loaded is_modified l) resize_area-IsWhole.0

  pub size-resize : size (resize n is_loaded is_modified l) ≡ n
  unfolding resize
  size-resize = omega (
    arith,
    size-compress (resize_area n is_loaded is_modified l) resize_area-IsWhole.0,
    size-end_from (resize_area n is_loaded is_modified l),
    resize_area-IsWhole.1,
  )

  pub byte-resize :
      (b : ℕ)
      → byte (resize n is_loaded is_modified l) b ≡ (
          if ltb b n
          then if ltb b (size l) then byte l b else some (is_loaded, is_modified)
          else none)
  unfolding resize
  byte-resize b =
      byte-compress b (resize_area n is_loaded is_modified l) resize_area-IsWhole.0
      ∙ byte-resize_area b

-- `is_shrink` records that a cut was modified.
pub is_shrink-resize :
    (n : ℕ) (is_loaded is_modified : Bool) (l : PageList)
    → (resize n is_loaded is_modified l).is_shrink ≡ (is_modified && ltb n (size l) || l.is_shrink)
unfolding resize compress resize_area
is_shrink-resize n is_loaded is_modified l = ground arith

-- `Compress` of a list without a gap keeps the size and each byte's flags, leaves no gap, and no two
-- neighbouring pages have the same flags.
pub compress_lem :
    (b : ℕ) (l : PageList)
    → IsWhole l
    → (byte (compress l) b ≡ byte l b)
      × (size (compress l) ≡ size l)
      × IsWhole (compress l)
      × IsCompressed (compress l).pages
      × ((compress l).is_shrink ≡ l.is_shrink)
unfolding compress
compress_lem b l w = (
  byte-compress b l w,
  size-compress l w,
  compress-IsWhole l w,
  IsCompressed-compress_pages l.pages w,
  refl,
)

-- `Resize` makes a file without gaps `n` bytes long: the bytes that stay keep their flags and the
-- new ones get the given flags. Its `is_shrink` flag is set only by a cut with `is_modified`.
pub resize_lem :
    (n : ℕ) (is_loaded is_modified : Bool) (l : PageList) (b : ℕ)
    → IsWhole l
    → (byte (resize n is_loaded is_modified l) b ≡ (
        if ltb b n
        then if ltb b (size l) then byte l b else some (is_loaded, is_modified)
        else none))
      × (size (resize n is_loaded is_modified l) ≡ n)
      × ((resize n is_loaded is_modified l).is_shrink
          ≡ (is_modified && ltb n (size l) || l.is_shrink))
resize_lem n is_loaded is_modified l b w = (
  byte-resize n is_loaded is_modified l w b,
  size-resize n is_loaded is_modified l w,
  is_shrink-resize n is_loaded is_modified l,
)

-- ===== src/PageList/Area.antt =====
-- The change of `SetPageLoadedStatus` before it compresses the list, against the byte view.
use s3fs_fuse.Base.{
  ℕ, ◌+◌, ◌≤◌, ◌<◌, max, ◌≡◌, ◌⊎◌, inl, inr, false, ◌&&◌, Option, some, List, arith, ltb, leb,
  if◌then◌else◌, Bool-cases,
}
use native.Mathlib.Decide.{dec_lt}
use s3fs_fuse.PageList.{
  Fdpage, PageList, PageStatus, size, resize, parse_pages, set_flags, status_loaded,
  status_modified, set_status_area,
}
use s3fs_fuse.PageList.View.{Flags, flags_at, Contiguous, flags_at-inside}
use s3fs_fuse.PageList.Parse.{
  Aligned-parse_pages, Aligned-parse_pages_ne, flags_at-parse_pages, Contiguous-parse_pages,
  end_from-parse_pages,
}
use s3fs_fuse.PageList.Mark.{flags_at-set_flags, Contiguous-set_flags, end_from-set_flags}
use s3fs_fuse.PageList.Resize.{
  byte, IsWhole, size-end_from, byte-past, resize-IsWhole, size-resize, byte-resize,
  is_shrink-resize,
}

abbrev pub status_flags : PageStatus → Flags
status_flags s = (status_loaded s, status_modified s)

-- What `SetPageLoadedStatus` leaves at byte `b` of a file of `total` bytes that had `old` there.
abbrev pub status_after : ℕ → ℕ → PageStatus → ℕ → ℕ → Option Flags → Option Flags
status_after start n s total b old =
    if leb start b && ltb b (start + n)
    then some (status_flags s)
    else if leb total b && ltb b start
    then some (false, status_modified s)
    else old

module _ (start n : ℕ) (s : PageStatus) (l : PageList) (w : IsWhole l) where
  abbrev pub beyond : PageList
  beyond =
      resize (start + n) (status_loaded s) (status_modified s)
        (if ltb (size l) start then resize start false (status_modified s) l else l)

  pub byte-beyond :
      size l ≤ start → (b : ℕ) → byte beyond b ≡ status_after start n s (size l) b (byte l b)
  byte-beyond h b = elim (Bool-cases (ltb (size l) start)) [
    | inl e ↦ rw e (
        rw
          (
            byte-resize (start + n) (status_loaded s) (status_modified s)
                (resize start false (status_modified s) l)
                (resize-IsWhole start false (status_modified s) l w) b,
            size-resize start false (status_modified s) l w,
            byte-resize start false (status_modified s) l w b,
          )
          (ground (arith, byte-past b l w)))
    | inr e ↦ rw e (rw byte-resize (ground (arith, byte-past b l w)))
  ]

  abbrev pub across : PageList
  across = resize (start + n) (status_loaded s) (status_modified s) (resize start false false l)

  byte-across :
      start < size l
      → size l ≤ start + n
      → (b : ℕ) → byte across b ≡ status_after start n s (size l) b (byte l b)
  byte-across h k b =
      rw
        (
          byte-resize (start + n) (status_loaded s) (status_modified s) (resize start false false l)
              (resize-IsWhole start false false l w) b,
          size-resize start false false l w,
          byte-resize start false false l w b,
        )
        (ground (arith, byte-past b l w))

  -- The pages once both ends of the range are page boundaries.
  abbrev pub parsed : List Fdpage
  parsed = (parse_pages (start + n) (parse_pages start l.pages).0).0

  abbrev pub marked : List Fdpage
  marked = set_flags start n (status_loaded s) (status_modified s) parsed

  parsed-IsWhole : Contiguous 0 parsed
  parsed-IsWhole =
      Contiguous-parse_pages (start + n) 0 (parse_pages start l.pages).0
        (Contiguous-parse_pages start 0 l.pages w)

  byte-marked :
      start + n < size l
      → (b : ℕ) → flags_at b marked ≡ status_after start n s (size l) b (byte l b)
  byte-marked h b =
      rw
        (
          flags_at-set_flags start n (status_loaded s) (status_modified s) b 0 parsed parsed-IsWhole
              (Aligned-parse_pages_ne start (start + n) (parse_pages start l.pages).0
                (Aligned-parse_pages start 0 l.pages w))
              (Aligned-parse_pages (start + n) 0 (parse_pages start l.pages).0
                (Contiguous-parse_pages start 0 l.pages w)),
          flags_at-parse_pages b (start + n) (parse_pages start l.pages).0,
          flags_at-parse_pages b start l.pages,
        )
        (elim (dec_lt b (size l)) [
          | yes k ↦
              let (f, e) =
                flags_at-inside b 0 l.pages w (omega arith) (omega (arith, size-end_from l)) in
              rw e (ground arith)
          | no k ↦ ground (arith, byte-past b l w)
        ])

  pub set_status_area-cases :
      ((size l ≤ start) × (set_status_area start n s l ≡ beyond))
      ⊎ ((start < size l) × (size l ≤ start + n) × (set_status_area start n s l ≡ across))
      ⊎ ((start + n < size l) × (set_status_area start n s l ≡ record l { pages = marked }))
  unfolding set_status_area
  set_status_area-cases = elim (Bool-cases (leb (size l) start)) [
    | inl e ↦ inl (ground arith, rw e)
    | inr e ↦ inr (elim (Bool-cases (leb (size l) (start + n))) [
      | inl e' ↦ inl (ground arith, ground arith, rw (e, e'))
      | inr e' ↦ inr (ground arith, rw (e, e'))
    ])
  ]

  pub byte-set_status_area :
      (b : ℕ) → byte (set_status_area start n s l) b ≡ status_after start n s (size l) b (byte l b)
  byte-set_status_area b = elim set_status_area-cases [
    | inl (h, e) ↦ rw e (byte-beyond h b)
    | inr (inl (h, k, e)) ↦ rw e (byte-across h k b)
    | inr (inr (h, e)) ↦ rw e (byte-marked h b)
  ]

  -- The list when the gap before `start` is filled.
  abbrev pub filled : PageList
  filled = if ltb (size l) start then resize start false (status_modified s) l else l

  filled-IsWhole : IsWhole filled
  filled-IsWhole = elim (Bool-cases (ltb (size l) start)) [
    | inl e ↦ rw e (resize-IsWhole start false (status_modified s) l w)
    | inr e ↦ rw e w
  ]

  pub area-IsWhole : IsWhole (set_status_area start n s l)
  area-IsWhole = elim set_status_area-cases [
    | inl (h, e) ↦
        rw e
          (resize-IsWhole (start + n) (status_loaded s) (status_modified s) filled filled-IsWhole)
    | inr (inl (h, k, e)) ↦ rw e (
        resize-IsWhole (start + n) (status_loaded s) (status_modified s)
          (resize start false false l) (resize-IsWhole start false false l w))
    | inr (inr (h, e)) ↦
        rw e (
          Contiguous-set_flags start n (status_loaded s) (status_modified s) 0 parsed
            parsed-IsWhole)
  ]

  pub size-area : size (set_status_area start n s l) ≡ max (size l) (start + n)
  size-area = elim set_status_area-cases [
    | inl (h, e) ↦ rw e (
        omega (
          arith,
          size-resize (start + n) (status_loaded s) (status_modified s) filled filled-IsWhole,
        ))
    | inr (inl (h, k, e)) ↦ rw e (
        omega (
          arith,
          size-resize (start + n) (status_loaded s) (status_modified s) (resize start false false l)
              (resize-IsWhole start false false l w),
        ))
    | inr (inr (h, e)) ↦ rw e (
        omega (
          arith,
          size-end_from (record l { pages = marked }),
          end_from-set_flags start n (status_loaded s) (status_modified s) 0 parsed,
          end_from-parse_pages (start + n) 0 (parse_pages start l.pages).0,
          end_from-parse_pages start 0 l.pages,
          size-end_from l,
        ))
  ]

  is_shrink-filled : size l ≤ start → filled.is_shrink ≡ l.is_shrink
  is_shrink-filled h = ground (arith, is_shrink-resize start false (status_modified s) l)

  size-filled : size l ≤ start → size filled ≡ start
  size-filled h = elim (Bool-cases (ltb (size l) start)) [
    | inl e ↦ rw e (size-resize start false (status_modified s) l w)
    | inr e ↦ rw e (ground arith)
  ]

  pub is_shrink-area : (set_status_area start n s l).is_shrink ≡ l.is_shrink
  is_shrink-area = elim set_status_area-cases [
    | inl (h, e) ↦ rw e (
        ground (
          arith,
          is_shrink-resize (start + n) (status_loaded s) (status_modified s) filled,
          size-filled h,
          is_shrink-filled h,
        ))
    | inr (inl (h, k, e)) ↦ rw e (
        ground (
          arith,
          is_shrink-resize (start + n) (status_loaded s) (status_modified s)
              (resize start false false l),
          is_shrink-resize start false false l,
          size-resize start false false l w,
        ))
    | inr (inr (h, e)) ↦ rw e
  ]

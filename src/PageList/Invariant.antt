-- ===== src/PageList/Invariant.antt =====
-- The invariant of `PageList`: pages without a gap from the start of the file on, none of which could
-- be joined with the next, and none without bytes unless it is the only one.
use s3fs_fuse.Base.{
  ℕ, ◌+◌, ◌≤◌, ◌<◌, refl, ◌⊎◌, inl, inr, Bool, true, false, List, [], ◌∷◌, arith, ltb, ◌==◌, length,
  All, All-append, if-elim,
}
use s3fs_fuse.PageList.{
  Fdpage, PageList, PageStatus, next, size, init, compress, compress_from, compress_pages,
  parse_pages, cut_pages, set_flags, resize_area, resize, set_status_area, set_page_loaded_status,
  status_modified, status_loaded,
}
use s3fs_fuse.PageList.View.{HasBytes, Contiguous, end_from}
use s3fs_fuse.PageList.Compress.{
  IsCompressed, same_flags, joined, compress_from-cons, compress_from-nil, Contiguous-joined,
  IsCompressed-compress_pages,
}
use s3fs_fuse.PageList.Resize.{IsWhole, size-end_from, compress-IsWhole, resize_area-IsWhole}
use s3fs_fuse.PageList.Area.{area-IsWhole, set_status_area-cases, filled, parsed}

abbrev pub AllHaveBytes : List Fdpage → Type 0
AllHaveBytes = All HasBytes

abbrev pub Sized : List Fdpage → Type 0
Sized ps = AllHaveBytes ps ⊎ (length ps ≤ 1)

pub record IsValid (l : PageList) : Type 0 where
  pub whole : IsWhole l
  pub compressed : IsCompressed l.pages
  pub sized : Sized l.pages

pub AllHaveBytes-compress_from :
    (last : Fdpage) (ps : List Fdpage)
    → Contiguous (next last) ps
    → HasBytes last
    → AllHaveBytes ps
    → AllHaveBytes (compress_from last ps)
AllHaveBytes-compress_from last [] c h a = rw (compress_from-nil last) (h, tt)
AllHaveBytes-compress_from last (p ∷ ps) c h a = rw (compress_from-cons last p ps c.0) (
    if-elim AllHaveBytes (same_flags last p) _ _
      (λ _.
        AllHaveBytes-compress_from (joined last p) ps (Contiguous-joined last p ps c) (omega arith)
          a.1)
      (λ _. (h, AllHaveBytes-compress_from p ps c.1 a.0 a.1)))

Sized-compress_pages : (ps : List Fdpage) → Contiguous 0 ps → Sized ps → Sized (compress_pages ps)
unfolding compress_pages
Sized-compress_pages [] c s = s
Sized-compress_pages (p ∷ ps) c (inl a) = inl (AllHaveBytes-compress_from p ps c.1 a.0 a.1)
Sized-compress_pages (p ∷ []) c (inr h) = inr (rw (compress_from-nil p) h)
Sized-compress_pages (p ∷ q ∷ ps) c (inr h) = absurd (omega arith)

AllHaveBytes-parse_pages :
    (n : ℕ) (ps : List Fdpage) → AllHaveBytes ps → AllHaveBytes (parse_pages n ps).0
unfolding parse_pages
AllHaveBytes-parse_pages n [] a = tt
AllHaveBytes-parse_pages n (p ∷ ps) a = ground (arith, AllHaveBytes-parse_pages n ps a.1)

AllHaveBytes-cut_pages :
    (n : ℕ) (ps : List Fdpage) → AllHaveBytes ps → AllHaveBytes (cut_pages n ps)
unfolding cut_pages
AllHaveBytes-cut_pages n [] a = tt
AllHaveBytes-cut_pages n (p ∷ ps) a = ground (arith, AllHaveBytes-cut_pages n ps a.1)

AllHaveBytes-set_flags :
    (start n : ℕ) (is_loaded is_modified : Bool) (ps : List Fdpage)
    → AllHaveBytes ps
    → AllHaveBytes (set_flags start n is_loaded is_modified ps)
unfolding set_flags
AllHaveBytes-set_flags start n is_loaded is_modified [] a = tt
AllHaveBytes-set_flags start n is_loaded is_modified (p ∷ ps) a =
    ground (arith, AllHaveBytes-set_flags start n is_loaded is_modified ps a.1)

-- A file with bytes has no page without bytes.
AllHaveBytes-of_size :
    (ps : List Fdpage) → Contiguous 0 ps → Sized ps → 0 < end_from 0 ps → AllHaveBytes ps
AllHaveBytes-of_size ps c (inl a) h = a
AllHaveBytes-of_size [] c (inr s) h = tt
AllHaveBytes-of_size (p ∷ []) c (inr s) h = (omega arith, tt)
AllHaveBytes-of_size (p ∷ q ∷ ps) c (inr s) h = absurd (omega arith)

compress-IsValid : (l : PageList) → IsWhole l → Sized l.pages → IsValid (compress l)
unfolding compress
compress-IsValid l w s = record {
  whole = compress-IsWhole l w;
  compressed = IsCompressed-compress_pages l.pages w;
  sized = Sized-compress_pages l.pages w s;
}

pub init-IsValid : (n : ℕ) (is_loaded is_modified : Bool) → IsValid (init n is_loaded is_modified)
unfolding init
init-IsValid n is_loaded is_modified = record {
  whole = (refl, tt);
  compressed = (tt, tt);
  sized = inr (omega arith);
}

module _ (n : ℕ) (is_loaded is_modified : Bool) (l : PageList) (v : IsValid l) where
  Sized-resize_area : Sized (resize_area n is_loaded is_modified l).pages
  unfolding resize_area init
  Sized-resize_area =
      if-elim (λ (k : PageList). Sized k.pages) (size l == 0) _ _ (λ _. inr (omega arith))
        (λ e.
          let a = AllHaveBytes-of_size l.pages v.whole v.sized (ground (arith, size-end_from l)) in
          if-elim (λ (k : PageList). Sized k.pages) (ltb (size l) n) _ _
            (λ e'. inl (All-append HasBytes l.pages _ a (ground arith, tt)))
            (λ _.
              if-elim (λ (k : PageList). Sized k.pages) (ltb n (size l)) _ _
                (λ _. inl (AllHaveBytes-cut_pages n l.pages a)) (λ _. v.sized)))

  -- Resize keeps the invariant of the page list: there is no gap, no page has the flags of the one
  -- before it, and no page is empty unless it is the only one.
  pub resize-IsValid : IsValid (resize n is_loaded is_modified l)
  unfolding resize
  resize-IsValid =
      compress-IsValid (resize_area n is_loaded is_modified l)
        (resize_area-IsWhole n is_loaded is_modified l v.whole).0 Sized-resize_area

module _ (start n : ℕ) (s : PageStatus) (l : PageList) (v : IsValid l) where
  filled-IsValid : IsValid (filled start n s l v.whole)
  filled-IsValid =
      if-elim IsValid (ltb (size l) start) _ _
        (λ _. resize-IsValid start false (status_modified s) l v) (λ _. v)

  Sized-set_status_area : Sized (set_status_area start n s l).pages
  Sized-set_status_area = elim (set_status_area-cases start n s l v.whole) [
    | inl (h, e) ↦
        rw e
          (resize-IsValid (start + n) (status_loaded s) (status_modified s)
            (filled start n s l v.whole) filled-IsValid).sized
    | inr (inl (h, k, e)) ↦
        rw e
          (resize-IsValid (start + n) (status_loaded s) (status_modified s)
            (resize start false false l) (resize-IsValid start false false l v)).sized
    | inr (inr (h, e)) ↦ rw e (
        inl (
          AllHaveBytes-set_flags start n (status_loaded s) (status_modified s)
            (parsed start n s l v.whole)
            (AllHaveBytes-parse_pages (start + n) (parse_pages start l.pages).0 (
              AllHaveBytes-parse_pages start l.pages
                (AllHaveBytes-of_size l.pages v.whole v.sized (omega (arith, size-end_from l)))))))
  ]

  -- `SetPageLoadedStatus` with `is_compress` keeps the invariant.
  pub set_page_loaded_status-IsValid : IsValid (set_page_loaded_status start n s true l)
  unfolding set_page_loaded_status
  set_page_loaded_status-IsValid =
      compress-IsValid (set_status_area start n s l) (area-IsWhole start n s l v.whole)
        Sized-set_status_area

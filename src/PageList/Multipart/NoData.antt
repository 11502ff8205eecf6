-- ===== src/PageList/Multipart/NoData.antt =====
-- `GetNoDataPageLists` as `PunchHole` of src/fdcache_entity.cpp calls it, for the whole file.
use s3fs_fuse.Base.{
  ℕ, ◌≤◌, ◌<◌, ◌≡◌, refl, ap, ◌∙◌, Bool, true, false, not, none, some, List, [], ◌∷◌, arith,
  if◌then◌else◌, All, if-elim,
}
use mathlib.Core.Option.{Option}
use s3fs_fuse.PageList.{Fdpage, PageList, next, compress}
use s3fs_fuse.PageList.View.{
  Flags, flags_at, covers, Contiguous, HasBytes, flags_at-below, end_from,
}
use s3fs_fuse.PageList.RawCompress.{raw_compress, keep_both}
use s3fs_fuse.PageList.RawCompress.Spans.{Ordered, covers-raw_compress_gaps}
use s3fs_fuse.PageList.Resize.{byte, IsWhole, compress-IsWhole, byte-compress}
use s3fs_fuse.PageList.Multipart.{nodata_loop, get_nodata_page_lists}

-- The byte is there, and is not modified.
abbrev pub is_unmodified : Option Flags → Bool
is_unmodified none = false
is_unmodified (some f) = not f.1

le-end_from-Ordered : (o : ℕ) (ps : List Fdpage) → Ordered o ps → o ≤ end_from o ps
le-end_from-Ordered o [] h = omega arith
le-end_from-Ordered o (p ∷ ps) h = omega (arith, le-end_from-Ordered (next p) ps h.2)

covers-Ordered :
    (b o : ℕ) (ps : List Fdpage) → Ordered o ps → covers b ps ≡ true → (o ≤ b) × (b < end_from o ps)
covers-Ordered b o [] h k = absurd (cc)
covers-Ordered b o (p ∷ ps) h k =
    ground (arith, covers-Ordered b (next p) ps h.2, le-end_from-Ordered (next p) ps h.2)

Ordered-mono : (o o' : ℕ) (ps : List Fdpage) → o' ≤ o → Ordered o ps → Ordered o' ps
Ordered-mono o o' [] h k = tt
Ordered-mono o o' (p ∷ ps) h k = (omega arith, k.1, k.2)

-- For the whole file the loop keeps the pages that are not modified.
nodata_loop-cons :
    (p : Fdpage) (ps : List Fdpage)
    → nodata_loop 0 none (p ∷ ps)
      ≡ (if p.modified then nodata_loop 0 none ps else p ∷ nodata_loop 0 none ps)
unfolding nodata_loop
nodata_loop-cons p ps = ground arith

nodata_loop-nil : nodata_loop 0 none [] ≡ []
unfolding nodata_loop
nodata_loop-nil = refl

nodata_loop-Ordered :
    (o : ℕ) (ps : List Fdpage)
    → Contiguous o ps
    → All HasBytes ps
    → Ordered o (nodata_loop 0 none ps)
nodata_loop-Ordered o [] c a = rw nodata_loop-nil tt
nodata_loop-Ordered o (p ∷ ps) c a = rw nodata_loop-cons (
    if-elim (Ordered o) p.modified _ _
      (λ _.
        Ordered-mono (next p) o (nodata_loop 0 none ps) (omega arith)
          (nodata_loop-Ordered (next p) ps c.1 a.1))
      (λ _. (omega arith, a.0, nodata_loop-Ordered (next p) ps c.1 a.1)))

covers-nodata_loop :
    (b o : ℕ) (ps : List Fdpage)
    → Contiguous o ps
    → covers b (nodata_loop 0 none ps) ≡ is_unmodified (flags_at b ps)
unfolding nodata_loop
covers-nodata_loop b o [] c = refl
covers-nodata_loop b o (p ∷ ps) c =
    ground (arith, covers-nodata_loop b (next p) ps c.1, flags_at-below b (next p) ps c.1)

covers-between :
    (a b c o : ℕ) (ps : List Fdpage)
    → Ordered o ps
    → a ≤ b
    → b ≤ c
    → covers a ps ≡ true
    → covers c ps ≡ true
    → covers b (raw_compress keep_both ps) ≡ true
covers-between a b c o [] h k k' u v = absurd (cc)
covers-between a b c o (p ∷ ps) h k k' u v =
    let ordered : Ordered p.offset (p ∷ ps) = (omega arith, h.1, h.2) in
    let first = covers-Ordered a p.offset (p ∷ ps) ordered u in
    let last = covers-Ordered c p.offset (p ∷ ps) ordered v in
    rw (covers-raw_compress_gaps keep_both b p ps ordered) (ground arith)

-- `GetNoDataPageLists` of the whole file returns all bytes between any two that are not modified:
-- each byte that is not modified, and the modified bytes between them too.
pub get_nodata_page_lists_between :
    (l : PageList) (a b c : ℕ)
    → IsWhole l
    → All HasBytes (compress l).pages
    → a ≤ b
    → b ≤ c
    → is_unmodified (byte l a) ≡ true
    → is_unmodified (byte l c) ≡ true
    → covers b (get_nodata_page_lists 0 0 l).1 ≡ true
unfolding get_nodata_page_lists
get_nodata_page_lists_between l a b c w h k k' u v =
    let at : (x : ℕ)
        → is_unmodified (byte l x) ≡ true
        → covers x (nodata_loop 0 none (compress l).pages) ≡ true =
      λ x q.
        covers-nodata_loop x 0 (compress l).pages (compress-IsWhole l w)
        ∙ ap is_unmodified (byte-compress x l w)
        ∙ q in
    covers-between a b c 0 (nodata_loop 0 none (compress l).pages)
      (nodata_loop-Ordered 0 (compress l).pages (compress-IsWhole l w) h) k k' (at a u) (at c v)

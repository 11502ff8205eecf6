-- ===== src/PageList/Cut.antt =====
-- The loop of `Resize` that cuts a list.
use s3fs_fuse.Base.{ℕ, ◌≤◌, ◌<◌, ◌≡◌, refl, none, List, [], ◌∷◌, arith, ltb, if◌then◌else◌}
use s3fs_fuse.PageList.{Fdpage, next, cut_pages}
use s3fs_fuse.PageList.View.{flags_at, Contiguous, end_from, flags_at-below}

-- Past `n` nothing is left.
cut_pages-above : (n o : ℕ) (ps : List Fdpage) → Contiguous o ps → n < o → cut_pages n ps ≡ []
unfolding cut_pages
cut_pages-above n o [] c h = refl
cut_pages-above n o (p ∷ ps) c h = ground (arith, cut_pages-above n (next p) ps c.1)

pub flags_at-cut_pages :
    (b n o : ℕ) (ps : List Fdpage)
    → Contiguous o ps
    → flags_at b (cut_pages n ps) ≡ (if ltb b n then flags_at b ps else none)
unfolding cut_pages
flags_at-cut_pages b n o [] c = ground arith
flags_at-cut_pages b n o (p ∷ ps) c =
    ground (arith, flags_at-cut_pages b n (next p) ps c.1, flags_at-below b (next p) ps c.1)

pub Contiguous-cut_pages :
    (n o : ℕ) (ps : List Fdpage)
    → Contiguous o ps
    → o ≤ n
    → n ≤ end_from o ps
    → Contiguous o (cut_pages n ps) × (end_from o (cut_pages n ps) ≡ n)
unfolding cut_pages
Contiguous-cut_pages n o [] c h k = omega arith
Contiguous-cut_pages n o (p ∷ ps) c h k = ground (
  arith,
  Contiguous-cut_pages n (next p) ps c.1,
  cut_pages-above n (next p) ps c.1,
  cut_pages-above n p.offset (p ∷ ps),
)

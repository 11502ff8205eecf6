-- ===== src/PageList/Parse.antt =====
-- `Parse`: a page boundary at a given position, and the same bytes.
use s3fs_fuse.Base.{
  ℕ, ◌+◌, ◌-◌, ◌≤◌, ◌≡◌, refl, ◌⊎◌, inl, ◌&&◌, List, [], ◌∷◌, arith, ltb, ◌==◌, if◌then◌else◌, All,
}
use s3fs_fuse.PageList.{Fdpage, next, parse_pages}
use s3fs_fuse.PageList.View.{flags_at, Contiguous, Contiguous-eq, end_from, end_from-eq}

-- No page holds bytes on both sides of `n`.
abbrev pub Aligned : ℕ → List Fdpage → Type 0
Aligned n = All (λ p. (n ≤ p.offset) ⊎ (next p ≤ n))

pub Aligned-above : (n o : ℕ) (ps : List Fdpage) → Contiguous o ps → n ≤ o → Aligned n ps
Aligned-above n o [] c h = tt
Aligned-above n o (p ∷ ps) c h = (inl (omega arith), Aligned-above n (next p) ps c.1 (omega arith))

abbrev split_page : ℕ → Fdpage → Fdpage × Fdpage
split_page n p =
    (record p { bytes = n - p.offset }, record p { offset = n; bytes = p.bytes - (n - p.offset) })

parse_pages-cons :
    (n : ℕ) (p : Fdpage) (ps : List Fdpage)
    → (parse_pages n (p ∷ ps)).0 ≡ (
        if n == p.offset
        then p ∷ ps
        else if ltb p.offset n && ltb n (next p)
        then (split_page n p).0 ∷ (split_page n p).1 ∷ ps
        else p ∷ (parse_pages n ps).0)
unfolding parse_pages
parse_pages-cons n p ps = ground arith

-- `Parse` changes the flags of no byte.
pub flags_at-parse_pages :
    (b n : ℕ) (ps : List Fdpage) → flags_at b (parse_pages n ps).0 ≡ flags_at b ps
unfolding parse_pages
flags_at-parse_pages b n [] = refl
flags_at-parse_pages b n (p ∷ ps) = ground (arith, flags_at-parse_pages b n ps)

pub Contiguous-parse_pages :
    (n o : ℕ) (ps : List Fdpage) → Contiguous o ps → Contiguous o (parse_pages n ps).0
unfolding parse_pages
Contiguous-parse_pages n o [] c = tt
Contiguous-parse_pages n o (p ∷ ps) c = ground (
  arith,
  Contiguous-parse_pages n (next p) ps c.1,
  Contiguous-eq (next p) (n + (p.bytes - (n - p.offset))) ps c.1,
)

pub end_from-parse_pages :
    (n o : ℕ) (ps : List Fdpage) → end_from o (parse_pages n ps).0 ≡ end_from o ps
unfolding parse_pages
end_from-parse_pages n o [] = refl
end_from-parse_pages n o (p ∷ ps) = ground (
  arith,
  end_from-parse_pages n (next p) ps,
  end_from-eq (next p) (n + (p.bytes - (n - p.offset))) ps,
)

pub Aligned-parse_pages :
    (n o : ℕ) (ps : List Fdpage) → Contiguous o ps → Aligned n (parse_pages n ps).0
unfolding parse_pages
Aligned-parse_pages n o [] c = tt
Aligned-parse_pages n o (p ∷ ps) c =
    ground (arith, Aligned-parse_pages n (next p) ps c.1, Aligned-above n (next p) ps c.1)

pub Aligned-parse_pages_ne :
    (m n : ℕ) (ps : List Fdpage) → Aligned m ps → Aligned m (parse_pages n ps).0
unfolding parse_pages
Aligned-parse_pages_ne m n [] a = tt
Aligned-parse_pages_ne m n (p ∷ ps) a = ground (arith, Aligned-parse_pages_ne m n ps a.1)

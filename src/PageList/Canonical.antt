-- ===== src/PageList/Canonical.antt =====
-- `Compress` is a function of the flags of the bytes.
use s3fs_fuse.PageList.Invariant.{AllHaveBytes-compress_from}
use s3fs_fuse.PageList.Resize.{IsWhole, byte}
use s3fs_fuse.Base.{
  ℕ, ◌<◌, ◌≡◌, refl, sym, ap, ◌∙◌, subst, ◌≢◌, some, List, [], ◌∷◌, arith, same, All,
}
use mathlib.Core.Path.{ap₂}
use s3fs_fuse.PageList.{Fdpage, next, compress, compress_pages, PageList}
use s3fs_fuse.PageList.View.{flags, HasBytes, flags_at, Contiguous, flags_at-below}
use s3fs_fuse.PageList.Compress.{
  IsCompressed, Contiguous-compress_pages, IsCompressed-compress_pages, flags_at-compress_pages,
}

-- The first byte behind a page has other flags than the page.
next-differs :
    (p : Fdpage) (ps : List Fdpage)
    → Contiguous (next p) ps
    → All HasBytes ps
    → IsCompressed (p ∷ ps)
    → flags_at (next p) ps ≢ some (flags p)
next-differs p [] c a h = λ e. cc
next-differs p (q ∷ ps) c a h = λ e. ground arith

-- A shorter first page shows in the flags.
not-shorter :
    (p q : Fdpage) (ps qs : List Fdpage)
    → Contiguous p.offset (p ∷ ps)
    → All HasBytes (p ∷ ps)
    → IsCompressed (p ∷ ps)
    → q.offset ≡ p.offset
    → flags q ≡ flags p
    → flags_at (next p) (p ∷ ps) ≡ flags_at (next p) (q ∷ qs)
    → ¬ (p.bytes < q.bytes)
not-shorter p q ps qs c a h e f same k = next-differs p ps c.1 a.1 h (ground arith)

flags_at-cancel :
    (b : ℕ) (p : Fdpage) (ps qs : List Fdpage)
    → Contiguous (next p) ps
    → Contiguous (next p) qs
    → flags_at b (p ∷ ps) ≡ flags_at b (p ∷ qs)
    → flags_at b ps ≡ flags_at b qs
flags_at-cancel b p ps qs c d e =
    ground (arith, flags_at-below b (next p) ps c, flags_at-below b (next p) qs d)

flags_here :
    (p : Fdpage) (ps : List Fdpage) → HasBytes p → flags_at p.offset (p ∷ ps) ≡ some (flags p)
flags_here p ps h = ground arith

page_eq : (p q : Fdpage) → p.offset ≡ q.offset → p.bytes ≡ q.bytes → flags p ≡ flags q → p ≡ q
page_eq p q e e' f = ground arith

bytes_eq : (n m : ℕ) → ¬ (n < m) → ¬ (m < n) → n ≡ m
bytes_eq n m h k = omega arith

-- The first pages of two lists with the same bytes are the same.
first_page_eq :
    (p q : Fdpage) (ps qs : List Fdpage)
    → Contiguous p.offset (p ∷ ps)
    → Contiguous q.offset (q ∷ qs)
    → p.offset ≡ q.offset
    → All HasBytes (p ∷ ps)
    → All HasBytes (q ∷ qs)
    → IsCompressed (p ∷ ps)
    → IsCompressed (q ∷ qs)
    → ((b : ℕ) → flags_at b (p ∷ ps) ≡ flags_at b (q ∷ qs))
    → p ≡ q
first_page_eq p q ps qs c d o a a' h h' e =
    let f : flags p ≡ flags q = cc (
      sym (flags_here p ps a.0)
      ∙ e p.offset
      ∙ ap (λ b. flags_at b (q ∷ qs)) o
      ∙ flags_here q qs a'.0) in
    page_eq p q o
      (bytes_eq p.bytes q.bytes (not-shorter p q ps qs c a h (sym o) (sym f) (e (next p)))
        (not-shorter q p qs ps d a' h' o f (sym (e (next q)))))
      f

-- Compressed lists: two of pages with bytes, from the same position on and without a gap, are equal
-- if each byte has the same flags in both.
compressed_unique :
    (o : ℕ) (ps qs : List Fdpage)
    → Contiguous o ps
    → Contiguous o qs
    → All HasBytes ps
    → All HasBytes qs
    → IsCompressed ps
    → IsCompressed qs
    → ((b : ℕ) → flags_at b ps ≡ flags_at b qs)
    → ps ≡ qs
compressed_unique o [] [] c d a a' h h' e = refl
compressed_unique o [] (q ∷ qs) c d a a' h h' e =
    absurd (ground (arith, e q.offset, flags_here q qs a'.0))
compressed_unique o (p ∷ ps) [] c d a a' h h' e =
    absurd (ground (arith, e p.offset, flags_here p ps a.0))
compressed_unique o (p ∷ ps) (q ∷ qs) c d a a' h h' e =
    let same : p ≡ q = first_page_eq p q ps qs (refl, c.1) (refl, d.1) (omega arith) a a' h h' e in
    let d' : Contiguous (next p) qs =
      subst (λ (r : Fdpage). Contiguous (next r) qs) (sym same) d.1 in
    ap₂ ◌∷◌ same (
      compressed_unique (next p) ps qs c.1 d' a.1 a'.1 h.1 h'.1 (λ b.
        flags_at-cancel b p ps qs c.1 d'
          (subst (λ (r : Fdpage). flags_at b (p ∷ ps) ≡ flags_at b (r ∷ qs)) (sym same) (e b))))

HasBytes-compress_pages :
    (ps : List Fdpage) → Contiguous 0 ps → All HasBytes ps → All HasBytes (compress_pages ps)
unfolding compress_pages
HasBytes-compress_pages [] c a = tt
HasBytes-compress_pages (p ∷ ps) c a = AllHaveBytes-compress_from p ps c.1 a.0 a.1

-- For two page lists without a gap and without empty pages, in which each byte has the same flags,
-- Compress gives the same pages, however the bytes were divided; each byte has the flags that it had.
pub compress_unique :
    (l l' : PageList)
    → IsWhole l
    → IsWhole l'
    → All HasBytes l.pages
    → All HasBytes l'.pages
    → ((b : ℕ) → byte l b ≡ byte l' b)
    → ((compress l).pages ≡ (compress l').pages) × ((b : ℕ) → byte (compress l) b ≡ byte l b)
unfolding compress
compress_unique l l' c c' a a' e = (
  compressed_unique 0 (compress_pages l.pages) (compress_pages l'.pages)
      (Contiguous-compress_pages l.pages c) (Contiguous-compress_pages l'.pages c')
      (HasBytes-compress_pages l.pages c a) (HasBytes-compress_pages l'.pages c' a')
      (IsCompressed-compress_pages l.pages c) (IsCompressed-compress_pages l'.pages c')
      (λ b.
        flags_at-compress_pages b 0 l.pages c
        ∙ e b
        ∙ sym (flags_at-compress_pages b 0 l'.pages c')),
  λ b. flags_at-compress_pages b 0 l.pages c,
)

-- ===== src/PageList/Query/Loaded.antt =====
-- `IsPageLoaded` and `FindUnloadedPage` against the byte view.
use s3fs_fuse.PageList.Resize.{IsWhole, byte}
use s3fs_fuse.Base.{
  ℕ, ◌+◌, ◌≤◌, ◌<◌, max, ◌≡◌, refl, ◌↔◌, ◌⊎◌, inl, inr, Bool, true, false, not, ◌&&◌, Option, none,
  some, List, [], ◌∷◌, arith, ltb, leb, Bool-cases, All,
}
use s3fs_fuse.PageList.{Fdpage, next, end_pos, PageList}
use s3fs_fuse.PageList.View.{Flags, flags_at, Contiguous, flags_at-below, HasBytes}
use s3fs_fuse.PageList.Query.{is_page_loaded, find_unloaded_page}

-- Byte `b` is asked for by `IsPageLoaded start n`.
abbrev pub Asked : ℕ → ℕ → ℕ → Type 0
Asked start n b = (start ≤ b) × ((n ≡ 0) ⊎ (b < start + n))

-- A byte that is asked for and there is loaded, if `IsPageLoaded` says so.
is_page_loaded_sound :
    (start n b o : ℕ) (ps : List Fdpage) (f : Flags)
    → Contiguous o ps
    → is_page_loaded start n ps ≡ true
    → Asked start n b
    → flags_at b ps ≡ some f
    → f.0 ≡ true
unfolding is_page_loaded
is_page_loaded_sound start n b o [] f c h a e = cc
is_page_loaded_sound start n b o (p ∷ ps) f c h a e =
    ground
      (arith, is_page_loaded_sound start n b (next p) ps f c.1, flags_at-below b (next p) ps c.1)

-- If it says no, there is such a byte.
is_page_loaded_complete :
    (start n o : ℕ) (ps : List Fdpage)
    → Contiguous o ps
    → All HasBytes ps
    → (n ≡ 0) ⊎ (o < start + n)
    → is_page_loaded start n ps ≡ false
    → (b : ℕ) × Asked start n b × (m : Bool) × (flags_at b ps ≡ some (false, m))
unfolding is_page_loaded
is_page_loaded_complete start n o [] c w a h = absurd (cc)
is_page_loaded_complete start n o (p ∷ ps) c w a h = elim (Bool-cases (ltb (end_pos p) start)) [
  | inl e ↦
      let (b, a', m, q) =
        is_page_loaded_complete start n (next p) ps c.1 w.1 (ground arith) (ground arith) in
      (b, a', m, ground (arith, flags_at-below b (next p) ps c.1))
  | inr e ↦ elim (Bool-cases p.loaded) [
    | inl e' ↦
        let (b, a', m, q) =
          is_page_loaded_complete start n (next p) ps c.1 w.1 (ground arith) (ground arith) in
        (b, a', m, ground (arith, flags_at-below b (next p) ps c.1))
    | inr e' ↦ (max p.offset start, ground arith, p.modified, ground arith)
  ]
]

-- What `FindUnloadedPage` looks for: neither loaded nor modified.
abbrev pub unloaded : Flags → Bool
unloaded f = not f.0 && not f.1

-- If it finds nothing, no byte from `start` on is to be loaded.
find_unloaded_page-none :
    (start b o : ℕ) (ps : List Fdpage) (f : Flags)
    → Contiguous o ps
    → find_unloaded_page start ps ≡ none
    → start ≤ b
    → flags_at b ps ≡ some f
    → unloaded f ≡ false
unfolding find_unloaded_page
find_unloaded_page-none start b o [] f c h k e = cc
find_unloaded_page-none start b o (p ∷ ps) f c h k e =
    ground (arith, find_unloaded_page-none start b (next p) ps f c.1)

-- What it finds reaches past `start` and is unloaded, and no byte between them is to be loaded.
pub record IsFirstUnloaded (start first n b : ℕ) (at : Option Flags) : Type 0 where
  pub reaches : start < first + n
  pub inside : first ≤ b → b < first + n → at ≡ some (false, false)
  pub before : (f : Flags) → start ≤ b → b < first → at ≡ some f → unloaded f ≡ false

find_unloaded_page-some :
    (start first n b o : ℕ) (ps : List Fdpage)
    → Contiguous o ps
    → All HasBytes ps
    → find_unloaded_page start ps ≡ some (first, n)
    → (o ≤ first) × IsFirstUnloaded start first n b (flags_at b ps)
unfolding find_unloaded_page
find_unloaded_page-some start first n b o [] c w h = absurd (cc)
find_unloaded_page-some start first n b o (p ∷ ps) c w h =
    elim (Bool-cases (leb start (end_pos p) && (not p.loaded && not p.modified))) [
      | inl e ↦ (
        ground arith,
        record {
          reaches = ground arith;
          inside = λ k k'. ground arith;
          before = λ f k k' q. ground (arith, flags_at-below b (next p) ps c.1);
        },
      )
      | inr e ↦
          let (k, ih) =
            find_unloaded_page-some start first n b (next p) ps c.1 w.1 (ground arith) in
          (
            ground arith,
            record {
              reaches = ih.reaches;
              inside = λ u v. ground (arith, ih.inside u v);
              before = λ f u v q. ground (arith, ih.before f u v);
            },
          )
    ]

-- In a file without gaps whose pages have bytes, `IsPageLoaded` is true exactly if each byte that is
-- asked for and there is loaded.
pub is_page_loaded_iff :
    (start n : ℕ) (l : PageList)
    → IsWhole l
    → All HasBytes l.pages
    → (is_page_loaded start n l.pages ≡ true)
      ↔ ((b : ℕ) (f : Flags) → Asked start n b → byte l b ≡ some f → f.0 ≡ true)
is_page_loaded_iff start n l w a = (
  λ h b f asked e. is_page_loaded_sound start n b 0 l.pages f w h asked e,
  λ h. elim (Bool-cases (is_page_loaded start n l.pages)) [
    | inl e ↦ e
    | inr e ↦
        let (b, asked, m, q) = is_page_loaded_complete start n 0 l.pages w a (ground arith) e in
        absurd (cc (h b (false, m) asked q))
  ],
)

-- What a result of `FindUnloadedPage start` says of byte `b` with the flags `at`.
abbrev pub Finds : ℕ → Option (ℕ × ℕ) → ℕ → Option Flags → Type 0
Finds start none b at = (f : Flags) → start ≤ b → at ≡ some f → unloaded f ≡ false
Finds start (some (first, n)) b at = IsFirstUnloaded start first n b at

-- In a file without gaps whose pages have bytes, `FindUnloadedPage` finds the first page that
-- reaches past `start` and is neither loaded nor modified; if it finds none, there is no such byte
-- from `start` on.
pub find_unloaded_page_lem :
    (start b : ℕ) (l : PageList)
    → IsWhole l
    → All HasBytes l.pages
    → Finds start (find_unloaded_page start l.pages) b (byte l b)
find_unloaded_page_lem start b l w a = go (find_unloaded_page start l.pages) refl
  where
    go : (r : Option (ℕ × ℕ)) → find_unloaded_page start l.pages ≡ r → Finds start r b (byte l b)
    go none e = λ f k q. find_unloaded_page-none start b 0 l.pages f w e k q
    go (some (first, n)) e = (find_unloaded_page-some start first n b 0 l.pages w a e).1

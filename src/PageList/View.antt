-- ===== src/PageList/View.antt =====
-- The byte view of a page list: the flags of each byte of the file. It forgets how the file is cut
-- into pages, and is what the operations of `PageList` are specified by.
use s3fs_fuse.Base.{
  ℕ, ◌≤◌, ◌<◌, ◌≡◌, refl, ap, inl, inr, Bool, false, ◌&&◌, ◌||◌, Option, none, some, List, [], ◌∷◌,
  ◌++◌, arith, ltb, leb, if◌then◌else◌, Bool-cases,
}
use mathlib.Core.Path.{subst}
use s3fs_fuse.PageList.{Fdpage, next, size_of}

abbrev pub Flags : Type 0
Flags = Bool × Bool

abbrev pub flags : Fdpage → Flags
flags p = (p.loaded, p.modified)

abbrev pub holds : Fdpage → ℕ → Bool
holds p b = leb p.offset b && ltb b (next p)

-- The flags of byte `b`, `none` past the end.
abbrev pub flags_at : ℕ → List Fdpage → Option Flags
flags_at b [] = none
flags_at b (p ∷ ps) = if holds p b then some (flags p) else flags_at b ps

-- Pages that follow one another without a gap, from `o` on.
abbrev pub Contiguous : ℕ → List Fdpage → Type 0
Contiguous o [] = Unit
Contiguous o (p ∷ ps) = (p.offset ≡ o) × Contiguous (next p) ps

-- Where pages from `o` on end.
abbrev pub end_from : ℕ → List Fdpage → ℕ
end_from o [] = o
end_from o (p ∷ ps) = end_from (next p) ps

-- Only the list of a new empty file has a page without bytes.
abbrev pub HasBytes : Fdpage → Type 0
HasBytes p = 0 < p.bytes

pub size_of-cons : (p : Fdpage) (ps : List Fdpage) → size_of (p ∷ ps) ≡ end_from (next p) ps
unfolding size_of
size_of-cons p [] = refl
size_of-cons p (q ∷ ps) = size_of-cons q ps

pub size_of-end_from : (ps : List Fdpage) → size_of ps ≡ end_from 0 ps
unfolding size_of
size_of-end_from [] = refl
size_of-end_from (p ∷ ps) = size_of-cons p ps

-- The start of a list may be written in another way.
pub Contiguous-eq : (o o' : ℕ) (ps : List Fdpage) → Contiguous o ps → o ≡ o' → Contiguous o' ps
Contiguous-eq o o' ps c e = subst (λ k. Contiguous k ps) e c

pub end_from-eq : (o o' : ℕ) (ps : List Fdpage) → o ≡ o' → end_from o ps ≡ end_from o' ps
end_from-eq o o' ps e = ap (λ k. end_from k ps) e

pub le-end_from : (o : ℕ) (ps : List Fdpage) → Contiguous o ps → o ≤ end_from o ps
le-end_from o [] c = omega arith
le-end_from o (p ∷ ps) c = omega (arith, le-end_from (next p) ps c.1)

pub flags_at-below : (b o : ℕ) (ps : List Fdpage) → Contiguous o ps → b < o → flags_at b ps ≡ none
flags_at-below b o [] c h = refl
flags_at-below b o (p ∷ ps) c h = ground (arith, flags_at-below b (next p) ps c.1)

pub flags_at-past :
    (b o : ℕ) (ps : List Fdpage) → Contiguous o ps → end_from o ps ≤ b → flags_at b ps ≡ none
flags_at-past b o [] c h = refl
flags_at-past b o (p ∷ ps) c h =
    ground (arith, flags_at-past b (next p) ps c.1, le-end_from (next p) ps c.1)

pub flags_at-inside :
    (b o : ℕ) (ps : List Fdpage)
    → Contiguous o ps
    → o ≤ b
    → b < end_from o ps
    → (f : Flags) × (flags_at b ps ≡ some f)
flags_at-inside b o [] c h k = absurd (omega arith)
flags_at-inside b o (p ∷ ps) c h k = elim (Bool-cases (ltb b (next p))) [
  | inl e ↦ (flags p, ground arith)
  | inr e ↦ let (f, q) = flags_at-inside b (next p) ps c.1 (ground arith) k in (f, ground arith)
]

pub flags_at-append :
    (b : ℕ) (xs ys : List Fdpage)
    → flags_at b (xs ++ ys) ≡ elim (flags_at b xs) [ none ↦ flags_at b ys | some f ↦ some f ]
flags_at-append b [] ys = refl
flags_at-append b (x ∷ xs) ys = ground (arith, flags_at-append b xs ys)

pub Contiguous-append :
    (o : ℕ) (xs ys : List Fdpage)
    → Contiguous o xs
    → Contiguous (end_from o xs) ys
    → Contiguous o (xs ++ ys)
Contiguous-append o [] ys cx cy = cy
Contiguous-append o (x ∷ xs) ys cx cy = (cx.0, Contiguous-append (next x) xs ys cx.1 cy)

pub end_from-append :
    (o : ℕ) (xs ys : List Fdpage) → end_from o (xs ++ ys) ≡ end_from (end_from o xs) ys
end_from-append o [] ys = refl
end_from-append o (x ∷ xs) ys = end_from-append (next x) xs ys

-- Some page of the list holds byte `b`.
abbrev pub covers : ℕ → List Fdpage → Bool
covers b [] = false
covers b (p ∷ ps) = holds p b || covers b ps

abbrev pub has_modified : Option Flags → Bool
has_modified none = false
has_modified (some f) = f.1

pub covers-append :
    (b : ℕ) (xs ys : List Fdpage) → covers b (xs ++ ys) ≡ (covers b xs || covers b ys)
covers-append b [] ys = refl
covers-append b (x ∷ xs) ys = ground (arith, covers-append b xs ys)

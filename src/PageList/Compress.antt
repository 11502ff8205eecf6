-- ===== src/PageList/Compress.antt =====
-- `Compress` of a contiguous list: the same bytes with the same flags, in as few pages as possible.
use s3fs_fuse.Base.{
  ℕ, ◌+◌, ◌≡◌, refl, sym, ap, ◌∙◌, inl, inr, Bool, true, false, ◌&&◌, List, [], ◌∷◌, arith, same,
  if◌then◌else◌, ==_iff, Bool-cases,
}
use mathlib.Core.Path.{subst}
use s3fs_fuse.PageList.{Fdpage, next, compress_step, compress_from, compress_pages}
use s3fs_fuse.PageList.View.{flags, flags_at, Contiguous, end_from}

abbrev pub same_flags : Fdpage → Fdpage → Bool
same_flags p q = same p.loaded q.loaded && same p.modified q.modified

-- No page has the flags of the page before it.
abbrev pub StartsApart : Fdpage → List Fdpage → Type 0
StartsApart p [] = Unit
StartsApart p (q ∷ qs) = same_flags p q ≡ false

abbrev pub IsCompressed : List Fdpage → Type 0
IsCompressed [] = Unit
IsCompressed (p ∷ ps) = StartsApart p ps × IsCompressed ps

-- Without a gap, a round only joins.
pub compress_from-cons :
    (last p : Fdpage) (ps : List Fdpage)
    → p.offset ≡ next last
    → compress_from last (p ∷ ps) ≡ (
        if same_flags last p
        then compress_from (record last { bytes = last.bytes + p.bytes }) ps
        else last ∷ compress_from p ps)
unfolding compress_from compress_step
compress_from-cons last p ps h = ground (arith, ==_iff (next last) p.offset)

same_flags-eq : (p q : Fdpage) → same_flags p q ≡ true → flags p ≡ flags q
same_flags-eq p q h = ground arith

pub compress_from-nil : (last : Fdpage) → compress_from last [] ≡ last ∷ []
unfolding compress_from
compress_from-nil last = refl

abbrev pub joined : Fdpage → Fdpage → Fdpage
joined last p = record last { bytes = last.bytes + p.bytes }

pub Contiguous-joined :
    (last p : Fdpage) (ps : List Fdpage)
    → Contiguous (next last) (p ∷ ps)
    → Contiguous (next (joined last p)) ps
Contiguous-joined last p ps c = subst (λ o. Contiguous o ps) (omega arith) c.1

module _ (b : ℕ) where
  flags_at-joined :
      (last p : Fdpage) (ps : List Fdpage)
      → p.offset ≡ next last
      → same_flags last p ≡ true
      → flags_at b (joined last p ∷ ps) ≡ flags_at b (last ∷ p ∷ ps)
  flags_at-joined last p ps h e = ground (arith, same_flags-eq last p e)

  flags_at-compress_from :
      (last : Fdpage) (ps : List Fdpage)
      → Contiguous (next last) ps
      → flags_at b (compress_from last ps) ≡ flags_at b (last ∷ ps)
  flags_at-compress_from last [] c = rw (compress_from-nil last)
  flags_at-compress_from last (p ∷ ps) c =
      rw (compress_from-cons last p ps c.0) (elim (Bool-cases (same_flags last p)) [
        | inl e ↦ rw e (
            flags_at-compress_from (joined last p) ps (Contiguous-joined last p ps c)
            ∙ flags_at-joined last p ps c.0 e)
        | inr e ↦ rw e (ground (arith, flags_at-compress_from p ps c.1))
      ])

  -- `Compress` changes the flags of no byte.
  pub flags_at-compress_pages :
      (o : ℕ) (ps : List Fdpage) → Contiguous o ps → flags_at b (compress_pages ps) ≡ flags_at b ps
  unfolding compress_pages
  flags_at-compress_pages o [] c = refl
  flags_at-compress_pages o (p ∷ ps) c = flags_at-compress_from p ps c.1

Contiguous-compress_from :
    (last : Fdpage) (ps : List Fdpage)
    → Contiguous (next last) ps
    → Contiguous last.offset (compress_from last ps)
      × (end_from last.offset (compress_from last ps) ≡ end_from (next last) ps)
Contiguous-compress_from last [] c = rw (compress_from-nil last) (omega arith)
Contiguous-compress_from last (p ∷ ps) c =
    rw (compress_from-cons last p ps c.0) (elim (Bool-cases (same_flags last p)) [
      | inl e ↦ rw e (
          let ih = Contiguous-compress_from (joined last p) ps (Contiguous-joined last p ps c) in
          (ih.0, ih.1 ∙ ap (λ o. end_from o ps) (omega arith)))
      | inr e ↦ rw e (
          let ih = Contiguous-compress_from p ps c.1 in
          (
            (refl, subst (λ o. Contiguous o (compress_from p ps)) c.0 ih.0),
            ap (λ o. end_from o (compress_from p ps)) (sym c.0) ∙ ih.1,
          ))
    ])

StartsApart-compress_from :
    (q last : Fdpage) (ps : List Fdpage)
    → Contiguous (next last) ps
    → same_flags q last ≡ false
    → StartsApart q (compress_from last ps)
StartsApart-compress_from q last [] c h = rw (compress_from-nil last) h
StartsApart-compress_from q last (p ∷ ps) c h =
    rw (compress_from-cons last p ps c.0) (elim (Bool-cases (same_flags last p)) [
      | inl e ↦
          rw e (StartsApart-compress_from q (joined last p) ps (Contiguous-joined last p ps c) h)
      | inr e ↦ rw e h
    ])

IsCompressed-compress_from :
    (last : Fdpage) (ps : List Fdpage)
    → Contiguous (next last) ps
    → IsCompressed (compress_from last ps)
IsCompressed-compress_from last [] c = rw (compress_from-nil last) (tt, tt)
IsCompressed-compress_from last (p ∷ ps) c =
    rw (compress_from-cons last p ps c.0) (elim (Bool-cases (same_flags last p)) [
      | inl e ↦ rw e (IsCompressed-compress_from (joined last p) ps (Contiguous-joined last p ps c))
      | inr e ↦
          rw e (StartsApart-compress_from last p ps c.1 e, IsCompressed-compress_from p ps c.1)
    ])

compress_from-eq_self :
    (last : Fdpage) (ps : List Fdpage)
    → Contiguous (next last) ps
    → IsCompressed (last ∷ ps)
    → compress_from last ps ≡ last ∷ ps
compress_from-eq_self last [] c h = compress_from-nil last
compress_from-eq_self last (p ∷ ps) c h =
    rw (compress_from-cons last p ps c.0)
      (rw h.0 (ap (λ l. last ∷ l) (compress_from-eq_self p ps c.1 h.1)))

pub Contiguous-compress_pages :
    (ps : List Fdpage) → Contiguous 0 ps → Contiguous 0 (compress_pages ps)
unfolding compress_pages
Contiguous-compress_pages [] c = tt
Contiguous-compress_pages (p ∷ ps) c =
    subst (λ o. Contiguous o (compress_from p ps)) c.0 (Contiguous-compress_from p ps c.1).0

pub end_from-compress_pages :
    (ps : List Fdpage) → Contiguous 0 ps → end_from 0 (compress_pages ps) ≡ end_from 0 ps
unfolding compress_pages
end_from-compress_pages [] c = refl
end_from-compress_pages (p ∷ ps) c =
    ap (λ o. end_from o (compress_from p ps)) (sym c.0) ∙ (Contiguous-compress_from p ps c.1).1

pub IsCompressed-compress_pages :
    (ps : List Fdpage) → Contiguous 0 ps → IsCompressed (compress_pages ps)
unfolding compress_pages
IsCompressed-compress_pages [] c = tt
IsCompressed-compress_pages (p ∷ ps) c = IsCompressed-compress_from p ps c.1

pub compress_pages-eq_self :
    (ps : List Fdpage) → Contiguous 0 ps → IsCompressed ps → compress_pages ps ≡ ps
unfolding compress_pages
compress_pages-eq_self [] c h = refl
compress_pages-eq_self (p ∷ ps) c h = compress_from-eq_self p ps c.1 h

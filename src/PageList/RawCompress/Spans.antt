-- ===== src/PageList/RawCompress/Spans.antt =====
-- `raw_compress_fdpage_list` of a list with gaps: the copy has none, whatever flags it keeps.
use s3fs_fuse.Base.{
  ℕ, ◌≤◌, ◌≡◌, refl, sym, ap, ◌∙◌, subst, ◌&&◌, List, [], ◌∷◌, ◌++◌, arith, ltb, leb, ◌==◌,
  if-false, if-elim,
}
use s3fs_fuse.PageList.{Fdpage, next}
use s3fs_fuse.PageList.View.{
  HasBytes, covers, Contiguous, Contiguous-eq, Contiguous-append, end_from, end_from-eq,
  end_from-append, le-end_from,
}
use s3fs_fuse.PageList.RawCompress.{
  Ignoring, masked, raw_fill, raw_join, raw_step, raw_from, raw_compress,
}

-- Pages with bytes, in ascending order from `o` on.
abbrev pub Ordered : ℕ → List Fdpage → Type 0
Ordered o [] = Unit
Ordered o (p ∷ ps) = (o ≤ p.offset) × HasBytes p × Ordered (next p) ps

pub covers-Contiguous :
    (b o : ℕ) (ps : List Fdpage)
    → Contiguous o ps
    → covers b ps ≡ (leb o b && ltb b (end_from o ps))
covers-Contiguous b o [] c = ground arith
covers-Contiguous b o (p ∷ ps) c =
    rw (covers-Contiguous b (next p) ps c.1) (ground (arith, le-end_from (next p) ps c.1))

-- What a round leaves behind, and where its last page stands.
abbrev Steps : Fdpage → ℕ → List Fdpage × Fdpage → Type 0
Steps last e r =
    Contiguous last.offset r.0 × (end_from last.offset r.0 ≡ r.1.offset) × (next r.1 ≡ e)

Steps-append :
    (last : Fdpage) (e e' : ℕ) (r r' : List Fdpage × Fdpage)
    → Steps last e r
    → Steps (r.1) e' r'
    → Steps last e' (r.0 ++ r'.0, r'.1)
Steps-append last e e' r r' s s' = (
  Contiguous-append last.offset r.0 r'.0 s.0
      (Contiguous-eq r.1.offset (end_from last.offset r.0) r'.0 s'.0 (sym s.1)),
  end_from-append last.offset r.0 r'.0
      ∙ end_from-eq (end_from last.offset r.0) r.1.offset r'.0 s.1
      ∙ s'.1,
  s'.2,
)

module _ (g : Ignoring) where
  raw_fill-Steps :
      (last p : Fdpage) → next last ≤ p.offset → Steps last p.offset (raw_fill g last p)
  unfolding raw_fill
  raw_fill-Steps last p h = ground arith

  raw_join-Steps :
      (last p : Fdpage)
      → next last ≡ p.offset
      → HasBytes p
      → Steps last (next p) (raw_join g last p)
  unfolding raw_join
  raw_join-Steps last p h k = ground arith

  raw_step-Steps :
      (last p : Fdpage)
      → next last ≤ p.offset
      → HasBytes p
      → Steps last (next p) (raw_step g last p)
  unfolding raw_step
  raw_step-Steps last p h k =
      if-elim (Steps last (next p)) (p.bytes == 0) _ _ (λ e. absurd (ground arith))
        (λ _.
          let filled = raw_fill-Steps last p h in
          Steps-append last p.offset (next p) (raw_fill g last p)
            (raw_join g (raw_fill g last p).1 p) filled
            (raw_join-Steps (raw_fill g last p).1 p filled.2 k))

  raw_from-cons_step :
      (last p : Fdpage) (ps : List Fdpage)
      → raw_from g last (p ∷ ps) ≡ (raw_step g last p).0 ++ raw_from g (raw_step g last p).1 ps
  unfolding raw_from
  raw_from-cons_step last p ps = refl

  raw_from-nil_step : (last : Fdpage) → raw_from g last [] ≡ last ∷ []
  unfolding raw_from
  raw_from-nil_step last = refl

  raw_from-spans :
      (last : Fdpage) (ps : List Fdpage)
      → Ordered (next last) ps
      → Contiguous last.offset (raw_from g last ps)
        × (end_from last.offset (raw_from g last ps) ≡ end_from (next last) ps)
  raw_from-spans last [] o = rw raw_from-nil_step (omega arith)
  raw_from-spans last (p ∷ ps) o =
      let r = raw_step g last p in
      let s = raw_step-Steps last p o.0 o.1 in
      let ih = raw_from-spans (r.1) ps (subst (λ k. Ordered k ps) (sym s.2) o.2) in
      rw raw_from-cons_step (
        Contiguous-append last.offset r.0 (raw_from g r.1 ps) s.0 (
            Contiguous-eq r.1.offset (end_from last.offset r.0) (raw_from g r.1 ps) ih.0 (sym s.1)),
        end_from-append last.offset r.0 (raw_from g r.1 ps)
            ∙ end_from-eq (end_from last.offset r.0) r.1.offset (raw_from g r.1 ps) s.1
            ∙ ih.1
            ∙ end_from-eq (next r.1) (next p) ps s.2,
      )

  -- The copy of pages with gaps between them covers the gaps too: all from the start of the first
  -- page to the end of the last.
  pub covers-raw_compress_gaps :
      (b : ℕ) (p : Fdpage) (ps : List Fdpage)
      → Ordered p.offset (p ∷ ps)
      → covers b (raw_compress g (p ∷ ps)) ≡ (leb p.offset b && ltb b (end_from p.offset (p ∷ ps)))
  unfolding raw_compress
  covers-raw_compress_gaps b p ps o =
      let s = raw_from-spans (masked g p) ps o.2 in
      ap (covers b) (if-false (p.bytes == 0) _ _ (ground arith))
      ∙ covers-Contiguous b p.offset (raw_from g (masked g p) ps) s.0
      ∙ rw s.1 refl

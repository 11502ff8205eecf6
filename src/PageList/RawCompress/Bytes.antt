-- ===== src/PageList/RawCompress/Bytes.antt =====
-- `raw_compress_fdpage_list` against the byte view.
use s3fs_fuse.PageList.Compress.{joined, Contiguous-joined}
use s3fs_fuse.Base.{
  ℕ, ◌≡◌, refl, sym, ◌∙◌, inl, inr, Bool, true, false, not, ◌&&◌, ◌||◌, Option, none, some, List,
  [], ◌∷◌, arith, ◌==◌, same, if◌then◌else◌, Bool-cases, All, if-elim,
}
use s3fs_fuse.PageList.{Fdpage, next}
use s3fs_fuse.PageList.View.{
  Flags, flags, holds, flags_at, Contiguous, Contiguous-eq, HasBytes, end_from, end_from-eq,
}
use s3fs_fuse.PageList.RawCompress.{Ignoring, masked, raw_step, raw_from, raw_compress}

-- The flags of a byte in the copy.
abbrev pub mask : Ignoring → Option Flags → Option Flags
mask g none = none
mask g (some f) = some (
  if g.ignore_load then g.default_load else f.0,
  if g.ignore_modify then g.default_modify else f.1,
)

-- A flag that is ignored has its default.
abbrev pub IsMasked : Ignoring → Fdpage → Type 0
IsMasked g p =
    (g.ignore_load ≡ true → p.loaded ≡ g.default_load)
    × (g.ignore_modify ≡ true → p.modified ≡ g.default_modify)

IsMasked-masked : (g : Ignoring) (p : Fdpage) → IsMasked g (masked g p)
IsMasked-masked g p = (λ e. rw e refl, λ e. rw e refl)

mask-flags : (g : Ignoring) (p : Fdpage) → mask g (some (flags p)) ≡ some (flags (masked g p))
mask-flags g p = refl

-- The flags that count differ.
abbrev differs : Ignoring → Fdpage → Fdpage → Bool
differs g p q =
    not g.ignore_load && not (same p.loaded q.loaded)
    || not g.ignore_modify && not (same p.modified q.modified)

-- Without a gap, a round skips, joins or adds.
raw_from-cons :
    (g : Ignoring) (last p : Fdpage) (ps : List Fdpage)
    → p.offset ≡ next last
    → raw_from g last (p ∷ ps) ≡ (
        if p.bytes == 0
        then raw_from g last ps
        else if differs g last p
        then last ∷ raw_from g (masked g p) ps
        else raw_from g (joined last p) ps)
unfolding raw_from raw_step
raw_from-cons g last p ps h = ground arith

raw_from-nil : (g : Ignoring) (last : Fdpage) → raw_from g last [] ≡ last ∷ []
unfolding raw_from
raw_from-nil g last = refl

flags-same :
    (g : Ignoring) (last p : Fdpage)
    → IsMasked g last
    → differs g last p ≡ false
    → flags last ≡ flags (masked g p)
flags-same g last p m e = ground (arith)

module _ (g : Ignoring) (b : ℕ) where
  flags_at-raw_from :
      (last : Fdpage) (ps : List Fdpage)
      → IsMasked g last
      → Contiguous (next last) ps
      → flags_at b (raw_from g last ps)
        ≡ (if holds last b then some (flags last) else mask g (flags_at b ps))
  flags_at-raw_from last [] m c = rw raw_from-nil
  flags_at-raw_from last (p ∷ ps) m c =
      rw (raw_from-cons g last p ps c.0) (elim (Bool-cases (p.bytes == 0)) [
        | inl e ↦
            rw
              (
                e,
                flags_at-raw_from last ps m
                    (Contiguous-eq (next p) (next last) ps c.1 (ground arith)),
              )
              (ground arith)
        | inr e ↦ elim (Bool-cases (differs g last p)) [
          | inl k ↦
              rw (e, k)
                (rw (flags_at-raw_from (masked g p) ps (IsMasked-masked g p) c.1)
                  (ground (arith, mask-flags g p)))
          | inr k ↦
              rw (e, k)
                (rw (flags_at-raw_from (joined last p) ps m (Contiguous-joined last p ps c))
                  (ground (arith, mask-flags g p, flags-same g last p m k)))
        ]
      ])

  pub flags_at-raw_compress :
      (o : ℕ) (ps : List Fdpage)
      → Contiguous o ps
      → flags_at b (raw_compress g ps) ≡ mask g (flags_at b ps)
  unfolding raw_compress
  flags_at-raw_compress o [] c = refl
  flags_at-raw_compress o (p ∷ ps) c = elim (Bool-cases (p.bytes == 0)) [
    | inl e ↦ rw (e, flags_at-raw_compress (next p) ps c.1) (ground arith)
    | inr e ↦ rw e (
        flags_at-raw_from (masked g p) ps (IsMasked-masked g p) c.1
        ∙ (ground (arith, mask-flags g p)))
  ]

module _ (g : Ignoring) where
  -- The copy starts and ends where the list does.
  Contiguous-raw_from :
      (last : Fdpage) (ps : List Fdpage)
      → Contiguous (next last) ps
      → Contiguous last.offset (raw_from g last ps)
        × (end_from last.offset (raw_from g last ps) ≡ end_from (next last) ps)
  Contiguous-raw_from last [] c = rw raw_from-nil (omega arith)
  Contiguous-raw_from last (p ∷ ps) c =
      rw (raw_from-cons g last p ps c.0) (elim (Bool-cases (p.bytes == 0)) [
        | inl e ↦ rw e (
            let q : next p ≡ next last = ground arith in
            let ih = Contiguous-raw_from last ps (Contiguous-eq (next p) (next last) ps c.1 q) in
            (ih.0, ih.1 ∙ end_from-eq (next last) (next p) ps (sym q)))
        | inr e ↦ elim (Bool-cases (differs g last p)) [
          | inl k ↦
              rw (e, k)
                (let ih = Contiguous-raw_from (masked g p) ps c.1 in
                  (
                    (
                      refl,
                      Contiguous-eq p.offset (next last) (raw_from g (masked g p) ps) ih.0 c.0,
                    ),
                    end_from-eq (next last) p.offset (raw_from g (masked g p) ps) (sym c.0) ∙ ih.1,
                  ))
          | inr k ↦
              rw (e, k)
                (let ih = Contiguous-raw_from (joined last p) ps (Contiguous-joined last p ps c) in
                  (ih.0, ih.1 ∙ end_from-eq (next (joined last p)) (next p) ps (omega arith)))
        ]
      ])

  pub Contiguous-raw_compress :
      (o : ℕ) (ps : List Fdpage)
      → Contiguous o ps
      → Contiguous o (raw_compress g ps) × (end_from o (raw_compress g ps) ≡ end_from o ps)
  unfolding raw_compress
  Contiguous-raw_compress o [] c = (tt, refl)
  Contiguous-raw_compress o (p ∷ ps) c = elim (Bool-cases (p.bytes == 0)) [
    | inl e ↦ rw e (
        let q : next p ≡ o = ground arith in
        let ih = Contiguous-raw_compress o ps (Contiguous-eq (next p) o ps c.1 q) in
        (ih.0, ih.1 ∙ end_from-eq o (next p) ps (sym q)))
    | inr e ↦ rw e (
        let ih = Contiguous-raw_from (masked g p) ps c.1 in
        (
          Contiguous-eq p.offset o (raw_from g (masked g p) ps) ih.0 c.0,
          end_from-eq o p.offset (raw_from g (masked g p) ps) (sym c.0) ∙ ih.1,
        ))
  ]

  HasBytes-raw_from :
      (last : Fdpage) (ps : List Fdpage)
      → Contiguous (next last) ps
      → HasBytes last
      → All HasBytes (raw_from g last ps)
  HasBytes-raw_from last [] c h = rw raw_from-nil (omega arith)
  HasBytes-raw_from last (p ∷ ps) c h =
      rw (raw_from-cons g last p ps c.0) (elim (Bool-cases (p.bytes == 0)) [
        | inl e ↦
            rw e (
              HasBytes-raw_from last ps (Contiguous-eq (next p) (next last) ps c.1 (ground arith))
                h)
        | inr e ↦ elim (Bool-cases (differs g last p)) [
          | inl k ↦ rw (e, k) (h, HasBytes-raw_from (masked g p) ps c.1 (ground arith))
          | inr k ↦
              rw (e, k)
                (HasBytes-raw_from (joined last p) ps (Contiguous-joined last p ps c) (omega arith))
        ]
      ])

  -- The copy has no page without bytes.
  pub HasBytes-raw_compress :
      (o : ℕ) (ps : List Fdpage) → Contiguous o ps → All HasBytes (raw_compress g ps)
  unfolding raw_compress
  HasBytes-raw_compress o [] c = tt
  HasBytes-raw_compress o (p ∷ ps) c = elim (Bool-cases (p.bytes == 0)) [
    | inl e ↦ rw e (HasBytes-raw_compress (next p) ps c.1)
    | inr e ↦ rw e (HasBytes-raw_from (masked g p) ps c.1 (ground arith))
  ]

  IsMasked-raw_from :
      (last : Fdpage) (ps : List Fdpage)
      → Contiguous (next last) ps
      → IsMasked g last
      → All (IsMasked g) (raw_from g last ps)
  IsMasked-raw_from last [] c h = rw raw_from-nil (h, tt)
  IsMasked-raw_from last (p ∷ ps) c h = rw (raw_from-cons g last p ps c.0) (
      if-elim (All (IsMasked g)) (p.bytes == 0) _ _
        (λ e.
          IsMasked-raw_from last ps (Contiguous-eq (next p) (next last) ps c.1 (ground arith)) h)
        (λ _.
          if-elim (All (IsMasked g)) (differs g last p) _ _
            (λ _. (h, IsMasked-raw_from (masked g p) ps c.1 (IsMasked-masked g p)))
            (λ _. IsMasked-raw_from (joined last p) ps (Contiguous-joined last p ps c) h)))

  pub IsMasked-raw_compress :
      (o : ℕ) (ps : List Fdpage) → Contiguous o ps → All (IsMasked g) (raw_compress g ps)
  unfolding raw_compress
  IsMasked-raw_compress o [] c = tt
  IsMasked-raw_compress o (p ∷ ps) c =
      if-elim (All (IsMasked g)) (p.bytes == 0) _ _ (λ _. IsMasked-raw_compress (next p) ps c.1)
        (λ _. IsMasked-raw_from (masked g p) ps c.1 (IsMasked-masked g p))

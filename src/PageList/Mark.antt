-- ===== src/PageList/Mark.antt =====
-- The loop of `SetPageLoadedStatus` that sets the flags of a range of pages.
use s3fs_fuse.Base.{
  ℕ, ◌+◌, ◌≡◌, refl, inl, inr, Bool, true, false, not, ◌&&◌, Option, none, some, List, [], ◌∷◌,
  arith, ltb, leb, if◌then◌else◌, Bool-cases,
}
use s3fs_fuse.PageList.{Fdpage, next, set_flags, end_pos}
use s3fs_fuse.PageList.View.{Flags, flags, holds, flags_at, Contiguous, end_from, flags_at-below}
use s3fs_fuse.PageList.Parse.{Aligned}

-- `f` for a byte that is there.
abbrev pub overwrite : Flags → Option Flags → Option Flags
overwrite f none = none
overwrite f (some _) = some f

module _ (start n : ℕ) (is_loaded is_modified : Bool) where
  abbrev in_range : ℕ → Bool
  in_range b = leb start b && ltb b (start + n)

  -- The page that holds `b` gets the new flags exactly if `b` is in the range.
  flags_at-set_flags_here :
      (b : ℕ) (p : Fdpage) (ps : List Fdpage)
      → holds p b ≡ true
      → Aligned start (p ∷ ps)
      → Aligned (start + n) (p ∷ ps)
      → flags_at b (set_flags start n is_loaded is_modified (p ∷ ps))
        ≡ (if in_range b then some (is_loaded, is_modified) else some (flags p))
  unfolding set_flags
  flags_at-set_flags_here b p ps h a a' = ground arith

  flags_at-set_flags_later :
      (b : ℕ) (p : Fdpage) (ps : List Fdpage)
      → holds p b ≡ false
      → flags_at b (set_flags start n is_loaded is_modified (p ∷ ps)) ≡ (
          if not (ltb (end_pos p) start) && leb (start + n) p.offset
          then flags_at b ps
          else flags_at b (set_flags start n is_loaded is_modified ps))
  unfolding set_flags
  flags_at-set_flags_later b p ps h = ground arith

  set_flags-nil : set_flags start n is_loaded is_modified [] ≡ []
  unfolding set_flags
  set_flags-nil = refl

  pub flags_at-set_flags :
      (b o : ℕ) (ps : List Fdpage)
      → Contiguous o ps
      → Aligned start ps
      → Aligned (start + n) ps
      → flags_at b (set_flags start n is_loaded is_modified ps)
        ≡ (if in_range b then overwrite (is_loaded, is_modified) (flags_at b ps) else flags_at b ps)
  flags_at-set_flags b o [] c a a' = rw set_flags-nil (ground arith)
  flags_at-set_flags b o (p ∷ ps) c a a' = elim (Bool-cases (holds p b)) [
    | inl h ↦ rw (flags_at-set_flags_here b p ps h a a', h) (ground arith)
    | inr h ↦
        rw (flags_at-set_flags_later b p ps h, h)
          (ground (
            arith,
            flags_at-set_flags b (next p) ps c.1 a.1 a'.1,
            flags_at-below b (next p) ps c.1,
          ))
  ]

  pub Contiguous-set_flags :
      (o : ℕ) (ps : List Fdpage)
      → Contiguous o ps
      → Contiguous o (set_flags start n is_loaded is_modified ps)
  unfolding set_flags
  Contiguous-set_flags o [] c = tt
  Contiguous-set_flags o (p ∷ ps) c = ground (arith, Contiguous-set_flags (next p) ps c.1)

  pub end_from-set_flags :
      (o : ℕ) (ps : List Fdpage)
      → end_from o (set_flags start n is_loaded is_modified ps) ≡ end_from o ps
  unfolding set_flags
  end_from-set_flags o [] = refl
  end_from-set_flags o (p ∷ ps) = ground (arith, end_from-set_flags (next p) ps)

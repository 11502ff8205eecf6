-- ===== src/StringUtil/Trim/Ends.antt =====
-- What `trim` and `peeloff` take off, and what is left.
use s3fs_fuse.StringUtil.{quote}
use s3fs_fuse.StringUtil.Trim.{without_last, trim_left, peeloff, trim, trim_right, last_of}
use s3fs_fuse.Base.{
  ℕ, ◌≡◌, refl, ap, ◌∙◌, true, false, not, ◌||◌, List, [], ◌∷◌, ◌++◌, arith, ◌==◌, if◌then◌else◌,
  All, if-elim, if-false, mem,
}

-- The first character, and the last one, is not of `t`.
abbrev pub StartsOutside : List ℕ → List ℕ → Type 0
StartsOutside t [] = Unit
StartsOutside t (c ∷ s) = mem c t ≡ false

abbrev pub EndsOutside : List ℕ → List ℕ → Type 0
EndsOutside t [] = Unit
EndsOutside t (c ∷ []) = mem c t ≡ false
EndsOutside t (c ∷ d ∷ s) = EndsOutside t (d ∷ s)

abbrev pub AreAllOf : List ℕ → List ℕ → Type 0
AreAllOf t = All (λ c. mem c t ≡ true)

abbrev IsLeftTrimmed : List ℕ → List ℕ → List ℕ → Type 0
IsLeftTrimmed t s r = (a : List ℕ) × (s ≡ a ++ r) × AreAllOf t a × StartsOutside t r

trim_left_lem : (t s : List ℕ) → IsLeftTrimmed t s (trim_left t s)
unfolding trim_left
trim_left_lem t [] = ([], refl, tt, tt)
trim_left_lem t (c ∷ s) =
    let ih = trim_left_lem t s in
    if-elim (IsLeftTrimmed t (c ∷ s)) (mem c t) _ _
      (λ e. (c ∷ ih.0, ap (λ x. c ∷ x) ih.1, (e, ih.2), ih.3)) (λ e. ([], refl, tt, e))

EndsOutside-trim_left : (t s : List ℕ) → EndsOutside t s → EndsOutside t (trim_left t s)
unfolding trim_left
EndsOutside-trim_left t [] h = tt
EndsOutside-trim_left t (c ∷ []) h = if-elim (EndsOutside t) (mem c t) _ _ (λ e. tt) (λ e. h)
EndsOutside-trim_left t (c ∷ d ∷ s) h =
    if-elim (EndsOutside t) (mem c t) _ _ (λ e. EndsOutside-trim_left t (d ∷ s) h) (λ e. h)

abbrev IsRightTrimmed : List ℕ → List ℕ → List ℕ → Type 0
IsRightTrimmed t s r = (b : List ℕ) × (s ≡ r ++ b) × AreAllOf t b × EndsOutside t r

-- One step of `trim_right`, for what the rest of the string was trimmed to.
IsRightTrimmed-cons :
    (t : List ℕ) (c : ℕ) (s r : List ℕ)
    → IsRightTrimmed t s r
    → IsRightTrimmed t
        (c ∷ s)
        (elim r [ [] ↦ if mem c t then [] else c ∷ [] | x ∷ xs ↦ c ∷ x ∷ xs ])
IsRightTrimmed-cons t c s [] h =
    if-elim (IsRightTrimmed t (c ∷ s)) (mem c t) _ _
      (λ e. (c ∷ h.0, ap (λ x. c ∷ x) h.1, (e, h.2), tt)) (λ e. (h.0, ap (λ x. c ∷ x) h.1, h.2, e))
IsRightTrimmed-cons t c s (x ∷ xs) h = (h.0, ap (λ x. c ∷ x) h.1, h.2, h.3)

trim_right_lem : (t s : List ℕ) → IsRightTrimmed t s (trim_right t s)
unfolding trim_right
trim_right_lem t [] = ([], refl, tt, tt)
trim_right_lem t (c ∷ s) = IsRightTrimmed-cons t c s (trim_right t s) (trim_right_lem t s)

-- trim takes characters of the set off both ends, and no other, and what is left neither starts nor
-- ends with one.
pub trim_lem :
    (t s : List ℕ)
    → (a b : List ℕ) × (s ≡ a ++ trim t s ++ b)
      × AreAllOf t a
      × AreAllOf t b
      × StartsOutside t (trim t s)
      × EndsOutside t (trim t s)
unfolding trim
trim_lem t s =
    let r = trim_right_lem t s in
    let l = trim_left_lem t (trim_right t s) in
    (
      l.0,
      r.0,
      r.1 ∙ ap (λ x. x ++ r.0) l.1,
      l.2,
      r.2,
      l.3,
      EndsOutside-trim_left t (trim_right t s) r.3,
    )

trim_left-same : (t s : List ℕ) → StartsOutside t s → trim_left t s ≡ s
unfolding trim_left
trim_left-same t [] h = refl
trim_left-same t (c ∷ s) h = if-false (mem c t) (trim_left t s) (c ∷ s) h

trim_right-same : (t s : List ℕ) → EndsOutside t s → trim_right t s ≡ s
unfolding trim_right
trim_right-same t [] h = refl
trim_right-same t (c ∷ []) h = if-false (mem c t) [] (c ∷ []) h
trim_right-same t (c ∷ d ∷ s) h = rw (trim_right-same t (d ∷ s) h) refl

-- To trim a trimmed string changes nothing.
pub trim_idempotent : (t s : List ℕ) → trim t (trim t s) ≡ trim t s
unfolding trim
trim_idempotent t s =
    let h = trim_lem t s in
    ap (trim_left t) (trim_right-same t (trim t s) h.6) ∙ trim_left-same t (trim t s) h.5

without_last-snoc : (s : List ℕ) (c : ℕ) → without_last (s ++ c ∷ []) ≡ s
without_last-snoc [] c = refl
without_last-snoc (d ∷ []) c = refl
without_last-snoc (d ∷ e ∷ s) c = ap (λ x. d ∷ x) (without_last-snoc (e ∷ s) c)

last_of-snoc : (d : ℕ) (s : List ℕ) (c : ℕ) → last_of d (s ++ c ∷ []) ≡ c
last_of-snoc d [] c = refl
last_of-snoc d (e ∷ s) c = last_of-snoc e s c

peeloff-two :
    (c d : ℕ) (s : List ℕ)
    → c ≡ quote
    → last_of d s ≡ quote
    → peeloff (c ∷ d ∷ s) ≡ without_last (d ∷ s)
unfolding peeloff
peeloff-two c d s h k =
    if-false (not (c == quote) || not (last_of d s == quote)) (c ∷ d ∷ s) (without_last (d ∷ s))
      (ground arith)

-- peeloff takes the quotes off a string that is in quotes, whatever it holds.
pub peeloff-quoted : (s : List ℕ) → peeloff (quote ∷ s ++ quote ∷ []) ≡ s
unfolding peeloff
peeloff-quoted [] = peeloff-two quote quote [] refl refl
peeloff-quoted (d ∷ s) =
    peeloff-two quote d (s ++ quote ∷ []) refl (last_of-snoc d s quote)
    ∙ without_last-snoc (d ∷ s) quote

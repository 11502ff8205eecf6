-- ===== src/UntreatedParts/Clear.antt =====
-- `UntreatedParts::ClearParts`: the bytes that are left. The area is from `s` to `s + n`, or to the
-- end if `n` is 0.
use s3fs_fuse.UntreatedParts.View.{holds, IsOrdered, held, IsOrdered-le, AreUpTo}
use s3fs_fuse.UntreatedParts.{make_part, clear_from, UntreatedPart, cleared}
use s3fs_fuse.Base.{
  ℕ, ◌+◌, ◌-◌, ◌≤◌, ◌<◌, ◌≡◌, refl, sym, subst, ◌⊎◌, inl, inr, Bool, false, not, ◌&&◌, ◌||◌, List,
  [], ◌∷◌, arith, ltb, leb, ◌==◌, Bool-cases, All, pos, negsuc, sub_ℕ, if-elim, if-false,
}

abbrev pub in_area : ℕ → ℕ → ℕ → Bool
in_area s n b = leb s b && (n == 0 || ltb b (s + n))

-- The area lies inside the part, and does not reach its end.
abbrev pub splits : ℕ → ℕ → UntreatedPart → Bool
splits s n p = ltb p.start s && not (n == 0) && ltb (s + n) (p.start + p.size)

-- The byte is behind the area in a part that the area splits.
abbrev pub is_lost : ℕ → ℕ → ℕ → List UntreatedPart → Bool
is_lost s n b [] = false
is_lost s n b (p ∷ ps) = splits s n p && holds p b && leb (s + n) b || is_lost s n b ps

-- The part behind the area gets a size that is not positive, so the constructor clears it.
make_part-behind :
    (a s n t : ℕ) → 0 < n → a ≤ s → make_part (s + n) (sub_ℕ (a + (s - a)) (s + n)) t ≡ cleared
unfolding make_part
make_part-behind a s n t h k =
    rw
      (if-false (leb (s + n) (a + (s - a))) (pos (a + (s - a) - (s + n)))
        (negsuc (s + n - (a + (s - a)) - 1)) (ground arith))
      refl

held-above : (b o : ℕ) (ps : List UntreatedPart) → IsOrdered o ps → (o ≤ b) ⊎ (held b ps ≡ false)
held-above b o [] c = inr refl
held-above b o (p ∷ ps) c = elim (held-above b (p.start + p.size + 1) ps c.2) [
  | inl h ↦ inl (omega arith)
  | inr h ↦ ground arith
]

is_lost-none :
    (s n b o : ℕ) (ps : List UntreatedPart) → IsOrdered o ps → s ≤ o → is_lost s n b ps ≡ false
is_lost-none s n b o [] c h = refl
is_lost-none s n b o (p ∷ ps) c h =
    let rest = is_lost-none s n b (p.start + p.size + 1) ps c.2 (omega arith) in ground arith

is_lost-held : (s n b : ℕ) (ps : List UntreatedPart) → held b ps ≡ false → is_lost s n b ps ≡ false
is_lost-held s n b [] h = refl
is_lost-held s n b (p ∷ ps) h = let rest = is_lost-held s n b ps (ground arith) in ground arith

module _ (s n b : ℕ) (p : UntreatedPart) (ps : List UntreatedPart) (h : 0 < p.size)
    (above : (p.start + p.size + 1 ≤ b) ⊎ (held b ps ≡ false))
    (none_lost : s ≤ p.start + p.size + 1 → is_lost s n b ps ≡ false)
    (lost_held : held b ps ≡ false → is_lost s n b ps ≡ false)
    (ih : held b (clear_from s n ps)
      ≡ held b ps && not (in_area s n b) && not (is_lost s n b ps)) where
  abbrev IsLeft : List UntreatedPart → Type 0
  IsLeft l = held b l ≡ held b (p ∷ ps) && not (in_area s n b) && not (is_lost s n b (p ∷ ps))

  IsLeft-clear_from : IsLeft (clear_from s n (p ∷ ps))
  unfolding clear_from
  IsLeft-clear_from =
      if-elim IsLeft (not (n == 0) && leb (s + n) p.start) _ _
        (λ e. let l = none_lost (ground arith) in ground arith)
        (λ e.
          if-elim IsLeft (leb s p.start) _ _
            (λ e1.
              if-elim IsLeft (not (n == 0) && leb (s + n) (p.start + p.size)) _ _
                (λ e2.
                  let l = none_lost (ground arith) in
                  if-elim IsLeft (p.start + p.size - (s + n) == 0) _ _ (λ e3. ground arith)
                    (λ e3. ground arith))
                (λ e2. ground arith))
            (λ e1.
              if-elim IsLeft (ltb s (p.start + p.size)) _ _
                (λ e2.
                  if-elim IsLeft (n == 0 || leb (p.start + p.size) (s + n)) _ _ (λ e3. ground arith)
                    (λ e3.
                      rw
                        (make_part-behind p.start s n p.untreated_tag (ground arith) (ground arith))
                        (let l = none_lost (ground arith) in ground arith)))
                (λ e2. elim (Bool-cases (held b ps)) [
                  | inl l ↦ ground arith
                  | inr l ↦ let z = lost_held l in ground arith
                ])))

pub held-clear_from :
    (s n b o : ℕ) (ps : List UntreatedPart)
    → IsOrdered o ps
    → held b (clear_from s n ps) ≡ held b ps && not (in_area s n b) && not (is_lost s n b ps)
unfolding clear_from
held-clear_from s n b o [] c = refl
held-clear_from s n b o (p ∷ ps) c =
    IsLeft-clear_from s n b p ps c.1 (held-above b (p.start + p.size + 1) ps c.2)
      (is_lost-none s n b (p.start + p.size + 1) ps c.2) (is_lost-held s n b ps)
      (held-clear_from s n b (p.start + p.size + 1) ps c.2)

-- No part is split: the order stays.
pub IsOrdered-clear_from :
    (s n o : ℕ) (ps : List UntreatedPart)
    → IsOrdered o ps
    → All (λ p. splits s n p ≡ false) ps
    → IsOrdered o (clear_from s n ps)
unfolding clear_from
IsOrdered-clear_from s n o [] c k = c
IsOrdered-clear_from s n o (p ∷ ps) c k =
    let ih = IsOrdered-clear_from s n (p.start + p.size + 1) ps c.2 k.1 in
    let ih' = IsOrdered-le (p.start + p.size + 1) o _ ih (omega arith) in
    if-elim (IsOrdered o) (not (n == 0) && leb (s + n) p.start) _ _ (λ e. c)
      (λ e.
        if-elim (IsOrdered o) (leb s p.start) _ _
          (λ e1.
            if-elim (IsOrdered o) (not (n == 0) && leb (s + n) (p.start + p.size)) _ _
              (λ e2.
                if-elim (IsOrdered o) (p.start + p.size - (s + n) == 0) _ _ (λ e3. ih')
                  (λ e3. (
                    ground arith,
                    ground arith,
                    IsOrdered-le _ (s + n + (p.start + p.size - (s + n)) + 1) ps c.2 (ground arith),
                  )))
              (λ e2. ih'))
          (λ e1.
            if-elim (IsOrdered o) (ltb s (p.start + p.size)) _ _
              (λ e2.
                if-elim (IsOrdered o) (n == 0 || leb (p.start + p.size) (s + n)) _ _
                  (λ e3. (
                    c.0,
                    ground arith,
                    IsOrdered-le _ (p.start + (s - p.start) + 1) _ ih (ground arith),
                  ))
                  (λ e3. let z = k.0 in absurd (ground arith)))
              (λ e2. (c.0, c.1, ih))))

-- Whatever is cleared, the tags stay below the last one.
pub tags-clear_from :
    (t s n : ℕ) (ps : List UntreatedPart) → AreUpTo t ps → AreUpTo t (clear_from s n ps)
unfolding clear_from make_part
tags-clear_from t s n [] k = k
tags-clear_from t s n (p ∷ ps) k =
    let ih = tags-clear_from t s n ps k.1 in
    if-elim (AreUpTo t) (not (n == 0) && leb (s + n) p.start) _ _ (λ e. k)
      (λ e.
        if-elim (AreUpTo t) (leb s p.start) _ _
          (λ e1.
            if-elim (AreUpTo t) (not (n == 0) && leb (s + n) (p.start + p.size)) _ _
              (λ e2. if-elim (AreUpTo t) (p.start + p.size - (s + n) == 0) _ _ (λ e3. ih) (λ e3. k))
              (λ e2. ih))
          (λ e1.
            if-elim (AreUpTo t) (ltb s (p.start + p.size)) _ _
              (λ e2.
                if-elim (AreUpTo t) (n == 0 || leb (p.start + p.size) (s + n)) _ _ (λ e3. (k.0, ih))
                  (λ e3. (
                    k.0,
                    (
                      subst (λ q. q.untreated_tag ≤ t)
                          (sym (
                            make_part-behind p.start s n p.untreated_tag (ground arith)
                              (ground arith)))
                          (omega arith),
                      ih,
                    ),
                  )))
              (λ e2. (k.0, ih))))

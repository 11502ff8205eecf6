-- ===== src/UntreatedParts/View.antt =====
-- The byte view of the untreated parts, which bytes some part holds, their order, and the two cases
-- of `stretch`.
use s3fs_fuse.UntreatedParts.{
  make_part, stretch, UntreatedPart, check_overlap, cleared, UntreatedParts,
}
use s3fs_fuse.Base.{
  ℕ, ◌+◌, ◌-◌, ◌≤◌, ◌<◌, min, max, ◌≡◌, refl, ◌⊎◌, inl, inr, Bool, false, ◌&&◌, ◌||◌, none, some,
  List, [], ◌∷◌, arith, ltb, leb, Bool-cases, All, pos, if-true, if-false,
}

abbrev pub holds : UntreatedPart → ℕ → Bool
holds p b = leb p.start b && ltb b (p.start + p.size)

abbrev pub held : ℕ → List UntreatedPart → Bool
held b [] = false
held b (p ∷ ps) = holds p b || held b ps

-- Parts with bytes, from `o` on, and at least one byte between two of them.
abbrev pub IsOrdered : ℕ → List UntreatedPart → Type 0
IsOrdered o [] = Unit
IsOrdered o (p ∷ ps) = (o ≤ p.start) × (0 < p.size) × IsOrdered (p.start + p.size + 1) ps

pub IsOrdered-le : (o o' : ℕ) (ps : List UntreatedPart) → IsOrdered o ps → o' ≤ o → IsOrdered o' ps
IsOrdered-le o o' [] h k = h
IsOrdered-le o o' (p ∷ ps) h k = (omega arith, h.1, h.2)

-- No part holds a byte before the first one.
pub held-below : (b o : ℕ) (ps : List UntreatedPart) → IsOrdered o ps → b < o → held b ps ≡ false
held-below b o [] h k = refl
held-below b o (p ∷ ps) h k =
    let rest = held-below b (p.start + p.size + 1) ps h.2 (omega arith) in ground arith

abbrev pub stretched : ℕ → ℕ → ℕ → UntreatedPart → UntreatedPart
stretched s n t p = record {
  start = min p.start s;
  size = max (p.start + p.size) (s + n) - min p.start s;
  untreated_tag = t;
}

pub stretch-cases :
    (s n t : ℕ) (p : UntreatedPart)
    → 0 < n
    → 0 < p.size
    → ((stretch s n t p ≡ none) × ((s + n < p.start) ⊎ (p.start + p.size < s)))
      ⊎ ((stretch s n t p ≡ some (stretched s n t p)) × (p.start ≤ s + n) × (s ≤ p.start + p.size))
unfolding stretch check_overlap
stretch-cases s n t p h k = elim (Bool-cases (check_overlap s n p)) [
  | inl e ↦ inr (if-true _ _ _ e, ground arith, ground arith)
  | inr e ↦ inl (if-false _ _ _ e, ground arith)
]

pub make_part-pos :
    (s n t : ℕ) → 0 < n → make_part s (pos n) t ≡ record { start = s; size = n; untreated_tag = t }
unfolding make_part
make_part-pos s n t h = if-true (ltb 0 n) _ cleared (ground arith)

abbrev pub AreUpTo : ℕ → List UntreatedPart → Type 0
AreUpTo t = All (λ p. p.untreated_tag ≤ t)

-- The invariant: ordered parts, and no tag that is newer than the last one.
abbrev pub IsValid : UntreatedParts → Type 0
IsValid u = IsOrdered 0 u.untreated_list × AreUpTo u.last_tag u.untreated_list

abbrev pub in_range : ℕ → ℕ → ℕ → Bool
in_range s n b = leb s b && ltb b (s + n)

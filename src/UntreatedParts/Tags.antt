-- ===== src/UntreatedParts/Tags.antt =====
-- The tags of `UntreatedParts::AddPart`: the part that was added or stretched last is the one that
-- has the last tag.
use s3fs_fuse.UntreatedParts.Add.{
  absorb-none, absorb-some, add_from-before, add_from-after, add_from-some,
}
use s3fs_fuse.UntreatedParts.View.{stretched, IsOrdered, make_part-pos, stretch-cases, AreUpTo}
use s3fs_fuse.UntreatedParts.{
  get_last_from, stretch, add_from, absorb, UntreatedPart, check_overlap,
}
use s3fs_fuse.Base.{
  ℕ, ◌+◌, ◌≤◌, ◌<◌, ◌≡◌, refl, sym, ◌∙◌, subst, ◌⊎◌, inl, inr, Option, none, some, List, [], ◌∷◌,
  arith, ◌==◌, Bool-cases, if-true, if-false,
}

stretch-split :
    (s n t : ℕ) (p : UntreatedPart)
    → (stretch s n t p ≡ none) ⊎ (stretch s n t p ≡ some (stretched s n t p))
unfolding stretch
stretch-split s n t p = elim (Bool-cases (check_overlap s n p)) [
  | inl e ↦ inr (if-true _ _ _ e)
  | inr e ↦ inl (if-false _ _ _ e)
]

AreUpTo-le : (t t' : ℕ) (ps : List UntreatedPart) → AreUpTo t ps → t ≤ t' → AreUpTo t' ps
AreUpTo-le t t' [] h k = h
AreUpTo-le t t' (p ∷ ps) h k = (omega arith, AreUpTo-le t t' ps h.1 k)

AreUpTo-absorb :
    (t : ℕ) (p : UntreatedPart) (ps : List UntreatedPart)
    → p.untreated_tag ≤ t
    → AreUpTo t ps
    → AreUpTo t (absorb t p ps)
unfolding absorb
AreUpTo-absorb t p [] h k = (h, tt)
AreUpTo-absorb t p (q ∷ ps) h k = elim (stretch-split q.start q.size t p) [
  | inl x ↦ subst (AreUpTo t) (sym (absorb-none t p q ps x)) (h, k)
  | inr x ↦
      subst (AreUpTo t) (sym (absorb-some t p q (stretched q.start q.size t p) ps x))
        (AreUpTo-absorb t (stretched q.start q.size t p) ps (omega arith) k.1)
]

-- The first part of a list has the tag `t` and holds the range.
abbrev IsHeadOf : ℕ → ℕ → ℕ → List UntreatedPart → Type 0
IsHeadOf t s e [] = ⊥
IsHeadOf t s e (p ∷ ps) = (p.untreated_tag ≡ t) × (p.start ≤ s) × (e ≤ p.start + p.size)

IsHeadOf-absorb :
    (t s e : ℕ) (p : UntreatedPart) (ps : List UntreatedPart)
    → IsHeadOf t s e (p ∷ ps)
    → IsHeadOf t s e (absorb t p ps)
unfolding absorb
IsHeadOf-absorb t s e p [] h = h
IsHeadOf-absorb t s e p (q ∷ ps) h = elim (stretch-split q.start q.size t p) [
  | inl x ↦ subst (IsHeadOf t s e) (sym (absorb-none t p q ps x)) h
  | inr x ↦
      subst (IsHeadOf t s e) (sym (absorb-some t p q (stretched q.start q.size t p) ps x))
        (IsHeadOf-absorb t s e (stretched q.start q.size t p) ps (refl, ground arith, ground arith))
]

-- A part was found that holds the range.
abbrev pub IsFound : ℕ → ℕ → Option (ℕ × ℕ) → Type 0
IsFound s e r = (a k : ℕ) × (r ≡ some (a, k)) × (a ≤ s) × (e ≤ a + k)

abbrev IsLast : ℕ → ℕ → ℕ → List UntreatedPart → Type 0
IsLast t s e ps = IsFound s e (get_last_from t ps)

IsLast-IsHeadOf : (t s e : ℕ) (ps : List UntreatedPart) → IsHeadOf t s e ps → IsLast t s e ps
unfolding get_last_from
IsLast-IsHeadOf t s e [] h = absurd h
IsLast-IsHeadOf t s e (p ∷ ps) h = (
  p.start,
  p.size,
  if-true (p.untreated_tag == t) _ (get_last_from t ps) (ground arith),
  h.1,
  h.2,
)

get_last_from-skip :
    (t : ℕ) (p : UntreatedPart) (ps : List UntreatedPart)
    → p.untreated_tag < t
    → get_last_from t (p ∷ ps) ≡ get_last_from t ps
unfolding get_last_from
get_last_from-skip t p ps h =
    if-false (p.untreated_tag == t) (some (p.start, p.size)) _ (ground arith)

pub tags-add_from :
    (s n t o : ℕ) (ps : List UntreatedPart)
    → 0 < n
    → IsOrdered o ps
    → AreUpTo t ps
    → AreUpTo (t + 1) (add_from s n (t + 1) ps) × IsLast (t + 1) s (s + n) (add_from s n (t + 1) ps)
unfolding add_from
tags-add_from s n t o [] h c k =
    rw (make_part-pos s n (t + 1) h)
      ((omega arith, tt), IsLast-IsHeadOf (t + 1) s (s + n) _ (refl, omega arith, omega arith))
tags-add_from s n t o (p ∷ ps) h c k = elim (stretch-cases s n (t + 1) p h c.1) [
  | inl x ↦ elim x.1 [
    | inl y ↦
        rw (add_from-before s n (t + 1) p ps x.0 y, make_part-pos s n (t + 1) h)
          (
            (omega arith, AreUpTo-le t (t + 1) (p ∷ ps) k (omega arith)),
            IsLast-IsHeadOf (t + 1) s (s + n) _ (refl, omega arith, omega arith),
          )
    | inr y ↦
        let ih = tags-add_from s n t (p.start + p.size + 1) ps h c.2 k.1 in
        let l = ih.1 in
        rw (add_from-after s n (t + 1) p ps x.0 (omega arith)) (
          (omega arith, ih.0),
          (
            l.0,
            l.1,
            get_last_from-skip (t + 1) p (add_from s n (t + 1) ps) (omega arith) ∙ l.2,
            l.3,
            l.4,
          ),
        )
  ]
  | inr x ↦
      let q = stretched s n (t + 1) p in
      rw (add_from-some s n (t + 1) p q ps x.0) (
        AreUpTo-absorb (t + 1) q ps (omega arith) (AreUpTo-le t (t + 1) ps k.1 (omega arith)),
        IsLast-IsHeadOf (t + 1) s (s + n) _
            (IsHeadOf-absorb (t + 1) s (s + n) q ps (refl, ground arith, ground arith)),
      )
]

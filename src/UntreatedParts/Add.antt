-- ===== src/UntreatedParts/Add.antt =====
-- `UntreatedParts::AddPart`: the bytes that are held, the order of the parts, and their tags.
use s3fs_fuse.UntreatedParts.View.{
  IsOrdered, held, holds, stretch-cases, make_part-pos, stretched, IsOrdered-le, in_range,
}
use s3fs_fuse.UntreatedParts.{absorb, UntreatedPart, stretch, add_from, make_part}
use s3fs_fuse.Base.{
  ℕ, ◌+◌, ◌≤◌, ◌<◌, ◌≡◌, refl, sym, subst, inl, inr, Bool, ◌||◌, none, some, List, [], ◌∷◌, arith,
  ltb, pos, if-true, if-false,
}

pub absorb-none :
    (t : ℕ) (p q : UntreatedPart) (ps : List UntreatedPart)
    → stretch q.start q.size t p ≡ none
    → absorb t p (q ∷ ps) ≡ p ∷ q ∷ ps
unfolding absorb
absorb-none t p q ps h = rw (absorb, h) refl

pub absorb-some :
    (t : ℕ) (p q p' : UntreatedPart) (ps : List UntreatedPart)
    → stretch q.start q.size t p ≡ some p'
    → absorb t p (q ∷ ps) ≡ absorb t p' ps
unfolding absorb
absorb-some t p q p' ps h = rw (absorb, h) refl

abbrev IsAdded : (ℕ → Bool) → ℕ → List UntreatedPart → Type 0
IsAdded f o ps = IsOrdered o ps × ((b : ℕ) → held b ps ≡ f b)

-- The stretched part and those that it reaches become one.
absorb_lem :
    (t o : ℕ) (p : UntreatedPart) (ps : List UntreatedPart) (f : ℕ → Bool)
    → o ≤ p.start
    → 0 < p.size
    → IsOrdered p.start ps
    → ((b : ℕ) → holds p b || held b ps ≡ f b)
    → IsAdded f o (absorb t p ps)
unfolding absorb
absorb_lem t o p [] f h k c e = ((h, k, tt), e)
absorb_lem t o p (q ∷ ps) f h k c e = elim (stretch-cases q.start q.size t p c.1 k) [
  | inl x ↦
      subst (IsAdded f o) (sym (absorb-none t p q ps x.0)) ((h, k, (ground arith, c.1, c.2)), e)
  | inr x ↦ subst (IsAdded f o) (sym (absorb-some t p q (stretched q.start q.size t p) ps x.0)) (
      absorb_lem t o (stretched q.start q.size t p) ps f (ground arith) (ground arith)
        (IsOrdered-le (q.start + q.size + 1) _ ps c.2 (ground arith))
        (λ b. let hb = e b in ground arith))
]

pub add_from-some :
    (s n t : ℕ) (p p' : UntreatedPart) (ps : List UntreatedPart)
    → stretch s n t p ≡ some p'
    → add_from s n t (p ∷ ps) ≡ absorb t p' ps
unfolding add_from
add_from-some s n t p p' ps h = rw (add_from, h) refl

pub add_from-before :
    (s n t : ℕ) (p : UntreatedPart) (ps : List UntreatedPart)
    → stretch s n t p ≡ none
    → s + n < p.start
    → add_from s n t (p ∷ ps) ≡ make_part s (pos n) t ∷ p ∷ ps
unfolding add_from
add_from-before s n t p ps h k = rw (add_from, h) (if-true (ltb (s + n) p.start) _ _ (ground arith))

pub add_from-after :
    (s n t : ℕ) (p : UntreatedPart) (ps : List UntreatedPart)
    → stretch s n t p ≡ none
    → p.start ≤ s + n
    → add_from s n t (p ∷ ps) ≡ p ∷ add_from s n t ps
unfolding add_from
add_from-after s n t p ps h k = rw (add_from, h) (if-false (ltb (s + n) p.start) _ _ (ground arith))

pub add_from_lem :
    (s n t o : ℕ) (ps : List UntreatedPart)
    → 0 < n
    → o ≤ s
    → IsOrdered o ps
    → IsOrdered o (add_from s n t ps)
      × ((b : ℕ) → held b (add_from s n t ps) ≡ in_range s n b || held b ps)
unfolding add_from
add_from_lem s n t o [] h k c = rw (make_part-pos s n t h) ((k, h, tt), λ b. refl)
add_from_lem s n t o (p ∷ ps) h k c = elim (stretch-cases s n t p h c.1) [
  | inl x ↦ elim x.1 [
    | inl y ↦
        subst (IsAdded (λ b. in_range s n b || held b (p ∷ ps)) o)
          (sym (add_from-before s n t p ps x.0 y))
          (rw (make_part-pos s n t h) ((k, h, (omega arith, c.1, c.2)), λ b. refl))
    | inr y ↦
        let ih = add_from_lem s n t (p.start + p.size + 1) ps h (omega arith) c.2 in
        subst (IsAdded (λ b. in_range s n b || held b (p ∷ ps)) o)
          (sym (add_from-after s n t p ps x.0 (omega arith)))
          ((c.0, c.1, ih.0), λ b. let e = ih.1 b in ground arith)
  ]
  | inr x ↦
      subst (IsAdded (λ b. in_range s n b || held b (p ∷ ps)) o)
        (sym (add_from-some s n t p (stretched s n t p) ps x.0))
        (absorb_lem t o (stretched s n t p) ps (λ b. in_range s n b || held b (p ∷ ps))
          (ground arith) (ground arith)
          (IsOrdered-le (p.start + p.size + 1) _ ps c.2 (ground arith)) (λ b. ground arith))
]

-- ===== src/S3ObjList/Names/Parents.antt =====
-- The rounds of the inner loop of `MakeHierarchizedList`: a parent is shorter than its name, so any
-- number of rounds from the length of the name on gives the same map.
use s3fs_fuse.S3ObjList.Names.{add_parents, parent, Hmap, in_hmap, put_hmap}
use s3fs_fuse.S3ObjList.{slash}
use s3fs_fuse.Base.{
  ℕ, zero, suc, ◌≤◌, ◌≡◌, refl, sym, ap, ◌∙◌, true, false, Option, none, some, List, [], ◌∷◌, arith,
  ◌==◌, if◌then◌else◌, length, if-elim, str_eq,
}

abbrev IsShorter : List ℕ → Option (List ℕ) → Type 0
IsShorter name none = Unit
IsShorter name (some r) = suc (length r) ≤ length name

IsShorter-cons :
    (c : ℕ) (s : List ℕ) (r : Option (List ℕ))
    → IsShorter s r
    → IsShorter
        (c ∷ s)
        (elim r [ some r ↦ some (c ∷ r) | none ↦ if c == slash then some [] else none ])
IsShorter-cons c s none h =
    if-elim (IsShorter (c ∷ s)) (c == slash) (some []) none (λ _. omega arith) (λ _. tt)
IsShorter-cons c s (some r) h = omega arith

IsShorter-parent : (name : List ℕ) → IsShorter name (parent name)
IsShorter-parent [] = tt
IsShorter-parent (c ∷ s) = IsShorter-cons c s (parent s) (IsShorter-parent s)

-- What a round does for a parent, with the later rounds as a function.
abbrev after_parent : Option (List ℕ) → Hmap → (List ℕ → Hmap → Hmap) → Hmap
after_parent none h rest = h
after_parent (some []) h rest = h
after_parent (some (c ∷ s)) h rest = elim (str_eq (slash ∷ []) (c ∷ s)) [
  | true ↦ h
  | false ↦ rest (c ∷ s) (if in_hmap (c ∷ s) h then h else put_hmap (c ∷ s) false h)
]

add_parents-suc :
    (n : ℕ) (name : List ℕ) (h : Hmap)
    → add_parents (suc n) name h ≡ after_parent (parent name) h (add_parents n)
unfolding add_parents
add_parents-suc n name h = go (parent name)
  where
    go :
        (p : Option (List ℕ))
        → elim p [
          | none ↦ h
          | some [] ↦ h
          | some (c ∷ s) ↦ elim (str_eq (slash ∷ []) (c ∷ s)) [
            | true ↦ h
            | false ↦
                add_parents n (c ∷ s) (if in_hmap (c ∷ s) h then h else put_hmap (c ∷ s) false h)
          ]
        ]
          ≡ after_parent p h (add_parents n)
    go none = refl
    go (some []) = refl
    go (some (c ∷ s)) = refl

after_parent-eq :
    (name : List ℕ) (p : Option (List ℕ)) (h : Hmap) (f g : List ℕ → Hmap → Hmap)
    → IsShorter name p
    → ((r : List ℕ) (h' : Hmap) → suc (length r) ≤ length name → f r h' ≡ g r h')
    → after_parent p h f ≡ after_parent p h g
after_parent-eq name none h f g k e = refl
after_parent-eq name (some []) h f g k e = refl
after_parent-eq name (some (c ∷ s)) h f g k e =
    ap (λ w. elim (str_eq (slash ∷ []) (c ∷ s)) as (λ _. Hmap) [ true ↦ h | false ↦ w ])
      (e (c ∷ s) (if in_hmap (c ∷ s) h then h else put_hmap (c ∷ s) false h) k)

no_rounds : (n : ℕ) (h : Hmap) → add_parents n [] h ≡ h
unfolding add_parents
no_rounds zero h = refl
no_rounds (suc n) h = refl

add_parents-enough :
    (n m : ℕ) (name : List ℕ) (h : Hmap)
    → length name ≤ n
    → length name ≤ m
    → add_parents n name h ≡ add_parents m name h
add_parents-enough n m [] h a b = no_rounds n h ∙ sym (no_rounds m h)
add_parents-enough zero m (c ∷ s) h a b = absurd (omega arith)
add_parents-enough (suc n) zero (c ∷ s) h a b = absurd (omega arith)
add_parents-enough (suc n) (suc m) (c ∷ s) h a b =
    add_parents-suc n (c ∷ s) h
    ∙ after_parent-eq (c ∷ s) (parent (c ∷ s)) h (add_parents n) (add_parents m)
        (IsShorter-parent (c ∷ s))
        (λ r h' k. add_parents-enough n m r h' (omega arith) (omega arith))
    ∙ sym (add_parents-suc m (c ∷ s) h)

-- ===== src/PseudoFd/Smallest.antt =====
-- `GetUnusedMinPseudoFd` and the changes of the list.
use s3fs_fuse.PseudoFd.{release_pseudo_fd, unused_from, sorted_insert}
use s3fs_fuse.Base.{
  ℕ, suc, ◌≤◌, ◌<◌, ◌≡◌, refl, sym, subst, inl, inr, Bool, true, false, not, ◌&&◌, ◌||◌, List, [],
  ◌∷◌, arith, ltb, leb, ◌==◌, ==_iff, Bool-cases, if-elim, mem,
}

-- Strictly ascending, from `o` on.
abbrev pub IsSorted : ℕ → List ℕ → Type 0
IsSorted o [] = Unit
IsSorted o (x ∷ xs) = (o ≤ x) × IsSorted (suc x) xs

pub IsSorted-le : (o o' : ℕ) (xs : List ℕ) → IsSorted o xs → o' ≤ o → IsSorted o' xs
IsSorted-le o o' [] h k = h
IsSorted-le o o' (x ∷ xs) h k = (omega arith, h.1)

pub mem-below : (b o : ℕ) (xs : List ℕ) → IsSorted o xs → b < o → mem b xs ≡ false
mem-below b o [] h k = refl
mem-below b o (x ∷ xs) h k = let rest = mem-below b (suc x) xs h.1 (omega arith) in ground arith

-- The smallest number from `m` on that is not in the list.
abbrev pub IsSmallest : ℕ → List ℕ → ℕ → Type 0
IsSmallest m xs n = (m ≤ n) × (mem n xs ≡ false) × ((b : ℕ) → m ≤ b → b < n → mem b xs ≡ true)

pub IsSmallest-unused_from :
    (m : ℕ) (xs : List ℕ) → IsSorted m xs → IsSmallest m xs (unused_from m xs)
unfolding unused_from
IsSmallest-unused_from m [] h = (omega arith, refl, λ b k l. absurd (omega arith))
IsSmallest-unused_from m (x ∷ xs) h =
    if-elim (IsSmallest m (x ∷ xs)) (m == x) _ _
      (λ e.
        let ih =
          IsSmallest-unused_from (suc m) xs (IsSorted-le (suc x) (suc m) xs h.1 (ground arith)) in
        (
          omega arith,
          (let a = ih.0 in let c = ih.1 in ground arith),
          λ b k l. elim (Bool-cases (b == x)) [
            | inl q ↦ ground arith
            | inr q ↦ let c = ih.2 b (ground arith) l in ground arith
          ],
        ))
      (λ e.
        if-elim (IsSmallest m (x ∷ xs)) (ltb m x) _ _
          (λ q. (
            omega arith,
            mem-below m x (x ∷ xs) (omega arith, h.1) (ground arith),
            λ b k l. absurd (omega arith),
          ))
          (λ q. absurd (ground arith)))

pub IsSorted-sorted_insert :
    (n o : ℕ) (xs : List ℕ)
    → o ≤ n
    → mem n xs ≡ false
    → IsSorted o xs
    → IsSorted o (sorted_insert n xs)
unfolding sorted_insert
IsSorted-sorted_insert n o [] h k c = (h, tt)
IsSorted-sorted_insert n o (x ∷ xs) h k c =
    if-elim (IsSorted o) (leb n x) _ _ (λ e. (h, (ground arith, c.1)))
      (λ e. (c.0, IsSorted-sorted_insert n (suc x) xs (ground arith) (ground arith) c.1))

pub mem-sorted_insert : (b n : ℕ) (xs : List ℕ) → mem b (sorted_insert n xs) ≡ b == n || mem b xs
unfolding sorted_insert
mem-sorted_insert b n [] = refl
mem-sorted_insert b n (x ∷ xs) =
    let ih = mem-sorted_insert b n xs in
    if-elim (λ w. mem b w ≡ b == n || mem b (x ∷ xs)) (leb n x) _ _ (λ e. refl) (λ e. ground arith)

abbrev IsReleased : ℕ → ℕ → List ℕ → Bool × List ℕ → Type 0
IsReleased fd o xs r =
    (r.0 ≡ mem fd xs) × IsSorted o r.1 × ((b : ℕ) → mem b r.1 ≡ mem b xs && not (b == fd))

pub IsReleased-release_pseudo_fd :
    (fd o : ℕ) (xs : List ℕ) → IsSorted o xs → IsReleased fd o xs (release_pseudo_fd fd xs)
unfolding release_pseudo_fd
IsReleased-release_pseudo_fd fd o [] h = (refl, tt, λ b. refl)
IsReleased-release_pseudo_fd fd o (x ∷ xs) h =
    let ih = IsReleased-release_pseudo_fd fd (suc x) xs h.1 in
    if-elim (IsReleased fd o (x ∷ xs)) (fd == x) _ _
      (λ e.
        let z = mem-below x (suc x) xs h.1 (omega arith) in
        (
          ground arith,
          IsSorted-le (suc x) o xs h.1 (omega arith),
          λ b. elim (Bool-cases (b == x)) [
            | inl q ↦
                let y = subst (λ w. mem w xs ≡ false) (sym ((==_iff b x).0 q)) z in ground arith
            | inr q ↦ ground arith
          ],
        ))
      (λ e. ((let a = ih.0 in ground arith), (h.0, ih.1), λ b. let a = ih.2 b in ground arith))

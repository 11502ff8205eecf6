-- ===== src/PseudoFd/Reachable.antt =====
-- Descriptors in each list that calls of `Get` and `Release` lead to.
use s3fs_fuse.PseudoFd.Smallest.{
  IsSorted, IsSmallest, IsReleased-release_pseudo_fd, IsSmallest-unused_from,
  IsSorted-sorted_insert, mem-sorted_insert,
}
use s3fs_fuse.PseudoFd.{
  release, initially, step, get, IsReachable, create_pseudo_fd, get_unused_min_pseudo_fd,
  release_pseudo_fd, Step, unused_from,
}
use s3fs_fuse.Base.{
  ℕ, ◌≡◌, sym, ap, ◌∙◌, subst, inl, inr, Bool, true, false, not, ◌&&◌, ◌||◌, List, arith, ◌==◌,
  ==_iff, Bool-cases, mem,
}

IsSorted-Step : {xs ys : List ℕ} → Step xs ys → IsSorted 2 xs → IsSorted 2 ys
unfolding create_pseudo_fd get_unused_min_pseudo_fd
IsSorted-Step {xs = xs} get h =
    let s = IsSmallest-unused_from 2 xs h in
    IsSorted-sorted_insert (unused_from 2 xs) 2 xs s.0 s.1 h
IsSorted-Step {xs = xs} (release fd) h = (IsReleased-release_pseudo_fd fd 2 xs h).1

IsSorted-IsReachable : {xs : List ℕ} → IsReachable xs → IsSorted 2 xs
IsSorted-IsReachable initially = tt
IsSorted-IsReachable (step r s) = IsSorted-Step s (IsSorted-IsReachable r)

-- Whatever calls came before, Get returns the smallest number from 2 on that is not in use, and puts
-- it in use and nothing else; and Release of any number succeeds exactly if it was in use, and takes
-- it out of use and nothing else.
pub calls_lem :
    (xs : List ℕ)
    → IsReachable xs
    → (fd : ℕ)
    → IsSmallest 2 xs (create_pseudo_fd xs).0
      × ((b : ℕ) → mem b (create_pseudo_fd xs).1 ≡ b == (create_pseudo_fd xs).0 || mem b xs)
      × ((release_pseudo_fd fd xs).0 ≡ mem fd xs)
      × ((b : ℕ) → mem b (release_pseudo_fd fd xs).1 ≡ mem b xs && not (b == fd))
unfolding create_pseudo_fd get_unused_min_pseudo_fd
calls_lem xs r fd =
    let h = IsSorted-IsReachable r in
    let q = IsReleased-release_pseudo_fd fd 2 xs h in
    (IsSmallest-unused_from 2 xs h, (λ b. mem-sorted_insert b (unused_from 2 xs) xs), q.0, q.2)

-- What Get puts in use, Release gives back: Release of the descriptor that Get returned succeeds and
-- the same descriptors are in use as before.
pub release-get :
    (xs : List ℕ)
    → IsReachable xs
    → ((release_pseudo_fd (create_pseudo_fd xs).0 (create_pseudo_fd xs).1).0 ≡ true)
      × ((b : ℕ)
          → mem b (release_pseudo_fd (create_pseudo_fd xs).0 (create_pseudo_fd xs).1).1 ≡ mem b xs)
release-get xs r =
    let c = calls_lem xs r 0 in
    let d = calls_lem (create_pseudo_fd xs).1 (step r get) (create_pseudo_fd xs).0 in
    let n = (create_pseudo_fd xs).0 in
    (
      d.2 ∙ c.1 n ∙ in_use n (mem n xs),
      λ b. d.3 b ∙ ap (λ w. w && not (b == n)) (c.1 b) ∙ given_back b n xs c.0.1,
    )
  where
    in_use : (n : ℕ) (w : Bool) → n == n || w ≡ true
    in_use n w = ground arith

    given_back :
        (b n : ℕ) (xs : List ℕ) → mem n xs ≡ false → (b == n || mem b xs) && not (b == n) ≡ mem b xs
    given_back b n xs h = elim (Bool-cases (b == n)) [
      | inl q ↦ let y = subst (λ w. mem w xs ≡ false) (sym ((==_iff b n).0 q)) h in ground arith
      | inr q ↦ ground arith
    ]

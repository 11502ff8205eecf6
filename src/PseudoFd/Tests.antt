-- ===== src/PseudoFd/Tests.antt =====
-- The theorems on pseudo file descriptors after three calls.
use s3fs_fuse.PseudoFd.Reachable.{calls_lem}
use s3fs_fuse.PseudoFd.Smallest.{IsSmallest}
use s3fs_fuse.PseudoFd.{
  release, initially, step, get, release_pseudo_fd, IsReachable, create_pseudo_fd,
  get_unused_min_pseudo_fd, unused_from, sorted_insert,
}
use s3fs_fuse.Base.{ℕ, ◌≡◌, refl, not, ◌&&◌, ◌||◌, List, [], ◌∷◌, ◌==◌, mem}

-- Two descriptors are given out, and the first one is released.
abbrev three_calls : List ℕ
three_calls = (release_pseudo_fd 2 (create_pseudo_fd (create_pseudo_fd []).1).1).1

three_calls-run : three_calls ≡ 3 ∷ []
unfolding release_pseudo_fd create_pseudo_fd get_unused_min_pseudo_fd unused_from sorted_insert
three_calls-run = refl

three_calls-IsReachable : IsReachable three_calls
three_calls-IsReachable = step (step (step initially get) get) (release 2)

calls_lem_example :
    IsSmallest 2 three_calls (create_pseudo_fd three_calls).0
    × ((b : ℕ)
        → mem b (create_pseudo_fd three_calls).1
          ≡ b == (create_pseudo_fd three_calls).0 || mem b three_calls)
    × ((release_pseudo_fd 3 three_calls).0 ≡ mem 3 three_calls)
    × ((b : ℕ) → mem b (release_pseudo_fd 3 three_calls).1 ≡ mem b three_calls && not (b == 3))
calls_lem_example = calls_lem three_calls three_calls-IsReachable 3

-- ===== src/PseudoFd.antt =====
-- `class PseudoFdManager` of src/fdcache_pseudofd.h and src/fdcache_pseudofd.cpp: the file descriptors
-- that s3fs gives out, as the sorted list of those in use. They are numbers, which an `int` holds as
-- long as fewer than 2^31 - 2 are in use. The mutex is held over each method, so the methods are
-- functions of the list, and any interleaving of calls is a sequence of them.
mod Smallest
mod Reachable
mod Tests
use s3fs_fuse.Base.{ℕ, suc, Bool, true, false, List, [], ◌∷◌, ltb, leb, ◌==◌, if◌then◌else◌}

abbrev pub min_pseudofd_number : ℕ
min_pseudofd_number = 2

-- The loop of `GetUnusedMinPseudoFd`.
pub unused_from : ℕ → List ℕ → ℕ
unused_from min_fd [] = min_fd
unused_from min_fd (x ∷ xs) =
    if min_fd == x
    then unused_from (suc min_fd) xs
    else (let rest = unused_from min_fd xs in if ltb min_fd x then min_fd else rest)

pub get_unused_min_pseudo_fd : List ℕ → ℕ
get_unused_min_pseudo_fd xs = unused_from min_pseudofd_number xs

-- `push_back` and `std::sort` of a list that is sorted.
pub sorted_insert : ℕ → List ℕ → List ℕ
sorted_insert n [] = n ∷ []
sorted_insert n (x ∷ xs) = let rest = sorted_insert n xs in if leb n x then n ∷ x ∷ xs else x ∷ rest

pub create_pseudo_fd : List ℕ → ℕ × List ℕ
create_pseudo_fd xs = (get_unused_min_pseudo_fd xs, sorted_insert (get_unused_min_pseudo_fd xs) xs)

pub release_pseudo_fd : ℕ → List ℕ → Bool × List ℕ
release_pseudo_fd fd [] = (false, [])
release_pseudo_fd fd (x ∷ xs) =
    let rest = release_pseudo_fd fd xs in if fd == x then (true, xs) else (rest.0, x ∷ rest.1)

-- The calls of `Get` and `Release` that lead from one list to another.
pub data Step : List ℕ → List ℕ → Type 0 where
  get : {xs : List ℕ} → Step xs (create_pseudo_fd xs).1
  release : {xs : List ℕ} (fd : ℕ) → Step xs (release_pseudo_fd fd xs).1

-- The lists that calls lead to from the start, where no descriptor is in use.
pub data IsReachable : List ℕ → Type 0 where
  initially : IsReachable []
  step : {xs ys : List ℕ} → IsReachable xs → Step xs ys → IsReachable ys

-- ===== src/StringUtil/Trim.antt =====
-- `trim_left`, `trim_right`, `trim` and `peeloff` of src/string_util.cpp.
use s3fs_fuse.StringUtil.{quote}
pub mod Ends
use s3fs_fuse.Base.{ℕ, not, ◌||◌, List, [], ◌∷◌, ◌==◌, if◌then◌else◌, mem}

pub trim_left : List ℕ → List ℕ → List ℕ
trim_left t [] = []
trim_left t (c ∷ d) = let rest = trim_left t d in if mem c t then rest else c ∷ d

-- The string up to the last character that is not of `t`, or none.
pub trim_right : List ℕ → List ℕ → List ℕ
trim_right t [] = []
trim_right t (c ∷ d) = elim (trim_right t d) [
  | [] ↦ if mem c t then [] else c ∷ []
  | x ∷ xs ↦ c ∷ x ∷ xs
]

pub trim : List ℕ → List ℕ → List ℕ
trim t s = trim_left t (trim_right t s)

-- The string less its last character.
abbrev pub without_last : List ℕ → List ℕ
without_last [] = []
without_last (c ∷ []) = []
without_last (c ∷ d ∷ s) = c ∷ without_last (d ∷ s)

abbrev pub last_of : ℕ → List ℕ → ℕ
last_of c [] = c
last_of c (d ∷ s) = last_of d s

pub peeloff : List ℕ → List ℕ
peeloff [] = []
peeloff (c ∷ []) = c ∷ []
peeloff (c ∷ d ∷ s) =
    if not (c == quote) || not (last_of d s == quote) then c ∷ d ∷ s else without_last (d ∷ s)

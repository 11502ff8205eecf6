-- ===== src/StatCache/Notruncate.antt =====
-- `StatCache::AddNotruncateCache`, `DelNotruncateCache` and `GetNotruncateCache` of src/cache.cpp: the
-- names of new files that are not uploaded yet, by directory. `mydirname` and `mybasename` stand for
-- the C library's `dirname` and `basename`.
pub mod Listed
use s3fs_fuse.Base.{
  ℕ, Bool, true, false, ◌||◌, Option, none, some, List, [], ◌∷◌, ◌++◌, ◌==◌, if◌then◌else◌, Map,
  str_eq, find, put, erase,
}

-- `*rbegin()`, 0 for the empty string.
abbrev pub last_char : List ℕ → ℕ
last_char [] = 0
last_char (c ∷ []) = c
last_char (c ∷ d ∷ s) = last_char (d ∷ s)

abbrev pub ends_in_slash : List ℕ → Bool
ends_in_slash s = last_char s == b'/'

abbrev pub is_empty_str : List ℕ → Bool
is_empty_str [] = true
is_empty_str (c ∷ s) = false

abbrev pub add_slash : List ℕ → List ℕ
add_slash s = s ++ b'/' ∷ []

-- `std::find` in a list of names.
abbrev pub has_name : List ℕ → List (List ℕ) → Bool
has_name s [] = false
has_name s (t ∷ l) = str_eq s t || has_name s l

-- `erase` of the place that `std::find` returns.
pub erase_name : List ℕ → List (List ℕ) → List (List ℕ)
erase_name s [] = []
erase_name s (t ∷ l) = let rest = erase_name s l in if str_eq s t then l else t ∷ rest

abbrev pub Names : Type 0
Names = Map (List (List ℕ))

-- The last test of `DelNotruncateCache`: a directory without names goes.
abbrev pub put_names : List ℕ → List (List ℕ) → Names → Names
put_names dir [] m = erase dir m
put_names dir (s ∷ l) m = put dir (s ∷ l) m

-- The names of a directory with one more, or one less, given what the search for it returns.
abbrev pub with_name : List ℕ × List ℕ → Names → Option (List (List ℕ)) → Names
with_name p m none = put p.0 (p.1 ∷ []) m
with_name p m (some l) = if has_name p.1 l then m else put p.0 (l ++ p.1 ∷ []) m

abbrev pub without_name : List ℕ × List ℕ → Names → Option (List (List ℕ)) → Names
without_name p m none = m
without_name p m (some l) = if has_name p.1 l then put_names p.0 (erase_name p.1 l) m else m

-- The loop of `GetNotruncateCache`.
pub add_missing : List (List ℕ) → List (List ℕ) → List (List ℕ)
add_missing [] list = list
add_missing (s ∷ l) list = add_missing l (if has_name s list then list else list ++ s ∷ [])

pub get_notruncate_cache : List ℕ → List (List ℕ) → Names → Bool × List (List ℕ)
get_notruncate_cache parentdir list m = if is_empty_str parentdir then (false, list) else (
  true,
  elim (find (if ends_in_slash parentdir then parentdir else add_slash parentdir) m) [
    | none ↦ list
    | some l ↦ add_missing l list
  ],
)

module _ (mydirname mybasename : List ℕ → List ℕ) where
  -- The directory and the name of a path that is not a directory's.
  pub name_of : List ℕ → Option (List ℕ × List ℕ)
  name_of key =
      if is_empty_str key
        || ends_in_slash key
        || is_empty_str (mydirname key)
        || is_empty_str (mybasename key)
      then none
      else some (add_slash (mydirname key), mybasename key)

  pub add_notruncate_cache : List ℕ → Names → Bool × Names
  add_notruncate_cache key m = elim (name_of key) [
    | none ↦ (false, m)
    | some p ↦ (true, with_name p m (find p.0 m))
  ]

  pub del_notruncate_cache : List ℕ → Names → Bool × Names
  del_notruncate_cache key m = elim (name_of key) [
    | none ↦ (false, m)
    | some p ↦ (true, without_name p m (find p.0 m))
  ]

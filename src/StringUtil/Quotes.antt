-- ===== src/StringUtil/Quotes.antt =====
-- `takeout_str_dquart` and `get_keyword_value` of src/string_util.cpp.
use s3fs_fuse.StringUtil.{quote}
pub mod Values
use s3fs_fuse.Base.{
  ℕ, Bool, true, false, not, Option, none, some, List, [], ◌∷◌, ◌==◌, if◌then◌else◌, mem,
}

-- What is behind the first `c`: `find_first_of` and `erase`.
pub after_first : ℕ → List ℕ → Option (List ℕ)
after_first c [] = none
after_first c (d ∷ s) = let rest = after_first c s in if d == c then some s else rest

-- What is before the last `c`: `find_last_of` and `erase`.
pub before_last : ℕ → List ℕ → Option (List ℕ)
before_last c [] = none
before_last c (d ∷ s) = elim (before_last c s) [
  | some r ↦ some (d ∷ r)
  | none ↦ if d == c then some [] else none
]

-- The return value and what is left in `str`.
pub takeout_str_dquart : List ℕ → Bool × List ℕ
takeout_str_dquart str = elim (after_first quote str) [
  | none ↦ (true, str)
  | some s ↦ elim (before_last quote s) [ none ↦ (false, s) | some r ↦ (not (mem quote r), r) ]
]

-- What is behind the prefix, if it is one.
pub strip_prefix : List ℕ → List ℕ → Option (List ℕ)
strip_prefix [] s = some s
strip_prefix (k ∷ ks) [] = none
strip_prefix (k ∷ ks) (c ∷ s) = let rest = strip_prefix ks s in if k == c then rest else none

-- What is behind the first place where the keyword stands: `find` and `spos += strlen(keyword)`.
pub after_keyword : List ℕ → List ℕ → Option (List ℕ)
after_keyword keyword [] = strip_prefix keyword []
after_keyword keyword (c ∷ s) =
    let rest = after_keyword keyword s in
    elim (strip_prefix keyword (c ∷ s)) [ some r ↦ some r | none ↦ rest ]

-- The string up to the first `&`, or all of it.
pub until_amp : List ℕ → List ℕ
until_amp [] = []
until_amp (c ∷ s) = let rest = until_amp s in if c == 38 then [] else c ∷ rest

-- For a keyword that is not null; `none` for the return of false. The character behind the end of
-- `target` is 0, not `=`.
pub get_keyword_value : List ℕ → List ℕ → Option (List ℕ)
get_keyword_value target keyword = elim (after_keyword keyword target) [
  | none ↦ none
  | some r ↦ elim r [ [] ↦ none | c ∷ s ↦ if c == 61 then some (until_amp s) else none ]
]

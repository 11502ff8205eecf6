-- ===== src/Headers.antt =====
-- `headers_t` (src/metaheader.h): a `std::map` from header names to values, ordered without regard to
-- case, and `CaseInsensitiveStringView` (src/string_util.h). `strcasecmp` works on the bytes as
-- `tolower` of the C locale leaves them.
pub mod Lookup
use s3fs_fuse.Base.{
  ℕ, ◌+◌, Bool, true, false, ◌&&◌, Option, none, some, List, [], ◌∷◌, map, leb, ◌==◌, if◌then◌else◌,
  str_eq, str_ltb,
}

-- `tolower`
abbrev pub to_lower : ℕ → ℕ
to_lower c = if leb 65 c && leb c 90 then c + 32 else c

-- `strcasecmp` is 0, and is negative.
unfoldable pub nocase_eq : List ℕ → List ℕ → Bool
nocase_eq s t = str_eq (map to_lower s) (map to_lower t)

pub nocase_ltb : List ℕ → List ℕ → Bool
nocase_ltb s t = str_ltb (map to_lower s) (map to_lower t)

-- `CaseInsensitiveStringView::is_prefix`
unfoldable pub nocase_prefix : List ℕ → List ℕ → Bool
nocase_prefix s [] = true
nocase_prefix [] (d ∷ prefix) = false
nocase_prefix (c ∷ s) (d ∷ prefix) = to_lower c == to_lower d && nocase_prefix s prefix

abbrev pub Headers : Type 0
Headers = List (List ℕ × List ℕ)

-- `find`
unfoldable pub header : List ℕ → Headers → Option (List ℕ)
header k [] = none
header k (x ∷ m) = let rest = header k m in if nocase_eq k x.0 then some x.1 else rest

-- `operator[]` and an assignment: an entry that is there keeps its name.
unfoldable pub set_header : List ℕ → List ℕ → Headers → Headers
set_header k v [] = (k, v) ∷ []
set_header k v (x ∷ m) =
    let rest = set_header k v m in
    if nocase_eq k x.0 then (x.0, v) ∷ m else if nocase_ltb k x.0 then (k, v) ∷ x ∷ m else x ∷ rest

-- `erase`
pub unset_header : List ℕ → Headers → Headers
unset_header k [] = []
unset_header k (x ∷ m) = let rest = unset_header k m in if nocase_eq k x.0 then rest else x ∷ rest

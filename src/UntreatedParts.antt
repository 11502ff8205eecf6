-- ===== src/UntreatedParts.antt =====
-- `struct untreatedpart` of src/types.h and `class UntreatedParts` of src/fdcache_untreated.h and
-- src/fdcache_untreated.cpp: the areas of an open file that were written and are not uploaded yet.
-- Parameters that the source tests for being negative are integers; the offsets that a part holds
-- are numbers. `long` tags are numbers, which do not wrap below 2^63. The mutex is not modelled:
-- each method holds it from its start to its end.
pub mod View
mod Add
mod Tags
mod Clear
mod LastUpdate
mod Bytes
mod Tests
use s3fs_fuse.Base.{
  ℕ, ◌+◌, ◌-◌, min, max, Bool, true, false, not, ◌&&◌, ◌||◌, Option, none, some, List, [], ◌∷◌, ltb,
  leb, ◌==◌, if◌then◌else◌, ℤ, pos, negsuc, sub_ℕ,
}

pub record UntreatedPart : Type 0 where
  pub start : ℕ
  pub size : ℕ
  pub untreated_tag : ℕ

-- What the constructor and `clear` leave behind on wrong parameters.
abbrev pub cleared : UntreatedPart
cleared = record { start = 0; size = 0; untreated_tag = 0 }

-- The constructor, for a start that is not negative.
unfoldable pub make_part : ℕ → ℤ → ℕ → UntreatedPart
make_part s (pos n) t =
    if ltb 0 n then record { start = s; size = n; untreated_tag = t } else cleared
make_part s (negsuc n) t = cleared

pub check_overlap : ℕ → ℕ → UntreatedPart → Bool
check_overlap s n p =
    not (leb n 0 || leb (p.size) 0 || ltb (s + n) p.start || ltb (p.start + p.size) s)

-- `none` for false: the part does not change then.
pub stretch : ℕ → ℕ → ℕ → UntreatedPart → Option UntreatedPart
stretch s n t p =
    if check_overlap s n p
    then some (record {
      start = min p.start s;
      size = max (p.start + p.size) (s + n) - min p.start s;
      untreated_tag = t;
    })
    else none

pub record UntreatedParts : Type 0 where
  pub untreated_list : List UntreatedPart
  pub last_tag : ℕ

pub empty : UntreatedParts → Bool
empty u = elim u.untreated_list [ [] ↦ true | _ ∷ _ ↦ false ]

-- The inner loop of `AddPart`: the stretched part takes in the parts after it that it reaches.
pub absorb : ℕ → UntreatedPart → List UntreatedPart → List UntreatedPart
absorb t p [] = p ∷ []
absorb t p (q ∷ ps) = elim (stretch q.start q.size t p) [
  | none ↦ p ∷ q ∷ ps
  | some p' ↦ absorb t p' ps
]

pub add_from : ℕ → ℕ → ℕ → List UntreatedPart → List UntreatedPart
add_from s n t [] = make_part s (pos n) t ∷ []
add_from s n t (p ∷ ps) = elim (stretch s n t p) [
  | some p' ↦ absorb t p' ps
  | none ↦ if ltb (s + n) p.start then make_part s (pos n) t ∷ p ∷ ps else p ∷ add_from s n t ps
]

pub add_part : ℤ → ℤ → UntreatedParts → Bool × UntreatedParts
add_part (negsuc s) n u = (false, u)
add_part (pos s) (negsuc n) u = (false, u)
add_part (pos s) (pos n) u = if leb n 0 then (false, u) else (
  true,
  record {
    untreated_list = add_from s n (u.last_tag + 1) u.untreated_list;
    last_tag = u.last_tag + 1;
  },
)

-- The loop of `RowGetPart`, with the start and the size that it returns.
pub row_get_from : ℕ → ℕ → Bool → ℕ → List UntreatedPart → Option (ℕ × ℕ)
row_get_from max_size min_size lastpart t [] = none
row_get_from max_size min_size lastpart t (p ∷ ps) =
    let rest = row_get_from max_size min_size lastpart t ps in
    if not lastpart || p.untreated_tag == t
    then (if leb min_size p.size
        then some (p.start, if leb p.size max_size then p.size else max_size)
        else if lastpart
        then none
        else rest)
    else rest

pub row_get_part : ℤ → ℤ → Bool → UntreatedParts → Option (ℕ × ℕ)
row_get_part (negsuc x) min_size lastpart u = none
row_get_part (pos x) (negsuc y) lastpart u = none
row_get_part (pos x) (pos y) lastpart u =
    if leb x 0 || ltb x y then none else row_get_from x y lastpart u.last_tag u.untreated_list

abbrev pub get_last_updated_part : ℤ → ℤ → UntreatedParts → Option (ℕ × ℕ)
get_last_updated_part max_size min_size u = row_get_part max_size min_size true u

-- The loop of `ClearParts`. A part that is cut at its end, and one that stays behind the area, go
-- one round more in the source, which goes to the next part or ends the loop.
pub clear_from : ℕ → ℕ → List UntreatedPart → List UntreatedPart
clear_from s n [] = []
clear_from s n (p ∷ ps) =
    let rest = clear_from s n ps in
    if not (n == 0) && leb (s + n) p.start
    then p ∷ ps
    else if leb s p.start
    then (if not (n == 0) && leb (s + n) (p.start + p.size)
        then (if p.start + p.size - (s + n) == 0
            then rest
            else record p { start = s + n; size = p.start + p.size - (s + n) } ∷ ps)
        else rest)
    else if ltb s (p.start + p.size)
    then (if n == 0 || leb (p.start + p.size) (s + n)
        then record p { size = s - p.start } ∷ rest
        else record p { size = s - p.start }
          ∷ make_part (s + n) (sub_ℕ (p.start + (s - p.start)) (s + n)) p.untreated_tag
          ∷ rest)
    else p ∷ rest

pub clear_parts : ℤ → ℤ → UntreatedParts → Bool × UntreatedParts
clear_parts (negsuc s) n u = (false, u)
clear_parts (pos s) (negsuc n) u = (false, u)
clear_parts (pos s) (pos n) u =
    (true, record u { untreated_list = clear_from s n u.untreated_list })

abbrev pub clear_all : UntreatedParts → Bool × UntreatedParts
clear_all u = clear_parts (pos 0) (pos 0) u

unfoldable pub get_last_from : ℕ → List UntreatedPart → Option (ℕ × ℕ)
get_last_from t [] = none
get_last_from t (p ∷ ps) =
    let rest = get_last_from t ps in if p.untreated_tag == t then some (p.start, p.size) else rest

abbrev pub get_last_update_part : UntreatedParts → Option (ℕ × ℕ)
get_last_update_part u = get_last_from u.last_tag u.untreated_list

-- The end of a loop that changes the part with the last tag: false if there is none.
abbrev pub with_list : UntreatedParts → Option (List UntreatedPart) → Bool × UntreatedParts
with_list u none = (false, u)
with_list u (some ps) = (true, record u { untreated_list = ps })

-- A part with its new place, erased if the size is not positive.
pub replaced : ℕ → ℤ → UntreatedPart → List UntreatedPart → List UntreatedPart
replaced s (pos n) p ps = if ltb 0 n then record p { start = s; size = n } ∷ ps else ps
replaced s (negsuc n) p ps = ps

-- The loop of `ReplaceLastUpdatePart`: `none` if no part has the tag.
pub replace_from : ℕ → ℤ → ℕ → List UntreatedPart → Option (List UntreatedPart)
replace_from s n t [] = none
replace_from s n t (p ∷ ps) =
    let rest = replace_from s n t ps in
    if p.untreated_tag == t
    then some (replaced s n p ps)
    else elim rest [ none ↦ none | some qs ↦ some (p ∷ qs) ]

pub replace_last_update_part : ℕ → ℤ → UntreatedParts → Bool × UntreatedParts
replace_last_update_part s n u = with_list u (replace_from s n u.last_tag u.untreated_list)

-- The loop of `RemoveLastUpdatePart`: `none` if no part has the tag.
pub remove_from : ℕ → List UntreatedPart → Option (List UntreatedPart)
remove_from t [] = none
remove_from t (p ∷ ps) =
    let rest = remove_from t ps in
    if p.untreated_tag == t then some ps else elim rest [ none ↦ none | some qs ↦ some (p ∷ qs) ]

pub remove_last_update_part : UntreatedParts → Bool × UntreatedParts
remove_last_update_part u = with_list u (remove_from u.last_tag u.untreated_list)

-- The return value is always true; this is the copy.
pub duplicate : UntreatedParts → List UntreatedPart
duplicate u = u.untreated_list

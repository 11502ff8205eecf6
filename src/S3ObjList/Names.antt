-- ===== src/S3ObjList/Names.antt =====
-- `GetNameList`, `GetLastName` and `MakeHierarchizedList` of src/s3objlist.cpp. The return value of
-- the first and the last is always true.
pub mod LastName
mod Parents
use s3fs_fuse.S3ObjList.{S3objEntry, slash, S3obj, last_char, cut_last, is_nil}
use s3fs_fuse.Base.{
  ℕ, zero, suc, Bool, true, false, not, ◌&&◌, ◌||◌, Option, none, some, List, [], ◌∷◌, ◌++◌, ltb,
  ◌==◌, if◌then◌else◌, length, str_eq, str_ltb,
}

-- A name without the slash at its end, `/` itself stays.
abbrev pub cut_slash : List ℕ → List ℕ
cut_slash name = if ltb 1 (length name) && last_char name == slash then cut_last name else name

-- The names that `GetNameList` adds.
pub get_name_list : Bool → Bool → S3obj → List (List ℕ)
get_name_list only_normalized do_cut [] = []
get_name_list only_normalized do_cut (x ∷ m) =
    let rest = get_name_list only_normalized do_cut m in
    if only_normalized && not (is_nil x.1.normalname)
    then rest
    else (if do_cut then cut_slash x.0 else x.0) ∷ rest

-- The name that an entry gives to `GetLastName`.
abbrev pub last_name_of : S3objEntry → List ℕ
last_name_of x = if not (is_nil x.orgname) then x.orgname else x.normalname

-- The loop of `GetLastName`: whether a name was found, and the last one.
pub last_name_from : Bool × List ℕ → S3obj → Bool × List ℕ
last_name_from r [] = r
last_name_from r (x ∷ m) =
    last_name_from (if str_ltb r.1 (last_name_of x.1) then (true, last_name_of x.1) else r) m

pub get_last_name : S3obj → Bool × List ℕ
get_last_name m = last_name_from (false, []) m

-- The parent of a name: what is before its last `/`.
abbrev pub parent : List ℕ → Option (List ℕ)
parent [] = none
parent (c ∷ s) = elim (parent s) [
  | some r ↦ some (c ∷ r)
  | none ↦ if c == slash then some [] else none
]

-- A map from names to whether they were in the list.
abbrev pub Hmap : Type 0
Hmap = List (List ℕ × Bool)

pub in_hmap : List ℕ → Hmap → Bool
in_hmap k [] = false
in_hmap k (x ∷ h) = str_eq k x.0 || in_hmap k h

pub put_hmap : List ℕ → Bool → Hmap → Hmap
put_hmap k v [] = (k, v) ∷ []
put_hmap k v (x ∷ h) =
    let rest = put_hmap k v h in
    if str_eq k x.0 then (k, v) ∷ h else if str_ltb k x.0 then (k, v) ∷ x ∷ h else x ∷ rest

-- The inner loop: the directories above a name. A parent is shorter, so as many rounds as the name
-- has characters are enough.
pub add_parents : ℕ → List ℕ → Hmap → Hmap
add_parents zero name h = h
add_parents (suc n) name h = elim (parent name) [
  | none ↦ h
  | some [] ↦ h
  | some (c ∷ s) ↦ elim (str_eq (slash ∷ []) (c ∷ s)) [
    | true ↦ h
    | false ↦ add_parents n (c ∷ s) (if in_hmap (c ∷ s) h then h else put_hmap (c ∷ s) false h)
  ]
]

pub hierarchy_from : List (List ℕ) → Hmap → Hmap
hierarchy_from [] h = h
hierarchy_from (x ∷ xs) h =
    hierarchy_from xs
      (add_parents (length (cut_slash x)) (cut_slash x) (put_hmap (cut_slash x) true h))

pub lost_directories : Bool → Hmap → List (List ℕ)
lost_directories have_slash [] = []
lost_directories have_slash (x ∷ h) =
    let rest = lost_directories have_slash h in
    if x.1 then rest else (if have_slash then x.0 ++ slash ∷ [] else x.0) ∷ rest

pub make_hierarchized_list : Bool → List (List ℕ) → List (List ℕ)
make_hierarchized_list have_slash xs = xs ++ lost_directories have_slash (hierarchy_from xs [])

-- ===== src/S3ObjList.antt =====
-- `struct s3obj_entry` and `class S3ObjList` of src/s3objlist.h and src/s3objlist.cpp: the names of a
-- listing of a bucket, each with its normalized name or with the name that it had in the bucket.
-- Strings are lists of bytes. A null `name` is the empty string, which the source treats alike, and
-- an `etag` that may be null is an `Option`. The `std::map` is a list of entries in the order of
-- their keys, by bytes.
pub mod Normal
pub mod Insert
pub mod Twins
mod Tests
pub mod Names
use s3fs_fuse.Base.{
  ℕ, Bool, true, false, ◌&&◌, Option, none, some, List, [], ◌∷◌, ◌++◌, ◌==◌, if◌then◌else◌, Map,
  str_eq, find, put, erase,
}

pub record S3objEntry : Type 0 where
  pub normalname : List ℕ
  pub orgname : List ℕ
  pub etag : List ℕ
  pub is_dir : Bool

abbrev pub S3obj : Type 0
S3obj = Map S3objEntry

pub record S3ObjList : Type 0 where
  pub objects : S3obj
  pub common_prefixes : List (List ℕ)

abbrev pub slash : ℕ
slash = 47

-- The last character, 0 of an empty string.
abbrev pub last_char : List ℕ → ℕ
last_char [] = 0
last_char (c ∷ []) = c
last_char (c ∷ d ∷ s) = last_char (d ∷ s)

-- `substr(0, length - 1)`
abbrev pub cut_last : List ℕ → List ℕ
cut_last [] = []
cut_last (c ∷ []) = []
cut_last (c ∷ d ∷ s) = c ∷ cut_last (d ∷ s)

abbrev pub is_nil : List ℕ → Bool
is_nil [] = true
is_nil (c ∷ s) = false

-- "_$folder$"
abbrev pub folder : List ℕ
folder = 95 ∷ 36 ∷ 102 ∷ 111 ∷ 108 ∷ 100 ∷ 101 ∷ 114 ∷ 36 ∷ []

abbrev pub starts_with : List ℕ → List ℕ → Bool
starts_with [] s = true
starts_with (k ∷ ks) [] = false
starts_with (k ∷ ks) (c ∷ s) = k == c && starts_with ks s

-- What is before the first place where `k` stands.
pub before_first : List ℕ → List ℕ → Option (List ℕ)
before_first k [] = if starts_with k [] then some [] else none
before_first k (c ∷ s) =
    let rest = before_first k s in
    if starts_with k (c ∷ s) then some [] else elim rest [ none ↦ none | some r ↦ some (c ∷ r) ]

-- The normalization of `insert`, for a name and `is_dir`. The source reads the last character of
-- the new name, which does not exist for a name that begins with "_$folder$"; here it is 0 then.
pub normalize : List ℕ → Bool → List ℕ × Bool
normalize orgname is_dir = elim (before_first folder orgname) [
  | some p ↦ (if last_char p == slash then (p, true) else (p ++ slash ∷ [], true))
  | none ↦
      if is_dir
      then (if last_char orgname == slash then (orgname, true) else (orgname ++ slash ∷ [], true))
      else if last_char orgname == slash
      then (orgname, true)
      else (orgname, false)
]

-- `insert_normalized`, on the map.
pub insert_normalized : List ℕ → List ℕ → Bool → S3obj → Bool × S3obj
insert_normalized [] normalized is_dir m = (false, m)
insert_normalized (c ∷ s) [] is_dir m = (false, m)
insert_normalized (c ∷ s) (d ∷ t) is_dir m = if str_eq (c ∷ s) (d ∷ t) then (true, m) else (
  true,
  put (c ∷ s) (record { normalname = d ∷ t; orgname = []; etag = []; is_dir = is_dir }) m,
)

-- The etag that is given, or else the one that is there.
abbrev pub new_etag : Option (List ℕ) → Option S3objEntry → List ℕ
new_etag (some e) x = e
new_etag none none = []
new_etag none (some x) = x.etag

-- "Add object" of `insert`: the entry that is found is updated, or else a new one is added.
pub add_object : List ℕ → List ℕ → Option (List ℕ) → Bool → S3obj → S3obj
add_object newname orgname etag is_dir m =
    put newname
      (record {
        normalname = [];
        orgname = orgname;
        etag = new_etag etag (find newname m);
        is_dir = is_dir;
      })
      m

-- The end of `insert` for a name that is no directory, and what is found for its name with a slash.
abbrev pub file_insert :
    List ℕ → List ℕ → Option (List ℕ) → S3obj → Option S3objEntry → Bool × S3obj
file_insert orgname newname etag m (some x) =
    insert_normalized orgname (newname ++ slash ∷ []) true m
file_insert orgname newname etag m none =
    insert_normalized orgname newname false (add_object newname orgname etag false m)

-- `insert` after the normalization.
pub insert_as : List ℕ → List ℕ → Option (List ℕ) → Bool → S3obj → Bool × S3obj
insert_as orgname newname etag true m =
    insert_normalized orgname newname true
      (add_object newname orgname etag true (erase (cut_last newname) m))
insert_as orgname newname etag false m =
    file_insert orgname newname etag m (find (newname ++ slash ∷ []) m)

pub insert : List ℕ → Option (List ℕ) → Bool → S3obj → Bool × S3obj
insert [] etag is_dir m = (false, m)
insert (c ∷ s) etag is_dir m =
    insert_as (c ∷ s) (normalize (c ∷ s) is_dir).0 etag (normalize (c ∷ s) is_dir).1 m

pub get_s3_obj : List ℕ → S3obj → Option S3objEntry
get_s3_obj [] m = none
get_s3_obj (c ∷ s) m = find (c ∷ s) m

pub get_org_name : List ℕ → S3obj → List ℕ
get_org_name name m = elim (get_s3_obj name m) [ none ↦ [] | some x ↦ x.orgname ]

-- The normalized name of an entry under the key `name`.
abbrev pub normal_of : List ℕ → S3objEntry → List ℕ
normal_of name x = elim x.normalname [ [] ↦ name | c ∷ s ↦ c ∷ s ]

pub get_normalized_name : List ℕ → S3obj → List ℕ
get_normalized_name name m = elim (get_s3_obj name m) [ none ↦ [] | some x ↦ normal_of name x ]

pub get_e_tag : List ℕ → S3obj → List ℕ
get_e_tag name m = elim (get_s3_obj name m) [ none ↦ [] | some x ↦ x.etag ]

pub is_directory : List ℕ → S3obj → Bool
is_directory name m = elim (get_s3_obj name m) [ none ↦ false | some x ↦ x.is_dir ]

pub is_empty : S3ObjList → Bool
is_empty l = elim l.objects [ [] ↦ true | x ∷ m ↦ false ]

pub add_common_prefix : List ℕ → S3ObjList → S3ObjList
add_common_prefix prefix l = record l { common_prefixes = l.common_prefixes ++ prefix ∷ [] }

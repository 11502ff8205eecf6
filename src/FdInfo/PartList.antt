-- ===== src/FdInfo/PartList.antt =====
-- The list of uploaded parts of `class PseudoFdInfo` (src/fdcache_fdinfo.cpp): GetEtaglist,
-- AppendUploadPart and InsertUploadPart.
use s3fs_fuse.FdInfo.State.{is_uploading, minus_one}
use s3fs_fuse.FdInfo.{PseudoFdInfo, Etagpair, Filepart}
pub mod Append
pub mod Insert
mod Tests
use s3fs_fuse.Base.{
  ℕ, zero, suc, ◌+◌, Bool, true, false, not, ◌||◌, Option, none, some, List, [], ◌∷◌, ◌++◌, ltb,
  leb, ◌==◌, if◌then◌else◌, length, ℤ, pos, negsuc,
}

-- What a pointer into the pool points to.
abbrev pub etag_at : ℕ → List Etagpair → Option Etagpair
etag_at n [] = none
etag_at zero (e ∷ l) = some e
etag_at (suc n) (e ∷ l) = etag_at n l

abbrev pub entity : List Etagpair → Option ℕ → Option Etagpair
entity pool none = none
entity pool (some n) = etag_at n pool

-- The loop of `GetEtaglist`, `none` at a part without ETag.
pub etags_of : List Etagpair → List Filepart → Option (List Etagpair)
etags_of pool [] = some []
etags_of pool (f ∷ l) = elim (entity pool f.petag) [
  | none ↦ none
  | some e ↦ elim (etags_of pool l) [ none ↦ none | some es ↦ some (e ∷ es) ]
]

-- `none` for false.
pub get_etaglist : PseudoFdInfo → Option (List Etagpair)
get_etaglist i =
    if is_uploading i
    then elim (etags_of i.etag_entities i.upload_list) [
      | none ↦ none
      | some [] ↦ none
      | some (e ∷ es) ↦ some (e ∷ es)
    ]
    else none

-- The end of the last part.
abbrev pub next_start_pos : List Filepart → ℕ
next_start_pos [] = 0
next_start_pos (f ∷ []) = f.startpos + f.size
next_start_pos (f ∷ g ∷ l) = next_start_pos (g ∷ l)

abbrev pub new_part : PseudoFdInfo → ℕ → ℕ → Bool → Filepart
new_part i start size is_copy = record {
  uploaded = false;
  fd = i.physical_fd;
  startpos = start;
  size = size;
  is_copy = is_copy;
  petag = some (length i.etag_entities);
}

abbrev pub new_etag : ℤ → Etagpair
new_etag n = record { etag = []; part_num = n }

pub append_upload_part : ℤ → ℕ → Bool → PseudoFdInfo → Bool × PseudoFdInfo
append_upload_part (negsuc n) size is_copy i = (false, i)
append_upload_part (pos start) size is_copy i =
    if not (is_uploading i) || not (start == next_start_pos i.upload_list) then (false, i) else (
      true,
      record i {
        etag_entities = i.etag_entities ++ new_etag (pos (length i.upload_list + 1)) ∷ [];
        upload_list = i.upload_list ++ new_part i start size is_copy ∷ [];
      },
    )

-- `get_part_number`
abbrev pub part_number : List Etagpair → Filepart → ℤ
part_number pool f = elim (entity pool f.petag) [ none ↦ minus_one | some e ↦ e.part_num ]

-- `<` of two integers.
abbrev pub less : ℤ → ℤ → Bool
less (pos a) (pos b) = ltb a b
less (pos a) (negsuc b) = false
less (negsuc a) (pos b) = true
less (negsuc a) (negsuc b) = ltb b a

-- `std::sort` by part number.
unfoldable pub insert_part : List Etagpair → Filepart → List Filepart → List Filepart
insert_part pool f [] = f ∷ []
insert_part pool f (g ∷ l) =
    let rest = insert_part pool f l in
    if less (part_number pool f) (part_number pool g) then f ∷ g ∷ l else g ∷ rest

unfoldable pub sort_parts : List Etagpair → List Filepart → List Filepart
sort_parts pool [] = []
sort_parts pool (f ∷ l) = insert_part pool f (sort_parts pool l)

unfoldable pub insert_upload_part : ℤ → ℤ → ℤ → Bool → PseudoFdInfo → Bool × PseudoFdInfo
insert_upload_part (negsuc s) size part_num is_copy i = (false, i)
insert_upload_part (pos s) (negsuc z) part_num is_copy i = (false, i)
insert_upload_part (pos s) (pos z) (negsuc n) is_copy i = (false, i)
insert_upload_part (pos s) (pos z) (pos n) is_copy i =
    let pool = i.etag_entities ++ new_etag (pos n) ∷ [] in
    if not (is_uploading i) || leb z 0 then (false, i) else (
      true,
      record i {
        etag_entities = pool;
        upload_list = sort_parts pool (i.upload_list ++ new_part i s z is_copy ∷ []);
      },
    )

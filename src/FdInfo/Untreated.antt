-- ===== src/FdInfo/Untreated.antt =====
-- `PseudoFdInfo::ExtractUploadPartsFromUntreatedArea` of src/fdcache_fdinfo.cpp: the parts that are
-- uploaded for an area that was written, and the uploaded parts that they replace.
use s3fs_fuse.FdInfo.{MpPart, Filepart}
pub mod Parts
pub mod Disjoint
mod Extract
mod Tests
use s3fs_fuse.Base.{
  ℕ, zero, suc, ◌+◌, ◌-◌, ◌*◌, ◌/◌, Bool, ◌||◌, Option, none, some, List, [], ◌∷◌, ltb, leb,
  if◌then◌else◌, ℤ, pos, negsuc,
}

-- The area starts at `s` and has `z` bytes. The source compares last bytes; `z` is positive.
abbrev pub area_end : ℕ → ℕ → Filepart → ℕ
area_end s z f = if ltb (s + z - 1) (f.startpos + f.size - 1) then f.startpos + f.size - s else z

abbrev pub is_apart : ℕ → ℕ → Filepart → Bool
is_apart s z f = ltb (f.startpos + f.size - 1) s || ltb (s + z - 1) f.startpos

-- The uploaded parts that are kept and canceled, and the size of the area.
pub record Canceled : Type 0 where
  pub upload_list : List Filepart
  pub cancel_upload_list : List Filepart
  pub aligned_size : ℕ

-- The loop over `upload_list`.
unfoldable pub cancel_loop : ℕ → ℕ → List Filepart → Canceled
cancel_loop s z [] = record { upload_list = []; cancel_upload_list = []; aligned_size = z }
cancel_loop s z (f ∷ l) =
    let kept = cancel_loop s z l in
    let grown = cancel_loop s (area_end s z f) l in
    if is_apart s z f
    then record kept { upload_list = f ∷ kept.upload_list }
    else record grown { cancel_upload_list = f ∷ grown.cancel_upload_list }

-- The last loop, with as much fuel as the area has bytes: `max_mp_size` is positive.
unfoldable pub cut_parts : ℕ → ℕ → ℕ → ℕ → List MpPart
cut_parts zero max_mp_size s z = []
cut_parts (suc fuel) max_mp_size s z =
    let rest = cut_parts fuel max_mp_size (s + max_mp_size) (z - max_mp_size) in
    if leb max_mp_size z
    then record { start = s; size = max_mp_size; part_num = s / max_mp_size + 1 } ∷ rest
    else []

pub record Extracted : Type 0 where
  pub to_upload_list : List MpPart
  pub cancel_upload_list : List Filepart
  pub upload_list : List Filepart

-- Once the parameters are found right.
unfoldable pub extract_area : ℕ → ℕ → ℕ → List Filepart → Extracted
extract_area untreated_start untreated_size max_mp_size upload_list =
    let aligned_start = untreated_start / max_mp_size * max_mp_size in
    let aligned_size = untreated_size + (untreated_start - aligned_start) in
    let c = cancel_loop aligned_start aligned_size upload_list in
    if ltb aligned_size max_mp_size
    then record { to_upload_list = []; cancel_upload_list = []; upload_list = upload_list }
    else record {
      to_upload_list = cut_parts c.aligned_size max_mp_size aligned_start c.aligned_size;
      cancel_upload_list = c.cancel_upload_list;
      upload_list = c.upload_list;
    }

-- `none` for false.
unfoldable pub extract_upload_parts_from_untreated_area :
    ℤ → ℤ → ℕ → List Filepart → Option Extracted
extract_upload_parts_from_untreated_area (negsuc s) z max_mp_size l = none
extract_upload_parts_from_untreated_area (pos s) (negsuc z) max_mp_size l = none
extract_upload_parts_from_untreated_area (pos s) (pos z) max_mp_size l =
    if leb z 0 then none else some (extract_area s z max_mp_size l)

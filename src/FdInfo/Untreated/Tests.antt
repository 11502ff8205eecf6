-- ===== src/FdInfo/Untreated/Tests.antt =====
-- The theorem on the parts of an untreated area, at parts of 10 bytes: the area from 12 to 35 with an
-- uploaded part from 30 to 40, and one from 50 to 60.
use s3fs_fuse.FdInfo.Untreated.Extract.{IsExtracted, extract_upload_parts_from_untreated_area_lem}
use s3fs_fuse.FdInfo.Untreated.{
  extract_upload_parts_from_untreated_area, extract_area, cancel_loop, cut_parts,
}
use s3fs_fuse.FdInfo.{MpPart, Filepart}
use s3fs_fuse.Base.{ℕ, ◌≡◌, refl, true, false, none, some, List, [], ◌∷◌, arith, pos}

abbrev uploaded_part : ℕ → Filepart
uploaded_part s = record {
  uploaded = true;
  fd = pos 3;
  startpos = s;
  size = 10;
  is_copy = false;
  petag = none;
}

abbrev two_parts : List Filepart
two_parts = uploaded_part 30 ∷ uploaded_part 50 ∷ []

abbrev whole_part : ℕ → ℕ → MpPart
whole_part s n = record { start = s; size = 10; part_num = n }

extract_run :
    extract_upload_parts_from_untreated_area (pos 12) (pos 23) 10 two_parts
    ≡ some (record {
      to_upload_list = whole_part 10 2 ∷ whole_part 20 3 ∷ whole_part 30 4 ∷ [];
      cancel_upload_list = uploaded_part 30 ∷ [];
      upload_list = uploaded_part 50 ∷ [];
    })
unfolding extract_upload_parts_from_untreated_area extract_area cancel_loop cut_parts
extract_run = refl

extract_upload_parts_from_untreated_area_lem_example :
    (extract_upload_parts_from_untreated_area (pos 12) (pos 23) 10 two_parts
      ≡ some (extract_area 12 23 10 two_parts))
    × IsExtracted 12 35 10 two_parts (extract_area 12 23 10 two_parts)
extract_upload_parts_from_untreated_area_lem_example =
    extract_upload_parts_from_untreated_area_lem 12 23 10 two_parts (omega arith) (omega arith)
      (omega arith, (omega arith, tt), (omega arith, tt, tt))

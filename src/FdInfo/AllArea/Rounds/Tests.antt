-- ===== src/FdInfo/AllArea/Rounds/Tests.antt =====
-- The theorem on all areas of a file, at a file of 25 bytes and parts of 10.
use s3fs_fuse.FdInfo.AllArea.Rounds.Written.{IsToUpload, extract_upload_parts_from_all_area-written}
use s3fs_fuse.UntreatedParts.{make_part, UntreatedPart, UntreatedParts}
use s3fs_fuse.FdInfo.AllArea.{untreated_loop, uploaded_loop, gap_loop}
use s3fs_fuse.FdInfo.AllArea.Rounds.{
  extract_upload_parts_from_all_area, area_loop, area_step, part_of,
}
use s3fs_fuse.FdInfo.AllArea.Rounds.Whole.{IsInPlan, extract_upload_parts_from_all_area_lem}
use s3fs_fuse.FdInfo.{Filepart}
use s3fs_fuse.Base.{ℕ, ◌≡◌, refl, true, false, none, some, [], ◌∷◌, arith, pos}

abbrev uploaded_at : ℕ → ℕ → Filepart
uploaded_at s z = record {
  uploaded = true;
  fd = pos 3;
  startpos = s;
  size = z;
  is_copy = false;
  petag = none;
}

abbrev area_of : ℕ → ℕ → UntreatedPart
area_of s z = record { start = s; size = z; untreated_tag = 1 }

-- Written: 12 to 15 and 18 to 22. The part from 10 to 20 is uploaded again, and so is the last one,
-- whose other bytes are downloaded; the first is copied.
plan_run :
    extract_upload_parts_from_all_area
      (area_of 12 3 ∷ area_of 18 4 ∷ [])
      (uploaded_at 10 10 ∷ [])
      10
      25
      true
    ≡ some (record {
      to_upload_list = part_of 10 10 2 ∷ part_of 20 5 3 ∷ [];
      to_copy_list = part_of 0 10 1 ∷ [];
      to_download_list = part_of 22 3 0 ∷ [];
      cancel_upload_list = uploaded_at 10 10 ∷ [];
      wait_upload_complete = false;
      untreated = [];
      passed = [];
      rest = [];
    })
unfolding extract_upload_parts_from_all_area area_loop area_step untreated_loop uploaded_loop
    gap_loop make_part
plan_run = refl

extract_upload_parts_from_all_area_lem_example : IsInPlan 21 (
    extract_upload_parts_from_all_area
      (area_of 12 3 ∷ area_of 18 4 ∷ [])
      (uploaded_at 10 10 ∷ [])
      10
      25
      true)
extract_upload_parts_from_all_area_lem_example =
    extract_upload_parts_from_all_area_lem (area_of 12 3 ∷ area_of 18 4 ∷ [])
      (uploaded_at 10 10 ∷ []) 10 25 true 21 (omega arith) (omega arith, tt, tt)
      ((refl, omega arith, refl), tt) (omega arith)

abbrev written_parts : UntreatedParts
written_parts = record { untreated_list = area_of 12 3 ∷ area_of 18 4 ∷ []; last_tag = 1 }

extract_upload_parts_from_all_area-written_example : IsToUpload 21 (
    extract_upload_parts_from_all_area
      (area_of 12 3 ∷ area_of 18 4 ∷ [])
      (uploaded_at 10 10 ∷ [])
      10
      25
      true)
extract_upload_parts_from_all_area-written_example =
    extract_upload_parts_from_all_area-written written_parts (uploaded_at 10 10 ∷ []) 10 25 true 21
      (omega arith)
      ((omega arith, omega arith, (omega arith, omega arith, tt)), (omega arith, (omega arith, tt)))
      (omega arith, tt, tt) ((refl, omega arith, refl), tt) (omega arith) refl

-- ===== src/FdInfo/PartList/Tests.antt =====
-- The theorems on the list of parts, at an upload with one part.
use s3fs_fuse.FdInfo.PartList.Insert.{IsSorted, count_if, insert_upload_part_lem}
use s3fs_fuse.FdInfo.PartList.Append.{IsUpload, IsListed, append_upload_part_lem}
use s3fs_fuse.FdInfo.PartList.{insert_upload_part, append_upload_part, get_etaglist, new_part}
use s3fs_fuse.FdInfo.{PseudoFdInfo, Filepart}
use s3fs_fuse.Base.{◌+◌, ◌≡◌, refl, Bool, true, false, some, [], ◌∷◌, arith, if◌then◌else◌, pos}

abbrev test_info : PseudoFdInfo
test_info = record {
  pseudo_fd = pos 2;
  physical_fd = pos 5;
  flags = 2;
  upload_id = b'u' ∷ [];
  upload_fd = pos 6;
  upload_list =
      record {
        uploaded = true;
        fd = pos 5;
        startpos = 0;
        size = 10;
        is_copy = false;
        petag = some 0;
      }
      ∷ [];
  etag_entities = record { etag = b'e' ∷ []; part_num = pos 1 } ∷ [];
  instruct_count = 0;
  last_result = pos 0;
}

-- A part with a gap before it is refused.
append_run : append_upload_part (pos 20) 10 false test_info ≡ (false, test_info)
unfolding append_upload_part
append_run = refl

append_upload_part_lem_example :
    let r = append_upload_part (pos 10) 7 false test_info in
    IsUpload r.1
    × (r.0 ≡ true)
    × (r.0 ≡ false → r.1 ≡ test_info)
    × (r.0 ≡ true → IsListed 1 2 (get_etaglist r.1))
append_upload_part_lem_example = append_upload_part_lem 10 7 false test_info (refl, refl, tt)

insert_upload_part_lem_example :
    let r = insert_upload_part (pos 20) (pos 7) (pos 0) false test_info in
    (r.0 ≡ true)
    × IsSorted r.1.etag_entities r.1.upload_list
    × ((p : Filepart → Bool)
        → count_if p r.1.upload_list
          ≡ count_if p test_info.upload_list + (if p (new_part test_info 20 7 false) then 1 else 0))
insert_upload_part_lem_example = insert_upload_part_lem 20 7 0 false test_info refl (omega arith)

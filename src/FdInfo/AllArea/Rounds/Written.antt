-- ===== src/FdInfo/AllArea/Rounds/Written.antt =====
-- Written bytes and the parts that `ExtractUploadPartsFromAllArea` uploads.
use s3fs_fuse.FdInfo.AllArea.Rounds.Lossless.{UploadsAll, area_loop-UploadsAll}
use s3fs_fuse.FdInfo.AllArea.Rounds.Whole.{IsInPlan, extract_upload_parts_from_all_area_lem}
use s3fs_fuse.FdInfo.AllArea.Uploaded.{IsAligned}
use s3fs_fuse.FdInfo.Untreated.Disjoint.{IsInOrder}
use s3fs_fuse.UntreatedParts.View.{IsValid, held}
use s3fs_fuse.FdInfo.{Filepart}
use s3fs_fuse.UntreatedParts.{UntreatedParts}
use s3fs_fuse.FdInfo.Untreated.Parts.{in_parts}
use s3fs_fuse.FdInfo.AllArea.Rounds.{extract_upload_parts_from_all_area, area_loop}
use s3fs_fuse.FdInfo.AllArea.{Plan}
use s3fs_fuse.Base.{ℕ, ◌≤◌, ◌<◌, ◌≡◌, Bool, true, Option, none, some, List, arith, All}

-- The method succeeds, and the byte is in a part to upload.
abbrev pub IsToUpload : ℕ → Option Plan → Type 0
IsToUpload b none = ⊥
IsToUpload b (some d) = in_parts b d.to_upload_list ≡ true

-- For a positive part size, written areas that fulfil the invariant of UntreatedParts, and uploaded
-- parts that are in order, start at multiples of the part size and are as large as the file allows,
-- ExtractUploadPartsFromAllArea succeeds, and every byte of the file that was written is in a part to
-- upload: it is not lost to a copy or to a part that was uploaded before.
pub extract_upload_parts_from_all_area-written :
    (u : UntreatedParts) (upload_list : List Filepart) (m file_size : ℕ) (use_copy : Bool) (b : ℕ)
    → 1 ≤ m
    → IsValid u
    → IsInOrder upload_list
    → All (IsAligned m file_size) upload_list
    → b < file_size
    → held b u.untreated_list ≡ true
    → IsToUpload b
        (extract_upload_parts_from_all_area u.untreated_list upload_list m file_size use_copy)
unfolding extract_upload_parts_from_all_area
extract_upload_parts_from_all_area-written u upload_list m file_size use_copy b hm v o g h w =
    go (area_loop file_size use_copy m file_size 0 _)
      (extract_upload_parts_from_all_area_lem u.untreated_list upload_list m file_size use_copy b hm
        o g h)
      (area_loop-UploadsAll use_copy m file_size hm u.untreated_list file_size 0 _ (omega arith)
        (v.0, (λ b w p q. absurd (omega arith)), λ b w p q. w))
  where
    go :
        (r : Option Plan)
        → IsInPlan b r
        → UploadsAll use_copy m file_size hm u.untreated_list r
        → IsToUpload b r
    go none i c = i
    go (some d) i c = c b w h

-- ===== src/FdInfo/Upload/Tests.antt =====
-- The theorem on uploads that fail, at the area from 4 to 37, parts of 10 bytes, and a request for a
-- part that fails; and the one on those that succeed, at a part to upload and one to copy.
use s3fs_fuse.FdInfo.Upload.Success.{parallel_multipart_upload_all_lem}
use s3fs_fuse.FdInfo.Upload.Sent.{passes, count_sent}
use s3fs_fuse.FdInfo.PartList.Insert.{count_if}
use s3fs_fuse.FdInfo.Untreated.{
  extract_upload_parts_from_untreated_area, extract_area, cancel_loop, cut_parts,
}
use s3fs_fuse.FdInfo.State.{open_upload_fd, row_initial_upload_info, clear_upload_info}
use s3fs_fuse.FdInfo.PartList.{insert_upload_part, sort_parts, insert_part}
use s3fs_fuse.FdInfo.Upload.Failed.{upload_boundary_last_untreated_area-kept}
use s3fs_fuse.UntreatedParts.{UntreatedParts, get_last_from}
use s3fs_fuse.FdInfo.Upload.{
  Requests, upload_boundary_last_untreated_area, upload_area, is_zero_result, upload_parts,
  start_upload, parallel_multipart_upload, request_parts, io_error, parallel_multipart_upload_all,
}
use s3fs_fuse.FdInfo.{PseudoFdInfo, MpPart}
use s3fs_fuse.Base.{ℕ, ◌+◌, ◌≡◌, refl, ap, Bool, true, false, List, [], ◌∷◌, arith, ℤ, pos, negsuc}

abbrev failing : Requests
failing = record {
  pre_request = (pos 0, b'u' ∷ []);
  part_request = λ is_copy p. negsuc 0;
  dup_fd = pos 7;
  position = pos 0;
  stat_result = pos 0;
}

abbrev open_file : PseudoFdInfo
open_file = record {
  pseudo_fd = pos 2;
  physical_fd = pos 5;
  flags = 2;
  upload_id = [];
  upload_fd = negsuc 0;
  upload_list = [];
  etag_entities = [];
  instruct_count = 0;
  last_result = pos 0;
}

abbrev one_area : UntreatedParts
one_area = record {
  untreated_list = record { start = 4; size = 33; untreated_tag = 1 } ∷ [];
  last_tag = 1;
}

request_fails : (upload_boundary_last_untreated_area failing 10 open_file one_area).0 ≡ io_error
unfolding upload_boundary_last_untreated_area upload_area upload_parts start_upload
    parallel_multipart_upload request_parts insert_upload_part open_upload_fd
    row_initial_upload_info clear_upload_info sort_parts insert_part
    extract_upload_parts_from_untreated_area extract_area cancel_loop cut_parts get_last_from
request_fails = refl

upload_boundary_last_untreated_area-kept_example :
    (upload_boundary_last_untreated_area failing 10 open_file one_area).2 ≡ one_area
upload_boundary_last_untreated_area-kept_example =
    upload_boundary_last_untreated_area-kept failing 10 open_file one_area
      (ap is_zero_result request_fails)

abbrev accepting : Requests
accepting = record failing { part_request = λ is_copy p. pos 0 }

abbrev started : PseudoFdInfo
started = record open_file { upload_id = b'u' ∷ [] }

abbrev to_upload : List MpPart
to_upload = record { start = 10; size = 10; part_num = 2 } ∷ []

abbrev to_copy : List MpPart
to_copy = record { start = 0; size = 10; part_num = 1 } ∷ []

can_open :
    (open_upload_fd accepting.dup_fd accepting.position accepting.stat_result started).0 ≡ true
unfolding open_upload_fd
can_open = refl

abbrev uploaded : Bool × ℤ × PseudoFdInfo
uploaded = parallel_multipart_upload_all accepting (λ n. pos 0) to_upload to_copy started

parallel_multipart_upload_all_lem_example :
    (uploaded.0 ≡ true)
    × (uploaded.1 ≡ pos 0)
    × (uploaded.2.instruct_count ≡ 0)
    × (uploaded.2.last_result ≡ uploaded.1)
    × ((t : ℕ → ℕ → Bool → Bool)
        → count_if (passes t) uploaded.2.upload_list
          ≡ count_if (passes t) started.upload_list
            + (count_sent t false to_upload + count_sent t true to_copy))
parallel_multipart_upload_all_lem_example =
    parallel_multipart_upload_all_lem accepting (λ n. pos 0) to_upload to_copy started
      (λ is_copy p. refl) can_open refl (omega arith, tt) (omega arith, tt) (omega arith)

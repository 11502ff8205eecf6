-- ===== src/FdInfo/Upload.antt =====
-- `ParallelMultipartUpload`, `ParallelMultipartUploadAll` and `UploadBoundaryLastUntreatedArea` of
-- src/fdcache_fdinfo.cpp, and `FdEntity::ReplaceLastUpdateUntreatedPart` of src/fdcache_entity.cpp: the
-- last written area is uploaded, in whole parts. The requests are parameters.
use s3fs_fuse.FdInfo.PartList.{insert_upload_part}
use s3fs_fuse.FdInfo.Untreated.{extract_upload_parts_from_untreated_area}
use s3fs_fuse.FdInfo.State.{
  is_uploading, is_unset, open_upload_fd, row_initial_upload_info, increase_instruction_count,
  wait_all_threads_exit,
}
use s3fs_fuse.UntreatedParts.{
  UntreatedParts, replace_last_update_part, get_last_update_part, remove_last_update_part, add_part,
}
use s3fs_fuse.FdInfo.{PseudoFdInfo, MpPart}
mod Failed
mod Sent
mod Success
mod Tests
use s3fs_fuse.Base.{
  ℕ, ◌+◌, ◌-◌, ◌*◌, ◌/◌, ◌%◌, Bool, true, false, not, ◌&&◌, ◌||◌, none, some, List, [], ◌∷◌, ltb,
  leb, ◌==◌, if◌then◌else◌, ℤ, pos, negsuc,
}

-- The results of the requests and the system calls: of the request that starts an upload, with its
-- id; of the one for each part, which is told whether it is a copy; of `dup`, `lseek` and `fstat`.
pub record Requests : Type 0 where
  pub pre_request : ℤ × List ℕ
  pub part_request : Bool → MpPart → ℤ
  pub dup_fd : ℤ
  pub position : ℤ
  pub stat_result : ℤ

abbrev pub is_zero_result : ℤ → Bool
is_zero_result (pos n) = n == 0
is_zero_result (negsuc n) = false

-- The loop of `ParallelMultipartUpload`.
pub request_parts : Requests → List MpPart → Bool → PseudoFdInfo → Bool × PseudoFdInfo
request_parts q [] is_copy i = (true, i)
request_parts q (p ∷ l) is_copy i =
    let r = insert_upload_part (pos p.start) (pos p.size) (pos p.part_num) is_copy i in
    let rest = request_parts q l is_copy (increase_instruction_count r.1) in
    if r.0 && is_zero_result (q.part_request is_copy p) then rest else (false, r.1)

pub parallel_multipart_upload : Requests → List MpPart → Bool → PseudoFdInfo → Bool × PseudoFdInfo
parallel_multipart_upload q [] is_copy i = (true, i)
parallel_multipart_upload q (p ∷ l) is_copy i =
    let o = open_upload_fd q.dup_fd q.position q.stat_result i in
    if o.0 && is_uploading o.1 then request_parts q (p ∷ l) is_copy o.1 else (false, o.1)

-- `ParallelMultipartUploadAll`: the result is the second part. `results` are those of the threads.
pub parallel_multipart_upload_all :
    Requests → (ℕ → ℤ) → List MpPart → List MpPart → PseudoFdInfo → Bool × ℤ × PseudoFdInfo
parallel_multipart_upload_all q results to_upload_list copy_list i =
    let o = open_upload_fd q.dup_fd q.position q.stat_result i in
    let u = parallel_multipart_upload q to_upload_list false o.1 in
    let c = parallel_multipart_upload q copy_list true u.1 in
    let w = wait_all_threads_exit results c.1 in
    if not o.0
    then (false, pos 0, o.1)
    else if not u.0
    then (false, pos 0, u.1)
    else if not c.0
    then (false, pos 0, c.1)
    else (true, w.0, w.1)

-- `ReplaceLastUpdateUntreatedPart`
pub replace_untreated_part : ℕ → ℕ → ℕ → ℕ → UntreatedParts → Bool × UntreatedParts
replace_untreated_part front_start front_size behind_start behind_size u =
    let r =
      if ltb 0 front_size
      then replace_last_update_part front_start (pos front_size) u
      else remove_last_update_part u in
    if not r.0
    then (false, r.1)
    else if ltb 0 behind_size
    then add_part (pos behind_start) (pos behind_size) r.1
    else (true, r.1)

-- `-EBADF` and `-EIO`
abbrev pub bad_fd : ℤ
bad_fd = negsuc 8

abbrev pub io_error : ℤ
io_error = negsuc 4

-- The first multiple of the part size that is not before `s`.
abbrev pub align_up : ℕ → ℕ → ℕ
align_up m s = (s / m + (if ltb 0 (s % m) then 1 else 0)) * m

abbrev pub Outcome : Type 0
Outcome = ℤ × PseudoFdInfo × UntreatedParts

-- The upload is started if it has not been: `PreMultipartUploadRequest`.
pub start_upload : Requests → PseudoFdInfo → ℤ × PseudoFdInfo
start_upload q i =
    if is_uploading i
    then (pos 0, i)
    else if is_zero_result q.pre_request.0
    then (pos 0, row_initial_upload_info (λ _. pos 0) q.pre_request.1 false i)
    else (q.pre_request.0, i)

-- The steps once the parts are extracted: the area from `s` on with `z` bytes was written, the one
-- from `a` on with `n` bytes is uploaded.
pub upload_parts : Requests → ℕ → ℕ → ℕ → ℕ → List MpPart → PseudoFdInfo → UntreatedParts → Outcome
upload_parts q s z a n [] i u = (pos 0, i, u)
upload_parts q s z a n (p ∷ l) i u =
    let b = start_upload q i in
    let r = parallel_multipart_upload q (p ∷ l) false b.1 in
    if not (is_zero_result b.0)
    then (b.0, b.1, u)
    else if r.0
    then (pos 0, r.1, (replace_untreated_part s (a - s) (a + n) (s + z - (a + n)) u).1)
    else (io_error, r.1, u)

pub upload_area : Requests → ℕ → ℕ → ℕ → PseudoFdInfo → UntreatedParts → Outcome
upload_area q m s z i u =
    let a = align_up m s in
    let n = (s + z - a) / m * m in
    if leb (s + z) a || n == 0
    then (pos 0, i, u)
    else elim (extract_upload_parts_from_untreated_area (pos a) (pos n) m i.upload_list) [
      | none ↦ (io_error, i, u)
      | some e ↦
          upload_parts q s z a n e.to_upload_list (record i { upload_list = e.upload_list }) u
    ]

-- For a path and an entity that are not null; `m` is the part size.
pub upload_boundary_last_untreated_area : Requests → ℕ → PseudoFdInfo → UntreatedParts → Outcome
upload_boundary_last_untreated_area q m i u =
    if is_unset i.physical_fd || is_unset i.pseudo_fd
    then (bad_fd, i, u)
    else elim (get_last_update_part u) [
      | none ↦ (pos 0, i, u)
      | some p ↦ if p.1 == 0 then (pos 0, i, u) else upload_area q m p.0 p.1 i u
    ]

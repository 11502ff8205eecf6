-- ===== src/FdInfo/Upload/Success.antt =====
-- When ParallelMultipartUploadAll succeeds, and what it has sent then.
use s3fs_fuse.FdInfo.Upload.Sent.{passes, count_sent, IsAllSent-parallel_multipart_upload_all}
use s3fs_fuse.FdInfo.PartList.Insert.{insert_upload_part_lem, count_if}
use s3fs_fuse.FdInfo.PartList.{insert_upload_part}
use s3fs_fuse.FdInfo.Upload.{
  Requests, is_zero_result, parallel_multipart_upload, request_parts, parallel_multipart_upload_all,
}
use s3fs_fuse.FdInfo.State.{open_upload_fd, is_unset, is_uploading, increase_instruction_count}
use s3fs_fuse.FdInfo.{PseudoFdInfo, MpPart}
use s3fs_fuse.Base.{
  ℕ, ◌+◌, ◌≤◌, ◌≡◌, refl, sym, ap, ◌∙◌, subst, inl, inr, Bool, true, false, not, ◌&&◌, ◌||◌, List,
  [], ◌∷◌, arith, leb, length, All, ℤ, pos, negsuc, if-elim,
}

-- A part that is not empty.
abbrev pub IsPart : MpPart → Type 0
IsPart p = 1 ≤ p.size

-- An upload is going on and the descriptor to read from is open.
abbrev pub IsReady : PseudoFdInfo → Type 0
IsReady i = (is_uploading i ≡ true) × (is_unset i.upload_fd ≡ false)

abbrev pub IsDone : Bool × PseudoFdInfo → Type 0
IsDone t = (t.0 ≡ true) × IsReady t.1

IsReady-insert_upload_part :
    (start size n : ℕ) (is_copy : Bool) (i : PseudoFdInfo)
    → IsReady i
    → IsReady (insert_upload_part (pos start) (pos size) (pos n) is_copy i).1
unfolding insert_upload_part
IsReady-insert_upload_part start size n is_copy i r =
    if-elim (λ (t : Bool × PseudoFdInfo). IsReady t.1) (not (is_uploading i) || leb size 0)
      (false, i) _ (λ _. r) (λ _. r)

upload_id-open_upload_fd :
    (d p s : ℤ) (i : PseudoFdInfo) → (open_upload_fd d p s i).1.upload_id ≡ i.upload_id
unfolding open_upload_fd
upload_id-open_upload_fd d (pos n) s i = ground arith
upload_id-open_upload_fd d (negsuc n) s i = ground arith

upload_fd-open_upload_fd :
    (d p s : ℤ) (i : PseudoFdInfo)
    → (open_upload_fd d p s i).0 ≡ true
    → is_unset (open_upload_fd d p s i).1.upload_fd ≡ false
unfolding open_upload_fd
upload_fd-open_upload_fd d (pos n) s i h = ground arith
upload_fd-open_upload_fd d (negsuc n) s i h = ground arith

open_upload_fd_lem :
    (d p s : ℤ) (i : PseudoFdInfo)
    → is_unset i.upload_fd ≡ false
    → open_upload_fd d p s i ≡ (true, i)
unfolding open_upload_fd
open_upload_fd_lem d p s i h =
    if-elim (λ (w : Bool × PseudoFdInfo). w ≡ (true, i)) (not (is_unset i.upload_fd)) _ _
      (λ _. refl) (λ e. absurd (ground arith))

module _ (q : Requests)
    (sends : (is_copy : Bool) (p : MpPart) → is_zero_result (q.part_request is_copy p) ≡ true) where
  IsDone-request_parts :
      (is_copy : Bool) (l : List MpPart) (i : PseudoFdInfo)
      → All IsPart l
      → IsReady i
      → IsDone (request_parts q l is_copy i)
  unfolding request_parts
  IsDone-request_parts is_copy [] i a u = (refl, u)
  IsDone-request_parts is_copy (p ∷ l) i a u =
      let r = insert_upload_part (pos p.start) (pos p.size) (pos p.part_num) is_copy i in
      let added = (insert_upload_part_lem p.start p.size p.part_num is_copy i u.0 a.0).0 in
      let kept = IsReady-insert_upload_part p.start p.size p.part_num is_copy i u in
      let sent = sends is_copy p in
      let ih = IsDone-request_parts is_copy l (increase_instruction_count r.1) a.1 kept in
      if-elim IsDone (r.0 && is_zero_result (q.part_request is_copy p))
        (request_parts q l is_copy (increase_instruction_count r.1)) (false, r.1) (λ _. ih)
        (λ e. absurd (ground arith))

  IsDone-parallel_multipart_upload :
      (is_copy : Bool) (l : List MpPart) (i : PseudoFdInfo)
      → All IsPart l
      → IsReady i
      → IsDone (parallel_multipart_upload q l is_copy i)
  unfolding parallel_multipart_upload
  IsDone-parallel_multipart_upload is_copy [] i a u = (refl, u)
  IsDone-parallel_multipart_upload is_copy (p ∷ l) i a u =
      let o = open_upload_fd q.dup_fd q.position q.stat_result i in
      let kept = open_upload_fd_lem q.dup_fd q.position q.stat_result i u.1 in
      let opened = ap (λ (t : Bool × PseudoFdInfo). t.0) kept in
      let upload = ap (λ (t : Bool × PseudoFdInfo). is_uploading t.1) kept ∙ u.0 in
      let d = IsDone-request_parts is_copy (p ∷ l) i a u in
      if-elim IsDone (o.0 && is_uploading o.1) (request_parts q (p ∷ l) is_copy o.1) (false, o.1)
        (λ _.
          subst (λ (t : Bool × PseudoFdInfo). IsDone (request_parts q (p ∷ l) is_copy t.1))
            (sym kept) d)
        (λ e. absurd (ground arith))

  succeeds-parallel_multipart_upload_all :
      (results : ℕ → ℤ) (l c : List MpPart) (i : PseudoFdInfo)
      → (open_upload_fd q.dup_fd q.position q.stat_result i).0 ≡ true
      → is_uploading i ≡ true
      → All IsPart l
      → All IsPart c
      → (parallel_multipart_upload_all q results l c i).0 ≡ true
  unfolding parallel_multipart_upload_all
  succeeds-parallel_multipart_upload_all results l c i opened u a b =
      let o = open_upload_fd q.dup_fd q.position q.stat_result i in
      let ready : IsReady o.1 = (
        ap (λ s. elim s as (λ _. Bool) [ [] ↦ false | x ∷ xs ↦ true ])
              (upload_id-open_upload_fd q.dup_fd q.position q.stat_result i)
            ∙ u,
        upload_fd-open_upload_fd q.dup_fd q.position q.stat_result i opened,
      ) in
      let d = IsDone-parallel_multipart_upload false l o.1 a ready in
      let m = (parallel_multipart_upload q l false o.1).1 in
      let e = (IsDone-parallel_multipart_upload true c m b d.1).0 in let f = d.0 in ground arith

-- When an upload is going on, the descriptor to read from can be opened, every request is accepted,
-- no part is empty and at least one thread runs, ParallelMultipartUploadAll succeeds: no thread is
-- running afterwards, the result is the one that the last thread to end has left, and the list of
-- uploaded parts has the parts from before, the parts to upload and the parts to copy: each test of
-- start, size and copy flag is passed by as many parts as by these.
pub parallel_multipart_upload_all_lem :
    (q : Requests) (results : ℕ → ℤ) (l c : List MpPart) (i : PseudoFdInfo)
    → ((is_copy : Bool) (p : MpPart) → is_zero_result (q.part_request is_copy p) ≡ true)
    → (open_upload_fd q.dup_fd q.position q.stat_result i).0 ≡ true
    → is_uploading i ≡ true
    → All IsPart l
    → All IsPart c
    → 1 ≤ i.instruct_count + length l + length c
    → let r = parallel_multipart_upload_all q results l c i in
      (r.0 ≡ true)
      × (r.1 ≡ results 0)
      × (r.2.instruct_count ≡ 0)
      × (r.2.last_result ≡ r.1)
      × ((t : ℕ → ℕ → Bool → Bool)
          → count_if (passes t) r.2.upload_list
            ≡ count_if (passes t) i.upload_list + (count_sent t false l + count_sent t true c))
parallel_multipart_upload_all_lem q results l c i sends opened u a b n =
    let s = succeeds-parallel_multipart_upload_all q sends results l c i opened u a b in
    elim (IsAllSent-parallel_multipart_upload_all q results l c i) [
      | inl f ↦ absurd cc
      | inr d ↦ (s, d.3 n, d.1, d.2, d.4)
    ]

-- ===== src/FdInfo/Upload/Sent.antt =====
-- What ParallelMultipartUpload and ParallelMultipartUploadAll hand to threads when they succeed.
use s3fs_fuse.FdInfo.State.{
  increase_instruction_count, open_upload_fd, wait_all_threads_exit, is_uploading, wait_rounds,
}
use s3fs_fuse.FdInfo.PartList.{insert_upload_part}
use s3fs_fuse.FdInfo.PartList.Insert.{
  count_if, instruct_count-insert_upload_part, count_if-insert_upload_part,
}
use s3fs_fuse.FdInfo.Upload.{
  Requests, request_parts, is_zero_result, parallel_multipart_upload, parallel_multipart_upload_all,
}
use s3fs_fuse.FdInfo.{Filepart, MpPart, PseudoFdInfo}
use s3fs_fuse.Base.{
  ℕ, zero, suc, ◌+◌, ◌≤◌, ◌≡◌, refl, ap, ◌∙◌, ◌⊎◌, inl, inr, Bool, true, false, not, ◌&&◌, List, [],
  ◌∷◌, arith, if◌then◌else◌, length, ℤ, pos, negsuc, if-elim,
}

-- A part in the list of uploaded parts that passes a test of its start, its size and its flag.
abbrev pub passes : (ℕ → ℕ → Bool → Bool) → Filepart → Bool
passes t f = t f.startpos f.size f.is_copy

-- How many of the parts to send pass the test.
abbrev pub count_sent : (ℕ → ℕ → Bool → Bool) → Bool → List MpPart → ℕ
count_sent t is_copy [] = 0
count_sent t is_copy (p ∷ l) = (if t p.start p.size is_copy then 1 else 0) + count_sent t is_copy l

-- From the state `i` to the state `j` the parts `l` are added to the list, and as many instructions.
abbrev pub IsSent : Bool → List MpPart → PseudoFdInfo → PseudoFdInfo → Type 0
IsSent is_copy l i j =
    (j.instruct_count ≡ i.instruct_count + length l)
    × ((t : ℕ → ℕ → Bool → Bool)
        → count_if (passes t) j.upload_list
          ≡ count_if (passes t) i.upload_list + count_sent t is_copy l)

and-left : (a b : Bool) → a && b ≡ true → a ≡ true
and-left true b h = refl
and-left false b h = cc

not-false : (a : Bool) → not a ≡ false → a ≡ true
not-false true h = refl
not-false false h = cc

-- `OpenUploadFd` changes neither the list nor the count.
IsOpened-open_upload_fd :
    (d p s : ℤ) (i : PseudoFdInfo)
    → let o = open_upload_fd d p s i in
      (o.1.instruct_count ≡ i.instruct_count) × (o.1.upload_list ≡ i.upload_list)
unfolding open_upload_fd
IsOpened-open_upload_fd d (pos n) s i = ground arith
IsOpened-open_upload_fd d (negsuc n) s i = ground arith

module _ (q : Requests) (is_copy : Bool) where
  IsSent-request_parts :
      (l : List MpPart) (i : PseudoFdInfo)
      → (request_parts q l is_copy i).0 ≡ true
      → IsSent is_copy l i (request_parts q l is_copy i).1
  unfolding request_parts
  IsSent-request_parts [] i = λ _. (omega arith, λ t. omega arith)
  IsSent-request_parts (p ∷ l) i =
      let r = insert_upload_part (pos p.start) (pos p.size) (pos p.part_num) is_copy i in
      let same_count = instruct_count-insert_upload_part p.start p.size p.part_num is_copy i in
      let ih = IsSent-request_parts l (increase_instruction_count r.1) in
      if-elim (λ (t : Bool × PseudoFdInfo). t.0 ≡ true → IsSent is_copy (p ∷ l) i t.1)
        (r.0 && is_zero_result (q.part_request is_copy p))
        (request_parts q l is_copy (increase_instruction_count r.1)) (false, r.1)
        (λ e h. (
          let c = (ih h).0 in omega arith,
          λ t.
              let c = (ih h).1 t in
              let d =
                count_if-insert_upload_part (passes t) p.start p.size p.part_num is_copy i
                  (and-left r.0 _ e) in
              omega arith,
        ))
        (λ _ h. cc)

  IsSent-parallel_multipart_upload :
      (l : List MpPart) (i : PseudoFdInfo)
      → (parallel_multipart_upload q l is_copy i).0 ≡ true
      → IsSent is_copy l i (parallel_multipart_upload q l is_copy i).1
  unfolding parallel_multipart_upload
  IsSent-parallel_multipart_upload [] i = λ _. (omega arith, λ t. omega arith)
  IsSent-parallel_multipart_upload (p ∷ l) i =
      let o = open_upload_fd q.dup_fd q.position q.stat_result i in
      let b = IsOpened-open_upload_fd q.dup_fd q.position q.stat_result i in
      if-elim (λ (t : Bool × PseudoFdInfo). t.0 ≡ true → IsSent is_copy (p ∷ l) i t.1)
        (o.0 && is_uploading o.1) (request_parts q (p ∷ l) is_copy o.1) (false, o.1)
        (λ _ h.
          let s = IsSent-request_parts (p ∷ l) o.1 h in
          (
            s.0 ∙ ap (λ n. n + length (p ∷ l)) b.0,
            λ t. s.1 t ∙ ap (λ u. count_if (passes t) u + count_sent t is_copy (p ∷ l)) b.1,
          ))
        (λ _ h. cc)

-- All rounds are over when no instruction is left.
wait_rounds-last : (results : ℕ → ℤ) (n : ℕ) (x : ℤ) → 1 ≤ n → wait_rounds results n x ≡ results 0
unfolding wait_rounds
wait_rounds-last results zero x h = absurd (omega arith)
wait_rounds-last results (suc zero) x h = refl
wait_rounds-last results (suc (suc n)) x h =
    wait_rounds-last results (suc n) (results (suc n)) (omega arith)

-- What ParallelMultipartUploadAll promises of its result.
abbrev pub IsAllSent :
    (ℕ → ℤ) → List MpPart → List MpPart → PseudoFdInfo → Bool × ℤ × PseudoFdInfo → Type 0
IsAllSent results l c i r =
    ((r.0 ≡ false) × (r.1 ≡ pos 0))
    ⊎ ((r.0 ≡ true)
        × (r.2.instruct_count ≡ 0)
        × (r.2.last_result ≡ r.1)
        × (1 ≤ i.instruct_count + length l + length c → r.1 ≡ results 0)
        × ((t : ℕ → ℕ → Bool → Bool)
            → count_if (passes t) r.2.upload_list
              ≡ count_if (passes t) i.upload_list + (count_sent t false l + count_sent t true c)))

-- ParallelMultipartUploadAll either fails, with the result 0, or does what it promises.
pub IsAllSent-parallel_multipart_upload_all :
    (q : Requests) (results : ℕ → ℤ) (l c : List MpPart) (i : PseudoFdInfo)
    → IsAllSent results l c i (parallel_multipart_upload_all q results l c i)
unfolding parallel_multipart_upload_all wait_all_threads_exit
IsAllSent-parallel_multipart_upload_all q results l c i =
    let o = open_upload_fd q.dup_fd q.position q.stat_result i in
    let u = parallel_multipart_upload q l false o.1 in
    let v = parallel_multipart_upload q c true u.1 in
    let b = IsOpened-open_upload_fd q.dup_fd q.position q.stat_result i in
    if-elim (IsAllSent results l c i) (not o.0) (false, pos 0, o.1) _ (λ _. inl (refl, refl))
      (λ _.
        if-elim (IsAllSent results l c i) (not u.0) (false, pos 0, u.1) _ (λ _. inl (refl, refl))
          (λ e.
            if-elim (IsAllSent results l c i) (not v.0) (false, pos 0, v.1) _
              (λ _. inl (refl, refl))
              (λ f.
                let s = IsSent-parallel_multipart_upload q false l o.1 (not-false u.0 e) in
                let s' = IsSent-parallel_multipart_upload q true c u.1 (not-false v.0 f) in
                let n = v.1.instruct_count in
                let m = s'.0 in
                let m' = s.0 in
                let k = b.0 in
                inr (
                  refl,
                  refl,
                  refl,
                  λ h. wait_rounds-last results n v.1.last_result (omega arith),
                  λ t.
                      let a = s.1 t in
                      let a' = s'.1 t in let d = ap (count_if (passes t)) b.1 in omega arith,
                ))))

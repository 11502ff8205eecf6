-- ===== src/FdInfo/State/Reopen.antt =====
-- A `PseudoFdInfo` that is set to another file.
use s3fs_fuse.FdInfo.{PseudoFdInfo}
use s3fs_fuse.FdInfo.State.{
  cancel_all_threads, clear, set, open_upload_fd, wait_all_threads_exit, is_unset, is_uploading,
  close_upload_fd, reset_upload_info,
}
use s3fs_fuse.PseudoFd.{get, release, step, IsReachable, release_pseudo_fd, create_pseudo_fd}
use s3fs_fuse.Base.{
  ℕ, ◌≡◌, refl, ap, ◌∙◌, Bool, true, false, not, List, [], ◌∷◌, arith, ltb, ℤ, pos, negsuc, if-elim,
  if-true, if-false, bool_clash,
}

upload_fd-cancel_all_threads :
    (results : ℕ → ℤ) (i : PseudoFdInfo) → (cancel_all_threads results i).upload_fd ≡ i.upload_fd
unfolding cancel_all_threads wait_all_threads_exit
upload_fd-cancel_all_threads results i =
    if-elim (λ (j : PseudoFdInfo). j.upload_fd ≡ i.upload_fd) (ltb 0 i.instruct_count) _ i
      (λ _. refl) (λ _. refl)

IsReachable-clear :
    (results : ℕ → ℤ) (i : PseudoFdInfo) (used : List ℕ)
    → IsReachable used
    → IsReachable (clear results i used).1
unfolding clear
IsReachable-clear results i used h =
    elim i.pseudo_fd
      as (λ f.
        IsReachable
          (elim f as (λ _. List ℕ) [ pos n ↦ (release_pseudo_fd n used).1 | negsuc n ↦ used ])) [
            | pos n ↦ step h (release n)
            | negsuc n ↦ h
          ]

open_upload_fd-open :
    (dup_fd position stat_result : ℤ) (i : PseudoFdInfo)
    → is_unset i.upload_fd ≡ false
    → open_upload_fd dup_fd position stat_result i ≡ (true, i)
unfolding open_upload_fd
open_upload_fd-open dup_fd position stat_result i h =
    if-true (not (is_unset i.upload_fd)) (true, i) _ (ground arith)

-- What `Set` promises: the list of descriptors in use is one that calls of PseudoFdManager lead to,
-- no upload is going on, and the descriptor for uploading is closed, if there was one, but still
-- taken as open.
abbrev pub IsReopened : PseudoFdInfo → ℤ → ℤ → ℤ → Bool × PseudoFdInfo × List ℕ × List ℤ → Type 0
IsReopened i dup_fd position stat_result r =
    (r.0 ≡ true)
    × IsReachable r.2
    × (is_uploading r.1 ≡ false)
    × (r.1.upload_list ≡ [])
    × (r.1.upload_fd ≡ i.upload_fd)
    × (is_unset i.upload_fd ≡ true → r.3 ≡ [])
    × (is_unset i.upload_fd ≡ false
        → (r.3 ≡ i.upload_fd ∷ []) × (open_upload_fd dup_fd position stat_result r.1 ≡ (true, r.1)))

close_upload_fd-unset : (i : PseudoFdInfo) → is_unset i.upload_fd ≡ true → close_upload_fd i ≡ []
unfolding close_upload_fd
close_upload_fd-unset i h = if-false (not (is_unset i.upload_fd)) _ [] (ground arith)

close_upload_fd-set :
    (i : PseudoFdInfo) → is_unset i.upload_fd ≡ false → close_upload_fd i ≡ i.upload_fd ∷ []
unfolding close_upload_fd
close_upload_fd-set i h = if-true (not (is_unset i.upload_fd)) _ [] (ground arith)

-- Set with a descriptor other than -1 succeeds: no upload is going on afterwards and no part is
-- uploaded, and the pseudo file descriptors in use are still a list that calls of PseudoFdManager lead
-- to. The descriptor for uploading is the one from before. If it is -1, none is closed; else it alone
-- is closed, and OpenUploadFd then takes it as open and changes nothing.
pub set_lem :
    (results : ℕ → ℤ) (fd : ℤ) (open_flags : ℕ) (i : PseudoFdInfo) (used : List ℕ)
    (dup_fd position stat_result : ℤ)
    → is_unset fd ≡ false
    → IsReachable used
    → IsReopened i dup_fd position stat_result (set results fd open_flags i used)
unfolding set clear
set_lem results fd open_flags i used dup_fd position stat_result h k =
    let kept = upload_fd-cancel_all_threads results i in
    let j = reset_upload_info (cancel_all_threads results i) in
    let c = clear results i used in
    let got = create_pseudo_fd c.1 in
    if-elim (IsReopened i dup_fd position stat_result) (is_unset fd) (false, i, used, []) _
      (λ e. absurd (bool_clash _ e h))
      (λ _. (
        refl,
        step (IsReachable-clear results i used k) get,
        refl,
        refl,
        kept,
        (λ u. close_upload_fd-unset j (rw kept u)),
        (λ u. (
          close_upload_fd-set j (rw kept u) ∙ ap (λ n. n ∷ []) kept,
          open_upload_fd-open dup_fd position stat_result _ (rw kept u),
        )),
      ))

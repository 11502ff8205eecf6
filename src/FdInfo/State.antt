-- ===== src/FdInfo/State.antt =====
-- The state of `class PseudoFdInfo` (src/fdcache_fdinfo.cpp): opening and clearing, the threads and the
-- upload id. System calls are parameters; the semaphore is not modelled, a thread
-- that ends leaves its result in `last_result`.
mod Reopen
mod Tests
use s3fs_fuse.PseudoFd.{create_pseudo_fd, release_pseudo_fd}
use s3fs_fuse.FdInfo.{PseudoFdInfo}
use s3fs_fuse.Base.{
  ℕ, zero, suc, ◌+◌, ◌%◌, Bool, true, false, not, ◌&&◌, ◌||◌, Option, none, some, List, [], ◌∷◌,
  ltb, ◌==◌, if◌then◌else◌, ℤ, pos, negsuc,
}

-- `-1 == n`
abbrev pub is_unset : ℤ → Bool
is_unset (pos n) = false
is_unset (negsuc n) = n == 0

abbrev pub minus_one : ℤ
minus_one = negsuc 0

-- The constructor; `next_fd` is what `PseudoFdManager::Get` returns.
pub make_info : ℕ → ℤ → ℕ → PseudoFdInfo
make_info next_fd fd open_flags = record {
  pseudo_fd = if is_unset fd then minus_one else pos next_fd;
  physical_fd = fd;
  flags = if is_unset fd then 0 else open_flags;
  upload_id = [];
  upload_fd = minus_one;
  upload_list = [];
  etag_entities = [];
  instruct_count = 0;
  last_result = pos 0;
}

-- `ResetUploadInfo`; the return value is always true, here and in the methods below without one.
abbrev pub reset_upload_info : PseudoFdInfo → PseudoFdInfo
reset_upload_info i = record i {
  upload_id = [];
  upload_list = [];
  instruct_count = 0;
  last_result = pos 0;
}

-- `WaitAllThreadsExit`: each round takes one instruction off the count. `results` gives the value of
-- `last_result` that the thread leaves after which so many are running.
unfoldable pub wait_rounds : (ℕ → ℤ) → ℕ → ℤ → ℤ
wait_rounds results zero last = last
wait_rounds results (suc n) last = wait_rounds results n (results n)

unfoldable pub wait_all_threads_exit : (ℕ → ℤ) → PseudoFdInfo → ℤ × PseudoFdInfo
wait_all_threads_exit results i =
    let r = wait_rounds results i.instruct_count i.last_result in
    (r, record i { instruct_count = 0; last_result = r })

-- `-ECANCELED`
abbrev pub canceled : ℤ
canceled = negsuc 124

pub cancel_all_threads : (ℕ → ℤ) → PseudoFdInfo → PseudoFdInfo
cancel_all_threads results i =
    if ltb 0 i.instruct_count
    then (wait_all_threads_exit results (record i { last_result = canceled })).1
    else i

-- The descriptors that `CloseUploadFd` closes; `upload_fd` is left as it is.
pub close_upload_fd : PseudoFdInfo → List ℤ
close_upload_fd i = if not (is_unset i.upload_fd) then i.upload_fd ∷ [] else []

-- `Clear`, with the list of pseudo file descriptors in use and the descriptors that it closes.
pub clear : (ℕ → ℤ) → PseudoFdInfo → List ℕ → PseudoFdInfo × List ℕ × List ℤ
clear results i used =
    let j = reset_upload_info (cancel_all_threads results i) in
    (
      record j { pseudo_fd = minus_one; physical_fd = minus_one },
      elim i.pseudo_fd [ pos n ↦ (release_pseudo_fd n used).1 | negsuc n ↦ used ],
      close_upload_fd j,
    )

pub set : (ℕ → ℤ) → ℤ → ℕ → PseudoFdInfo → List ℕ → Bool × PseudoFdInfo × List ℕ × List ℤ
set results fd open_flags i used =
    let c = clear results i used in
    let got = create_pseudo_fd c.1 in
    if is_unset fd then (false, i, used, []) else (
      true,
      record c.0 { pseudo_fd = pos got.0; physical_fd = fd; flags = open_flags },
      got.1,
      c.2,
    )

-- `flags & (O_WRONLY | O_RDWR)`: the two low bits.
abbrev pub writable : PseudoFdInfo → Bool
writable i = not (is_unset i.pseudo_fd) && not (i.flags % 4 == 0)

abbrev pub readable : PseudoFdInfo → Bool
readable i = not (is_unset i.pseudo_fd)

abbrev pub is_uploading : PseudoFdInfo → Bool
is_uploading i = elim i.upload_id [ [] ↦ false | c ∷ s ↦ true ]

unfoldable pub clear_upload_info : (ℕ → ℤ) → Bool → PseudoFdInfo → PseudoFdInfo
clear_upload_info results is_cancel_mp i =
    reset_upload_info (if is_cancel_mp then cancel_all_threads results i else i)

unfoldable pub row_initial_upload_info : (ℕ → ℤ) → List ℕ → Bool → PseudoFdInfo → PseudoFdInfo
row_initial_upload_info results id is_cancel_mp i =
    record (clear_upload_info results is_cancel_mp i) { upload_id = id }

abbrev pub increase_instruction_count : PseudoFdInfo → PseudoFdInfo
increase_instruction_count i = record i { instruct_count = i.instruct_count + 1 }

pub get_upload_info : PseudoFdInfo → Option (List ℕ × ℤ)
get_upload_info i = if is_uploading i then some (i.upload_id, i.upload_fd) else none

-- The results of `dup`, `lseek` and `fstat`, -1 for a failure.
unfoldable pub open_upload_fd : ℤ → ℤ → ℤ → PseudoFdInfo → Bool × PseudoFdInfo
open_upload_fd dup_fd position stat_result i =
    if not (is_unset i.upload_fd)
    then (true, i)
    else if is_unset i.physical_fd || is_unset dup_fd
    then (false, i)
    else elim position [
      | negsuc n ↦ (false, i)
      | pos n ↦
          if n == 0 && not (is_unset stat_result)
          then (true, record i { upload_fd = dup_fd })
          else (false, i)
    ]

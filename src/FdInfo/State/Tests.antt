-- ===== src/FdInfo/State/Tests.antt =====
-- The theorem on a second `Set`, at a file that was opened for uploading.
use s3fs_fuse.FdInfo.State.Reopen.{set_lem, IsReopened}
use s3fs_fuse.FdInfo.State.{set}
use s3fs_fuse.FdInfo.{PseudoFdInfo}
use s3fs_fuse.PseudoFd.{initially}
use s3fs_fuse.Base.{refl, [], ◌∷◌, pos}

abbrev opened : PseudoFdInfo
opened = record {
  pseudo_fd = pos 2;
  physical_fd = pos 5;
  flags = 2;
  upload_id = b'u' ∷ [];
  upload_fd = pos 6;
  upload_list = [];
  etag_entities = [];
  instruct_count = 0;
  last_result = pos 0;
}

set_lem_example : IsReopened opened (pos 8) (pos 0) (pos 0) (set (λ n. pos 0) (pos 7) 0 opened [])
set_lem_example = set_lem (λ n. pos 0) (pos 7) 0 opened [] (pos 8) (pos 0) (pos 0) refl initially

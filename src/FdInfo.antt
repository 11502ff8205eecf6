-- ===== src/FdInfo.antt =====
-- `class PseudoFdInfo` of src/fdcache_fdinfo.h and src/fdcache_fdinfo.cpp: an open file's descriptors
-- and the parts of its multipart upload. `etag_entities` owns the ETags and part numbers to which the
-- parts point: a pointer is an index. Offsets are numbers; parameters that the source tests for being
-- negative are integers. The mutex is held over each method.
mod State
mod PartList
mod Untreated
mod AllArea
pub mod Upload
use s3fs_fuse.Base.{ℕ, Bool, Option, List, ℤ}

pub record Etagpair : Type 0 where
  pub etag : List ℕ
  pub part_num : ℤ

pub record Filepart : Type 0 where
  pub uploaded : Bool
  pub fd : ℤ
  pub startpos : ℕ
  pub size : ℕ
  pub is_copy : Bool
  pub petag : Option ℕ

pub record MpPart : Type 0 where
  pub start : ℕ
  pub size : ℕ
  pub part_num : ℕ

pub record PseudoFdInfo : Type 0 where
  pub pseudo_fd : ℤ
  pub physical_fd : ℤ
  pub flags : ℕ
  pub upload_id : List ℕ
  pub upload_fd : ℤ
  pub upload_list : List Filepart
  pub etag_entities : List Etagpair
  pub instruct_count : ℕ
  pub last_result : ℤ

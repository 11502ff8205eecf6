-- ===== src/PageList/Multipart.antt =====
-- `GetPageListsForMultipartUpload` and `GetNoDataPageLists` of src/fdcache_page.cpp.
mod Loop
mod Download
pub mod Bytes
pub mod NoData
use s3fs_fuse.Base.{
  ℕ, ◌+◌, ◌-◌, ◌*◌, min, max, Bool, true, false, not, Option, none, some, List, [], ◌∷◌, ◌++◌, ltb,
  leb, ◌==◌, if◌then◌else◌,
}
use s3fs_fuse.PageList.{Fdpage, PageList, next, compress, compress_pages}
use s3fs_fuse.PageList.RawCompress.{
  raw_compress, keep_both, ignoring_load, ignoring_modify, parse_partsize,
}

-- `MIN_MULTIPART_SIZE` of src/common.h.
abbrev pub min_multipart_size : ℕ
min_multipart_size = 5 * 1024 * 1024

-- The variables of the loop: `prev_page`, `download_pages` and `mixupload_pages`.
pub record Mix : Type 0 where
  pub prev : Fdpage
  pub download : List Fdpage
  pub mixupload : List Fdpage

-- The current page is modified.
pub mix_modified : Fdpage → Mix → Mix
mix_modified p m =
    if not m.prev.modified
    then (if ltb m.prev.bytes min_multipart_size
        then record {
          prev = p;
          download = m.download ++ m.prev ∷ [];
          mixupload = m.mixupload ++ record (m.prev) { modified = true } ∷ [];
        }
        else record m {
          prev = p;
          mixupload = m.mixupload ++ record (m.prev) { modified = false } ∷ [];
        })
    else record m { prev = record (m.prev) { bytes = m.prev.bytes + p.bytes } }

-- The current page is not modified and the previous one is, and is too small for a part.
pub mix_missing : Fdpage → Mix → Mix
mix_missing p m =
    let missing_bytes = min_multipart_size - m.prev.bytes in
    if ltb (missing_bytes + min_multipart_size) p.bytes
    then record {
      prev = record p { offset = p.offset + missing_bytes; bytes = p.bytes - missing_bytes };
      download =
          m.download
          ++ record { offset = p.offset; bytes = missing_bytes; loaded = false; modified = false }
            ∷ [];
      mixupload = m.mixupload ++ record (m.prev) { bytes = min_multipart_size } ∷ [];
    }
    else record m {
      prev = record (m.prev) { bytes = m.prev.bytes + p.bytes };
      download = m.download ++ p ∷ [];
    }

-- The current page is not modified.
pub mix_unmodified : Fdpage → Mix → Mix
unfolding mix_missing
mix_unmodified p m =
    if not m.prev.modified
    then record m { prev = record (m.prev) { bytes = m.prev.bytes + p.bytes } }
    else if ltb m.prev.bytes min_multipart_size
    then mix_missing p m
    else record m { prev = p; mixupload = m.mixupload ++ m.prev ∷ [] }

pub mix_step : Fdpage → Mix → Mix
unfolding mix_modified mix_unmodified
mix_step p m = if p.modified then mix_modified p m else mix_unmodified p m

pub mix_loop : List Fdpage → Mix → Mix
unfolding mix_step
mix_loop [] m = m
mix_loop (p ∷ ps) m = mix_loop ps (mix_step p m)

abbrev pub mix_start : Mix
mix_start = record {
  prev = record { offset = 0; bytes = 0; loaded = false; modified = false };
  download = [];
  mixupload = [];
}

-- "last area".
pub mix_end : Mix → List Fdpage
mix_end m = if ltb 0 m.prev.bytes then m.mixupload ++ m.prev ∷ [] else m.mixupload

-- `GetPageListsForMultipartUpload`: the list, which it compresses, `dlpages` and `mixuppages`, where
-- the division into parts ends.
pub get_page_lists_for_multipart_upload :
    ℕ → PageList → PageList × Option (List Fdpage) × Option (List Fdpage)
unfolding mix_loop mix_end
get_page_lists_for_multipart_upload max_partsize l =
    let l' = compress l in
    let m = mix_loop (raw_compress (ignoring_load false) l'.pages) mix_start in
    (
      l',
      parse_partsize max_partsize (raw_compress (ignoring_modify false) m.download),
      parse_partsize max_partsize (raw_compress (ignoring_load false) (mix_end m)),
    )

-- A page of `tmp_pagelist` of `GetNoDataPageLists`; `stop_pos` is `none` for -1.
pub nodata_page : ℕ → Option ℕ → Fdpage → Fdpage
nodata_page start stop_pos p =
    let first = max p.offset start in
    record p {
      offset = first;
      bytes = elim stop_pos [ none ↦ p.bytes | some stop ↦ min p.bytes (stop - first) ];
    }

abbrev past_stop : Option ℕ → Fdpage → Bool
past_stop none p = false
past_stop (some stop) p = leb stop p.offset

-- The loop of `GetNoDataPageLists`.
pub nodata_loop : ℕ → Option ℕ → List Fdpage → List Fdpage
unfolding nodata_page
nodata_loop start stop_pos [] = []
nodata_loop start stop_pos (p ∷ ps) =
    let rest = nodata_loop start stop_pos ps in
    if ltb (next p) start
    then rest
    else if past_stop stop_pos p
    then []
    else if p.modified
    then rest
    else nodata_page start stop_pos p ∷ rest

pub get_nodata_page_lists : ℕ → ℕ → PageList → PageList × List Fdpage
unfolding nodata_loop
get_nodata_page_lists start n l =
    let l' = compress l in
    let stop_pos : Option ℕ = if n == 0 then none else some (start + n) in
    (l', raw_compress keep_both (nodata_loop start stop_pos l'.pages))

-- ===== src/PageList/Tests.antt =====
-- Runs of the methods of `PageList`, and its theorems at a file of ten bytes.
use s3fs_fuse.PageList.Multipart.NoData.{get_nodata_page_lists_between}
use s3fs_fuse.PageList.RawCompress.Parts.{IsParsed, parse_partsize_lem}
use s3fs_fuse.PageList.Status.{set_page_loaded_status_lem}
use s3fs_fuse.PageList.Area.{status_after}
use s3fs_fuse.PageList.Multipart.Bytes.{IsUploadPlan, get_page_lists_for_multipart_upload_lem}
use s3fs_fuse.PageList.Multipart.{get_page_lists_for_multipart_upload, get_nodata_page_lists}
use s3fs_fuse.PageList.Query.Unloaded.{is_unloaded, covers-get_unloaded_pages}
use s3fs_fuse.PageList.Invariant.{resize-IsValid, IsValid, set_page_loaded_status-IsValid}
use s3fs_fuse.PageList.RawCompress.{parse_partsize}
use s3fs_fuse.PageList.View.{HasBytes, covers, flags_at}
use s3fs_fuse.PageList.Resize.{byte, IsWhole, resize_lem}
use s3fs_fuse.PageList.Canonical.{compress_unique}
use s3fs_fuse.Base.{
  ℕ, ◌+◌, ◌*◌, ◌≤◌, max, ◌≡◌, refl, sym, subst, inl, Bool, true, false, ◌&&◌, ◌||◌, none, some,
  List, [], ◌∷◌, arith, ltb, leb, if◌then◌else◌, All,
}
use s3fs_fuse.PageList.{
  Fdpage, PageList, PageStatus, size, init, compress, resize, set_page_loaded_status,
  set_status_area, compress_from, resize_area, compress_step, set_flags, status_loaded,
  status_modified,
}
use s3fs_fuse.PageList.Query.{get_unloaded_pages, is_modified, request_end}

abbrev page : ℕ → ℕ → Bool → Bool → Fdpage
page offset bytes is_loaded is_modified = record {
  offset = offset;
  bytes = bytes;
  loaded = is_loaded;
  modified = is_modified;
}

-- Four bytes loaded, three modified, three neither.
abbrev ten : PageList
ten = record {
  pages = page 0 4 true false ∷ page 4 3 false true ∷ page 7 3 false false ∷ [];
  is_shrink = false;
}

ten-IsWhole : IsWhole ten
ten-IsWhole = omega arith

ten-bytes : All HasBytes ten.pages
ten-bytes = omega arith

ten-IsValid : IsValid ten
ten-IsValid = record {
  whole = ten-IsWhole;
  compressed = (refl, (refl, (tt, tt)));
  sized = inl ten-bytes;
}

-- The steps of test_page_list.cpp.
test_compress :
    (set_page_loaded_status 0 1 PageStatus.loaded true (init 42 false false)).pages
    ≡ page 0 1 true false ∷ page 1 41 false false ∷ []
unfolding set_page_loaded_status set_status_area resize resize_area compress compress_from
    compress_step size init set_flags status_loaded status_modified
test_compress = refl

resize_lem_example :
    (byte (resize 12 false true ten) 11
      ≡ (if ltb 11 12 then if ltb 11 (size ten) then byte ten 11 else some (false, true) else none))
    × (size (resize 12 false true ten) ≡ 12)
    × ((resize 12 false true ten).is_shrink ≡ (true && ltb 12 (size ten) || false))
resize_lem_example = resize_lem 12 false true ten 11 ten-IsWhole

set_page_loaded_status_lem_example :
    (byte (set_page_loaded_status 8 4 PageStatus.modified true ten) 9
      ≡ status_after 8 4 PageStatus.modified (size ten) 9 (byte ten 9))
    × (size (set_page_loaded_status 8 4 PageStatus.modified true ten) ≡ max (size ten) (8 + 4))
    × ((set_page_loaded_status 8 4 PageStatus.modified true ten).is_shrink ≡ false)
set_page_loaded_status_lem_example =
    set_page_loaded_status_lem 8 4 PageStatus.modified true ten 9 ten-IsWhole

set_page_loaded_status-IsValid_example :
    IsValid (set_page_loaded_status 2 3 PageStatus.load_modified true ten)
set_page_loaded_status-IsValid_example =
    set_page_loaded_status-IsValid 2 3 PageStatus.load_modified ten ten-IsValid

resize-IsValid_example : IsValid (resize 5 false false ten)
resize-IsValid_example = resize-IsValid 5 false false ten ten-IsValid

-- The same bytes in four pages.
abbrev divided : PageList
divided = record {
  pages =
      page 0 1 true false ∷ page 1 3 true false ∷ page 4 3 false true ∷ page 7 3 false false ∷ [];
  is_shrink = false;
}

compress_unique_example :
    ((compress ten).pages ≡ (compress divided).pages)
    × ((b : ℕ) → byte (compress ten) b ≡ byte ten b)
compress_unique_example =
    compress_unique ten divided ten-IsWhole (omega arith) ten-bytes (omega arith)
      (λ b. ground arith)

covers-get_unloaded_pages_example : covers 8 (get_unloaded_pages [] 2 0 ten.pages) ≡ (
    covers 8 []
    || (leb 2 8 && ltb 8 (request_end 2 0 ten.pages)) && is_unloaded (flags_at 8 ten.pages))
covers-get_unloaded_pages_example = covers-get_unloaded_pages 8 2 0 [] ten.pages ten-IsWhole

parse_partsize_lem_example :
    (qs : List Fdpage) × (parse_partsize 1 ten.pages ≡ some qs) × IsParsed 1 0 ten.pages qs
parse_partsize_lem_example = parse_partsize_lem 1 0 ten.pages (omega arith) ten-IsWhole

get_page_lists_for_multipart_upload_lem_example :
    (dlpages : List Fdpage) × (mixuppages : List Fdpage) × ((get_page_lists_for_multipart_upload 8
        ten).1
      ≡ some dlpages)
    × ((get_page_lists_for_multipart_upload 8 ten).2 ≡ some mixuppages)
    × IsUploadPlan ten dlpages mixuppages
    × All (λ q. q.modified ≡ true → q.bytes ≤ 8 * 2) mixuppages
get_page_lists_for_multipart_upload_lem_example =
    get_page_lists_for_multipart_upload_lem ten ten-IsWhole 8 (omega arith)

-- The modified byte 5 lies between two that are not.
compress-ten : (compress ten).pages ≡ ten.pages
unfolding compress compress_from compress_step
compress-ten = refl

get_nodata_page_lists_between_example : covers 5 (get_nodata_page_lists 0 0 ten).1 ≡ true
get_nodata_page_lists_between_example =
    get_nodata_page_lists_between ten 0 5 9 ten-IsWhole
      (subst (All HasBytes) (sym compress-ten) ten-bytes) (omega arith) (omega arith) refl refl

-- ===== src/PageList/Query.antt =====
-- The methods of `PageList` (src/fdcache_page.cpp) that read the pages, and `ClearAllModified`.
pub mod Loaded
pub mod Unloaded
pub mod Modified
use s3fs_fuse.Base.{
  ℕ, ◌+◌, ◌-◌, min, max, Bool, true, false, not, ◌&&◌, ◌||◌, Option, none, some, List, [], ◌∷◌, ltb,
  leb, ◌==◌, if◌then◌else◌,
}
use s3fs_fuse.PageList.{Fdpage, PageList, next, end_pos, size_of, compress}

-- `IsPageLoaded`; `n` is its `size`, and 0 stands for the rest of the file.
pub is_page_loaded : ℕ → ℕ → List Fdpage → Bool
is_page_loaded start n [] = true
is_page_loaded start n (p ∷ ps) =
    let rest = is_page_loaded start n ps in
    if ltb (end_pos p) start
    then rest
    else if not p.loaded
    then false
    else if not (n == 0) && leb (start + n) (next p)
    then true
    else rest

-- `FindUnloadedPage`: `resstart` and `ressize` if it returns true.
pub find_unloaded_page : ℕ → List Fdpage → Option (ℕ × ℕ)
find_unloaded_page start [] = none
find_unloaded_page start (p ∷ ps) =
    let rest = find_unloaded_page start ps in
    if leb start (end_pos p) && (not p.loaded && not p.modified)
    then some (p.offset, p.bytes)
    else rest

-- Where a request for `n` bytes from `start` ends; size 0 asks for all up to the end of the list.
pub request_end : ℕ → ℕ → List Fdpage → ℕ
request_end start n ps =
    if (n == 0) && ltb start (size_of ps) then start + (size_of ps - start) else start + n

-- The bytes of a page between `start` and `stop`, in the four cases of the source.
pub overlap_size : ℕ → ℕ → Fdpage → ℕ
overlap_size start stop p =
    if leb p.offset start
    then if leb (next p) stop then next p - start else stop - start
    else if leb (next p) stop
    then next p - p.offset
    else stop - p.offset

-- A page that a round of the loops below skips (`continue`), and one that ends them (`break`).
pub skipped : ℕ → Fdpage → Bool
skipped start p = leb (next p) start || (p.loaded || p.modified)

pub ends_loop : ℕ → ℕ → Fdpage → Bool
ends_loop start stop p = not (leb (next p) start) && leb stop p.offset

-- The loop of `GetTotalUnloadedPageSize`, with the `restsize` so far.
pub total_unloaded_loop : ℕ → ℕ → ℕ → ℕ → List Fdpage → ℕ
unfolding skipped ends_loop overlap_size
total_unloaded_loop start stop limit restsize [] = restsize
total_unloaded_loop start stop limit restsize (p ∷ ps) =
    let tmpsize = overlap_size start stop p in
    let rest =
      total_unloaded_loop start stop limit
        (if skipped start p
          then restsize
          else if (limit == 0) || ltb tmpsize limit
          then restsize + tmpsize
          else restsize)
        ps in
    if ends_loop start stop p then restsize else rest

pub get_total_unloaded_page_size : ℕ → ℕ → ℕ → List Fdpage → ℕ
get_total_unloaded_page_size start n limit ps =
    total_unloaded_loop start (request_end start n ps) limit 0 ps

-- Merge an area with the last page of a list, or put it behind.
pub add_area : ℕ → ℕ → List Fdpage → List Fdpage
add_area start n [] = record { offset = start; bytes = n; loaded = false; modified = false } ∷ []
add_area start n (p ∷ []) =
    if next p == start
    then record p { bytes = p.bytes + n } ∷ []
    else p ∷ record { offset = start; bytes = n; loaded = false; modified = false } ∷ []
add_area start n (p ∷ q ∷ ps) = p ∷ add_area start n (q ∷ ps)

-- The loop of `GetUnloadedPages`, with the `unloaded_list` so far.
pub unloaded_loop : ℕ → ℕ → List Fdpage → List Fdpage → List Fdpage
unfolding skipped ends_loop add_area
unloaded_loop start stop out [] = out
unloaded_loop start stop out (p ∷ ps) =
    let page_start = max p.offset start in
    let page_next = min (next p) stop in
    let rest =
      unloaded_loop start stop
        (if skipped start p then out else add_area page_start (page_next - page_start) out) ps in
    if ends_loop start stop p then out else rest

-- `GetUnloadedPages` from the caller's `unloaded_list`.
pub get_unloaded_pages : List Fdpage → ℕ → ℕ → List Fdpage → List Fdpage
get_unloaded_pages unloaded_list start n ps =
    unloaded_loop start (request_end start n ps) unloaded_list ps

pub bytes_modified : List Fdpage → ℕ
bytes_modified [] = 0
bytes_modified (p ∷ ps) = (if p.modified then p.bytes else 0) + bytes_modified ps

pub any_modified : List Fdpage → Bool
any_modified [] = false
any_modified (p ∷ ps) = p.modified || any_modified ps

pub is_modified : PageList → Bool
is_modified l = l.is_shrink || any_modified l.pages

pub clear_flags : List Fdpage → List Fdpage
clear_flags [] = []
clear_flags (p ∷ ps) = (if p.modified then record p { modified = false } else p) ∷ clear_flags ps

pub clear_all_modified : PageList → PageList
clear_all_modified l = compress (record { pages = clear_flags l.pages; is_shrink = false })

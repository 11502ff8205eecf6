-- ===== src/PageList.antt =====
-- `struct fdpage` and `class PageList` of src/fdcache_page.h and src/fdcache_page.cpp: the list of
-- pages of a cache file, each with a `loaded` and a `modified` flag.
-- Offsets and sizes are `off_t` values that are not negative, as numbers. The invariant
-- `PageList.Invariant.IsValid` shows that no subtraction of the source goes below zero.
mod View
mod Compress
mod Parse
mod Cut
mod Mark
mod Resize
mod Area
mod Status
mod Invariant
mod Canonical
pub mod Query
pub mod RawCompress
pub mod Multipart
mod Tests
use s3fs_fuse.Base.{
  ℕ, ◌+◌, ◌-◌, Bool, true, false, ◌&&◌, ◌||◌, List, [], ◌∷◌, ◌++◌, ltb, leb, ◌==◌, same,
  if◌then◌else◌,
}

pub record Fdpage : Type 0 where
  pub offset : ℕ
  pub bytes : ℕ
  pub loaded : Bool
  pub modified : Bool

abbrev pub next : Fdpage → ℕ
next p = p.offset + p.bytes

abbrev pub end_pos : Fdpage → ℕ
end_pos p = if ltb 0 p.bytes then p.offset + p.bytes - 1 else 0

pub record PageList : Type 0 where
  pub pages : List Fdpage
  pub is_shrink : Bool

pub data PageStatus : Type 0 where
  not_load_modified loaded modified load_modified : PageStatus

-- `Init`: `Clear`, and one page for the whole file. (`0 <= size` always holds here.)
pub init : ℕ → Bool → Bool → PageList
init size is_loaded is_modified = record {
  pages = record { offset = 0; bytes = size; loaded = is_loaded; modified = is_modified } ∷ [];
  is_shrink = false;
}

-- The end of the last page.
pub size_of : List Fdpage → ℕ
size_of [] = 0
size_of (p ∷ []) = next p
size_of (p ∷ q ∷ ps) = size_of (q ∷ ps)

pub size : PageList → ℕ
unfolding size_of
size l = size_of l.pages

-- One round of the loop of `Compress`: the pages that are left behind, and the new `*lastpage`.
pub fill_gap : Fdpage → Fdpage → List Fdpage × Fdpage
fill_gap last p =
    if next last == p.offset
    then ([], last)
    else if last.loaded || last.modified
    then (
      last ∷ [],
      record { offset = next last; bytes = p.offset - next last; loaded = false; modified = false },
    )
    else ([], record last { bytes = p.offset - last.offset })

pub join_page : Fdpage → Fdpage → List Fdpage × Fdpage
join_page last p =
    if same last.loaded p.loaded && same last.modified p.modified
    then ([], record last { bytes = last.bytes + p.bytes })
    else (last ∷ [], p)

pub compress_step : Fdpage → Fdpage → List Fdpage × Fdpage
unfolding fill_gap join_page
compress_step last p =
    let (gap, last') = fill_gap last p in
    let (left, last'') = join_page last' p in (gap ++ left, last'')

-- The loop of `Compress` from a `lastpage` on.
pub compress_from : Fdpage → List Fdpage → List Fdpage
compress_from last [] = last ∷ []
compress_from last (p ∷ ps) =
    let (left, last') = compress_step last p in left ++ compress_from last' ps

pub compress_pages : List Fdpage → List Fdpage
compress_pages [] = []
compress_pages (p ∷ ps) = compress_from p ps

pub compress : PageList → PageList
unfolding compress_pages
compress l = record l { pages = compress_pages l.pages }

-- The loop of `Parse`, and whether a page starts at `new_pos` now.
pub parse_pages : ℕ → List Fdpage → List Fdpage × Bool
parse_pages new_pos [] = ([], false)
parse_pages new_pos (p ∷ ps) =
    let rest = parse_pages new_pos ps in
    if new_pos == p.offset
    then (p ∷ ps, true)
    else if ltb p.offset new_pos && ltb new_pos (next p)
    then (
      record p { bytes = new_pos - p.offset }
          ∷ record p { offset = new_pos; bytes = p.bytes - (new_pos - p.offset) }
          ∷ ps,
      true,
    )
    else (p ∷ rest.0, rest.1)

pub parse : ℕ → PageList → PageList × Bool
unfolding parse_pages
parse new_pos l = let (ps, found) = parse_pages new_pos l.pages in (record l { pages = ps }, found)

-- The loop of `Resize` that cuts the list at `size`.
pub cut_pages : ℕ → List Fdpage → List Fdpage
cut_pages n [] = []
cut_pages n (p ∷ ps) =
    let rest = cut_pages n ps in
    if leb (next p) n
    then p ∷ rest
    else if leb n p.offset
    then rest
    else record p { bytes = n - p.offset } ∷ rest

-- The area of `Resize`, before it is compressed.
pub resize_area : ℕ → Bool → Bool → PageList → PageList
unfolding init
resize_area n is_loaded is_modified l =
    let total = size l in
    if total == 0
    then record (init n is_loaded is_modified) { is_shrink = l.is_shrink }
    else if ltb total n
    then record l {
      pages =
          l.pages
          ++ record {
            offset = total;
            bytes = n - total;
            loaded = is_loaded;
            modified = is_modified;
          }
            ∷ [];
    }
    else if ltb n total
    then record { pages = cut_pages n l.pages; is_shrink = is_modified || l.is_shrink }
    else l

pub resize : ℕ → Bool → Bool → PageList → PageList
resize n is_loaded is_modified l = compress (resize_area n is_loaded is_modified l)

pub status_loaded : PageStatus → Bool
status_loaded load_modified = true
status_loaded loaded = true
status_loaded _ = false

pub status_modified : PageStatus → Bool
status_modified load_modified = true
status_modified modified = true
status_modified _ = false

-- The loop of `SetPageLoadedStatus` that sets the flags of the pages from `start` to `start + n`.
pub set_flags : ℕ → ℕ → Bool → Bool → List Fdpage → List Fdpage
set_flags start n is_loaded is_modified [] = []
set_flags start n is_loaded is_modified (p ∷ ps) =
    let rest = set_flags start n is_loaded is_modified ps in
    if ltb (end_pos p) start
    then p ∷ rest
    else if leb (start + n) p.offset
    then p ∷ ps
    else record p { loaded = is_loaded; modified = is_modified } ∷ rest

-- `SetPageLoadedStatus`, before the list is compressed.
pub set_status_area : ℕ → ℕ → PageStatus → PageList → PageList
unfolding parse
set_status_area start n pstatus l =
    let now_size = size l in
    let is_loaded = status_loaded pstatus in
    let is_modified = status_modified pstatus in
    if leb now_size start
    then resize (start + n) is_loaded is_modified
        (if ltb now_size start then resize start false is_modified l else l)
    else if leb now_size (start + n)
    then resize (start + n) is_loaded is_modified (resize start false false l)
    else (let parsed = (parse (start + n) (parse start l).0).0 in
        record parsed { pages = set_flags start n is_loaded is_modified parsed.pages })

pub set_page_loaded_status : ℕ → ℕ → PageStatus → Bool → PageList → PageList
set_page_loaded_status start n pstatus is_compress l =
    let l' = set_status_area start n pstatus l in if is_compress then compress l' else l'

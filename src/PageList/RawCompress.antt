-- ===== src/PageList/RawCompress.antt =====
-- The `fdpage_list_t` utilities of src/fdcache_page.cpp: a compressed copy of a page list that may
-- ignore a flag, and the division of modified pages into parts.
pub mod Bytes
pub mod Parts
pub mod Gaps
pub mod Spans
use mathlib.Core.Option
use s3fs_fuse.Base.{
  ℕ, zero, suc, ◌+◌, ◌-◌, ◌*◌, Bool, true, false, not, ◌&&◌, ◌||◌, Option, none, some, List, [],
  ◌∷◌, ◌++◌, map, ltb, ◌==◌, same, if◌then◌else◌,
}
use s3fs_fuse.PageList.{Fdpage, next}

-- The last four arguments of `raw_compress_fdpage_list`.
pub record Ignoring : Type 0 where
  pub ignore_load : Bool
  pub ignore_modify : Bool
  pub default_load : Bool
  pub default_modify : Bool

abbrev pub keep_both : Ignoring
keep_both = record {
  ignore_load = false;
  ignore_modify = false;
  default_load = false;
  default_modify = false;
}

abbrev pub ignoring_load : Bool → Ignoring
ignoring_load default = record {
  ignore_load = true;
  ignore_modify = false;
  default_load = default;
  default_modify = false;
}

abbrev pub ignoring_modify : Bool → Ignoring
ignoring_modify default = record {
  ignore_load = false;
  ignore_modify = true;
  default_load = false;
  default_modify = default;
}

module _ (g : Ignoring) where
  abbrev pub masked : Fdpage → Fdpage
  masked p = record p {
    loaded = if g.ignore_load then g.default_load else p.loaded;
    modified = if g.ignore_modify then g.default_modify else p.modified;
  }

  -- `raw_add_compress_fdpage_list` behind `last`: the pages that are left behind, and the new last.
  pub raw_add : Fdpage → Fdpage → List Fdpage × Fdpage
  raw_add last p = if ltb 0 p.bytes then (last ∷ [], masked p) else ([], last)

  -- "Non-consecutive with last page".
  pub raw_fill : Fdpage → Fdpage → List Fdpage × Fdpage
  unfolding raw_add
  raw_fill last p =
      if next last == p.offset
      then ([], last)
      else if not g.ignore_load && last.loaded || not g.ignore_modify && last.modified
      then raw_add last (record {
        offset = next last;
        bytes = p.offset - next last;
        loaded = false;
        modified = false;
      })
      else ([], record last { bytes = p.offset - last.offset })

  -- "add current page".
  pub raw_join : Fdpage → Fdpage → List Fdpage × Fdpage
  unfolding raw_add
  raw_join last p =
      if not g.ignore_load && not (same last.loaded p.loaded)
        || not g.ignore_modify && not (same last.modified p.modified)
      then raw_add last p
      else ([], record last { bytes = last.bytes + p.bytes })

  -- A round of the loop behind a last page.
  pub raw_step : Fdpage → Fdpage → List Fdpage × Fdpage
  unfolding raw_fill raw_join
  raw_step last p =
      if p.bytes == 0
      then ([], last)
      else (let (gap, last') = raw_fill last p in
          let (left, last'') = raw_join last' p in (gap ++ left, last''))

  pub raw_from : Fdpage → List Fdpage → List Fdpage
  unfolding raw_step
  raw_from last [] = last ∷ []
  raw_from last (p ∷ ps) = let (left, last') = raw_step last p in left ++ raw_from last' ps

  -- `raw_compress_fdpage_list`: the first page with bytes becomes the first item.
  pub raw_compress : List Fdpage → List Fdpage
  unfolding raw_from
  raw_compress [] = []
  raw_compress (p ∷ ps) =
      let rest = raw_compress ps in if p.bytes == 0 then rest else raw_from (masked p) ps

-- The inner loop of `parse_partsize_fdpage_list`, on fuel: `none` if the fuel runs out, as it does
-- for every amount when `max_partsize` is 0 and the loop of the source does not end.
pub divide : ℕ → ℕ → Fdpage → ℕ → ℕ → Option (List Fdpage)
divide zero max_partsize page start rest_bytes = none
divide (suc fuel) max_partsize page start rest_bytes =
    let more = divide fuel max_partsize page (start + max_partsize) (rest_bytes - max_partsize) in
    if rest_bytes == 0
    then some []
    else if ltb (max_partsize * 2) rest_bytes
    then Option.map (λ ps. record page { offset = start; bytes = max_partsize } ∷ ps) more
    else some (record page { offset = start; bytes = rest_bytes } ∷ [])

abbrev pub append_parts : Option (List Fdpage) → Option (List Fdpage) → Option (List Fdpage)
append_parts (some ps) (some qs) = some (ps ++ qs)
append_parts _ _ = none

-- The parts of a page. A round takes `max_partsize` bytes, so `bytes + 1` rounds are enough.
pub page_parts : ℕ → Fdpage → Option (List Fdpage)
unfolding divide
page_parts max_partsize p =
    if p.modified then divide (suc p.bytes) max_partsize p p.offset p.bytes else some (p ∷ [])

-- `parse_partsize_fdpage_list`.
pub parse_partsize : ℕ → List Fdpage → Option (List Fdpage)
unfolding page_parts
parse_partsize max_partsize [] = some []
parse_partsize max_partsize (p ∷ ps) =
    append_parts (page_parts max_partsize p) (parse_partsize max_partsize ps)

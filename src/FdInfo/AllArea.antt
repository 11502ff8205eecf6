-- ===== src/FdInfo/AllArea.antt =====
-- `PseudoFdInfo::ExtractUploadPartsFromAllArea` of src/fdcache_fdinfo.cpp: the parts that are uploaded,
-- copied and downloaded for a whole file. The current area starts at `s` and has `z` bytes, one or
-- more. An iterator into a list is the rest of the list behind it.
use s3fs_fuse.UntreatedParts.{UntreatedPart, make_part}
use s3fs_fuse.FdInfo.{MpPart, Filepart}
pub mod Rounds
pub mod Uploaded
pub mod Gap
pub mod Written
use s3fs_fuse.Base.{
  ℕ, ◌+◌, ◌-◌, ◌*◌, Bool, false, ◌&&◌, Option, none, some, List, [], ◌∷◌, ◌++◌, ltb, leb, ◌==◌,
  if◌then◌else◌, pos,
}

abbrev pub five_gb : ℕ
five_gb = 5 * 1024 * 1024 * 1024

abbrev pub min_multipart_size : ℕ
min_multipart_size = 5 * 1024 * 1024

-- `cur_size`
abbrev pub part_size : ℕ → ℕ → ℕ → ℕ
part_size max_mp_size file_size s =
    if leb (s + max_mp_size) file_size then max_mp_size else file_size - s

-- `emplace_back(start, size)` of an untreated area.
abbrev pub area : ℕ → ℕ → UntreatedPart
area s z = make_part s (pos z) 0

abbrev pub overlaps_area : ℕ → ℕ → ℕ → ℕ → Bool
overlaps_area s z start size = ltb start (s + z) && ltb s (start + size)

-- The part of an untreated area from `s` on.
abbrev pub cut_front : ℕ → UntreatedPart → UntreatedPart
cut_front s u = if ltb u.start s then record u { start = s; size = u.size - (s - u.start) } else u

-- The loop over `dup_untreated_list`: the areas in the current one, and the rest of the list. An area
-- that goes past the end is split; its second part starts there, which ends the loop.
unfoldable pub untreated_loop : ℕ → ℕ → List UntreatedPart → List UntreatedPart × List UntreatedPart
untreated_loop s z [] = ([], [])
untreated_loop s z (u ∷ l) =
    let rest = untreated_loop s z l in
    let t = cut_front s u in
    if overlaps_area s z u.start u.size
    then (if leb (t.start + t.size) (s + z) then (area t.start t.size ∷ rest.0, rest.1) else (
      area t.start (s + z - t.start) ∷ [],
      record u { start = t.start + (s + z - t.start); size = u.start + u.size - (s + z) } ∷ l,
    ))
    else if ltb (s + z - 1) u.start
    then ([], u ∷ l)
    else rest

-- The uploaded parts that the loop has passed, the one of them that overlaps, and the rest.
pub record Passed : Type 0 where
  pub before : List Filepart
  pub overlap : Option Filepart
  pub after : List Filepart
  pub rest : List Filepart

abbrev pub pass : Filepart → Passed → Passed
pass f p = elim p.overlap [
  | none ↦ record p { before = p.before ++ f ∷ [] }
  | some g ↦ record p { after = p.after ++ f ∷ [] }
]

-- The loop over `upload_list`; `none` where the method returns false, at a second part that overlaps.
unfoldable pub uploaded_loop : ℕ → ℕ → List Filepart → Passed → Option Passed
uploaded_loop s z [] p = some (record p { rest = [] })
uploaded_loop s z (f ∷ l) p =
    let found = uploaded_loop s z l (record p { overlap = some f }) in
    let passed = uploaded_loop s z l (pass f p) in
    if overlaps_area s z f.startpos f.size
    then elim p.overlap [ none ↦ found | some g ↦ none ]
    else if ltb (s + z - 1) f.startpos
    then some (record p { rest = f ∷ l })
    else passed

-- The lists that are made, the untreated areas that are left, and the uploaded parts before and behind
-- the iterator.
pub record Plan : Type 0 where
  pub to_upload_list : List MpPart
  pub to_copy_list : List MpPart
  pub to_download_list : List MpPart
  pub cancel_upload_list : List Filepart
  pub wait_upload_complete : Bool
  pub untreated : List UntreatedPart
  pub passed : List Filepart
  pub rest : List Filepart

-- The loop over the untreated areas in the current one, where no uploaded part overlaps.
pub record Gaps : Type 0 where
  pub tmp_cur_start : ℕ
  pub tmp_cur_size : ℕ
  pub changed_start : ℕ
  pub changed_size : ℕ
  pub first_area : Bool
  pub to_copy_list : List MpPart
  pub to_download_list : List MpPart

-- The last part to copy, and the list with that part larger by `n`.
abbrev pub last_part : List MpPart → Option MpPart
last_part [] = none
last_part (p ∷ []) = some p
last_part (p ∷ q ∷ l) = last_part (q ∷ l)

abbrev pub grow_last : ℕ → List MpPart → List MpPart
grow_last n [] = []
grow_last n (p ∷ []) = record p { size = p.size + n } ∷ []
grow_last n (p ∷ q ∷ l) = p ∷ grow_last n (q ∷ l)

-- The gap can go with the last part to copy.
abbrev pub joins_copy : ℕ → Gaps → Option MpPart → Bool
joins_copy start g none = false
joins_copy start g (some p) =
    p.start + p.size == g.tmp_cur_start
    && leb (p.size + (start - g.tmp_cur_start)) five_gb
    && leb min_multipart_size (g.tmp_cur_start + g.tmp_cur_size - start)

abbrev pub fill_gap : Bool → ℕ → Gaps → Gaps
fill_gap use_copy start g =
    if ltb g.tmp_cur_start start
    then (if g.first_area && use_copy && joins_copy start g (last_part g.to_copy_list)
        then record g {
          changed_start = start;
          changed_size = g.changed_size - (start - g.changed_start);
          to_copy_list = grow_last (start - g.tmp_cur_start) g.to_copy_list;
        }
        else record g {
          to_download_list =
              g.to_download_list
              ++ record { start = g.tmp_cur_start; size = start - g.tmp_cur_start; part_num = 0 }
                ∷ [];
        })
    else g

abbrev pub gap_step : Bool → UntreatedPart → Gaps → Gaps
gap_step use_copy u g =
    let h = fill_gap use_copy u.start g in
    record h {
      tmp_cur_start = u.start + u.size;
      tmp_cur_size = h.tmp_cur_start + h.tmp_cur_size - (u.start + u.size);
      first_area = false;
    }

unfoldable pub gap_loop : Bool → List UntreatedPart → Gaps → Gaps
gap_loop use_copy [] g = g
gap_loop use_copy (u ∷ l) g = gap_loop use_copy l (gap_step use_copy u g)

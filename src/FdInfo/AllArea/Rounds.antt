-- ===== src/FdInfo/AllArea/Rounds.antt =====
-- The main loop of `ExtractUploadPartsFromAllArea`.
pub mod Covered
pub mod Whole
pub mod Lossless
mod Written
mod Tests
use s3fs_fuse.FdInfo.AllArea.{Plan, gap_loop, untreated_loop, Passed, uploaded_loop, part_size}
use s3fs_fuse.FdInfo.{MpPart, Filepart}
use s3fs_fuse.UntreatedParts.{UntreatedPart}
use s3fs_fuse.Base.{
  ℕ, zero, suc, ◌+◌, ◌/◌, Bool, true, false, not, ◌||◌, Option, none, some, List, [], ◌∷◌, ◌++◌,
  ltb, if◌then◌else◌,
}

abbrev pub part_of : ℕ → ℕ → ℕ → MpPart
part_of s z n = record { start = s; size = z; part_num = n }

-- An area without uploaded parts that has untreated areas in it.
abbrev pub upload_gaps : Bool → ℕ → ℕ → ℕ → List UntreatedPart → Plan → Plan
upload_gaps use_copy s z part_num cur d =
    let g = gap_loop use_copy cur (record {
      tmp_cur_start = s;
      tmp_cur_size = z;
      changed_start = s;
      changed_size = z;
      first_area = true;
      to_copy_list = d.to_copy_list;
      to_download_list = d.to_download_list;
    }) in
    record d {
      to_copy_list = g.to_copy_list;
      to_download_list =
          if ltb 0 g.tmp_cur_size
          then g.to_download_list ++ part_of g.tmp_cur_start g.tmp_cur_size 0 ∷ []
          else g.to_download_list;
      to_upload_list = d.to_upload_list ++ part_of g.changed_start g.changed_size part_num ∷ [];
    }

-- An area without uploaded parts and without untreated areas.
abbrev pub copy_or_load : Bool → ℕ → ℕ → ℕ → Plan → Plan
copy_or_load use_copy s z part_num d =
    if use_copy
    then record d { to_copy_list = d.to_copy_list ++ part_of s z part_num ∷ [] }
    else record d {
      to_download_list = d.to_download_list ++ part_of s z 0 ∷ [];
      to_upload_list = d.to_upload_list ++ part_of s z part_num ∷ [];
    }

-- An area with untreated areas in it that was uploaded is uploaded again.
abbrev pub upload_again : ℕ → ℕ → ℕ → Filepart → Passed → Plan → Plan
upload_again s z part_num f p d = record d {
  wait_upload_complete = d.wait_upload_complete || not f.uploaded;
  cancel_upload_list = d.cancel_upload_list ++ f ∷ [];
  to_upload_list = d.to_upload_list ++ part_of s z part_num ∷ [];
  passed = d.passed ++ p.before;
  rest = p.after ++ p.rest;
}

-- The iterators past the parts of the current area.
abbrev pub go_past : List UntreatedPart → Passed → Plan → Plan
go_past untreated p d = record d {
  untreated = untreated;
  passed = d.passed ++ p.before ++ (elim p.overlap [ none ↦ [] | some f ↦ f ∷ [] ]) ++ p.after;
  rest = p.rest;
}

-- The lists of the current area, by its untreated areas and the uploaded part that overlaps.
abbrev pub plan_area :
    Bool → ℕ → ℕ → ℕ → List UntreatedPart → List UntreatedPart → Passed → Plan → Plan
plan_area use_copy s z part_num cur left p d = elim cur [
  | [] ↦ elim p.overlap [
    | some f ↦ go_past left p d
    | none ↦ copy_or_load use_copy s z part_num (go_past left p d)
  ]
  | u ∷ l ↦ elim p.overlap [
    | some f ↦ upload_again s z part_num f p (record d { untreated = left })
    | none ↦ upload_gaps use_copy s z part_num (u ∷ l) (go_past left p d)
  ]
]

-- One round, `none` where the method returns false.
pub area_step : Bool → ℕ → ℕ → ℕ → Plan → Option Plan
area_step use_copy max_mp_size file_size s d =
    let z = part_size max_mp_size file_size s in
    let cur = untreated_loop s z d.untreated in
    elim (uploaded_loop s z d.rest
      (record { before = []; overlap = none; after = []; rest = [] })) [
        | none ↦ none
        | some p ↦ some (plan_area use_copy s z (s / max_mp_size + 1) cur.0 cur.1 p d)
      ]

-- The rounds, with fuel: each area has a byte or more.
pub area_loop : ℕ → Bool → ℕ → ℕ → ℕ → Plan → Option Plan
area_loop zero use_copy max_mp_size file_size s d = some d
area_loop (suc fuel) use_copy max_mp_size file_size s d =
    if ltb s file_size
    then elim (area_step use_copy max_mp_size file_size s d) [
      | none ↦ none
      | some d' ↦
          area_loop fuel use_copy max_mp_size file_size (s + part_size max_mp_size file_size s) d'
    ]
    else some d

-- The upload list afterwards is `passed ++ rest`.
pub extract_upload_parts_from_all_area :
    List UntreatedPart → List Filepart → ℕ → ℕ → Bool → Option Plan
extract_upload_parts_from_all_area untreated_list upload_list max_mp_size file_size use_copy =
    area_loop file_size use_copy max_mp_size file_size 0 (record {
      to_upload_list = [];
      to_copy_list = [];
      to_download_list = [];
      cancel_upload_list = [];
      wait_upload_complete = false;
      untreated = untreated_list;
      passed = [];
      rest = upload_list;
    })

-- ===== src/FdInfo/AllArea/Rounds/Covered.antt =====
-- `ExtractUploadPartsFromAllArea` leaves no byte of the file out.
use s3fs_fuse.FdInfo.AllArea.Gap.{in_parts-append, IsFilled-gap_loop}
use s3fs_fuse.FdInfo.Untreated.Parts.{in_parts}
use s3fs_fuse.FdInfo.Untreated.Disjoint.{IsInOrder}
use s3fs_fuse.FdInfo.AllArea.Uploaded.{
  in_files, IsHere, in_files-append, Found, IsAligned, uploaded_loop-Found,
}
use s3fs_fuse.UntreatedParts.{UntreatedPart}
use s3fs_fuse.FdInfo.AllArea.{
  Plan, part_size, Passed, untreated_loop, uploaded_loop, Gaps, gap_loop,
}
use s3fs_fuse.FdInfo.AllArea.Rounds.{area_step, plan_area, part_of}
use s3fs_fuse.FdInfo.{Filepart}
use s3fs_fuse.Base.{
  ℕ, ◌+◌, ◌/◌, ◌%◌, ◌≤◌, ◌<◌, ◌≡◌, refl, sym, subst, Bool, true, ◌||◌, Option, none, some, List, [],
  ◌∷◌, ◌++◌, arith, All, if-elim,
}

-- The byte is uploaded, copied, or in an uploaded part that the iterator has passed.
abbrev pub has_byte : ℕ → Plan → Bool
has_byte b d = in_parts b d.to_upload_list || in_parts b d.to_copy_list || in_files b d.passed

module _ (use_copy : Bool) (m file_size : ℕ) (hm : 1 ≤ m) where
  abbrev pub IsSound : Plan → Type 0
  IsSound d = IsInOrder d.rest × All (IsAligned m file_size) d.rest

  module _ (s : ℕ) (a : s % m ≡ 0) (k : s < file_size) where
    abbrev pub here : ℕ
    here = part_size m file_size s

    abbrev pub Grows : Plan → Plan → Type 0
    Grows d d' =
        IsSound d'
        × ((b : ℕ) → has_byte b d ≡ true → has_byte b d' ≡ true)
        × ((b : ℕ) → s ≤ b → b < s + here → has_byte b d' ≡ true)

    in_files-passed :
        (b : ℕ) (l bf : List Filepart) → in_files b l ≡ true → in_files b (l ++ bf) ≡ true
    in_files-passed b l bf h = let q = in_files-append b l bf in ground arith

    -- The bytes of the part that is found.
    in_files-here :
        (b : ℕ) (l : List Filepart) (f : Filepart)
        → (f.startpos ≡ s) × (f.size ≡ here)
        → s ≤ b
        → b < s + here
        → in_files b (l ++ f ∷ []) ≡ true
    in_files-here b l f h u v =
        let h0 = h.0 in let h1 = h.1 in let q = in_files-append b l (f ∷ []) in ground arith

    plan_area-Grows :
        (cur left : List UntreatedPart) (bf : List Filepart) (ov : Option Filepart)
        (rs : List Filepart) (d : Plan)
        → IsHere m file_size s hm a k ov
        → IsInOrder rs
        → All (IsAligned m file_size) rs
        → Grows d (
            plan_area use_copy s here
              (s / m + 1)
              cur
              left
              (record { before = bf; overlap = ov; after = []; rest = rs })
              d)
    plan_area-Grows [] left bf (some f) rs d h o g = (
      (o, g),
      (λ b e.
          let q = in_files-append b d.passed bf in
          let q2 = in_files-append b (d.passed ++ bf) (f ∷ []) in
          let q3 = in_files-append b (d.passed ++ bf ++ f ∷ []) [] in ground arith),
      λ b u v.
          let q = in_files-here b (d.passed ++ bf) f h u v in
          let q3 = in_files-append b (d.passed ++ bf ++ f ∷ []) [] in ground arith,
    )
    plan_area-Grows [] left bf none rs d h o g =
        if-elim (Grows d) use_copy _ _
          (λ _. (
            (o, g),
            (λ b e.
                let q = in_parts-append b d.to_copy_list (part_of s here (s / m + 1) ∷ []) in
                let r = passed_on b bf d in ground arith),
            λ b u v.
                let q = in_parts-append b d.to_copy_list (part_of s here (s / m + 1) ∷ []) in
                ground arith,
          ))
          (λ _. (
            (o, g),
            (λ b e.
                let q = in_parts-append b d.to_upload_list (part_of s here (s / m + 1) ∷ []) in
                let r = passed_on b bf d in ground arith),
            λ b u v.
                let q = in_parts-append b d.to_upload_list (part_of s here (s / m + 1) ∷ []) in
                ground arith,
          ))
      where
        passed_on :
            (b : ℕ) (bf : List Filepart) (d : Plan)
            → in_files b (d.passed ++ bf ++ [] ++ []) ≡ in_files b d.passed || in_files b bf
        passed_on b bf d =
            let q = in_files-append b d.passed bf in
            let q2 = in_files-append b (d.passed ++ bf) [] in
            let q3 = in_files-append b (d.passed ++ bf ++ []) [] in ground arith
    plan_area-Grows (c ∷ cur) left bf (some f) rs d h o g = (
      (o, g),
      (λ b e.
          let q = in_files-append b d.passed bf in
          let r = in_parts-append b d.to_upload_list (part_of s here (s / m + 1) ∷ []) in
          ground arith),
      λ b u v.
          let r = in_parts-append b d.to_upload_list (part_of s here (s / m + 1) ∷ []) in
          ground arith,
    )
    plan_area-Grows (c ∷ cur) left bf none rs d h o g =
        let start : Gaps = record {
          tmp_cur_start = s;
          tmp_cur_size = here;
          changed_start = s;
          changed_size = here;
          first_area = true;
          to_copy_list = d.to_copy_list;
          to_download_list = d.to_download_list;
        } in
        let e = gap_loop use_copy (c ∷ cur) start in
        let p = part_of e.changed_start e.changed_size (s / m + 1) in
        let f =
          IsFilled-gap_loop s here d.to_copy_list use_copy (c ∷ cur) start
            (refl, (λ b u. u), (λ b u v. absurd (omega arith)), λ _. (refl, refl, refl)) in
        let f0 = f.0 in
        (
          (o, g),
          (λ b u.
              let q = in_files-append b d.passed bf in
              let q2 = in_files-append b (d.passed ++ bf) [] in
              let q3 = in_files-append b (d.passed ++ bf ++ []) [] in
              let r = in_parts-append b d.to_upload_list (p ∷ []) in let t = f.1 b in ground arith),
          λ b u v.
              let r = in_parts-append b d.to_upload_list (p ∷ []) in
              let t = f.2 b u in ground arith,
        )

    abbrev pub StepGrows : Plan → Option Plan → Type 0
    StepGrows d none = ⊥
    StepGrows d (some d') = Grows d d'

    pub area_step-Grows : (d : Plan) → IsSound d → StepGrows d (area_step use_copy m file_size s d)
    unfolding area_step
    area_step-Grows d h =
        let cur = untreated_loop s here d.untreated in
        go cur.0 cur.1 (uploaded_loop s here d.rest _)
          (uploaded_loop-Found m file_size s hm a k d.rest [] [] h.0 h.1)
      where
        go :
            (cur left : List UntreatedPart) (r : Option Passed)
            → Found m file_size s hm a k r
            → StepGrows d (elim r as (λ _. Option Plan) [
              | none ↦ none
              | some p ↦ some (plan_area use_copy s here (s / m + 1) cur left p d)
            ])
        go cur left none f = f
        go cur left (some p) f =
            subst
              (λ af. Grows d (
                plan_area use_copy s here (s / m + 1) cur left
                  (record { before = p.before; overlap = p.overlap; after = af; rest = p.rest }) d))
              (sym f.1) (plan_area-Grows cur left p.before p.overlap p.rest d f.0 f.2 f.3)

-- ===== src/FdInfo/AllArea/Rounds/Whole.antt =====
-- All rounds of `ExtractUploadPartsFromAllArea` together.
use s3fs_fuse.FdInfo.Untreated.Disjoint.{IsInOrder}
use s3fs_fuse.FdInfo.AllArea.Uploaded.{in_files, IsAligned, in_files-append}
use s3fs_fuse.FdInfo.{Filepart}
use s3fs_fuse.UntreatedParts.{UntreatedPart}
use s3fs_fuse.FdInfo.AllArea.Rounds.Covered.{IsSound, has_byte, StepGrows, Grows, area_step-Grows}
use s3fs_fuse.FdInfo.Untreated.Parts.{in_parts}
use s3fs_fuse.FdInfo.AllArea.Rounds.{area_loop, extract_upload_parts_from_all_area, area_step}
use s3fs_fuse.FdInfo.AllArea.{part_size, Plan}
use s3fs_fuse.Base.{
  ℕ, zero, suc, ◌+◌, ◌%◌, ◌≤◌, ◌<◌, ◌≡◌, inl, inr, Bool, true, ◌||◌, Option, none, some, List, ◌++◌,
  arith, ltb, Bool-cases, All, if-elim,
}

module _ (use_copy : Bool) (m file_size : ℕ) (hm : 1 ≤ m) where
  abbrev Covers : Option Plan → Type 0
  Covers none = ⊥
  Covers (some d) = (b : ℕ) → b < file_size → has_byte b d ≡ true

  next_aligned :
      (s : ℕ)
      → s % m ≡ 0
      → s < file_size
      → s + part_size m file_size s < file_size
      → (s + part_size m file_size s) % m ≡ 0
  next_aligned s a k h =
      let e : part_size m file_size s ≡ m = (ground arith) in
      let q : (s + m) % m ≡ 0 = grind arith in rw e q

  area_loop-Covers :
      (fuel s : ℕ) (d : Plan)
      → IsSound use_copy m file_size hm d
      → (s < file_size → s % m ≡ 0)
      → file_size ≤ s + fuel
      → ((b : ℕ) → b < s → b < file_size → has_byte b d ≡ true)
      → Covers (area_loop fuel use_copy m file_size s d)
  unfolding area_loop
  area_loop-Covers zero s d o a h c = λ b u. c b (omega arith) u
  area_loop-Covers (suc fuel) s d o a h c =
      if-elim Covers (ltb s file_size) _ (some d)
        (λ e.
          let k : s < file_size = (ground arith) in
          go k (area_step use_copy m file_size s d)
            (area_step-Grows use_copy m file_size hm s (a k) k d o)
            (λ d' g.
              let z : 1 ≤ part_size m file_size s = (ground arith) in
              area_loop-Covers fuel (s + part_size m file_size s) d' g.0 (next_aligned s (a k) k)
                (omega arith)
                (λ b u v. elim (Bool-cases (ltb b s)) [
                  | inl q ↦ g.1 b (c b (ground arith) v)
                  | inr q ↦ g.2 b (ground arith) u
                ])))
        (λ e b u. c b (ground arith) u)
    where
      go :
          (k : s < file_size) (r : Option Plan)
          → StepGrows use_copy m file_size hm s (a k) k d r
          → ((d' : Plan)
              → Grows use_copy m file_size hm s (a k) k d d'
              → Covers (area_loop fuel use_copy m file_size (s + part_size m file_size s) d'))
          → Covers (elim r as (λ _. Option Plan) [
            | none ↦ none
            | some d' ↦ area_loop fuel use_copy m file_size (s + part_size m file_size s) d'
          ])
      go k none g f = g
      go k (some d') g f = f d' g

-- The method succeeds, and the byte is uploaded, copied, or uploaded already.
abbrev pub IsInPlan : ℕ → Option Plan → Type 0
IsInPlan b none = ⊥
IsInPlan b (some d) =
    (in_parts b d.to_upload_list || in_parts b d.to_copy_list || in_files b (d.passed ++ d.rest))
    ≡ true

-- For a positive part size, and uploaded parts that are in order, start at multiples of it and are as
-- large as the file allows, ExtractUploadPartsFromAllArea succeeds, whatever areas were written: every
-- byte of the file is in a part to upload, in a part to copy or in an uploaded part that is kept.
pub extract_upload_parts_from_all_area_lem :
    (untreated_list : List UntreatedPart) (upload_list : List Filepart) (m file_size : ℕ)
    (use_copy : Bool) (b : ℕ)
    → 1 ≤ m
    → IsInOrder upload_list
    → All (IsAligned m file_size) upload_list
    → b < file_size
    → IsInPlan b
        (extract_upload_parts_from_all_area untreated_list upload_list m file_size use_copy)
unfolding extract_upload_parts_from_all_area
extract_upload_parts_from_all_area_lem untreated_list upload_list m file_size use_copy b hm o g h =
    go (area_loop file_size use_copy m file_size 0 _) (
      area_loop-Covers use_copy m file_size hm file_size 0 _ (o, g) (λ _. zero_aligned m hm)
        (omega arith) (λ b u v. absurd (omega arith)))
  where
    zero_aligned : (m : ℕ) → 1 ≤ m → 0 % m ≡ 0
    zero_aligned m h = grind arith

    go : (r : Option Plan) → Covers use_copy m file_size hm r → IsInPlan b r
    go none c = c
    go (some d) c = let q = c b h in let e = in_files-append b d.passed d.rest in ground arith

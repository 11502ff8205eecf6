-- ===== src/FdInfo/Upload/Failed.antt =====
-- What an upload that fails leaves behind.
use s3fs_fuse.FdInfo.State.{is_unset}
use s3fs_fuse.FdInfo.Untreated.{Extracted, extract_upload_parts_from_untreated_area}
use s3fs_fuse.FdInfo.{MpPart, PseudoFdInfo}
use s3fs_fuse.FdInfo.Upload.{
  upload_boundary_last_untreated_area, Requests, upload_parts, upload_area, Outcome, start_upload,
  is_zero_result, parallel_multipart_upload, io_error, bad_fd, align_up,
}
use s3fs_fuse.UntreatedParts.{UntreatedParts, get_last_update_part}
use s3fs_fuse.Base.{
  ℕ, ◌+◌, ◌-◌, ◌*◌, ◌/◌, ◌≡◌, refl, false, not, ◌||◌, Option, none, some, List, [], ◌∷◌, leb, ◌==◌,
  if◌then◌else◌, pos, if-elim,
}

-- A result that is not 0 leaves the written areas as they were.
abbrev pub IsKept : UntreatedParts → Outcome → Type 0
IsKept u r = is_zero_result r.0 ≡ false → r.2 ≡ u

module _ (q : Requests) (m s z : ℕ) where
  IsKept-upload_parts :
      (a n : ℕ) (l : List MpPart) (i : PseudoFdInfo) (u : UntreatedParts)
      → IsKept u (upload_parts q s z a n l i u)
  unfolding upload_parts
  IsKept-upload_parts a n [] i u = λ _. refl
  IsKept-upload_parts a n (p ∷ l) i u =
      let b = start_upload q i in
      let r = parallel_multipart_upload q (p ∷ l) false b.1 in
      if-elim (IsKept u) (not (is_zero_result b.0)) _ _ (λ _ _. refl)
        (λ _. if-elim (IsKept u) r.0 _ _ (λ _ h. cc) (λ _ _. refl))

  IsKept-upload_area : (i : PseudoFdInfo) (u : UntreatedParts) → IsKept u (upload_area q m s z i u)
  unfolding upload_area
  IsKept-upload_area i u =
      let a = align_up m s in
      let n = (s + z - a) / m * m in
      if-elim (IsKept u) (leb (s + z) a || n == 0) _ _ (λ _ h. cc)
        (λ _. go a n (extract_upload_parts_from_untreated_area (pos a) (pos n) m i.upload_list))
    where
      go :
          (a n : ℕ) (r : Option Extracted)
          → IsKept u (elim r as (λ _. Outcome) [
            | none ↦ (io_error, i, u)
            | some e ↦
                upload_parts q s z a n e.to_upload_list (record i { upload_list = e.upload_list }) u
          ])
      go a n none = λ _. refl
      go a n (some e) =
          IsKept-upload_parts a n e.to_upload_list (record i { upload_list = e.upload_list }) u

-- When UploadBoundaryLastUntreatedArea returns an error, the written areas are as they were, so that
-- they can be uploaded later.
pub upload_boundary_last_untreated_area-kept :
    (q : Requests) (m : ℕ) (i : PseudoFdInfo) (u : UntreatedParts)
    → is_zero_result (upload_boundary_last_untreated_area q m i u).0 ≡ false
    → (upload_boundary_last_untreated_area q m i u).2 ≡ u
unfolding upload_boundary_last_untreated_area
upload_boundary_last_untreated_area-kept q m i u =
    if-elim (IsKept u) (is_unset i.physical_fd || is_unset i.pseudo_fd) (bad_fd, i, u) _
      (λ _ _. refl) (λ _. go (get_last_update_part u))
  where
    go :
        (r : Option (ℕ × ℕ))
        → IsKept u (elim r as (λ _. Outcome) [
          | none ↦ (pos 0, i, u)
          | some p ↦ if p.1 == 0 then (pos 0, i, u) else upload_area q m p.0 p.1 i u
        ])
    go none = λ _. refl
    go (some p) =
        if-elim (IsKept u) (p.1 == 0) (pos 0, i, u) _ (λ _ _. refl)
          (λ _. IsKept-upload_area q m p.0 p.1 i u)

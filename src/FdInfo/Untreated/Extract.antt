-- ===== src/FdInfo/Untreated/Extract.antt =====
-- What `ExtractUploadPartsFromUntreatedArea` puts in its lists.
use s3fs_fuse.FdInfo.Untreated.Parts.{
  IsWholePart, in_parts, in_parts-cut_parts, IsWholePart-cut_parts,
}
use s3fs_fuse.FdInfo.Untreated.Disjoint.{
  IsInOrder, IsApart, aligned_size-cancel_loop, IsApart-cancel_loop, has_common, keep_if,
  IsDivided-cancel_loop,
}
use s3fs_fuse.FdInfo.{Filepart}
use s3fs_fuse.FdInfo.Untreated.{
  cancel_loop, Extracted, extract_upload_parts_from_untreated_area, cut_parts, extract_area,
}
use s3fs_fuse.Base.{
  ℕ, ◌+◌, ◌-◌, ◌*◌, ◌/◌, ◌%◌, ◌≤◌, ◌<◌, ◌≡◌, refl, sym, ◌∙◌, subst, ◌⊎◌, inl, inr, true, false, not,
  ◌&&◌, none, some, List, [], arith, ltb, leb, if◌then◌else◌, All, pos, if-elim, if-false, All-imp,
}

-- The byte is not in the part.
abbrev pub IsOutside : ℕ → Filepart → Type 0
IsOutside b f = (b < f.startpos) ⊎ (f.startpos + f.size ≤ b)

-- The parts to upload are whole; they have the bytes from `s` on up to `e`, but for fewer than `m` at
-- the end; no byte of them is in an uploaded part that is kept. If the area makes a part, from the
-- multiple of `m` before it on, the uploaded parts with a byte in it are canceled and all others are
-- kept; else all are kept.
abbrev pub IsExtracted : ℕ → ℕ → ℕ → List Filepart → Extracted → Type 0
IsExtracted s e m l r =
    All (IsWholePart m) r.to_upload_list
    × ((b : ℕ) → s ≤ b → b + m ≤ e → in_parts b r.to_upload_list ≡ true)
    × ((b : ℕ) → in_parts b r.to_upload_list ≡ true → All (IsOutside b) r.upload_list)
    × (r.cancel_upload_list
        ≡ (if ltb e (s / m * m + m) then [] else keep_if (has_common (s / m * m) e) l))
    × (r.upload_list
        ≡ (if ltb e (s / m * m + m) then l else keep_if (λ f. not (has_common (s / m * m) e f)) l))

module _ (s z m : ℕ) (l : List Filepart) (hz : 1 ≤ z) (hm : 1 ≤ m) (o : IsInOrder l) where
  extract_area-large :
      m ≤ z + (s - s / m * m)
      → let a = s / m * m in
        let c = cancel_loop a (z + (s - a)) l in
        IsExtracted s (s + z) m l (record {
          to_upload_list = cut_parts c.aligned_size m a c.aligned_size;
          cancel_upload_list = c.cancel_upload_list;
          upload_list = c.upload_list;
        })
  extract_area-large h =
      let a = s / m * m in
      let a_le : a ≤ s = grind arith in
      let a_whole : a % m ≡ 0 = grind arith in
      let c = cancel_loop a (z + (s - a)) l in
      let n = c.aligned_size in
      let rest : n < n / m * m + m = grind arith in
      let no_more : n / m * m ≤ n = grind arith in
      let grown = aligned_size-cancel_loop a (z + (s - a)) l in
      let d = IsDivided-cancel_loop a (z + (s - a)) l (omega arith) o in
      let end : a + (z + (s - a)) ≡ s + z = omega arith in
      let short : ltb (s + z) (a + m) ≡ false = ground arith in
      let bytes = λ (b : ℕ). in_parts-cut_parts n m a n b hm (omega arith) in
      (
        IsWholePart-cut_parts n m a n a_whole hm,
        (λ b p q. let e = bytes b in ground arith),
        (λ b p.
            All-imp (IsApart a n) (IsOutside b)
              (λ f. outside b f a n (n / m * m) no_more (sym (bytes b) ∙ p)) c.upload_list
              (IsApart-cancel_loop a (z + (s - a)) l (omega arith) o)),
        rw short (subst (λ e. c.cancel_upload_list ≡ keep_if (has_common a e) l) end d.0),
        rw short (subst (λ e. c.upload_list ≡ keep_if (λ f. not (has_common a e f)) l) end d.1),
      )
    where
      outside :
          (b : ℕ) (f : Filepart) (a n k : ℕ)
          → k ≤ n
          → (leb a b && ltb b (a + k)) ≡ true
          → IsApart a n f
          → IsOutside b f
      outside b f a n k h p (inl q) = inr (ground arith)
      outside b f a n k h p (inr q) = inl (ground arith)

  -- For an area that is not empty, a positive part size and uploaded parts that are in order,
  -- ExtractUploadPartsFromUntreatedArea succeeds. The parts to upload have the full size, start at a
  -- multiple of it and are numbered by it. They have every byte of the area, except for fewer bytes
  -- at its end than make a part. No byte of them is in an uploaded part that is kept. When the area,
  -- from the multiple of the part size before it on, is as large as a part, the uploaded parts with a
  -- byte in it are canceled and all others are kept, in their order; else all are kept.
  pub extract_upload_parts_from_untreated_area_lem :
      (extract_upload_parts_from_untreated_area (pos s) (pos z) m l ≡ some (extract_area s z m l))
      × IsExtracted s (s + z) m l (extract_area s z m l)
  unfolding extract_upload_parts_from_untreated_area extract_area
  extract_upload_parts_from_untreated_area_lem = (
    if-false (leb z 0) none (some (extract_area s z m l)) (ground arith),
    if-elim (IsExtracted s (s + z) m l) (ltb (z + (s - s / m * m)) m) _ _
        (λ e.
          let p : z + (s - s / m * m) < m = (ground arith) in
          let a_le : s / m * m ≤ s = grind arith in
          let short : ltb (s + z) (s / m * m + m) ≡ true = ground arith in
          (tt, (λ b u v. absurd (omega arith)), (λ b u. cc), rw short refl, rw short refl))
        (λ e. extract_area-large (ground arith)),
  )

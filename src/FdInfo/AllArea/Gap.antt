-- ===== src/FdInfo/AllArea/Gap.antt =====
-- The loop over the untreated areas of the current one: the gaps before them are downloaded, or the
-- first of them goes with the last part to copy.
use s3fs_fuse.UntreatedParts.{UntreatedPart}
use s3fs_fuse.FdInfo.Untreated.Parts.{in_parts}
use s3fs_fuse.FdInfo.AllArea.{gap_loop, last_part, Gaps, joins_copy, gap_step, grow_last}
use s3fs_fuse.FdInfo.{MpPart}
use s3fs_fuse.Base.{
  ℕ, ◌+◌, ◌-◌, ◌≤◌, ◌<◌, ◌≡◌, refl, inl, inr, Bool, true, false, ◌&&◌, ◌||◌, Option, none, some,
  List, [], ◌∷◌, ◌++◌, arith, ltb, leb, Bool-cases, if-elim,
}

pub in_parts-append :
    (b : ℕ) (l l' : List MpPart) → in_parts b (l ++ l') ≡ in_parts b l || in_parts b l'
in_parts-append b [] l' = refl
in_parts-append b (p ∷ l) l' = let ih = in_parts-append b l l' in ground arith

in_parts-grow_last :
    (b n : ℕ) (l : List MpPart) → in_parts b l ≡ true → in_parts b (grow_last n l) ≡ true
in_parts-grow_last b n [] h = h
in_parts-grow_last b n (p ∷ []) h = ground arith
in_parts-grow_last b n (p ∷ q ∷ l) h =
    elim (Bool-cases (leb p.start b && ltb b (p.start + p.size))) [
      | inl e ↦ ground arith
      | inr e ↦ let ih = in_parts-grow_last b n (q ∷ l) (ground arith) in ground arith
    ]

in_parts-grown :
    (b n : ℕ) (l : List MpPart) (p : MpPart)
    → last_part l ≡ some p
    → p.start ≤ b
    → b < p.start + p.size + n
    → in_parts b (grow_last n l) ≡ true
in_parts-grown b n [] p h u v = cc
in_parts-grown b n (q ∷ []) p h u v = let e : q ≡ p = cc in rw e (ground arith)
in_parts-grown b n (q ∷ r ∷ l) p h u v = let ih = in_parts-grown b n (r ∷ l) p h u v in ground arith

module _ (s z : ℕ) (copied : List MpPart) where
  -- The part to upload ends with the area, and the bytes of the area before it are copied, like those
  -- that were copied already.
  abbrev pub IsFilled : Gaps → Type 0
  IsFilled g =
      (g.changed_start + g.changed_size ≡ s + z)
      × ((b : ℕ) → in_parts b copied ≡ true → in_parts b g.to_copy_list ≡ true)
      × ((b : ℕ) → s ≤ b → b < g.changed_start → in_parts b g.to_copy_list ≡ true)
      × (g.first_area ≡ true → (g.tmp_cur_start ≡ s) × (g.tmp_cur_size ≡ z) × (g.changed_start ≡ s))

  -- The gap goes with the last part to copy.
  IsFilled-joined :
      (start : ℕ) (g : Gaps) (r : Option MpPart)
      → last_part g.to_copy_list ≡ r
      → IsFilled g
      → g.first_area ≡ true
      → g.tmp_cur_start < start
      → joins_copy start g r ≡ true
      → (start + (g.changed_size - (start - g.changed_start)) ≡ s + z)
        × ((b : ℕ)
            → in_parts b copied ≡ true
            → in_parts b (grow_last (start - g.tmp_cur_start) g.to_copy_list) ≡ true)
        × ((b : ℕ)
            → s ≤ b
            → b < start
            → in_parts b (grow_last (start - g.tmp_cur_start) g.to_copy_list) ≡ true)
  IsFilled-joined start g none e f h k j = cc
  IsFilled-joined start g (some p) e f h k j =
      let f0 = f.0 in
      let q = f.3 h in
      let q0 = q.0 in
      let q1 = q.1 in
      let q2 = q.2 in
      (
        ground arith,
        (λ b u. in_parts-grow_last b (start - g.tmp_cur_start) g.to_copy_list (f.1 b u)),
        λ b u v.
            in_parts-grown b (start - g.tmp_cur_start) g.to_copy_list p e (ground arith)
              (ground arith),
      )

  IsFilled-gap_step :
      (use_copy : Bool) (u : UntreatedPart) (g : Gaps)
      → IsFilled g
      → IsFilled (gap_step use_copy u g)
  IsFilled-gap_step use_copy u g f =
      if-elim
        (λ (h : Gaps). IsFilled (record h {
          tmp_cur_start = u.start + u.size;
          tmp_cur_size = h.tmp_cur_start + h.tmp_cur_size - (u.start + u.size);
          first_area = false;
        }))
        (ltb g.tmp_cur_start u.start) _ g
        (λ e.
          if-elim
            (λ (h : Gaps). IsFilled (record h {
              tmp_cur_start = u.start + u.size;
              tmp_cur_size = h.tmp_cur_start + h.tmp_cur_size - (u.start + u.size);
              first_area = false;
            }))
            (g.first_area && use_copy && joins_copy u.start g (last_part g.to_copy_list)) _ _
            (λ j.
              let q =
                IsFilled-joined u.start g (last_part g.to_copy_list) refl f (ground arith)
                  (ground arith) (ground arith) in
              (q.0, q.1, q.2, (λ n. cc)))
            (λ _. (f.0, f.1, f.2, (λ n. cc))))
        (λ _. (f.0, f.1, f.2, (λ n. cc)))

  pub IsFilled-gap_loop :
      (use_copy : Bool) (l : List UntreatedPart) (g : Gaps)
      → IsFilled g
      → IsFilled (gap_loop use_copy l g)
  unfolding gap_loop
  IsFilled-gap_loop use_copy [] g f = f
  IsFilled-gap_loop use_copy (u ∷ l) g f =
      IsFilled-gap_loop use_copy l (gap_step use_copy u g) (IsFilled-gap_step use_copy u g f)

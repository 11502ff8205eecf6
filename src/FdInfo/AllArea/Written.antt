-- ===== src/FdInfo/AllArea/Written.antt =====
-- The written areas that the loop over `dup_untreated_list` finds in the current area.
use s3fs_fuse.UntreatedParts.View.{IsOrdered, held, held-below, IsOrdered-le, make_part-pos}
use s3fs_fuse.FdInfo.AllArea.{
  untreated_loop, gap_loop, Gaps, cut_front, joins_copy, gap_step, overlaps_area, last_part, area,
}
use s3fs_fuse.UntreatedParts.{UntreatedPart}
use s3fs_fuse.Base.{
  ℕ, ◌+◌, ◌-◌, ◌≤◌, ◌<◌, max, ◌≡◌, refl, sym, ◌∙◌, subst, inl, inr, Bool, true, false, ◌&&◌, List,
  [], ◌∷◌, arith, ltb, leb, Bool-cases, if-elim, bool_clash,
}

module _ (s z : ℕ) (hz : 1 ≤ z) where
  -- The areas of a list in order, cut at the current one: those in it are in order and have the bytes
  -- of the list in it, and the rest is in order and has the bytes behind it.
  abbrev pub IsSplit : ℕ → List UntreatedPart → List UntreatedPart × List UntreatedPart → Type 0
  IsSplit o l r =
      IsOrdered (max o s) r.0
      × ((b : ℕ) → held b l ≡ true → s ≤ b → b < s + z → held b r.0 ≡ true)
      × ((b : ℕ) → held b l ≡ true → s + z ≤ b → held b r.1 ≡ true)
      × IsOrdered 0 r.1

  IsSplit-whole :
      (o : ℕ) (u : UntreatedPart) (l : List UntreatedPart)
      (r : List UntreatedPart × List UntreatedPart)
      → IsOrdered o (u ∷ l)
      → IsSplit (u.start + u.size + 1) l r
      → overlaps_area s z u.start u.size ≡ true
      → (cut_front s u).start + (cut_front s u).size ≤ s + z
      → IsSplit o (u ∷ l) (area (cut_front s u).start (cut_front s u).size ∷ r.0, r.1)
  IsSplit-whole o u l r h i e k =
      let t = cut_front s u in
      let t0 : t.start ≡ max u.start s = (ground arith) in
      let t1 : t.start + t.size ≡ u.start + u.size = (ground arith) in
      let h1 = h.1 in
      let pos_size : 0 < t.size = (ground arith) in
      let i0 = IsOrdered-le _ (t.start + t.size + 1) r.0 i.0 (ground arith) in
      rw (make_part-pos t.start t.size 0 pos_size) (
        (omega (arith, t0, h.0), pos_size, i0),
        (λ b p q v. elim (Bool-cases (held b l)) [
          | inl w ↦ let y = i.1 b w q v in ground arith
          | inr w ↦ ground arith
        ]),
        (λ b p q. i.2 b (ground arith) q),
        i.3,
      )

  IsSplit-cut :
      (o : ℕ) (u : UntreatedPart) (l : List UntreatedPart)
      → IsOrdered o (u ∷ l)
      → overlaps_area s z u.start u.size ≡ true
      → s + z < (cut_front s u).start + (cut_front s u).size
      → let t = cut_front s u in
        IsSplit o (u ∷ l) (
          area t.start (s + z - t.start) ∷ [],
          record u { start = t.start + (s + z - t.start); size = u.start + u.size - (s + z) } ∷ l,
        )
  IsSplit-cut o u l h e k =
      let t = cut_front s u in
      let t0 : t.start ≡ max u.start s = (ground arith) in
      let t1 : t.start + t.size ≡ u.start + u.size = (ground arith) in
      let t2 : t.start < s + z = (ground arith) in
      let t3 : t.start + (s + z - t.start) ≡ s + z = (omega arith) in
      rw (make_part-pos t.start (s + z - t.start) 0 (omega arith)) (
        (omega (arith, t0, h.0), omega arith, tt),
        (λ b p q v.
            let y = held-below b (u.start + u.size + 1) l h.2 (omega arith) in ground arith),
        (λ b p q. ground arith),
        (omega arith, omega arith, IsOrdered-le _ _ l h.2 (omega arith)),
      )

  pub IsSplit-untreated_loop :
      (o : ℕ) (l : List UntreatedPart) → IsOrdered o l → IsSplit o l (untreated_loop s z l)
  unfolding untreated_loop
  IsSplit-untreated_loop o [] h = (tt, (λ b p q v. cc), (λ b p q. cc), tt)
  IsSplit-untreated_loop o (u ∷ l) h =
      let ih = IsSplit-untreated_loop (u.start + u.size + 1) l h.2 in
      let t = cut_front s u in
      if-elim (IsSplit o (u ∷ l)) (overlaps_area s z u.start u.size) _ _
        (λ e.
          if-elim (IsSplit o (u ∷ l)) (leb (t.start + t.size) (s + z)) _ _
            (λ k. IsSplit-whole o u l (untreated_loop s z l) h ih e (ground arith))
            (λ k. IsSplit-cut o u l h e (ground arith)))
        (λ e.
          let h0 = h.0 in
          let h1 = h.1 in
          if-elim (IsSplit o (u ∷ l)) (ltb (s + z - 1) u.start) ([], u ∷ l) (untreated_loop s z l)
            (λ k. (
              tt,
              (λ b p q v.
                  let y = held-below b u.start (u ∷ l) (omega arith, h.1, h.2) (ground arith) in
                  absurd (bool_clash _ p y)),
              (λ b p q. p),
              (omega arith, h.1, h.2),
            ))
            (λ k. (
              IsOrdered-le _ (max o s) (untreated_loop s z l).0 ih.0 (omega arith),
              (λ b p q v. ih.1 b (ground arith) q v),
              (λ b p q. ih.2 b (ground arith) q),
              ih.3,
            )))

-- Only the gap before the first area changes the start of the part to upload.
changed_start-later :
    (use_copy : Bool) (l : List UntreatedPart) (g : Gaps)
    → g.first_area ≡ false
    → (gap_loop use_copy l g).changed_start ≡ g.changed_start
unfolding gap_loop
changed_start-later use_copy [] g h = refl
changed_start-later use_copy (u ∷ l) g h =
    let j = joins_copy u.start g (last_part g.to_copy_list) in
    changed_start-later use_copy l (gap_step use_copy u g) refl
    ∙ if-elim (λ (k : Gaps). k.changed_start ≡ g.changed_start) (ltb g.tmp_cur_start u.start) _ g
        (λ _.
          if-elim (λ (k : Gaps). k.changed_start ≡ g.changed_start) (g.first_area && use_copy && j)
            _ _ (λ e. absurd (ground arith)) (λ _. refl))
        (λ _. refl)

-- The part to upload starts no later than the first area.
pub changed_start-gap_loop :
    (use_copy : Bool) (u : UntreatedPart) (l : List UntreatedPart) (g : Gaps)
    → g.changed_start ≤ u.start
    → (gap_loop use_copy (u ∷ l) g).changed_start ≤ u.start
unfolding gap_loop
changed_start-gap_loop use_copy u l g h =
    subst (λ n. n ≤ u.start) (sym (changed_start-later use_copy l (gap_step use_copy u g) refl))
      (if-elim (λ (k : Gaps). k.changed_start ≤ u.start) (ltb g.tmp_cur_start u.start) _ g
        (λ _.
          if-elim (λ (k : Gaps). k.changed_start ≤ u.start)
            (g.first_area && use_copy && joins_copy u.start g (last_part g.to_copy_list)) _ _
            (λ _. omega arith) (λ _. h))
        (λ _. h))

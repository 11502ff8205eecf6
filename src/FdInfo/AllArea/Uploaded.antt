-- ===== src/FdInfo/AllArea/Uploaded.antt =====
-- The uploaded part that the loop over `upload_list` finds, when the parts are those of a file that is
-- cut at the multiples of the part size.
use s3fs_fuse.FdInfo.Untreated.Disjoint.{IsInOrder}
use s3fs_fuse.FdInfo.{Filepart}
use s3fs_fuse.FdInfo.AllArea.{part_size, uploaded_loop, Passed, overlaps_area}
use s3fs_fuse.Base.{
  ℕ, ◌+◌, ◌-◌, ◌%◌, ◌≤◌, ◌<◌, ◌≡◌, refl, sym, ap, ◌∙◌, subst, Bool, true, false, ◌&&◌, ◌||◌, Option,
  none, some, List, [], ◌∷◌, ◌++◌, arith, ltb, leb, All, if-elim, if-true, if-false, All-imp,
}

-- The byte is in one of the parts.
abbrev pub in_files : ℕ → List Filepart → Bool
in_files b [] = false
in_files b (f ∷ l) = (leb f.startpos b && ltb b (f.startpos + f.size)) || in_files b l

pub in_files-append :
    (b : ℕ) (l l' : List Filepart) → in_files b (l ++ l') ≡ in_files b l || in_files b l'
in_files-append b [] l' = refl
in_files-append b (f ∷ l) l' = let ih = in_files-append b l l' in ground arith

abbrev pub IsAligned : ℕ → ℕ → Filepart → Type 0
IsAligned m file_size f =
    (f.startpos % m ≡ 0) × (f.startpos < file_size) × (f.size ≡ part_size m file_size f.startpos)

multiples_equal : (x y m : ℕ) → 1 ≤ m → x % m ≡ 0 → y % m ≡ 0 → x < y + m → y < x + m → x ≡ y
multiples_equal x y m h p q r t = grind arith

-- A part that overlaps the current area is that area.
aligned-same :
    (m file_size s : ℕ) (f : Filepart)
    → 1 ≤ m
    → s % m ≡ 0
    → s < file_size
    → IsAligned m file_size f
    → overlaps_area s (part_size m file_size s) f.startpos f.size ≡ true
    → (f.startpos ≡ s) × (f.size ≡ part_size m file_size s)
aligned-same m file_size s f h a k g o =
    let u : part_size m file_size s ≤ m = (ground arith) in
    let v : part_size m file_size f.startpos ≤ m = (let k2 = g.1 in ground arith) in
    let g2 = g.2 in
    let e : f.startpos ≡ s = multiples_equal f.startpos s m h g.0 a (ground arith) (ground arith) in
    (e, g2 ∙ ap (part_size m file_size) e)

module _ (m file_size s : ℕ) (hm : 1 ≤ m) (a : s % m ≡ 0) (k : s < file_size) where
  abbrev size_here : ℕ
  size_here = part_size m file_size s

  size_pos : 1 ≤ size_here
  size_pos = ground arith

  abbrev pub IsHere : Option Filepart → Type 0
  IsHere none = Unit
  IsHere (some f) = (f.startpos ≡ s) × (f.size ≡ size_here)

  -- What the loop finds.
  abbrev pub Found : Option Passed → Type 0
  Found none = ⊥
  Found (some p) =
      IsHere p.overlap × (p.after ≡ []) × IsInOrder p.rest × All (IsAligned m file_size) p.rest

  -- Behind the part that overlaps the loop ends.
  uploaded_loop-behind :
      (l : List Filepart) (p : Passed)
      → All (λ g. s + size_here ≤ g.startpos) l
      → uploaded_loop s size_here l p ≡ some (record p { rest = l })
  unfolding uploaded_loop
  uploaded_loop-behind [] p h = refl
  uploaded_loop-behind (f ∷ l) p h =
      let h0 = h.0 in
      let z = size_pos in
      if-false (overlaps_area s size_here f.startpos f.size) _ _ (ground arith)
      ∙ if-true (ltb (s + size_here - 1) f.startpos) _ _ (ground arith)

  pub uploaded_loop-Found :
      (l before rest : List Filepart)
      → IsInOrder l
      → All (IsAligned m file_size) l
      → Found (
          uploaded_loop s size_here l
            (record { before = before; overlap = none; after = []; rest = rest }))
  unfolding uploaded_loop
  uploaded_loop-Found [] before rest o g = (tt, refl, tt, tt)
  uploaded_loop-Found (f ∷ l) before rest o g =
      let ih = uploaded_loop-Found l (before ++ f ∷ []) rest o.2 g.1 in
      if-elim Found (overlaps_area s size_here f.startpos f.size) _ _
        (λ e.
          let here = aligned-same m file_size s f hm a k g.0 e in
          let q : f.startpos + f.size ≡ s + size_here = (rw (here.0, here.1) refl) in
          subst Found
            (sym (
              uploaded_loop-behind l _ (
                All-imp (λ g. f.startpos + f.size ≤ g.startpos) (λ g. s + size_here ≤ g.startpos)
                  (λ g r. rw (← q) r) l o.1)))
            (here, refl, o.2, g.1))
        (λ _.
          if-elim Found (ltb (s + size_here - 1) f.startpos) _ _ (λ _. (tt, refl, o, g)) (λ _. ih))

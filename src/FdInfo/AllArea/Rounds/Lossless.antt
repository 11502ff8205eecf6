-- ===== src/FdInfo/AllArea/Rounds/Lossless.antt =====
-- `ExtractUploadPartsFromAllArea` uploads everything that was written.
use s3fs_fuse.FdInfo.AllArea.Written.{IsSplit-untreated_loop, changed_start-gap_loop}
use s3fs_fuse.FdInfo.AllArea.Gap.{in_parts-append, IsFilled-gap_loop}
use s3fs_fuse.FdInfo.AllArea.{
  Plan, part_size, Passed, Gaps, gap_loop, untreated_loop, uploaded_loop,
}
use s3fs_fuse.FdInfo.AllArea.Rounds.{area_loop, area_step, plan_area, part_of}
use s3fs_fuse.UntreatedParts.View.{IsOrdered, held, held-below, IsOrdered-le}
use s3fs_fuse.FdInfo.Untreated.Parts.{in_parts}
use s3fs_fuse.FdInfo.{MpPart, Filepart}
use s3fs_fuse.UntreatedParts.{UntreatedPart}
use s3fs_fuse.Base.{
  ℕ, zero, suc, ◌+◌, ◌/◌, ◌≤◌, ◌<◌, max, ◌≡◌, refl, sym, subst, ◌⊎◌, inl, inr, Bool, true, Option,
  none, some, List, [], ◌∷◌, ◌++◌, arith, ltb, Bool-cases, if-elim, bool_clash,
}

module _ (use_copy : Bool) (m file_size s z n : ℕ) (hz : 1 ≤ z) where
  -- After the round: what was to be uploaded still is, the areas behind are left, and where the
  -- current area has written bytes they are uploaded.
  abbrev pub Uploads : List UntreatedPart → List UntreatedPart → Plan → Plan → Type 0
  Uploads cur left d d' =
      (d'.untreated ≡ left)
      × ((b : ℕ) → in_parts b d.to_upload_list ≡ true → in_parts b d'.to_upload_list ≡ true)
      × ((b : ℕ) → held b cur ≡ true → b < s + z → in_parts b d'.to_upload_list ≡ true)

  -- With the whole area.
  with_area :
      (b : ℕ) (l : List MpPart) (c k : ℕ)
      → in_parts b l ≡ true ⊎ ((c ≤ b) × (b < c + k))
      → in_parts b (l ++ part_of c k n ∷ []) ≡ true
  with_area b l c k (inl h) = let q = in_parts-append b l (part_of c k n ∷ []) in ground arith
  with_area b l c k (inr h) =
      let h0 = h.0 in
      let h1 = h.1 in let q = in_parts-append b l (part_of c k n ∷ []) in ground arith

  from_first :
      (b : ℕ) (u : UntreatedPart) (l : List UntreatedPart)
      → IsOrdered s (u ∷ l)
      → held b (u ∷ l) ≡ true
      → u.start ≤ b
  from_first b u l o h = elim (Bool-cases (ltb b u.start)) [
    | inl e ↦
        absurd
          (bool_clash _ h (held-below b u.start (u ∷ l) (omega arith, o.1, o.2) (ground arith)))
    | inr e ↦ ground arith
  ]

  plan_area-Uploads :
      (cur left : List UntreatedPart) (bf af rs : List Filepart) (ov : Option Filepart) (d : Plan)
      → IsOrdered s cur
      → Uploads cur left d (
          plan_area use_copy s z n cur left
            (record { before = bf; overlap = ov; after = af; rest = rs })
            d)
  plan_area-Uploads [] left bf af rs (some f) d o = (refl, (λ b h. h), (λ b h k. cc))
  plan_area-Uploads [] left bf af rs none d o =
      if-elim (Uploads [] left d) use_copy _ _ (λ _. (refl, (λ b h. h), (λ b h k. cc)))
        (λ _. (refl, (λ b h. with_area b d.to_upload_list s z (inl h)), (λ b h k. cc)))
  plan_area-Uploads (u ∷ l) left bf af rs (some f) d o = (
    refl,
    (λ b h. with_area b d.to_upload_list s z (inl h)),
    λ b h k.
        let q = from_first b u l o h in
        let o0 = o.0 in with_area b d.to_upload_list s z (inr (omega arith, k)),
  )
  plan_area-Uploads (u ∷ l) left bf af rs none d o =
      let start : Gaps = record {
        tmp_cur_start = s;
        tmp_cur_size = z;
        changed_start = s;
        changed_size = z;
        first_area = true;
        to_copy_list = d.to_copy_list;
        to_download_list = d.to_download_list;
      } in
      let g = gap_loop use_copy (u ∷ l) start in
      let f =
        IsFilled-gap_loop s z d.to_copy_list use_copy (u ∷ l) start
          (refl, (λ b u. u), (λ b u v. absurd (omega arith)), λ _. (refl, refl, refl)) in
      let f0 = f.0 in
      let c = changed_start-gap_loop use_copy u l start o.0 in
      (
        refl,
        (λ b h. with_area b d.to_upload_list g.changed_start g.changed_size (inl h)),
        λ b h k.
            let q = from_first b u l o h in
            with_area b d.to_upload_list g.changed_start g.changed_size
              (inr (omega arith, omega arith)),
      )

module _ (use_copy : Bool) (m file_size : ℕ) (hm : 1 ≤ m) (written : List UntreatedPart) where
  -- Before the round at `s`: the bytes before it that were written are to be uploaded, and the other
  -- ones are left in the list.
  abbrev pub Keeps : ℕ → Plan → Type 0
  Keeps s d =
      IsOrdered 0 d.untreated
      × ((b : ℕ)
          → held b written ≡ true
          → b < s
          → b < file_size
          → in_parts b d.to_upload_list ≡ true)
      × ((b : ℕ) → held b written ≡ true → s ≤ b → b < file_size → held b d.untreated ≡ true)

  abbrev pub KeepsIf : ℕ → Option Plan → Type 0
  KeepsIf s none = Unit
  KeepsIf s (some d) = Keeps s d

  area_step-Keeps :
      (s : ℕ) (d : Plan)
      → s < file_size
      → Keeps s d
      → KeepsIf (s + part_size m file_size s) (area_step use_copy m file_size s d)
  unfolding area_step
  area_step-Keeps s d k h =
      let z = part_size m file_size s in
      let hz : 1 ≤ z = (ground arith) in
      let sp = IsSplit-untreated_loop s z hz 0 d.untreated h.0 in
      go hz (untreated_loop s z d.untreated).0 (untreated_loop s z d.untreated).1
        (IsOrdered-le (max 0 s) s _ sp.0 (omega arith)) sp.3 (λ b p q v. sp.1 b (h.2 b p q v) q)
        (λ b p q v. sp.2 b (h.2 b p (omega arith) v) q) (uploaded_loop s z d.rest _)
    where
      go :
          1 ≤ part_size m file_size s
          → (cur left : List UntreatedPart) → IsOrdered s cur
          → IsOrdered 0 left
          → ((b : ℕ)
              → held b written ≡ true
              → s ≤ b
              → b < file_size
              → b < s + part_size m file_size s
              → held b cur ≡ true)
          → ((b : ℕ)
              → held b written ≡ true
              → s + part_size m file_size s ≤ b
              → b < file_size
              → held b left ≡ true)
          → (r : Option Passed)
          → KeepsIf (s + part_size m file_size s) (elim r as (λ _. Option Plan) [
            | none ↦ none
            | some p ↦
                some (plan_area use_copy s (part_size m file_size s) (s / m + 1) cur left p d)
          ])
      go hz cur left o ol c e none = tt
      go hz cur left o ol c e (some p) =
          let z = part_size m file_size s in
          let q =
            plan_area-Uploads use_copy m file_size s z (s / m + 1) hz cur left p.before p.after
              p.rest p.overlap d o in
          (
            subst (IsOrdered 0) (sym q.0) ol,
            (λ b w u v. elim (Bool-cases (ltb b s)) [
              | inl y ↦ q.1 b (h.1 b w (ground arith) v)
              | inr y ↦ q.2 b (c b w (ground arith) v u) u
            ]),
            λ b w u v. subst (λ l. held b l ≡ true) (sym q.0) (e b w u v),
          )

  abbrev pub UploadsAll : Option Plan → Type 0
  UploadsAll none = Unit
  UploadsAll (some d) =
      (b : ℕ) → held b written ≡ true → b < file_size → in_parts b d.to_upload_list ≡ true

  pub area_loop-UploadsAll :
      (fuel s : ℕ) (d : Plan)
      → file_size ≤ s + fuel
      → Keeps s d
      → UploadsAll (area_loop fuel use_copy m file_size s d)
  unfolding area_loop
  area_loop-UploadsAll zero s d h c = λ b w u. c.1 b w (omega arith) u
  area_loop-UploadsAll (suc fuel) s d h c =
      if-elim UploadsAll (ltb s file_size) _ (some d)
        (λ e.
          let k : s < file_size = (ground arith) in
          let hz : 1 ≤ part_size m file_size s = (ground arith) in
          go (area_step use_copy m file_size s d) (area_step-Keeps s d k c)
            (λ d' g. area_loop-UploadsAll fuel (s + part_size m file_size s) d' (omega arith) g))
        (λ e b w u. c.1 b w (ground arith) u)
    where
      go :
          (r : Option Plan)
          → KeepsIf (s + part_size m file_size s) r
          → ((d' : Plan)
              → Keeps (s + part_size m file_size s) d'
              → UploadsAll (area_loop fuel use_copy m file_size (s + part_size m file_size s) d'))
          → UploadsAll (elim r as (λ _. Option Plan) [
            | none ↦ none
            | some d' ↦ area_loop fuel use_copy m file_size (s + part_size m file_size s) d'
          ])
      go none g f = tt
      go (some d') g f = f d' g

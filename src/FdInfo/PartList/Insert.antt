-- ===== src/FdInfo/PartList/Insert.antt =====
-- `InsertUploadPart` keeps the parts sorted by part number.
use s3fs_fuse.FdInfo.State.{is_uploading}
use s3fs_fuse.FdInfo.{Etagpair, Filepart, PseudoFdInfo}
use s3fs_fuse.FdInfo.PartList.{
  less, insert_upload_part, insert_part, sort_parts, part_number, new_part, new_etag,
}
use s3fs_fuse.Base.{
  ℕ, ◌+◌, ◌≤◌, ◌≡◌, refl, ◌∙◌, Bool, true, false, not, ◌||◌, List, [], ◌∷◌, ◌++◌, arith, leb,
  if◌then◌else◌, All, ℤ, pos, negsuc, if-elim, All-imp,
}

-- No part has a smaller number than one before it.
abbrev pub IsSorted : List Etagpair → List Filepart → Type 0
IsSorted pool [] = Unit
IsSorted pool (f ∷ l) =
    All (λ g. less (part_number pool g) (part_number pool f) ≡ false) l × IsSorted pool l

-- How many parts pass a test.
abbrev pub count_if : (Filepart → Bool) → List Filepart → ℕ
count_if p [] = 0
count_if p (f ∷ l) = (if p f then 1 else 0) + count_if p l

less-back : (a b c : ℤ) → less a b ≡ true → less c b ≡ false → less c a ≡ false
less-back (pos a) (pos b) (pos c) h k = ground arith
less-back (pos a) (pos b) (negsuc c) h k = cc
less-back (pos a) (negsuc b) c h k = cc
less-back (negsuc a) (pos b) (pos c) h k = refl
less-back (negsuc a) (pos b) (negsuc c) h k = cc
less-back (negsuc a) (negsuc b) (pos c) h k = refl
less-back (negsuc a) (negsuc b) (negsuc c) h k = ground arith

less-not_back : (a b : ℤ) → less a b ≡ true → less b a ≡ false
less-not_back (pos a) (pos b) h = ground arith
less-not_back (pos a) (negsuc b) h = cc
less-not_back (negsuc a) (pos b) h = refl
less-not_back (negsuc a) (negsuc b) h = ground arith

module _ (pool : List Etagpair) where
  All-insert_part :
      (P : Filepart → Type 0) (f : Filepart) (l : List Filepart)
      → P f
      → All P l
      → All P (insert_part pool f l)
  unfolding insert_part
  All-insert_part P f [] h a = (h, tt)
  All-insert_part P f (g ∷ l) h a =
      let ih = All-insert_part P f l h a.1 in
      if-elim (All P) (less (part_number pool f) (part_number pool g)) _ _ (λ _. (h, a))
        (λ _. (a.0, ih))

  IsSorted-insert_part :
      (f : Filepart) (l : List Filepart) → IsSorted pool l → IsSorted pool (insert_part pool f l)
  unfolding insert_part
  IsSorted-insert_part f [] s = (tt, tt)
  IsSorted-insert_part f (g ∷ l) s =
      let ih = IsSorted-insert_part f l s.1 in
      let a = part_number pool f in
      let b = part_number pool g in
      if-elim (IsSorted pool) (less a b) (f ∷ g ∷ l) _
        (λ e. (
          (
            less-not_back a b e,
            All-imp (λ h. less (part_number pool h) b ≡ false)
                (λ h. less (part_number pool h) a ≡ false)
                (λ h q. less-back a b (part_number pool h) e q) l s.0,
          ),
          s,
        ))
        (λ e. (All-insert_part (λ h. less (part_number pool h) b ≡ false) f l e s.0, ih))

  IsSorted-sort_parts : (l : List Filepart) → IsSorted pool (sort_parts pool l)
  unfolding sort_parts
  IsSorted-sort_parts [] = tt
  IsSorted-sort_parts (f ∷ l) = IsSorted-insert_part f (sort_parts pool l) (IsSorted-sort_parts l)

  module _ (p : Filepart → Bool) where
    count_if-insert_part :
        (f : Filepart) (l : List Filepart) → count_if p (insert_part pool f l) ≡ count_if p (f ∷ l)
    unfolding insert_part
    count_if-insert_part f [] = refl
    count_if-insert_part f (g ∷ l) =
        let ih = count_if-insert_part f l in
        if-elim (λ w. count_if p w ≡ count_if p (f ∷ g ∷ l))
          (less (part_number pool f) (part_number pool g)) (f ∷ g ∷ l) (g ∷ insert_part pool f l)
          (λ _. refl) (λ _. omega arith)

    count_if-sort_parts : (l : List Filepart) → count_if p (sort_parts pool l) ≡ count_if p l
    unfolding sort_parts
    count_if-sort_parts [] = refl
    count_if-sort_parts (f ∷ l) =
        let ih = count_if-sort_parts l in count_if-insert_part f (sort_parts pool l) ∙ omega arith

count_if-append :
    (p : Filepart → Bool) (l l' : List Filepart)
    → count_if p (l ++ l') ≡ count_if p l + count_if p l'
count_if-append p [] l' = omega arith
count_if-append p (f ∷ l) l' = let ih = count_if-append p l l' in omega arith

-- With an upload started and a size above 0, InsertUploadPart succeeds and the parts are sorted by
-- part number afterwards; they are the parts from before and the new one, since for each test as many
-- parts pass it as before, and one more if the new part passes it.
pub insert_upload_part_lem :
    (start size n : ℕ) (is_copy : Bool) (i : PseudoFdInfo)
    → is_uploading i ≡ true
    → 1 ≤ size
    → let r = insert_upload_part (pos start) (pos size) (pos n) is_copy i in
      (r.0 ≡ true)
      × IsSorted r.1.etag_entities r.1.upload_list
      × ((p : Filepart → Bool)
          → count_if p r.1.upload_list
            ≡ count_if p i.upload_list + (if p (new_part i start size is_copy) then 1 else 0))
unfolding insert_upload_part
insert_upload_part_lem start size n is_copy i u h =
    let pool = i.etag_entities ++ new_etag (pos n) ∷ [] in
    let f = new_part i start size is_copy in
    if-elim
      (λ (r : Bool × PseudoFdInfo).
        (r.0 ≡ true)
        × IsSorted r.1.etag_entities r.1.upload_list
        × ((p : Filepart → Bool)
            → count_if p r.1.upload_list ≡ count_if p i.upload_list + (if p f then 1 else 0)))
      (not (is_uploading i) || leb size 0) (false, i) _ (λ e. absurd (ground arith))
      (λ _. (
        refl,
        IsSorted-sort_parts pool (i.upload_list ++ f ∷ []),
        λ p.
            count_if-sort_parts pool p (i.upload_list ++ f ∷ [])
            ∙ count_if-append p i.upload_list (f ∷ [])
            ∙ omega arith,
      ))

-- The other members are left alone.
pub instruct_count-insert_upload_part :
    (start size n : ℕ) (is_copy : Bool) (i : PseudoFdInfo)
    → (insert_upload_part (pos start) (pos size) (pos n) is_copy i).1.instruct_count
      ≡ i.instruct_count
unfolding insert_upload_part
instruct_count-insert_upload_part start size n is_copy i =
    if-elim (λ (r : Bool × PseudoFdInfo). r.1.instruct_count ≡ i.instruct_count)
      (not (is_uploading i) || leb size 0) (false, i) _ (λ _. refl) (λ _. refl)

-- When InsertUploadPart succeeds, the new part is added, whatever the state was.
pub count_if-insert_upload_part :
    (p : Filepart → Bool) (start size n : ℕ) (is_copy : Bool) (i : PseudoFdInfo)
    → let r = insert_upload_part (pos start) (pos size) (pos n) is_copy i in
      r.0 ≡ true
      → count_if p r.1.upload_list
        ≡ count_if p i.upload_list + (if p (new_part i start size is_copy) then 1 else 0)
unfolding insert_upload_part
count_if-insert_upload_part p start size n is_copy i =
    let pool = i.etag_entities ++ new_etag (pos n) ∷ [] in
    let f = new_part i start size is_copy in
    if-elim
      (λ (r : Bool × PseudoFdInfo).
        r.0 ≡ true → count_if p r.1.upload_list ≡ count_if p i.upload_list + (if p f then 1 else 0))
      (not (is_uploading i) || leb size 0) (false, i) _ (λ _ h. cc)
      (λ _ _.
        count_if-sort_parts pool p (i.upload_list ++ f ∷ [])
        ∙ count_if-append p i.upload_list (f ∷ [])
        ∙ omega arith)

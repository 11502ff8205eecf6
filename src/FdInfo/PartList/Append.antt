-- ===== src/FdInfo/PartList/Append.antt =====
-- Parts that are appended follow each other and are numbered from 1.
use s3fs_fuse.FdInfo.State.{is_uploading}
use s3fs_fuse.FdInfo.PartList.{
  etags_of, append_upload_part, entity, etag_at, new_etag, next_start_pos, get_etaglist, new_part,
}
use s3fs_fuse.FdInfo.{Filepart, PseudoFdInfo, Etagpair}
use s3fs_fuse.Base.{
  ℕ, zero, suc, ◌+◌, ◌≤◌, ◌≡◌, refl, ap, ◌∙◌, subst, Bool, true, false, not, ◌&&◌, ◌||◌, Option,
  none, some, List, [], ◌∷◌, ◌++◌, arith, ◌==◌, length, length-append, ℤ, pos, negsuc, if-elim,
  bool_clash,
}

abbrev pub HasNumber : ℕ → Option Etagpair → Type 0
HasNumber k none = ⊥
HasNumber k (some e) = e.part_num ≡ pos k

-- The parts from `s` on follow each other, with numbers from `k` on.
abbrev pub IsNumbered : List Etagpair → ℕ → ℕ → List Filepart → Type 0
IsNumbered pool s k [] = Unit
IsNumbered pool s k (f ∷ l) =
    (f.startpos ≡ s) × HasNumber k (entity pool f.petag) × IsNumbered pool (s + f.size) (k + 1) l

abbrev pub IsUpload : PseudoFdInfo → Type 0
IsUpload i = IsNumbered i.etag_entities 0 1 i.upload_list

HasNumber-etag_at :
    (k n : ℕ) (pool more : List Etagpair)
    → HasNumber k (etag_at n pool)
    → HasNumber k (etag_at n (pool ++ more))
HasNumber-etag_at k n [] more h = absurd h
HasNumber-etag_at k zero (e ∷ pool) more h = h
HasNumber-etag_at k (suc n) (e ∷ pool) more h = HasNumber-etag_at k n pool more h

HasNumber-entity :
    (k : ℕ) (p : Option ℕ) (pool more : List Etagpair)
    → HasNumber k (entity pool p)
    → HasNumber k (entity (pool ++ more) p)
HasNumber-entity k none pool more h = h
HasNumber-entity k (some n) pool more h = HasNumber-etag_at k n pool more h

HasNumber-last :
    (k : ℕ) (pool : List Etagpair)
    → HasNumber k (etag_at (length pool) (pool ++ new_etag (pos k) ∷ []))
HasNumber-last k [] = refl
HasNumber-last k (e ∷ pool) = HasNumber-last k pool

-- The end of parts that start at `s`.
abbrev end_from : ℕ → List Filepart → ℕ
end_from s [] = s
end_from s (f ∷ l) = next_start_pos (f ∷ l)

IsNumbered-append :
    (pool : List Etagpair) (s k : ℕ) (l : List Filepart) (f : Filepart)
    → IsNumbered pool s k l
    → f.startpos ≡ end_from s l
    → f.petag ≡ some (length pool)
    → IsNumbered (pool ++ new_etag (pos (length l + k)) ∷ []) s k (l ++ f ∷ [])
IsNumbered-append pool s k [] f h e p = (
  e,
  rw p (
      subst (λ n. HasNumber k (etag_at (length pool) (pool ++ new_etag (pos n) ∷ []))) (omega arith)
        (HasNumber-last k pool)),
  tt,
)
IsNumbered-append pool s k (g ∷ []) f h e p = (
  h.0,
  HasNumber-entity k g.petag pool _ h.1,
  (
    (let h0 = h.0 in omega arith),
    rw p (
        subst (λ n. HasNumber (k + 1) (etag_at (length pool) (pool ++ new_etag (pos n) ∷ [])))
          (omega arith) (HasNumber-last (k + 1) pool)),
    tt,
  ),
)
IsNumbered-append pool s k (g ∷ g' ∷ l) f h e p = (
  h.0,
  HasNumber-entity k g.petag pool _ h.1,
  subst (λ n. IsNumbered (pool ++ new_etag (pos n) ∷ []) (s + g.size) (k + 1) (g' ∷ l ++ f ∷ []))
      (omega arith) (IsNumbered-append pool (s + g.size) (k + 1) (g' ∷ l) f h.2 e p),
)

pub append_upload_part-IsUpload :
    (start : ℤ) (size : ℕ) (is_copy : Bool) (i : PseudoFdInfo)
    → IsUpload i
    → IsUpload (append_upload_part start size is_copy i).1
unfolding append_upload_part
append_upload_part-IsUpload (negsuc n) size is_copy i h = h
append_upload_part-IsUpload (pos start) size is_copy i h =
    if-elim (λ (r : Bool × PseudoFdInfo). IsUpload r.1)
      (not (is_uploading i) || not (start == next_start_pos i.upload_list)) (false, i) _ (λ _. h)
      (λ e.
        IsNumbered-append i.etag_entities 0 1 i.upload_list (new_part i start size is_copy) h
          (at_end start i.upload_list (ground arith)) refl)
  where
    at_end :
        (start : ℕ) (l : List Filepart) → (start == next_start_pos l) ≡ true → start ≡ end_from 0 l
    at_end start [] h = ground arith
    at_end start (f ∷ l) h = ground arith

abbrev pub AreNumbered : ℕ → List Etagpair → Type 0
AreNumbered k [] = Unit
AreNumbered k (e ∷ es) = (e.part_num ≡ pos k) × AreNumbered (k + 1) es

-- A list of `n` ETags with numbers from `k` on.
abbrev pub IsListed : ℕ → ℕ → Option (List Etagpair) → Type 0
IsListed k n none = ⊥
IsListed k n (some es) = AreNumbered k es × (length es ≡ n)

etags_of-IsListed :
    (pool : List Etagpair) (s k : ℕ) (l : List Filepart)
    → IsNumbered pool s k l
    → IsListed k (length l) (etags_of pool l)
unfolding etags_of
etags_of-IsListed pool s k [] h = (tt, refl)
etags_of-IsListed pool s k (f ∷ l) h =
    go (entity pool f.petag) (etags_of pool l) h.1
      (etags_of-IsListed pool (s + f.size) (k + 1) l h.2)
  where
    go :
        (r : Option Etagpair) (t : Option (List Etagpair))
        → HasNumber k r
        → IsListed (k + 1) (length l) t
        → IsListed k (suc (length l)) (elim r as (λ _. Option (List Etagpair)) [
          | none ↦ none
          | some e ↦ elim t as (λ _. Option (List Etagpair)) [
            | none ↦ none
            | some es ↦ some (e ∷ es)
          ]
        ])
    go none t a c = absurd a
    go (some e) none a c = absurd c
    go (some e) (some es) a c = ((a, c.0), ap suc c.1)

get_etaglist-IsListed :
    (i : PseudoFdInfo)
    → IsUpload i
    → is_uploading i ≡ true
    → 1 ≤ length i.upload_list
    → IsListed 1 (length i.upload_list) (get_etaglist i)
unfolding get_etaglist
get_etaglist-IsListed i h u k =
    if-elim (IsListed 1 (length i.upload_list)) (is_uploading i) _ none
      (λ _.
        go (length i.upload_list) k (etags_of i.etag_entities i.upload_list)
          (etags_of-IsListed i.etag_entities 0 1 i.upload_list h))
      (λ e. absurd (bool_clash _ u e))
  where
    go :
        (n : ℕ)
        → 1 ≤ n
        → (r : Option (List Etagpair)) → IsListed 1 n r
        → IsListed 1 n (elim r as (λ _. Option (List Etagpair)) [
          | none ↦ none
          | some [] ↦ none
          | some (e ∷ es) ↦ some (e ∷ es)
        ])
    go n k none c = c
    go n k (some []) c = let q = c.1 in absurd (omega arith)
    go n k (some (e ∷ es)) c = c

-- When the parts of an upload follow each other with numbers from 1 on, they still do after
-- AppendUploadPart, whatever its parameters. It succeeds exactly if an upload has started and the part
-- starts where the last one ends, and fails without a change otherwise. When it succeeds, GetEtaglist
-- returns one ETag for each part, with the numbers from 1 on.
pub append_upload_part_lem :
    (start : ℕ) (size : ℕ) (is_copy : Bool) (i : PseudoFdInfo)
    → IsUpload i
    → let r = append_upload_part (pos start) size is_copy i in
      IsUpload r.1
      × (r.0 ≡ is_uploading i && (start == next_start_pos i.upload_list))
      × (r.0 ≡ false → r.1 ≡ i)
      × (r.0 ≡ true → IsListed 1 (suc (length i.upload_list)) (get_etaglist r.1))
unfolding append_upload_part
append_upload_part_lem start size is_copy i h =
    let keep = append_upload_part-IsUpload (pos start) size is_copy i h in
    let test = not (is_uploading i) || not (start == next_start_pos i.upload_list) in
    let next : PseudoFdInfo = record i {
      etag_entities = i.etag_entities ++ new_etag (pos (length i.upload_list + 1)) ∷ [];
      upload_list = i.upload_list ++ new_part i start size is_copy ∷ [];
    } in
    let longer : length next.upload_list ≡ suc (length i.upload_list) =
      length-append i.upload_list (new_part i start size is_copy ∷ []) ∙ omega arith in
    if-elim
      (λ (r : Bool × PseudoFdInfo).
        IsUpload r.1
        → IsUpload r.1
          × (r.0 ≡ is_uploading i && (start == next_start_pos i.upload_list))
          × (r.0 ≡ false → r.1 ≡ i)
          × (r.0 ≡ true → IsListed 1 (suc (length i.upload_list)) (get_etaglist r.1)))
      test (false, i) (true, next) (λ e k. (k, ground arith, (λ _. refl), (λ f. cc)))
      (λ e k. (
        k,
        ground arith,
        (λ f. cc),
        λ _.
            subst (λ n. IsListed 1 n (get_etaglist next)) longer
              (get_etaglist-IsListed next k (ground arith) (omega (arith, longer))),
      ))
      keep

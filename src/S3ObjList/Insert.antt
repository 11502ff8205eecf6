-- ===== src/S3ObjList/Insert.antt =====
-- What `S3ObjList::insert` leaves to be found under the name and under the normalized name.
use s3fs_fuse.S3ObjList.Normal.{Normal, Normal-normalize}
use s3fs_fuse.S3ObjList.{
  slash, S3obj, normalize, insert_normalized, cut_last, last_char, before_first, add_object,
  S3objEntry, get_normalized_name, folder, get_org_name, is_directory, new_etag, get_s3_obj,
  normal_of, insert, insert_as, file_insert,
}
use mathlib.Core.List.{nil≢cons}
use s3fs_fuse.Base.{
  ℕ, ◌≡◌, refl, sym, ap, ◌∙◌, subst, ◌≢◌, Bool, true, false, Option, none, some, List, [], ◌∷◌,
  ◌++◌, arith, ◌==◌, if◌then◌else◌, ==_iff, if-elim, str_eq, str_eq_refl, str_eq-eq, find, put,
  erase, find-put, find-put_other,
}

pub last_char-slash : (s : List ℕ) → last_char (s ++ slash ∷ []) ≡ slash
last_char-slash [] = refl
last_char-slash (c ∷ []) = refl
last_char-slash (c ∷ d ∷ s) = last_char-slash (d ∷ s)

pub cut_last-slash : (s : List ℕ) → cut_last (s ++ slash ∷ []) ≡ s
cut_last-slash [] = refl
cut_last-slash (c ∷ []) = refl
cut_last-slash (c ∷ d ∷ s) = ap (λ x. c ∷ x) (cut_last-slash (d ∷ s))

-- What the normalization gives: a directory's name ends with a slash, another name is the name
-- itself and does not.
abbrev pub IsNormalized : List ℕ → List ℕ × Bool → Type 0
IsNormalized name (n, true) = last_char n ≡ slash
IsNormalized name (n, false) = (n ≡ name) × (last_char n ≢ slash)

pub IsNormalized-normalize :
    (name : List ℕ) (is_dir : Bool) → IsNormalized name (normalize name is_dir)
unfolding normalize
IsNormalized-normalize name is_dir = go (before_first folder name)
  where
    go :
        (p : Option (List ℕ))
        → IsNormalized name (elim p [
          | some p ↦ (if last_char p == slash then (p, true) else (p ++ slash ∷ [], true))
          | none ↦
              if is_dir
              then (if last_char name == slash then (name, true) else (name ++ slash ∷ [], true))
              else if last_char name == slash
              then (name, true)
              else (name, false)
        ])
    go (some p) =
        if-elim (IsNormalized name) (last_char p == slash) (p, true) _ (λ e. (==_iff _ _).0 e)
          (λ e. last_char-slash p)
    go none =
        if-elim (IsNormalized name) is_dir _ _
          (λ _.
            if-elim (IsNormalized name) (last_char name == slash) (name, true) _
              (λ e. (==_iff _ _).0 e) (λ e. last_char-slash name))
          (λ _.
            if-elim (IsNormalized name) (last_char name == slash) (name, true) _
              (λ e. (==_iff _ _).0 e) (λ e. (refl, λ q. ground arith)))

module _ (d : ℕ) (t : List ℕ) (m : S3obj) (x : S3objEntry) (h : find (d ∷ t) m ≡ some x) where
  org-find : get_org_name (d ∷ t) m ≡ x.orgname
  unfolding get_org_name get_s3_obj
  org-find = rw (get_org_name, get_s3_obj, h) refl

  normal-find : get_normalized_name (d ∷ t) m ≡ normal_of (d ∷ t) x
  unfolding get_normalized_name get_s3_obj
  normal-find = rw (get_normalized_name, get_s3_obj, h) refl

  directory-find : is_directory (d ∷ t) m ≡ x.is_dir
  unfolding is_directory get_s3_obj
  directory-find = rw (is_directory, get_s3_obj, h) refl

pub str_eq-clash : (s t : List ℕ) → str_eq s t ≡ false → s ≢ t
str_eq-clash s t e p = let h = subst (λ w. str_eq s w ≡ true) p (str_eq_refl s) in cc

-- The name is there and normalized to `n`, and `n` is there with the name as its original name.
abbrev pub IsInserted : List ℕ → List ℕ → Bool → Bool × S3obj → Type 0
IsInserted name n is_dir r =
    (r.0 ≡ true)
    × (get_normalized_name name r.1 ≡ n)
    × (get_org_name n r.1 ≡ name)
    × (is_directory n r.1 ≡ is_dir)

IsInserted-normalized :
    (name n : List ℕ) (etag : Option (List ℕ)) (is_dir : Bool) (m : S3obj)
    → name ≢ []
    → n ≢ []
    → IsInserted name n is_dir (insert_normalized name n is_dir (add_object n name etag is_dir m))
unfolding insert_normalized add_object
IsInserted-normalized [] n etag is_dir m h k = absurd (h refl)
IsInserted-normalized (c ∷ s) [] etag is_dir m h k = absurd (k refl)
IsInserted-normalized (c ∷ s) (d ∷ t) etag is_dir m h k =
    let x : S3objEntry = record {
      normalname = [];
      orgname = c ∷ s;
      etag = new_etag etag (find (d ∷ t) m);
      is_dir = is_dir;
    } in
    let y : S3objEntry = record { normalname = d ∷ t; orgname = []; etag = []; is_dir = is_dir } in
    let m1 = put (d ∷ t) x m in
    let f = find-put (d ∷ t) x m in
    if-elim (IsInserted (c ∷ s) (d ∷ t) is_dir) (str_eq (c ∷ s) (d ∷ t)) _ _
      (λ e.
        let q = str_eq-eq (c ∷ s) (d ∷ t) e in
        (
          refl,
          ap (λ w. get_normalized_name w m1) q ∙ normal-find d t m1 x f,
          org-find d t m1 x f,
          directory-find d t m1 x f,
        ))
      (λ e.
        let g = find-put (c ∷ s) y m1 in
        let g' =
          find-put_other (c ∷ s) (d ∷ t) y m1 (λ p. str_eq-clash (c ∷ s) (d ∷ t) e (sym p)) ∙ f in
        (
          refl,
          normal-find c s (put (c ∷ s) y m1) y g,
          org-find d t (put (c ∷ s) y m1) x g',
          directory-find d t (put (c ∷ s) y m1) x g',
        ))

no_slash : (s : List ℕ) → s ≢ s ++ slash ∷ []
no_slash [] h = nil≢cons h
no_slash (c ∷ s) h = no_slash s (ap tail h)
  where
    tail : List ℕ → List ℕ
    tail [] = []
    tail (c ∷ s) = s

-- A name under which a directory is there already.
abbrev pub IsShadowed : List ℕ → Bool × S3obj → Type 0
IsShadowed name r =
    (r.0 ≡ true)
    × (get_normalized_name name r.1 ≡ name ++ slash ∷ [])
    × (is_directory name r.1 ≡ true)

IsShadowed-insert_normalized :
    (name : List ℕ) (m : S3obj)
    → name ≢ []
    → IsShadowed name (insert_normalized name (name ++ slash ∷ []) true m)
unfolding insert_normalized
IsShadowed-insert_normalized [] m h = absurd (h refl)
IsShadowed-insert_normalized (c ∷ s) m h =
    let y : S3objEntry = record {
      normalname = (c ∷ s) ++ slash ∷ [];
      orgname = [];
      etag = [];
      is_dir = true;
    } in
    if-elim (IsShadowed (c ∷ s)) (str_eq (c ∷ s) ((c ∷ s) ++ slash ∷ [])) _ _
      (λ e. absurd (no_slash (c ∷ s) (str_eq-eq (c ∷ s) ((c ∷ s) ++ slash ∷ []) e)))
      (λ e.
        let g = find-put (c ∷ s) y m in
        (refl, normal-find c s (put (c ∷ s) y m) y g, directory-find c s (put (c ∷ s) y m) y g))

-- What `insert` of a name that is normalized to `n` leaves, as a directory or not.
abbrev pub IsStored : List ℕ → List ℕ × Bool → S3obj → Bool × S3obj → Type 0
IsStored name (n, true) m r = IsInserted name n true r
IsStored name (n, false) m r = elim (find (n ++ slash ∷ []) m) [
  | none ↦ IsInserted name n false r
  | some x ↦ IsShadowed name r
]

not_empty : (n : List ℕ) → last_char n ≡ slash → n ≢ []
not_empty [] h q = absurd (omega arith)
not_empty (c ∷ s) h q = nil≢cons (sym q)

IsStored-insert_as :
    (name : List ℕ) (etag : Option (List ℕ)) (m : S3obj) (z : List ℕ × Bool)
    → name ≢ []
    → IsNormalized name z
    → IsStored name z m (insert_as name z.0 etag z.1 m)
unfolding insert_as
IsStored-insert_as name etag m (n, true) h k =
    IsInserted-normalized name n etag true (erase (cut_last n) m) h (not_empty n k)
IsStored-insert_as name etag m (n, false) h k = go (find (n ++ slash ∷ []) m)
  where
    go : (r : Option S3objEntry) → elim r as (λ _. Type 0) [
      | none ↦ IsInserted name n false (file_insert name n etag m r)
      | some x ↦ IsShadowed name (file_insert name n etag m r)
    ]
    go none = IsInserted-normalized name n etag false m h (λ q. h (sym k.0 ∙ q))
    go (some x) =
        subst (λ w. IsShadowed name (insert_normalized name (w ++ slash ∷ []) true m)) (sym k.0)
          (IsShadowed-insert_normalized name m h)

-- insert of a name that is not empty succeeds. The normalized name is what is before the first
-- "_$folder$" in the name, if there is one, or the name, with a slash at its end for a directory: that
-- is one with "_$folder$", with the flag, or with a slash at its end. If it is a directory, or no
-- directory of this name is there, the normalized name is then found with the name as its original
-- name, and the name is normalized to it; else the name is normalized to the directory's name.
pub insert_lem :
    (c : ℕ) (s : List ℕ) (etag : Option (List ℕ)) (is_dir : Bool) (m : S3obj)
    → (z : List ℕ × Bool) × Normal (c ∷ s) is_dir z
      × IsStored (c ∷ s) z m (insert (c ∷ s) etag is_dir m)
unfolding insert
insert_lem c s etag is_dir m =
    let name = c ∷ s in
    (
      normalize name is_dir,
      Normal-normalize name is_dir,
      IsStored-insert_as name etag m (normalize name is_dir) (λ q. nil≢cons (sym q))
          (IsNormalized-normalize name is_dir),
    )

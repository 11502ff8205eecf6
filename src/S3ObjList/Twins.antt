-- ===== src/S3ObjList/Twins.antt =====
-- The invariant of `S3ObjList`: no name is there as a file and as a directory.
use s3fs_fuse.S3ObjList.Insert.{
  IsNormalized, IsNormalized-normalize, str_eq-clash, last_char-slash, cut_last-slash,
}
use s3fs_fuse.S3ObjList.{
  S3obj, insert, insert_as, insert_normalized, S3objEntry, add_object, is_nil, last_char, normalize,
  slash, cut_last, file_insert,
}
use s3fs_fuse.Base.{
  ℕ, ◌≡◌, refl, sym, ap, ◌∙◌, subst, ◌≢◌, ◌⊎◌, inl, inr, Bool, true, false, Option, none, some,
  List, [], ◌∷◌, ◌++◌, arith, Bool-cases, if-elim, str_eq, str_eq-eq, find, put, erase, find-put,
  find-put_other, find-erase, find-erase_other,
}

-- The entry is there, and is not a name that is normalized to another one.
pub is_normal : List ℕ → S3obj → Bool
is_normal k m = elim (find k m) [ none ↦ false | some x ↦ is_nil x.normalname ]

abbrev pub HasNoTwins : S3obj → Type 0
HasNoTwins m =
    (k : List ℕ)
    → last_char k ≢ slash
    → is_normal k m ≡ true
    → is_normal (k ++ slash ∷ []) m ≡ false

is_normal-put :
    (k : List ℕ) (x : S3objEntry) (m : S3obj) → is_normal k (put k x m) ≡ is_nil x.normalname
unfolding is_normal
is_normal-put k x m = rw (is_normal, find-put k x m) refl

is_normal-put_other :
    (k k' : List ℕ) (x : S3objEntry) (m : S3obj)
    → k' ≢ k
    → is_normal k' (put k x m) ≡ is_normal k' m
unfolding is_normal
is_normal-put_other k k' x m h =
    ap (λ r. elim r as (λ _. Bool) [ none ↦ false | some x ↦ is_nil x.normalname ])
      (find-put_other k k' x m h)

is_normal-erase : (k : List ℕ) (m : S3obj) → is_normal k (erase k m) ≡ false
unfolding is_normal
is_normal-erase k m = rw (is_normal, find-erase k m) refl

is_normal-erase_other :
    (k k' : List ℕ) (m : S3obj) → k' ≢ k → is_normal k' (erase k m) ≡ is_normal k' m
unfolding is_normal
is_normal-erase_other k k' m h =
    ap (λ r. elim r as (λ _. Bool) [ none ↦ false | some x ↦ is_nil x.normalname ])
      (find-erase_other k k' m h)

not_normal : (k : List ℕ) (m : S3obj) → find k m ≡ none → is_normal k m ≡ false
unfolding is_normal
not_normal k m h = rw (is_normal, h) refl

bool_clash : (b : Bool) → b ≡ true → b ≡ false → ⊥
bool_clash b h k = ground arith

str_cases : (s t : List ℕ) → (s ≡ t) ⊎ (s ≢ t)
str_cases s t = elim (Bool-cases (str_eq s t)) [
  | inl e ↦ inl (str_eq-eq s t e)
  | inr e ↦ inr (str_eq-clash s t e)
]

HasNoTwins-erase : (n : List ℕ) (m : S3obj) → HasNoTwins m → HasNoTwins (erase n m)
HasNoTwins-erase n m h k l e = elim (str_cases (k ++ slash ∷ []) n) [
  | inl p ↦ subst (λ w. is_normal w (erase n m) ≡ false) (sym p) (is_normal-erase n m)
  | inr p ↦ elim (str_cases k n) [
    | inl q ↦
        let z = subst (λ w. is_normal w (erase n m) ≡ true) q e in
        let z' = is_normal-erase n m in cc
    | inr q ↦
        is_normal-erase_other n (k ++ slash ∷ []) m p
        ∙ h k l (sym (is_normal-erase_other n k m q) ∙ e)
  ]
]

-- An entry for a name that is normalized to another one.
HasNoTwins-put_normalized :
    (n : List ℕ) (x : S3objEntry) (m : S3obj)
    → is_nil x.normalname ≡ false
    → HasNoTwins m
    → HasNoTwins (put n x m)
HasNoTwins-put_normalized n x m b h k l e = elim (str_cases (k ++ slash ∷ []) n) [
  | inl p ↦ subst (λ w. is_normal w (put n x m) ≡ false) (sym p) (is_normal-put n x m ∙ b)
  | inr p ↦ elim (str_cases k n) [
    | inl q ↦
        let z = subst (λ w. is_normal w (put n x m) ≡ true) q e in
        let z' = is_normal-put n x m in cc
    | inr q ↦
        is_normal-put_other n (k ++ slash ∷ []) x m p
        ∙ h k l (sym (is_normal-put_other n k x m q) ∙ e)
  ]
]

-- A directory, where no file has its name.
HasNoTwins-put_directory :
    (n : List ℕ) (x : S3objEntry) (m : S3obj)
    → last_char n ≡ slash
    → is_normal (cut_last n) m ≡ false
    → HasNoTwins m
    → HasNoTwins (put n x m)
HasNoTwins-put_directory n x m d b h k l e =
    let q : k ≢ n = λ q. l (ap last_char q ∙ d) in
    let e' = sym (is_normal-put_other n k x m q) ∙ e in
    elim (str_cases (k ++ slash ∷ []) n) [
      | inl p ↦
          let z =
            subst (λ w. is_normal w m ≡ false) (sym (sym (cut_last-slash k) ∙ ap cut_last p)) b in
          absurd (bool_clash _ e' z)
      | inr p ↦ is_normal-put_other n (k ++ slash ∷ []) x m p ∙ h k l e'
    ]

-- A file, where no directory has its name.
HasNoTwins-put_file :
    (n : List ℕ) (x : S3objEntry) (m : S3obj)
    → last_char n ≢ slash
    → is_normal (n ++ slash ∷ []) m ≡ false
    → HasNoTwins m
    → HasNoTwins (put n x m)
HasNoTwins-put_file n x m d b h k l e =
    let p : (k ++ slash ∷ []) ≢ n = λ p. d (ap last_char (sym p) ∙ last_char-slash k) in
    is_normal-put_other n (k ++ slash ∷ []) x m p ∙ elim (str_cases k n) [
      | inl q ↦ subst (λ w. is_normal (w ++ slash ∷ []) m ≡ false) (sym q) b
      | inr q ↦ h k l (sym (is_normal-put_other n k x m q) ∙ e)
    ]

HasNoTwins-insert_normalized :
    (name n : List ℕ) (is_dir : Bool) (m : S3obj)
    → HasNoTwins m
    → HasNoTwins (insert_normalized name n is_dir m).1
unfolding insert_normalized
HasNoTwins-insert_normalized [] n is_dir m h = h
HasNoTwins-insert_normalized (c ∷ s) [] is_dir m h = h
HasNoTwins-insert_normalized (c ∷ s) (d ∷ t) is_dir m h =
    if-elim (λ (r : Bool × S3obj). HasNoTwins r.1) (str_eq (c ∷ s) (d ∷ t)) _ _ (λ _. h)
      (λ _. HasNoTwins-put_normalized (c ∷ s) _ m refl h)

HasNoTwins-insert_as :
    (name : List ℕ) (etag : Option (List ℕ)) (m : S3obj) (z : List ℕ × Bool)
    → IsNormalized name z
    → HasNoTwins m
    → HasNoTwins (insert_as name z.0 etag z.1 m).1
unfolding insert_as add_object
HasNoTwins-insert_as name etag m (n, true) k h = HasNoTwins-insert_normalized name n true _ (
    HasNoTwins-put_directory n _ (erase (cut_last n) m) k (is_normal-erase (cut_last n) m)
      (HasNoTwins-erase (cut_last n) m h))
HasNoTwins-insert_as name etag m (n, false) k h = go (find (n ++ slash ∷ []) m) refl
  where
    go :
        (r : Option S3objEntry)
        → find (n ++ slash ∷ []) m ≡ r
        → HasNoTwins (file_insert name n etag m r).1
    go (some x) e = HasNoTwins-insert_normalized name (n ++ slash ∷ []) true m h
    go none e =
        HasNoTwins-insert_normalized name n false _
          (HasNoTwins-put_file n _ m (λ q. k.1 q) (not_normal (n ++ slash ∷ []) m e) h)

-- insert keeps the invariant: no name that does not end with a slash is there together with the name
-- with a slash behind it, both normalized names.
pub insert-HasNoTwins :
    (name : List ℕ) (etag : Option (List ℕ)) (is_dir : Bool) (m : S3obj)
    → HasNoTwins m
    → HasNoTwins (insert name etag is_dir m).1
unfolding insert
insert-HasNoTwins [] etag is_dir m h = h
insert-HasNoTwins (c ∷ s) etag is_dir m h =
    HasNoTwins-insert_as (c ∷ s) etag m (normalize (c ∷ s) is_dir)
      (IsNormalized-normalize (c ∷ s) is_dir) h

-- A new list has none.
pub no_objects : HasNoTwins []
unfolding is_normal find
no_objects k l e = refl

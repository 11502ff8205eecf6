-- ===== src/S3ObjList/Normal.antt =====
-- The name to which `S3ObjList::insert` normalizes, described without its search for "_$folder$".
use s3fs_fuse.S3ObjList.{before_first, starts_with, folder, last_char, slash, normalize}
use mathlib.Core.Path.{ap₂}
use mathlib.Core.List.{nil≢cons}
use s3fs_fuse.Base.{
  ℕ, suc, ◌≤◌, ◌≡◌, refl, sym, ap, subst, ◌≢◌, ◌⊎◌, inl, inr, Bool, true, false, Option, none, some,
  List, [], ◌∷◌, ◌++◌, arith, ◌==◌, if◌then◌else◌, length, if-elim,
}

-- The name of the directory `p`: with a slash at its end.
abbrev pub IsDirName : List ℕ → List ℕ → Type 0
IsDirName p n = ((last_char p ≡ slash) × (n ≡ p)) ⊎ ((last_char p ≢ slash) × (n ≡ p ++ slash ∷ []))

-- "_$folder$" stands in the name, between `a` and `b`.
abbrev pub IsMarked : List ℕ → List ℕ → List ℕ → Type 0
IsMarked name a b = name ≡ a ++ (folder ++ b)

-- What a name and the flag for a directory are normalized to, and whether it is a directory: what is
-- before the first "_$folder$"; else the name, as a directory by the flag or by its last slash; else
-- the name as a file.
pub data Normal (name : List ℕ) (is_dir : Bool) : List ℕ × Bool → Type 0 where
  from_marked :
      (p b n : List ℕ)
      → IsMarked name p b
      → ((a b' : List ℕ) → IsMarked name a b' → length p ≤ length a)
      → IsDirName p n
      → Normal name is_dir (n, true)
  from_directory :
      (n : List ℕ)
      → ((a b : List ℕ) → ¬ IsMarked name a b)
      → (is_dir ≡ true) ⊎ (last_char name ≡ slash)
      → IsDirName name n
      → Normal name is_dir (n, true)
  from_file :
      ((a b : List ℕ) → ¬ IsMarked name a b)
      → is_dir ≡ false
      → last_char name ≢ slash
      → Normal name is_dir (name, false)

starts_with-append : (k b : List ℕ) → starts_with k (k ++ b) ≡ true
starts_with-append [] b = refl
starts_with-append (c ∷ k) b = let ih = starts_with-append k b in ground arith

starts_with-rest : (k s : List ℕ) → starts_with k s ≡ true → (b : List ℕ) × (s ≡ k ++ b)
starts_with-rest [] s h = (s, refl)
starts_with-rest (c ∷ k) [] h = absurd cc
starts_with-rest (c ∷ k) (d ∷ s) h =
    let first : c ≡ d = ground arith in
    let r = starts_with-rest k s (ground arith) in (r.0, ap₂ ◌∷◌ (sym first) r.1)

-- The list without its first element.
abbrev rest_of : List ℕ → List ℕ
rest_of [] = []
rest_of (c ∷ s) = s

-- A place where `k` stands: at the start, or in the rest.
starts_with-place :
    (k a b : List ℕ) (c : ℕ) (s : List ℕ)
    → starts_with k (c ∷ s) ≡ false
    → c ∷ s ≡ a ++ (k ++ b)
    → (a' : List ℕ) × (s ≡ a' ++ (k ++ b)) × (length a ≡ suc (length a'))
starts_with-place k [] b c s h e =
    absurd (let z = subst (λ w. starts_with k w ≡ true) (sym e) (starts_with-append k b) in cc)
starts_with-place k (d ∷ a) b c s h e = (a, ap rest_of e, refl)

-- What the search returns, for a `k` that is not empty.
abbrev IsFirst : List ℕ → List ℕ → Option (List ℕ) → Type 0
IsFirst k s none = (a b : List ℕ) → ¬ (s ≡ a ++ (k ++ b))
IsFirst k s (some p) =
    ((b : List ℕ) × (s ≡ p ++ (k ++ b)))
    × ((a b : List ℕ) → s ≡ a ++ (k ++ b) → length p ≤ length a)

IsFirst-next :
    (k : List ℕ) (c : ℕ) (s : List ℕ) (r : Option (List ℕ))
    → starts_with k (c ∷ s) ≡ false
    → IsFirst k s r
    → IsFirst k (c ∷ s) (elim r as (λ _. Option (List ℕ)) [ none ↦ none | some r ↦ some (c ∷ r) ])
IsFirst-next k c s none h f = λ a b e. let q = starts_with-place k a b c s h e in f q.0 b q.1
IsFirst-next k c s (some p) h f = (
  (f.0.0, ap (λ w. c ∷ w) f.0.1),
  λ a b e.
      let q = starts_with-place k a b c s h e in
      let m = f.1 q.0 b q.1 in let n = q.2 in omega arith,
)

no_place : (d : ℕ) (k a b : List ℕ) → ¬ ([] ≡ a ++ ((d ∷ k) ++ b))
no_place d k [] b e = nil≢cons e
no_place d k (c ∷ a) b e = nil≢cons e

IsFirst-before_first : (d : ℕ) (k s : List ℕ) → IsFirst (d ∷ k) s (before_first (d ∷ k) s)
unfolding before_first
IsFirst-before_first d k [] = λ a b e. no_place d k a b e
IsFirst-before_first d k (c ∷ s) =
    let ih = IsFirst-before_first d k s in
    if-elim (IsFirst (d ∷ k) (c ∷ s)) (starts_with (d ∷ k) (c ∷ s)) (some []) _
      (λ h. (starts_with-rest (d ∷ k) (c ∷ s) h, λ a b e. omega arith))
      (λ h. IsFirst-next (d ∷ k) c s (before_first (d ∷ k) s) h ih)

pub Normal-normalize : (name : List ℕ) (is_dir : Bool) → Normal name is_dir (normalize name is_dir)
unfolding normalize
Normal-normalize name is_dir = go (before_first folder name) (IsFirst-before_first 95 _ name)
  where
    go :
        (r : Option (List ℕ))
        → IsFirst folder name r
        → Normal name is_dir (elim r as (λ _. List ℕ × Bool) [
          | some p ↦ (if last_char p == slash then (p, true) else (p ++ slash ∷ [], true))
          | none ↦
              if is_dir
              then (if last_char name == slash then (name, true) else (name ++ slash ∷ [], true))
              else if last_char name == slash
              then (name, true)
              else (name, false)
        ])
    go (some p) f =
        if-elim (Normal name is_dir) (last_char p == slash) (p, true) (p ++ slash ∷ [], true)
          (λ e. from_marked p f.0.0 p f.0.1 f.1 (inl (ground arith, refl)))
          (λ e. from_marked p f.0.0 _ f.0.1 f.1 (inr ((λ q. ground arith), refl)))
    go none f =
        if-elim (Normal name is_dir) is_dir _ _
          (λ d.
            if-elim (Normal name is_dir) (last_char name == slash) (name, true)
              (name ++ slash ∷ [], true)
              (λ e. from_directory name f (inl d) (inl (ground arith, refl)))
              (λ e. from_directory _ f (inl d) (inr ((λ q. ground arith), refl))))
          (λ d.
            if-elim (Normal name is_dir) (last_char name == slash) (name, true) (name, false)
              (λ e. from_directory name f (inr (ground arith)) (inl (ground arith, refl)))
              (λ e. from_file f d (λ q. ground arith)))

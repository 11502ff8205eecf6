-- ===== src/StatCache/Notruncate/Listed.antt =====
-- The names of files that are not uploaded yet are those that a listing of their directory shows.
use s3fs_fuse.StatCache.Notruncate.{
  has_name, add_missing, get_notruncate_cache, add_notruncate_cache, Names, name_of, ends_in_slash,
  add_slash, is_empty_str, with_name,
}
use mathlib.Core.List.{nil≢cons}
use s3fs_fuse.Base.{
  ℕ, ◌≡◌, refl, sym, ap, ◌∙◌, subst, ◌≢◌, inl, inr, Bool, true, false, not, ◌&&◌, ◌||◌, Option,
  none, some, List, [], ◌∷◌, ◌++◌, arith, if◌then◌else◌, Bool-cases, if-elim, bool_clash, str_eq,
  str_eq-eq, find, put, find-put, find-put_other,
}

has_name-append :
    (s : List ℕ) (l l' : List (List ℕ)) → has_name s (l ++ l') ≡ has_name s l || has_name s l'
has_name-append s [] l' = refl
has_name-append s (t ∷ l) l' = let ih = has_name-append s l l' in ground arith

-- The listing has the names that it had and those that were missing.
has_name-add_missing :
    (s : List ℕ) (l list : List (List ℕ))
    → has_name s (add_missing l list) ≡ has_name s l || has_name s list
unfolding add_missing
has_name-add_missing s [] list = refl
has_name-add_missing s (t ∷ l) list =
    let ih = has_name-add_missing s l (if has_name t list then list else list ++ t ∷ []) in
    ih
    ∙ (if-elim (λ w. (has_name s l || has_name s w) ≡ has_name s (t ∷ l) || has_name s list)
        (has_name t list) list (list ++ t ∷ [])
        (λ e. elim (Bool-cases (str_eq s t)) [
          | inl q ↦
              let z = subst (λ y. has_name y list ≡ true) (sym (str_eq-eq s t q)) e in ground arith
          | inr q ↦ ground arith
        ])
        (λ _. let q = has_name-append s list (t ∷ []) in ground arith))

-- A name is among those found.
abbrev pub in_found : List ℕ → Option (List (List ℕ)) → Bool
in_found s none = false
in_found s (some l) = has_name s l

-- The key under which `GetNotruncateCache` looks for a directory.
abbrev key_of : List ℕ → List ℕ
key_of dir = if ends_in_slash dir then dir else add_slash dir

has_name-get_notruncate_cache :
    (s dir : List ℕ) (list : List (List ℕ)) (m : Names)
    → is_empty_str dir ≡ false
    → has_name s (get_notruncate_cache dir list m).1
      ≡ in_found s (find (key_of dir) m) || has_name s list
unfolding get_notruncate_cache
has_name-get_notruncate_cache s dir list m e =
    if-elim
      (λ (r : Bool × List (List ℕ)).
        has_name s r.1 ≡ in_found s (find (key_of dir) m) || has_name s list)
      (is_empty_str dir) (false, list) _ (λ q. absurd (bool_clash _ q e))
      (λ _. go (find (key_of dir) m))
  where
    go :
        (r : Option (List (List ℕ)))
        → has_name s (elim r as (λ _. List (List ℕ)) [ none ↦ list | some l ↦ add_missing l list ])
          ≡ in_found s r || has_name s list
    go none = refl
    go (some l) = has_name-add_missing s l list

add_slash-other : (s : List ℕ) → s ≢ add_slash s
add_slash-other [] h = nil≢cons h
add_slash-other (c ∷ s) h = add_slash-other s (ap tail h)
  where
    tail : List ℕ → List ℕ
    tail [] = []
    tail (c ∷ s) = s

-- What is found under another key is as before.
find-with_name :
    (k : List ℕ) (p : List ℕ × List ℕ) (m : Names) (r : Option (List (List ℕ)))
    → k ≢ p.0
    → find k (with_name p m r) ≡ find k m
find-with_name k p m none n = find-put_other p.0 k (p.1 ∷ []) m n
find-with_name k p m (some l) n =
    if-elim (λ w. find k w ≡ find k m) (has_name p.1 l) m (put p.0 (l ++ p.1 ∷ []) m) (λ _. refl)
      (λ _. find-put_other p.0 k (l ++ p.1 ∷ []) m n)

in_found-with_name :
    (s : List ℕ) (p : List ℕ × List ℕ) (m : Names) (r : Option (List (List ℕ)))
    → find p.0 m ≡ r
    → in_found s (find p.0 (with_name p m r)) ≡ str_eq s p.1 || in_found s r
in_found-with_name s p m none e = ap (in_found s) (find-put p.0 (p.1 ∷ []) m) ∙ (ground arith)
in_found-with_name s p m (some l) e =
    if-elim (λ w. in_found s (find p.0 w) ≡ str_eq s p.1 || has_name s l) (has_name p.1 l) m
      (put p.0 (l ++ p.1 ∷ []) m)
      (λ h. ap (in_found s) e ∙ (elim (Bool-cases (str_eq s p.1)) [
        | inl q ↦
            let z = subst (λ y. has_name y l ≡ true) (sym (str_eq-eq s p.1 q)) h in ground arith
        | inr q ↦ ground arith
      ]))
      (λ _.
        ap (in_found s) (find-put p.0 (l ++ p.1 ∷ []) m)
        ∙ (let q = has_name-append s l (p.1 ∷ []) in ground arith))

-- Under the key of a directory the name is added, unless the directory's name ends in "/".
in_found-key_of :
    (s dir name : List ℕ) (m : Names)
    → in_found s (find (key_of dir) (with_name (add_slash dir, name) m (find (add_slash dir) m)))
      ≡ (not (ends_in_slash dir) && str_eq s name) || in_found s (find (key_of dir) m)
in_found-key_of s dir name m =
    let p : List ℕ × List ℕ = (add_slash dir, name) in
    let w = with_name p m (find p.0 m) in
    elim (Bool-cases (ends_in_slash dir)) [
      | inl q ↦ rw q (ap (in_found s) (find-with_name dir p m (find p.0 m) (add_slash-other dir)))
      | inr q ↦ rw q (in_found-with_name s p m (find p.0 m) refl)
    ]

module _ (mydirname mybasename : List ℕ → List ℕ) (key : List ℕ) (m : Names) where
  -- A path that is not empty and does not end in "/", with a directory and a name: after
  -- AddNotruncateCache the listing of the directory, by the name without a "/" that `mydirname` gives,
  -- has the name of the path, the names that it had before, and no others. For the root directory,
  -- whose name ends in "/", the listing is as before.
  pub get_notruncate_cache-add_notruncate_cache :
      (s : List ℕ) (list : List (List ℕ))
      → (is_empty_str key
          || ends_in_slash key
          || is_empty_str (mydirname key)
          || is_empty_str (mybasename key))
        ≡ false
      → let dir = mydirname key in
        let m' = (add_notruncate_cache mydirname mybasename key m).1 in
        has_name s (get_notruncate_cache dir list m').1
        ≡ (not (ends_in_slash dir) && str_eq s (mybasename key))
          || has_name s (get_notruncate_cache dir list m).1
  unfolding add_notruncate_cache name_of
  get_notruncate_cache-add_notruncate_cache s list h =
      let dir = mydirname key in
      let p : List ℕ × List ℕ = (add_slash dir, mybasename key) in
      let named = not (ends_in_slash dir) && str_eq s (mybasename key) in
      if-elim
        (λ (r : Option (List ℕ × List ℕ)).
          has_name s
            (get_notruncate_cache dir list
              (elim r as (λ _. Bool × Names) [
                | none ↦ (false, m)
                | some p ↦ (true, with_name p m (find p.0 m))
              ]).1).1
          ≡ named || has_name s (get_notruncate_cache dir list m).1)
        _ none (some p) (λ e. absurd (bool_clash _ e h))
        (λ _.
          let e : is_empty_str dir ≡ false = ground arith in
          let a = has_name-get_notruncate_cache s dir list (with_name p m (find p.0 m)) e in
          let b = has_name-get_notruncate_cache s dir list m e in
          let c = in_found-key_of s dir (mybasename key) m in
          a
          ∙ ap (λ w. w || has_name s list) c
          ∙ (sym (
              ap (λ w. named || w) b
              ∙ or_assoc named (in_found s (find (key_of dir) m)) (has_name s list))))
    where
      or_assoc : (a b c : Bool) → (a || (b || c)) ≡ ((a || b) || c)
      or_assoc true b c = refl
      or_assoc false b c = refl

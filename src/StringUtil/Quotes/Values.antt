-- ===== src/StringUtil/Quotes/Values.antt =====
-- What `takeout_str_dquart` and `get_keyword_value` find.
use s3fs_fuse.StringUtil.{quote}
use s3fs_fuse.StringUtil.Quotes.{
  strip_prefix, until_amp, after_first, after_keyword, before_last, takeout_str_dquart,
  get_keyword_value,
}
use s3fs_fuse.Base.{
  ℕ, ◌≡◌, refl, ap, ◌∙◌, subst, true, false, not, Option, none, some, List, [], ◌∷◌, ◌++◌, arith,
  ◌==◌, if◌then◌else◌, ==_iff, if-elim, if-true, if-false, mem,
}

after_first-found : (c : ℕ) (a s : List ℕ) → mem c a ≡ false → after_first c (a ++ c ∷ s) ≡ some s
unfolding after_first
after_first-found c [] s h = if-true (c == c) (some s) (after_first c s) (ground arith)
after_first-found c (d ∷ a) s h =
    if-false (d == c) (some (a ++ c ∷ s)) (after_first c (a ++ c ∷ s)) (ground arith)
    ∙ after_first-found c a s (ground arith)

after_first-none : (c : ℕ) (s : List ℕ) → mem c s ≡ false → after_first c s ≡ none
unfolding after_first
after_first-none c [] h = refl
after_first-none c (d ∷ s) h =
    if-false (d == c) (some s) (after_first c s) (ground arith)
    ∙ after_first-none c s (ground arith)

before_last-none : (c : ℕ) (s : List ℕ) → mem c s ≡ false → before_last c s ≡ none
unfolding before_last
before_last-none c [] h = refl
before_last-none c (d ∷ s) h =
    rw (before_last, before_last-none c s (ground arith))
      (if-false (d == c) (some []) none (ground arith))

before_last-found : (c : ℕ) (v b : List ℕ) → mem c b ≡ false → before_last c (v ++ c ∷ b) ≡ some v
unfolding before_last
before_last-found c [] b h =
    rw (before_last, before_last-none c b h) (if-true (c == c) (some []) none (ground arith))
before_last-found c (d ∷ v) b h = rw (before_last, before_last-found c v b h) refl

-- takeout_str_dquart leaves a string without a quote as it is, fails for one with a single quote, and
-- takes what is between the first quote and the last one, successfully if there is none between.
pub takeout_str_dquart_lem :
    (a v b : List ℕ)
    → mem quote a ≡ false
    → mem quote b ≡ false
    → (takeout_str_dquart a ≡ (true, a))
      × (takeout_str_dquart (a ++ quote ∷ b) ≡ (false, b))
      × (takeout_str_dquart (a ++ quote ∷ (v ++ quote ∷ b)) ≡ (not (mem quote v), v))
unfolding takeout_str_dquart
takeout_str_dquart_lem a v b h k = (
  rw (takeout_str_dquart, after_first-none quote a h) refl,
  rw (takeout_str_dquart, after_first-found quote a b h, before_last-none quote b k) refl,
  rw
      (
        takeout_str_dquart,
        after_first-found quote a (v ++ quote ∷ b) h,
        before_last-found quote v b k,
      )
      refl,
)

abbrev IsStripped : List ℕ → List ℕ → Option (List ℕ) → Type 0
IsStripped ks s none = Unit
IsStripped ks s (some r) = s ≡ ks ++ r

IsStripped-cons :
    (k c : ℕ) (ks s : List ℕ) (r : Option (List ℕ))
    → k ≡ c
    → IsStripped ks s r
    → IsStripped (k ∷ ks) (c ∷ s) r
IsStripped-cons k c ks s none e h = tt
IsStripped-cons k c ks s (some r) e h = rw (e, h) refl

IsStripped-strip_prefix : (ks s : List ℕ) → IsStripped ks s (strip_prefix ks s)
unfolding strip_prefix
IsStripped-strip_prefix [] s = refl
IsStripped-strip_prefix (k ∷ ks) [] = tt
IsStripped-strip_prefix (k ∷ ks) (c ∷ s) =
    let ih = IsStripped-strip_prefix ks s in
    if-elim (IsStripped (k ∷ ks) (c ∷ s)) (k == c) _ _
      (λ e. IsStripped-cons k c ks s _ ((==_iff k c).0 e) ih) (λ e. tt)

abbrev IsAfter : List ℕ → List ℕ → Option (List ℕ) → Type 0
IsAfter ks s none = Unit
IsAfter ks s (some r) = (a : List ℕ) × (s ≡ a ++ (ks ++ r))

IsAfter-cons :
    (ks s : List ℕ) (c : ℕ) (p r : Option (List ℕ))
    → IsStripped ks (c ∷ s) p
    → IsAfter ks s r
    → IsAfter ks (c ∷ s) (elim p [ some x ↦ some x | none ↦ r ])
IsAfter-cons ks s c none none h k = tt
IsAfter-cons ks s c none (some r) h k = (c ∷ k.0, ap (λ x. c ∷ x) k.1)
IsAfter-cons ks s c (some x) r h k = ([], h)

IsAfter-after_keyword : (ks s : List ℕ) → IsAfter ks s (after_keyword ks s)
unfolding after_keyword
IsAfter-after_keyword ks [] = go (strip_prefix ks []) (IsStripped-strip_prefix ks [])
  where
    go : (p : Option (List ℕ)) → IsStripped ks [] p → IsAfter ks [] p
    go none h = tt
    go (some r) h = ([], h)
IsAfter-after_keyword ks (c ∷ s) =
    IsAfter-cons ks s c (strip_prefix ks (c ∷ s)) (after_keyword ks s)
      (IsStripped-strip_prefix ks (c ∷ s)) (IsAfter-after_keyword ks s)

-- What is behind a value: nothing, or the next `&`.
abbrev pub IsRest : List ℕ → Type 0
IsRest [] = Unit
IsRest (c ∷ s) = c ≡ 38

abbrev IsUntil : List ℕ → List ℕ → Type 0
IsUntil s v = (b : List ℕ) × (s ≡ v ++ b) × IsRest b × (mem 38 v ≡ false)

IsUntil-until_amp : (s : List ℕ) → IsUntil s (until_amp s)
unfolding until_amp
IsUntil-until_amp [] = ([], refl, tt, refl)
IsUntil-until_amp (c ∷ s) =
    let ih = IsUntil-until_amp s in
    if-elim (IsUntil (c ∷ s)) (c == 38) _ _ (λ e. (c ∷ s, refl, ground arith, refl))
      (λ e. (ih.0, ap (λ x. c ∷ x) ih.1, ih.2, let q = ih.3 in ground arith))

-- A value of the keyword in the target.
abbrev pub IsValue : List ℕ → List ℕ → Option (List ℕ) → Type 0
IsValue target keyword none = Unit
IsValue target keyword (some v) =
    (a b : List ℕ) × (target ≡ a ++ (keyword ++ 61 ∷ (v ++ b))) × IsRest b × (mem 38 v ≡ false)

IsValue-get_keyword_value :
    (target keyword : List ℕ) → IsValue target keyword (get_keyword_value target keyword)
unfolding get_keyword_value
IsValue-get_keyword_value target keyword =
    go (after_keyword keyword target) (IsAfter-after_keyword keyword target)
  where
    go :
        (p : Option (List ℕ))
        → IsAfter keyword target p
        → IsValue target keyword (elim p [
          | none ↦ none
          | some r ↦ elim r [ [] ↦ none | c ∷ s ↦ if c == 61 then some (until_amp s) else none ]
        ])
    go none h = tt
    go (some []) h = tt
    go (some (c ∷ s)) h =
        if-elim (IsValue target keyword) (c == 61) _ _
          (λ e.
            let u = IsUntil-until_amp s in
            let q : c ≡ 61 = (==_iff c 61).0 e in
            (
              h.0,
              u.0,
              h.1 ∙ ap (λ x. h.0 ++ (keyword ++ x)) (ap (λ x. x ∷ s) q ∙ ap (λ x. 61 ∷ x) u.1),
              u.2,
              u.3,
            ))
          (λ e. tt)

-- A value that get_keyword_value returns stands in the target behind the keyword and `=`, up to the
-- next `&` or the end, and has no `&`.
pub get_keyword_value_lem :
    (target keyword v : List ℕ)
    → get_keyword_value target keyword ≡ some v
    → (a b : List ℕ) × (target ≡ a ++ (keyword ++ 61 ∷ (v ++ b))) × IsRest b × (mem 38 v ≡ false)
get_keyword_value_lem target keyword v h =
    subst (IsValue target keyword) h (IsValue-get_keyword_value target keyword)

-- "?k=v&w" and the keyword "k"
pub get_keyword_value_run :
    get_keyword_value (63 ∷ 107 ∷ 61 ∷ 118 ∷ 38 ∷ 119 ∷ []) (107 ∷ []) ≡ some (118 ∷ [])
unfolding get_keyword_value after_keyword strip_prefix until_amp
get_keyword_value_run = refl

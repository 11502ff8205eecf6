-- ===== src/StatCache/Size.antt =====
-- `AddSymlink` keeps the symbolic link cache at its size, if the stat cache is not empty.
use s3fs_fuse.StatCache.{
  insert_by_age, SymlinkCache, Item, pop_back, sorts_before, keep_count, oldest_from,
  SymlinkCacheEntry,
}
use s3fs_fuse.Base.{
  ℕ, suc, ◌+◌, ◌≤◌, min, ◌≡◌, refl, sym, ap, ◌∙◌, subst, inl, inr, Bool, true, false, ◌||◌, List,
  [], ◌∷◌, arith, ltb, Bool-cases, length, if-elim, Map, bool_clash, str_eq, str_eq_refl, str_eq-eq,
}

abbrev pub has_key : {A : Type 0} → List ℕ → Map A → Bool
has_key k [] = false
has_key k (x ∷ l) = str_eq k x.0 || has_key k l

-- No two items have the same key, as in a `std::map`.
abbrev pub HasUniqueKeys : {A : Type 0} → Map A → Type 0
HasUniqueKeys [] = Unit
HasUniqueKeys (x ∷ l) = (has_key x.0 l ≡ false) × HasUniqueKeys l

str_eq_sym : (s t : List ℕ) → str_eq s t ≡ str_eq t s
str_eq_sym [] [] = refl
str_eq_sym [] (d ∷ t) = refl
str_eq_sym (c ∷ s) [] = refl
str_eq_sym (c ∷ s) (d ∷ t) = let ih = str_eq_sym s t in ground arith

pub has_key-insert :
    {A : Type 0} (before : Item A → Item A → Bool) (k : List ℕ) (x : Item A) (l : List (Item A))
    → has_key k (insert_by_age before x l) ≡ str_eq k x.0 || has_key k l
unfolding insert_by_age
has_key-insert before k x [] = refl
has_key-insert before k x (y ∷ l) =
    let ih = has_key-insert before k x l in
    if-elim (λ w. has_key k w ≡ str_eq k x.0 || has_key k (y ∷ l)) (before x y) (x ∷ y ∷ l)
      (y ∷ insert_by_age before x l) (λ _. refl) (λ _. ground arith)

pub HasUniqueKeys-insert :
    {A : Type 0} (before : Item A → Item A → Bool) (x : Item A) (l : List (Item A))
    → has_key x.0 l ≡ false
    → HasUniqueKeys l
    → HasUniqueKeys (insert_by_age before x l)
unfolding insert_by_age
HasUniqueKeys-insert before x [] h u = (refl, tt)
HasUniqueKeys-insert before x (y ∷ l) h u =
    if-elim HasUniqueKeys (before x y) _ _ (λ _. (h, u))
      (λ _. (
        has_key-insert before y.0 x l ∙ (let e = str_eq_sym y.0 x.0 in let a = u.0 in ground arith),
        HasUniqueKeys-insert before x l (ground arith) u.1,
      ))

pub length-insert :
    {A : Type 0} (before : Item A → Item A → Bool) (x : Item A) (l : List (Item A))
    → length (insert_by_age before x l) ≡ suc (length l)
unfolding insert_by_age
length-insert before x [] = refl
length-insert before x (y ∷ l) =
    if-elim (λ w. length w ≡ suc (suc (length l))) (before x y) (x ∷ y ∷ l) _ (λ _. refl)
      (λ _. ap suc (length-insert before x l))

-- What is kept of a list: some of its items, all of them if it is short enough.
abbrev pub IsPart : {A : Type 0} → List (Item A) → List (Item A) → Type 0
IsPart l l' = (k : List ℕ) → has_key k l' ≡ true → has_key k l ≡ true

has_key-pop_back : {A : Type 0} (l : List (Item A)) → IsPart l (pop_back l)
has_key-pop_back [] k h = h
has_key-pop_back (x ∷ []) k h = cc
has_key-pop_back (x ∷ y ∷ l) k h = elim (Bool-cases (str_eq k x.0)) [
  | inl e ↦ ground arith
  | inr e ↦ let ih = has_key-pop_back (y ∷ l) k (ground arith) in ground arith
]

HasUniqueKeys-pop_back :
    {A : Type 0} (l : List (Item A)) → HasUniqueKeys l → HasUniqueKeys (pop_back l)
HasUniqueKeys-pop_back [] u = u
HasUniqueKeys-pop_back (x ∷ []) u = tt
HasUniqueKeys-pop_back (x ∷ y ∷ l) u = (
  elim (Bool-cases (has_key x.0 (pop_back (y ∷ l)))) [
    | inl e ↦ let z = has_key-pop_back (y ∷ l) x.0 e in absurd (bool_clash _ z u.0)
    | inr e ↦ e
  ],
  HasUniqueKeys-pop_back (y ∷ l) u.1,
)

length-pop_back :
    {A : Type 0} (x : Item A) (l : List (Item A)) → length (pop_back (x ∷ l)) ≡ length l
length-pop_back x [] = refl
length-pop_back x (y ∷ l) = ap suc (length-pop_back y l)

-- The items that are chosen out of `m`, where `l` are chosen already: unique ones, each of them in the
-- whole cache `w`, and at least `n` of them if there are so many.
abbrev pub IsChosen : {A : Type 0} → Map A → ℕ → List (Item A) → Type 0
IsChosen w k l =
    HasUniqueKeys l × ((b : List ℕ) → has_key b l ≡ true → has_key b w ≡ true) × (k ≤ length l)

IsPart-keep_count : {A : Type 0} (n : ℕ) (l : List (Item A)) → IsPart l (keep_count n l)
IsPart-keep_count n l b =
    if-elim (λ v. has_key b v ≡ true → has_key b l ≡ true) (ltb n (length l)) _ _
      (λ _. has_key-pop_back l b) (λ _ h. h)

HasUniqueKeys-keep_count :
    {A : Type 0} (n : ℕ) (l : List (Item A)) → HasUniqueKeys l → HasUniqueKeys (keep_count n l)
HasUniqueKeys-keep_count n l u =
    if-elim HasUniqueKeys (ltb n (length l)) _ _ (λ _. HasUniqueKeys-pop_back l u) (λ _. u)

length-pop : {A : Type 0} (l : List (Item A)) (k : ℕ) → length l ≡ suc k → length (pop_back l) ≡ k
length-pop [] k h = absurd (omega arith)
length-pop (x ∷ l) k h = length-pop_back x l ∙ omega arith

length-keep_count :
    {A : Type 0} (n a c : ℕ) (l : List (Item A))
    → length l ≡ suc a
    → min n (a + suc c) ≤ min n (length (keep_count n l) + c)
length-keep_count n a c l h =
    if-elim (λ v. min n (a + suc c) ≤ min n (length v + c)) (ltb n (length l)) _ _
      (λ e. let q = length-pop l a h in ground arith) (λ e. ground arith)

-- The next item `x`, after which `l'` is chosen: the keys that are chosen are in the whole cache, and
-- not in the rest of it.
module _ {A : Type 0} (x : Item A) (l l' : List (Item A))
    (part : (b : List ℕ) → has_key b l' ≡ true → (str_eq b x.0 || has_key b l) ≡ true) where
  pub chosen-in :
      (w : Map A)
      → has_key x.0 w ≡ true
      → ((b : List ℕ) → has_key b l ≡ true → has_key b w ≡ true)
      → (b : List ℕ) → has_key b l' ≡ true
      → has_key b w ≡ true
  chosen-in w k f b h = elim (Bool-cases (str_eq b x.0)) [
    | inl e ↦ subst (λ y. has_key y w ≡ true) (sym (str_eq-eq b x.0 e)) k
    | inr e ↦ let q = part b h in f b (ground arith)
  ]

  pub chosen-not_in :
      (m : Map A)
      → has_key x.0 m ≡ false
      → (b : List ℕ) → has_key b m ≡ true
      → has_key b l ≡ false
      → has_key b l' ≡ false
  chosen-not_in m v b h q = elim (Bool-cases (has_key b l')) [
    | inr e ↦ e
    | inl e ↦
        let z : str_eq b x.0 ≡ true = (let y = part b e in ground arith) in
        absurd (bool_clash _ h (subst (λ y. has_key y m ≡ false) (sym (str_eq-eq b x.0 z)) v))
  ]

pub IsChosen-oldest_from :
    (w : SymlinkCache) (n : ℕ) (l : List (Item SymlinkCacheEntry)) (m : SymlinkCache)
    → HasUniqueKeys l
    → HasUniqueKeys m
    → ((b : List ℕ) → has_key b l ≡ true → has_key b w ≡ true)
    → ((b : List ℕ) → has_key b m ≡ true → (has_key b w ≡ true) × (has_key b l ≡ false))
    → IsChosen w (min n (length l + length m)) (oldest_from n l m)
unfolding oldest_from
IsChosen-oldest_from w n l [] u v f g = (u, f, omega arith)
IsChosen-oldest_from w n l (x ∷ m) u v f g =
    let hx = g x.0 (let e = str_eq_refl x.0 in ground arith) in
    let l' = keep_count n (insert_by_age sorts_before x l) in
    let part : (b : List ℕ) → has_key b l' ≡ true → (str_eq b x.0 || has_key b l) ≡ true = λ b h.
      sym (has_key-insert sorts_before b x l)
      ∙ IsPart-keep_count n (insert_by_age sorts_before x l) b h in
    let ih =
      IsChosen-oldest_from w n l' m
        (HasUniqueKeys-keep_count n (insert_by_age sorts_before x l)
          (HasUniqueKeys-insert sorts_before x l hx.1 u))
        v.1 (chosen-in x l l' part w hx.0 f)
        (λ b h. (
          (g b (let e = h in ground arith)).0,
          chosen-not_in x l l' part m v.0 b h (g b (let e = h in ground arith)).1,
        )) in
    (
      ih.0,
      ih.1,
      omega (
        arith,
        ih.2,
        length-keep_count n (length l) (length m) (insert_by_age sorts_before x l)
            (length-insert sorts_before x l),
      ),
    )

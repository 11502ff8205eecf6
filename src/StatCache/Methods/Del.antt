-- ===== src/StatCache/Methods/Del.antt =====
-- What `DelStat` removes.
use s3fs_fuse.StatCache.Notruncate.{del_notruncate_cache, is_empty_str, ends_in_slash}
use s3fs_fuse.StatCache.Stat.Found.{find-erase-none}
use s3fs_fuse.StatCache.Stat.{Cache, StatCacheEntry}
use s3fs_fuse.StatCache.Methods.{Environment, del_stat, del_entry, other_key, without_last}
use s3fs_fuse.Base.{
  ℕ, ◌≡◌, refl, sym, ap, ◌∙◌, subst, ◌≢◌, ◌⊎◌, inl, inr, true, false, ◌||◌, Option, none, some,
  List, [], ◌∷◌, ◌++◌, arith, Bool-cases, if-elim, if-true, if-false, Map, str_eq, str_eq-eq, find,
  erase, find-erase, find-erase_other,
}

-- The path with a final "/" and the one without it.
abbrev pub IsTwin : List ℕ → List ℕ → Type 0
IsTwin key twin =
    (key ≡ twin ++ b'/' ∷ []) ⊎ ((ends_in_slash key ≡ false) × (twin ≡ key ++ b'/' ∷ []))

without_last-slash : (s : List ℕ) → without_last (s ++ b'/' ∷ []) ≡ s
without_last-slash [] = refl
without_last-slash (c ∷ []) = refl
without_last-slash (c ∷ d ∷ s) = ap (λ r. c ∷ r) (without_last-slash (d ∷ s))

ends_in_slash-slash : (s : List ℕ) → ends_in_slash (s ++ b'/' ∷ []) ≡ true
ends_in_slash-slash [] = refl
ends_in_slash-slash (c ∷ []) = refl
ends_in_slash-slash (c ∷ d ∷ s) = ends_in_slash-slash (d ∷ s)

other_key-slash : (s : List ℕ) → other_key (s ++ b'/' ∷ []) ≡ s
other_key-slash [] = refl
other_key-slash (c ∷ s) =
    if-true (ends_in_slash (c ∷ s ++ b'/' ∷ [])) _ _ (ends_in_slash-slash (c ∷ s))
    ∙ without_last-slash (c ∷ s)

other_key-twin : (key twin : List ℕ) → key ≢ [] → IsTwin key twin → other_key key ≡ twin
other_key-twin key twin n (inl e) = ap other_key e ∙ other_key-slash twin
other_key-twin [] twin n (inr e) = absurd (n refl)
other_key-twin (c ∷ s) twin n (inr e) = if-false (ends_in_slash (c ∷ s)) _ _ e.0 ∙ sym e.1

module _ {B : Type 0} (env : Environment B) where
  -- `del_entry` by what the search for the key returns.
  del_entry-cases :
      (key : List ℕ) (c : Cache B) (P : Map (StatCacheEntry B) → Type 0)
      → P (erase key c.stat_cache)
      → (find key c.stat_cache ≡ none → P c.stat_cache)
      → P (del_entry env key c).stat_cache
  del_entry-cases key c P h k = go (find key c.stat_cache) refl
    where
      go :
          (r : Option (StatCacheEntry B))
          → find key c.stat_cache ≡ r
          → P
              (elim r as (λ _. Cache B) [
                | none ↦ c
                | some x ↦ record c {
                  stat_cache = erase key c.stat_cache;
                  notruncate_file_cache =
                      (del_notruncate_cache env.mydirname env.mybasename key
                        c.notruncate_file_cache).1;
                }
              ]).stat_cache
      go none e = k e
      go (some x) e = h

  find-del_entry : (key : List ℕ) (c : Cache B) → find key (del_entry env key c).stat_cache ≡ none
  find-del_entry key c =
      del_entry-cases key c (λ m. find key m ≡ none) (find-erase key c.stat_cache) (λ e. e)

  find-del_entry_other :
      (key k : List ℕ) (c : Cache B)
      → k ≢ key
      → find k (del_entry env key c).stat_cache ≡ find k c.stat_cache
  find-del_entry_other key k c n =
      del_entry-cases key c (λ m. find k m ≡ find k c.stat_cache)
        (find-erase_other key k c.stat_cache n) (λ _. refl)

  find-del_entry-none :
      (key k : List ℕ) (c : Cache B)
      → find k c.stat_cache ≡ none
      → find k (del_entry env key c).stat_cache ≡ none
  find-del_entry-none key k c h =
      del_entry-cases key c (λ m. find k m ≡ none) (find-erase-none k key c.stat_cache h) (λ _. h)

  del_stat-other_key :
      (key : List ℕ) (c : Cache B)
      → key ≢ []
      → key ≢ b'/' ∷ []
      → (find key (del_stat env key c).stat_cache ≡ none)
        × (find (other_key key) (del_stat env key c).stat_cache ≡ none)
        × ((k : List ℕ)
            → k ≢ key
            → k ≢ other_key key
            → find k (del_stat env key c).stat_cache ≡ find k c.stat_cache)
  unfolding del_stat
  del_stat-other_key key c n1 n2 =
      let d = del_entry env key c in
      if-elim
        (λ (r : Cache B).
          (find key r.stat_cache ≡ none)
          × (find (other_key key) r.stat_cache ≡ none)
          × ((k : List ℕ)
              → k ≢ key
              → k ≢ other_key key
              → find k r.stat_cache ≡ find k c.stat_cache))
        (is_empty_str key || str_eq key (b'/' ∷ [])) d (del_entry env (other_key key) d)
        (λ e. absurd (elim (Bool-cases (is_empty_str key)) [
          | inl q ↦ n1 (is_empty_str-nil key q)
          | inr q ↦ n2 (str_eq-eq key (b'/' ∷ []) (ground arith))
        ]))
        (λ _. (
          find-del_entry-none (other_key key) key d (find-del_entry key c),
          find-del_entry (other_key key) d,
          λ k m1 m2. find-del_entry_other (other_key key) k d m2 ∙ find-del_entry_other key k c m1,
        ))
    where
      is_empty_str-nil : (s : List ℕ) → is_empty_str s ≡ true → s ≡ []
      is_empty_str-nil [] h = refl
      is_empty_str-nil (x ∷ s) h = cc

  -- After DelStat of a path that is neither empty nor "/", the stat cache has no entry under the path
  -- and none under its twin: the path without its final "/", or with a "/" added if it has none. What
  -- is found under all other paths is as before.
  pub del_stat-find :
      (key twin : List ℕ) (c : Cache B)
      → key ≢ []
      → key ≢ b'/' ∷ []
      → IsTwin key twin
      → (find key (del_stat env key c).stat_cache ≡ none)
        × (find twin (del_stat env key c).stat_cache ≡ none)
        × ((k : List ℕ)
            → k ≢ key
            → k ≢ twin
            → find k (del_stat env key c).stat_cache ≡ find k c.stat_cache)
  del_stat-find key twin c n1 n2 t =
      subst
        (λ o.
          (find key (del_stat env key c).stat_cache ≡ none)
          × (find o (del_stat env key c).stat_cache ≡ none)
          × ((k : List ℕ)
              → k ≢ key
              → k ≢ o
              → find k (del_stat env key c).stat_cache ≡ find k c.stat_cache))
        (other_key-twin key twin n1 t) (del_stat-other_key key c n1 n2)

  -- The part of it that holds of every path.
  pub del_stat-gone : (key : List ℕ) (c : Cache B) → find key (del_stat env key c).stat_cache ≡ none
  unfolding del_stat
  del_stat-gone key c =
      let d = del_entry env key c in
      if-elim (λ (r : Cache B). find key r.stat_cache ≡ none)
        (is_empty_str key || str_eq key (b'/' ∷ [])) d (del_entry env (other_key key) d)
        (λ _. find-del_entry key c)
        (λ _. find-del_entry-none (other_key key) key d (find-del_entry key c))

  pub del_stat-other :
      (key k : List ℕ) (c : Cache B)
      → k ≢ key
      → k ≢ other_key key
      → find k (del_stat env key c).stat_cache ≡ find k c.stat_cache
  unfolding del_stat
  del_stat-other key k c n1 n2 =
      let d = del_entry env key c in
      if-elim (λ (r : Cache B). find k r.stat_cache ≡ find k c.stat_cache)
        (is_empty_str key || str_eq key (b'/' ∷ [])) d (del_entry env (other_key key) d)
        (λ _. find-del_entry_other key k c n1)
        (λ _. find-del_entry_other (other_key key) k d n2 ∙ find-del_entry_other key k c n1)

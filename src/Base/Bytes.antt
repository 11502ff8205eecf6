-- ===== src/Base/Bytes.antt =====
-- Strings as lists of byte values: tables of characters, and tests on all numbers below a bound.
use s3fs_fuse.Base.{}
use Prim.Native.Nat.{ℕ, zero, suc, ◌<◌}
use mathlib.Core.Path.{◌≡◌, subst, sym}
use mathlib.Core.Logic.{inl, inr}
use mathlib.Core.Bool.{Bool, true, false, ◌&&◌, ◌||◌}
use mathlib.Core.List.{List, [], ◌∷◌}
use native.Mathlib.Omega.{arith}
use s3fs_fuse.Base.Tests.{Bool-cases, ◌==◌}

-- A character of a table: the one that a string holds at an index, 0 past its end.
abbrev pub char_at : List ℕ → ℕ → ℕ
char_at [] n = 0
char_at (c ∷ cs) zero = c
char_at (c ∷ cs) (suc n) = char_at cs n

-- A test that holds of the numbers below `n`, so that a finite table is checked by computing it.
abbrev pub all_below : ℕ → (ℕ → Bool) → Bool
all_below zero f = true
all_below (suc n) f = f n && all_below n f

pub all_below-holds : (n : ℕ) (f : ℕ → Bool) → all_below n f ≡ true → (d : ℕ) → d < n → f d ≡ true
all_below-holds zero f h d k = absurd (omega arith)
all_below-holds (suc n) f h d k = elim (Bool-cases (d == n)) [
  | inl e ↦ let q : d ≡ n = ground arith in subst (λ x. f x ≡ true) (sym q) (ground arith)
  | inr e ↦ all_below-holds n f (ground arith) d (ground arith)
]

abbrev pub mem : ℕ → List ℕ → Bool
mem c [] = false
mem c (d ∷ ds) = c == d || mem c ds

-- ===== src/FdInfo/Untreated/Parts.antt =====
-- The parts that are cut from an area follow each other, and are numbered by their place in the file.
use s3fs_fuse.FdInfo.Untreated.{cut_parts}
use s3fs_fuse.FdInfo.{MpPart}
use s3fs_fuse.Base.{
  ℕ, zero, suc, ◌+◌, ◌-◌, ◌*◌, ◌/◌, ◌%◌, ◌≤◌, ◌<◌, ◌≡◌, refl, Bool, false, ◌&&◌, ◌||◌, List, [],
  ◌∷◌, arith, ltb, leb, All, if-elim,
}

-- The byte `b` is in one of the parts.
abbrev pub in_parts : ℕ → List MpPart → Bool
in_parts b [] = false
in_parts b (p ∷ l) = (leb p.start b && ltb b (p.start + p.size)) || in_parts b l

-- A part of the full size with the number of its place.
abbrev pub IsWholePart : ℕ → MpPart → Type 0
IsWholePart m p = (p.size ≡ m) × (p.part_num ≡ p.start / m + 1) × (p.start % m ≡ 0)

pub IsWholePart-cut_parts :
    (fuel m s z : ℕ) → s % m ≡ 0 → 1 ≤ m → All (IsWholePart m) (cut_parts fuel m s z)
unfolding cut_parts
IsWholePart-cut_parts zero m s z h k = tt
IsWholePart-cut_parts (suc fuel) m s z h k =
    let q : (s + m) % m ≡ 0 = grind arith in
    let ih = IsWholePart-cut_parts fuel m (s + m) (z - m) q k in
    if-elim (All (IsWholePart m)) (leb m z) _ [] (λ _. ((refl, refl, h), ih)) (λ _. tt)

-- With enough fuel less than one part is left, and the parts have the bytes before it.
pub in_parts-cut_parts :
    (fuel m s z b : ℕ)
    → 1 ≤ m
    → z ≤ fuel
    → in_parts b (cut_parts fuel m s z) ≡ leb s b && ltb b (s + z / m * m)
unfolding cut_parts
in_parts-cut_parts zero m s z b k h = let q : z / m * m ≡ 0 = grind arith in ground arith
in_parts-cut_parts (suc fuel) m s z b k h =
    let ih = in_parts-cut_parts fuel m (s + m) (z - m) b k (omega arith) in
    if-elim (λ l. in_parts b l ≡ leb s b && ltb b (s + z / m * m)) (leb m z)
      (record { start = s; size = m; part_num = s / m + 1 } ∷ cut_parts fuel m (s + m) (z - m)) []
      (λ e. let q = whole_before m z k (ground arith) in ground arith)
      (λ e. let q : z / m * m ≡ 0 = small m z k (ground arith) in ground arith)
  where
    whole_before : (m z : ℕ) → 1 ≤ m → m ≤ z → z / m * m ≡ (z - m) / m * m + m
    whole_before m z k h = let q : z / m ≡ (z - m) / m + 1 = grind arith in rw q (grind arith)

    small : (m z : ℕ) → 1 ≤ m → z < m → z / m * m ≡ 0
    small m z k h = let q : z / m ≡ 0 = grind arith in rw q (grind arith)

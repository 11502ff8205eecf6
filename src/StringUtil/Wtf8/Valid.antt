-- ===== src/StringUtil/Wtf8/Valid.antt =====
-- What `s3fs_wtf8_encode` returns: whether the string has a byte outside of valid sequences, if there
-- is a result, and whether it has a byte that is not ASCII, if the result is null.
use s3fs_fuse.StringUtil.{is_between}
use s3fs_fuse.StringUtil.Wtf8.{
  sequence, encodes_from, encodes_null, s3fs_wtf8_encode, encode_from, sequence_at, is_two, escape,
  is_three, is_four,
}
use s3fs_fuse.Base.{
  ℕ, zero, suc, ◌≤◌, ◌≡◌, refl, ap, ◌⊎◌, inl, inr, Bool, true, false, ◌||◌, Option, none, some,
  List, [], ◌∷◌, ◌++◌, arith, leb, if-elim, char_at,
}

abbrev pub has_high_byte : List ℕ → Bool
has_high_byte [] = false
has_high_byte (c ∷ s) = leb 128 c || has_high_byte s

-- A sequence of several bytes goes on with a continuation byte.
abbrev GoesOn : ℕ → ℕ → Option ℕ → Type 0
GoesOn c d none = 128 ≤ c
GoesOn c d (some n) = (c ≤ 127) ⊎ ((128 ≤ c) × (128 ≤ d))

GoesOn-sequence : (c d e f : ℕ) → GoesOn c d (sequence c d e f)
unfolding sequence
GoesOn-sequence c d e f =
    if-elim (GoesOn c d) (leb c 127) _ _ (λ h. inl (ground arith))
      (λ h.
        if-elim (GoesOn c d) (is_between 194 245 c) _ _
          (λ h1.
            if-elim (GoesOn c d) (is_two c d) _ _ (λ h2. inr (ground arith, ground arith))
              (λ h2.
                if-elim (GoesOn c d) (is_three c d e) _ _ (λ h3. inr (ground arith, ground arith))
                  (λ h3.
                    if-elim (GoesOn c d) (is_four c d e f) _ _
                      (λ h4. inr (ground arith, ground arith)) (λ h4. ground arith))))
          (λ h1. ground arith))

has_high_byte-first : (s : List ℕ) → 128 ≤ char_at s 0 → has_high_byte s ≡ true
has_high_byte-first [] h = absurd (omega arith)
has_high_byte-first (c ∷ s) h = ground arith

encodes_null-step :
    (c : ℕ) (s : List ℕ) (r : Option ℕ) (rest : Bool)
    → GoesOn c (char_at s 0) r
    → rest ≡ has_high_byte s
    → elim r [ some n ↦ rest | none ↦ true ] ≡ has_high_byte (c ∷ s)
encodes_null-step c s none rest g h = ground arith
encodes_null-step c s (some n) rest (inl g) h = ground arith
encodes_null-step c s (some n) rest (inr g) h = let k = has_high_byte-first s g.1 in ground arith

encodes_null-eq : (s : List ℕ) → encodes_null s ≡ has_high_byte s
unfolding encodes_null
encodes_null-eq [] = refl
encodes_null-eq (c ∷ s) =
    encodes_null-step c s (sequence_at c s) (encodes_null s)
      (GoesOn-sequence c (char_at s 0) (char_at s 1) (char_at s 2)) (encodes_null-eq s)

encode_from-step :
    (c : ℕ) (s : List ℕ) (r : Option ℕ)
    → ((n : ℕ) → encodes_from n s ≡ false → encode_from n s ≡ s)
    → elim r [ some n ↦ encodes_from n s | none ↦ true ] ≡ false
    → elim r [ some n ↦ c ∷ encode_from n s | none ↦ escape c ++ encode_from 0 s ] ≡ c ∷ s
encode_from-step c s none f h = cc
encode_from-step c s (some n) f h = ap (λ x. c ∷ x) (f n h)

encode_from-valid : (s : List ℕ) (n : ℕ) → encodes_from n s ≡ false → encode_from n s ≡ s
unfolding encodes_from encode_from
encode_from-valid [] n h = refl
encode_from-valid (c ∷ s) (suc n) h = ap (λ x. c ∷ x) (encode_from-valid s n h)
encode_from-valid (c ∷ s) zero h = encode_from-step c s (sequence_at c s) (encode_from-valid s) h

-- With a null result s3fs_wtf8_encode returns true exactly if some byte is not ASCII, valid UTF-8 or
-- not, and with a result, if it returns false, the result is the string itself.
pub encodes_null_lem :
    (s : List ℕ)
    → (encodes_null s ≡ has_high_byte s) × (encodes_from 0 s ≡ false → s3fs_wtf8_encode s ≡ s)
encodes_null_lem s = (encodes_null-eq s, encode_from-valid s 0)

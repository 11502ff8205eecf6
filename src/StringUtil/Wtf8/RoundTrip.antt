-- ===== src/StringUtil/Wtf8/RoundTrip.antt =====
-- `s3fs_wtf8_decode` takes back what `s3fs_wtf8_encode` did.
use s3fs_fuse.StringUtil.{AreBytes, is_between}
use s3fs_fuse.StringUtil.Wtf8.{
  escaped_at, encode_from, escaped, sequence, is_continuation, decode_from, s3fs_wtf8_decode,
  sequence_at, code_of_three, escape_base, escape, s3fs_wtf8_encode, is_two, is_three, is_four,
}
use s3fs_fuse.Base.{
  ℕ, zero, suc, ◌+◌, ◌-◌, ◌/◌, ◌%◌, ◌<◌, ◌≡◌, refl, ap, ◌∙◌, subst, ◌≢◌, ◌⊎◌, inl, inr, Bool, true,
  false, Option, none, some, List, [], ◌∷◌, ◌++◌, arith, leb, if-elim, if-true, if-false, char_at,
}

-- A three byte sequence of the range that stands for escaped bytes.
pub has_escape : List ℕ → Bool
has_escape [] = false
has_escape (c ∷ s) =
    let rest = has_escape s in elim (escaped_at c s) [ some b ↦ true | none ↦ rest ]

-- The first `n` bytes, all there, are continuation bytes.
abbrev GoOn : ℕ → List ℕ → Type 0
GoOn zero s = Unit
GoOn (suc n) [] = ⊥
GoOn (suc n) (c ∷ s) = (is_continuation c ≡ true) × GoOn n s

-- What a sequence from `c` on says of the bytes: `c` does not start an escape, unless it is the start
-- of three bytes.
abbrev IsSequence : ℕ → List ℕ → Option ℕ → Type 0
IsSequence c s none = Unit
IsSequence c s (some n) = GoOn n s × ((n ≡ 2) ⊎ (c / 16 ≢ 14))

GoOn-one : (s : List ℕ) → is_continuation (char_at s 0) ≡ true → GoOn 1 s
GoOn-one [] h = cc
GoOn-one (c ∷ s) h = (h, tt)

GoOn-two :
    (s : List ℕ)
    → is_continuation (char_at s 0) ≡ true
    → is_continuation (char_at s 1) ≡ true
    → GoOn 2 s
GoOn-two [] h k = cc
GoOn-two (c ∷ s) h k = (h, GoOn-one s k)

GoOn-three :
    (s : List ℕ)
    → is_continuation (char_at s 0) ≡ true
    → is_continuation (char_at s 1) ≡ true
    → is_continuation (char_at s 2) ≡ true
    → GoOn 3 s
GoOn-three [] h k l = cc
GoOn-three (c ∷ s) h k l = (h, GoOn-two s k l)

IsSequence-sequence_at : (c : ℕ) (s : List ℕ) → IsSequence c s (sequence_at c s)
unfolding sequence
IsSequence-sequence_at c s =
    if-elim (IsSequence c s) (leb c 127) _ _ (λ h. (tt, inr (λ e. ground arith)))
      (λ h.
        if-elim (IsSequence c s) (is_between 194 245 c) _ _
          (λ h1.
            if-elim (IsSequence c s) (is_two c (char_at s 0)) _ _
              (λ h2. (GoOn-one s (ground arith), inr (λ e. ground arith)))
              (λ h2.
                if-elim (IsSequence c s) (is_three c (char_at s 0) (char_at s 1)) _ _
                  (λ h3. (GoOn-two s (ground arith) (ground arith), inl refl))
                  (λ h3.
                    if-elim (IsSequence c s) (is_four c (char_at s 0) (char_at s 1) (char_at s 2)) _
                      _
                      (λ h4. (
                        GoOn-three s (ground arith) (ground arith) (ground arith),
                        inr (λ e. ground arith),
                      ))
                      (λ h4. tt))))
          (λ h1. tt))

escaped-other : (c d e : ℕ) → c / 16 ≢ 14 → escaped c d e ≡ none
unfolding escaped
escaped-other c d e h = if-false _ (some (code_of_three c d e - escape_base)) none (ground arith)

decode-plain :
    (c : ℕ) (s : List ℕ) → escaped_at c s ≡ none → decode_from 0 (c ∷ s) ≡ c ∷ decode_from 0 s
unfolding decode_from
decode-plain c s h = rw (decode_from, h) refl

-- The three bytes of an escape are turned back: checked for each byte by computing.
escaped-escape :
    (c : ℕ)
    → c < 256
    → escaped
        (224 + (escape_base + c) / 4096 % 16)
        (128 + (escape_base + c) / 64 % 64)
        (128 + (escape_base + c) % 64)
      ≡ some c
unfolding escaped
escaped-escape c h = if-true _ _ none (ground arith) ∙ ap some (omega arith)

decode-escape : (c : ℕ) (s : List ℕ) → c < 256 → decode_from 0 (escape c ++ s) ≡ c ∷ decode_from 0 s
unfolding decode_from escape
decode-escape c s h = rw (decode_from, escaped-escape c h) refl

has_escape-rest :
    (c : ℕ) (s : List ℕ)
    → has_escape (c ∷ s) ≡ false
    → (escaped_at c s ≡ none) × (has_escape s ≡ false)
unfolding has_escape
has_escape-rest c s h = go (escaped_at c s) h
  where
    go :
        (r : Option ℕ)
        → elim r [ some b ↦ true | none ↦ has_escape s ] ≡ false
        → (r ≡ none) × (has_escape s ≡ false)
    go none k = (refl, k)
    go (some b) k = cc

-- Bytes that are copied stay where they are.
encode_from-two : (c : ℕ) (s : List ℕ) → GoOn 2 s → escaped_at c (encode_from 2 s) ≡ escaped_at c s
unfolding encode_from
encode_from-two c [] g = absurd g
encode_from-two c (d ∷ []) g = absurd g.1
encode_from-two c (d ∷ e ∷ s) g = refl

module _ (c : ℕ) (s : List ℕ) (hc : c < 256) (he : escaped_at c s ≡ none)
    (ih : (n : ℕ) → GoOn n s → decode_from 0 (encode_from n s) ≡ s) where
  decode-sequence :
      (r : Option ℕ)
      → IsSequence c s r
      → decode_from 0 (elim r [ some n ↦ c ∷ encode_from n s | none ↦ escape c ++ encode_from 0 s ])
        ≡ c ∷ s
  decode-sequence none h = decode-escape c (encode_from 0 s) hc ∙ ap (λ x. c ∷ x) (ih 0 tt)
  decode-sequence (some n) (g, inr k) =
      decode-plain c (encode_from n s) (escaped-other c _ _ k) ∙ ap (λ x. c ∷ x) (ih n g)
  decode-sequence (some n) (g, inl k) =
      let g' : GoOn 2 s = subst (λ m. GoOn m s) k g in
      decode-plain c (encode_from n s)
        (ap (λ m. escaped_at c (encode_from m s)) k ∙ encode_from-two c s g' ∙ he)
      ∙ ap (λ x. c ∷ x) (ih n g)

decode-nil : decode_from 0 [] ≡ []
unfolding decode_from
decode-nil = refl

decode_from-encode_from :
    (s : List ℕ) (n : ℕ)
    → AreBytes s
    → has_escape s ≡ false
    → GoOn n s
    → decode_from 0 (encode_from n s) ≡ s
unfolding encode_from
decode_from-encode_from [] n h k g = decode-nil
decode_from-encode_from (c ∷ s) (suc n) h k g =
    let k' = has_escape-rest c s k in
    decode-plain c (encode_from n s) (escaped-other c _ _ (λ e. let q = g.0 in ground arith))
    ∙ ap (λ x. c ∷ x) (decode_from-encode_from s n h.1 k'.1 g.1)
decode_from-encode_from (c ∷ s) zero h k g =
    let k' = has_escape-rest c s k in
    decode-sequence c s h.0 k'.0 (λ n g'. decode_from-encode_from s n h.1 k'.1 g') (sequence_at c s)
      (IsSequence-sequence_at c s)

-- If no three bytes of the string are a sequence from 0xe000 to 0xe0ff, s3fs_wtf8_decode of the
-- encoded string is the string.
pub s3fs_wtf8_decode-encode :
    (s : List ℕ) → AreBytes s → has_escape s ≡ false → s3fs_wtf8_decode (s3fs_wtf8_encode s) ≡ s
s3fs_wtf8_decode-encode s h k = decode_from-encode_from s 0 h k tt

-- "é" in Latin-1 before an "a", which is not a sequence
pub no_escape : has_escape (233 ∷ 97 ∷ []) ≡ false
unfolding has_escape escaped
no_escape = refl

-- ===== src/StringUtil/Base64/RoundTrip.antt =====
-- `s3fs_decode64` takes back what `s3fs_base64` did, and the length of the encoded string.
use s3fs_fuse.StringUtil.{AreBytes}
use s3fs_fuse.StringUtil.Base64.{
  char_decode64, s3fs_decode64, s3fs_base64, decode_parts, four, base,
}
use s3fs_fuse.Base.{
  ℕ, ◌+◌, ◌*◌, ◌/◌, ◌%◌, ◌<◌, ◌≡◌, refl, ap, ◌∙◌, List, [], ◌∷◌, ◌++◌, arith, ◌==◌, ==_iff,
  if-false, char_at, all_below-holds,
}

char_decode64-base : (d : ℕ) → d < 65 → char_decode64 (char_at base d) ≡ d
unfolding char_decode64
char_decode64-base d h =
    (==_iff _ d).0 (all_below-holds 65 (λ k. char_decode64 (char_at base k) == k) refl d h)

decode-four :
    (a b c d : ℕ) (s : List ℕ)
    → a < 65
    → b < 65
    → c < 65
    → d < 65
    → s3fs_decode64 (four a b c d ++ s) ≡ decode_parts a b c d (s3fs_decode64 s)
unfolding s3fs_decode64
decode-four a b c d s ha hb hc hd =
    rw
      (
        char_decode64-base a ha,
        char_decode64-base b hb,
        char_decode64-base c hc,
        char_decode64-base d hd,
      )
      refl

-- A list of bytes that are equal one by one.
cons_eq : (a b : ℕ) (s t : List ℕ) → a ≡ b → s ≡ t → a ∷ s ≡ b ∷ t
cons_eq a b s t p q = rw (p, q) refl

module _ (x y z : ℕ) (s : List ℕ) (hx : x < 256) (hy : y < 256) (hz : z < 256) where
  decode_parts-one : decode_parts (x / 4) (x % 4 * 16) 64 64 s ≡ x ∷ []
  unfolding decode_parts
  decode_parts-one = cons_eq _ x _ [] (omega arith) refl

  decode_parts-two : decode_parts (x / 4) (x % 4 * 16 + y / 16) (y % 16 * 4) 64 s ≡ x ∷ y ∷ []
  unfolding decode_parts
  decode_parts-two =
      cons_eq _ x _ (y ∷ []) (omega arith)
        (if-false (64 == y % 16 * 4) [] _ (ground arith) ∙ cons_eq _ y _ [] (omega arith) refl)

  decode_parts-three :
      decode_parts (x / 4) (x % 4 * 16 + y / 16) (y % 16 * 4 + z / 64) (z % 64) s ≡ x ∷ y ∷ z ∷ s
  unfolding decode_parts
  decode_parts-three = cons_eq _ x _ (y ∷ z ∷ s) (omega arith) (
      if-false (64 == y % 16 * 4 + z / 64) [] _ (ground arith)
      ∙ cons_eq _ y _ (z ∷ s) (omega arith)
          (if-false (64 == z % 64) [] _ (ground arith) ∙ cons_eq _ z s s (omega arith) refl))

-- s3fs_decode64 of the encoding of some bytes is those bytes.
pub s3fs_decode64-base64 : (s : List ℕ) → AreBytes s → s3fs_decode64 (s3fs_base64 s) ≡ s
unfolding s3fs_base64 s3fs_decode64
s3fs_decode64-base64 [] h = refl
s3fs_decode64-base64 (x ∷ []) h =
    decode-four (x / 4) (x % 4 * 16) 64 64 [] (omega arith) (omega arith) (omega arith)
      (omega arith)
    ∙ decode_parts-one x 0 0 [] h.0 (omega arith) (omega arith)
s3fs_decode64-base64 (x ∷ y ∷ []) h =
    decode-four (x / 4) (x % 4 * 16 + y / 16) (y % 16 * 4) 64 [] (omega arith) (omega arith)
      (omega arith) (omega arith)
    ∙ decode_parts-two x y 0 [] h.0 h.1.0 (omega arith)
s3fs_decode64-base64 (x ∷ y ∷ z ∷ s) h =
    let hx = h.0 in
    let hy = h.1.0 in
    let hz = h.1.1.0 in
    decode-four (x / 4) (x % 4 * 16 + y / 16) (y % 16 * 4 + z / 64) (z % 64) (s3fs_base64 s)
      (omega arith) (omega arith) (omega arith) (omega arith)
    ∙ decode_parts-three x y z (s3fs_decode64 (s3fs_base64 s)) hx hy hz
    ∙ ap (λ w. x ∷ y ∷ z ∷ w) (s3fs_decode64-base64 s h.1.1.1)

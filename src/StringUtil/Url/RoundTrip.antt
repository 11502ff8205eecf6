-- ===== src/StringUtil/Url/RoundTrip.antt =====
-- `urlDecode` takes back what the URL encoding did, and the encoding of an encoded string.

use s3fs_fuse.StringUtil.Url.{
  is_kept, raw_url_encode, url_decode, encode_char, hex_value, url_encode_query, s3fs_hex,
  hex_alphabet_upper, s3fs_hex_upper, url_encode_general, encode_query_except_chars,
  encode_general_except_chars,
}
use s3fs_fuse.StringUtil.{AreBytes, percent}
use s3fs_fuse.Base.{
  ℕ, ◌+◌, ◌*◌, ◌/◌, ◌%◌, ◌<◌, ◌≡◌, refl, ap, ◌∙◌, subst, ◌≢◌, true, false, not, List, [], ◌∷◌, ◌++◌,
  arith, ◌==◌, ==_iff, All, All-append, if-elim, if-true, char_at, all_below-holds, mem,
}

-- Each digit is read back: the alphabet is checked by computing.
hex_value-digit : (d : ℕ) → d < 16 → hex_value (char_at hex_alphabet_upper d) ≡ d
unfolding hex_value
hex_value-digit d h =
    (==_iff _ d).0
      (all_below-holds 16 (λ k. hex_value (char_at hex_alphabet_upper k) == k) refl d h)

url_decode-kept : (c : ℕ) (s : List ℕ) → c ≢ percent → url_decode (c ∷ s) ≡ c ∷ url_decode s
unfolding url_decode
url_decode-kept c [] h = if-true (not (c == percent)) (c ∷ []) [] (ground arith)
url_decode-kept c (d ∷ []) h =
    if-true (not (c == percent)) (c ∷ url_decode (d ∷ [])) [] (ground arith)
url_decode-kept c (d ∷ e ∷ s) h =
    let k : (c == percent) ≡ false = ground arith in rw (url_decode, k) refl

url_decode-escape :
    (d e : ℕ) (s : List ℕ)
    → url_decode (percent ∷ d ∷ e ∷ s) ≡ (hex_value d * 16 + hex_value e) ∷ url_decode s
unfolding url_decode
url_decode-escape d e s = refl

decode-encode_char :
    (except_chars : List ℕ) (c : ℕ) (s : List ℕ)
    → mem percent except_chars ≡ false
    → c < 256
    → url_decode (encode_char except_chars c ++ s) ≡ c ∷ url_decode s
unfolding encode_char s3fs_hex is_kept
decode-encode_char ex c s h k =
    if-elim (λ w. url_decode (w ++ s) ≡ c ∷ url_decode s) (is_kept ex c) (c ∷ []) _
      (λ e. url_decode-kept c s (λ q. not_kept (subst (λ x. is_kept ex x ≡ true) q e)))
      (λ e.
        url_decode-escape (char_at hex_alphabet_upper (c / 16))
          (char_at hex_alphabet_upper (c % 16)) s
        ∙ rw (hex_value-digit (c / 16) (omega arith), hex_value-digit (c % 16) (omega arith))
            (ap (λ x. x ∷ url_decode s) (omega arith)))
  where
    not_kept : is_kept ex percent ≡ true → ⊥
    not_kept e = ground arith

-- If `%` is encoded, urlDecode of an encoded string is the string.
pub url_decode-raw_url_encode :
    (except_chars s : List ℕ)
    → mem percent except_chars ≡ false
    → AreBytes s
    → url_decode (raw_url_encode except_chars s) ≡ s
unfolding raw_url_encode url_decode
url_decode-raw_url_encode ex [] h k = refl
url_decode-raw_url_encode ex (c ∷ s) h k =
    decode-encode_char ex c (raw_url_encode ex s) h k.0
    ∙ ap (λ x. c ∷ x) (url_decode-raw_url_encode ex s h k.1)

raw_url_encode-kept : (ex s : List ℕ) → All (λ c. is_kept ex c ≡ true) s → raw_url_encode ex s ≡ s
unfolding raw_url_encode encode_char
raw_url_encode-kept ex [] h = refl
raw_url_encode-kept ex (c ∷ s) h =
    rw (if-true (is_kept ex c) (c ∷ []) (percent ∷ s3fs_hex_upper (c ∷ [])) h.0)
      (ap (λ x. c ∷ x) (raw_url_encode-kept ex s h.1))

is_kept-hex : (d : ℕ) → d < 16 → is_kept [] (char_at hex_alphabet_upper d) ≡ true
unfolding is_kept
is_kept-hex = all_below-holds 16 (λ k. is_kept [] (char_at hex_alphabet_upper k)) refl

is_kept-more : (ex : List ℕ) (c : ℕ) → is_kept [] c ≡ true → is_kept ex c ≡ true
unfolding is_kept
is_kept-more ex c h = ground arith

-- The encoded string has kept characters and `%` only.
are_kept-raw_url_encode :
    (ex ex' s : List ℕ)
    → mem percent ex' ≡ true
    → ((c : ℕ) → mem c ex ≡ true → mem c ex' ≡ true)
    → AreBytes s
    → All (λ c. is_kept ex' c ≡ true) (raw_url_encode ex s)
unfolding raw_url_encode encode_char s3fs_hex is_kept
are_kept-raw_url_encode ex ex' [] p h k = tt
are_kept-raw_url_encode ex ex' (c ∷ s) p h k =
    All-append (λ c. is_kept ex' c ≡ true) (encode_char ex c) (raw_url_encode ex s)
      (if-elim (All (λ c. is_kept ex' c ≡ true)) (is_kept ex c) _ _
        (λ e. (let q = h c in ground arith, tt))
        (λ e. (
          ground arith,
          (
            is_kept-more ex' _ (is_kept-hex (c / 16) (let b = k.0 in omega arith)),
            (is_kept-more ex' _ (is_kept-hex (c % 16) (omega arith)), tt),
          ),
        )))
      (are_kept-raw_url_encode ex ex' s p h k.1)

-- urlEncodeQuery does not change a string that urlEncodeGeneral encoded.
pub url_encode_query-general :
    (s : List ℕ) → AreBytes s → url_encode_query (url_encode_general s) ≡ url_encode_general s
url_encode_query-general s h =
    raw_url_encode-kept encode_query_except_chars (url_encode_general s) (
      are_kept-raw_url_encode encode_general_except_chars encode_query_except_chars s refl
        (λ c k. ground arith) h)

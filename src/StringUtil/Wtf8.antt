-- ===== src/StringUtil/Wtf8.antt =====
-- `s3fs_wtf8_encode` and `s3fs_wtf8_decode` of src/string_util.cpp. A string is the bytes before the
-- 0 that ends it; the bytes that a function looks at behind the current one are 0 past the end. A
-- round that copies several bytes is a number of rounds here that each copy one: the first argument
-- counts the bytes of the sequence that are left.
use s3fs_fuse.StringUtil.{is_between}
pub mod Valid
pub mod RoundTrip
use s3fs_fuse.Base.{
  ℕ, zero, suc, ◌+◌, ◌-◌, ◌*◌, ◌/◌, ◌%◌, Bool, true, false, not, ◌&&◌, Option, none, some, List, [],
  ◌∷◌, ◌++◌, leb, ◌==◌, if◌then◌else◌, char_at,
}

abbrev pub escape_base : ℕ
escape_base = 57344

abbrev pub is_continuation : ℕ → Bool
is_continuation c = c / 64 == 2

-- Three bytes, and four, as a code point.
abbrev pub code_of_three : ℕ → ℕ → ℕ → ℕ
code_of_three c d e = c % 16 * 4096 + d % 64 * 64 + e % 64

abbrev pub code_of_four : ℕ → ℕ → ℕ → ℕ → ℕ
code_of_four c d e f = c % 8 * 262144 + d % 64 * 4096 + e % 64 * 64 + f % 64

abbrev pub is_two : ℕ → ℕ → Bool
is_two c d = c / 32 == 6 && is_continuation d

-- Not overlong and not from 0xd800 to 0xd8ff.
abbrev pub is_three : ℕ → ℕ → ℕ → Bool
is_three c d e =
    c / 16 == 14
    && is_continuation d
    && is_continuation e
    && leb 2048 (code_of_three c d e)
    && not (leb 55296 (code_of_three c d e) && leb (code_of_three c d e) 55551)

abbrev pub is_four : ℕ → ℕ → ℕ → ℕ → Bool
is_four c d e f =
    c / 8 == 30
    && is_continuation d
    && is_continuation e
    && is_continuation f
    && leb 65536 (code_of_four c d e f)
    && leb (code_of_four c d e f) 1114111

-- The bytes that follow `c` in a valid sequence, `none` if none starts here. `d`, `e` and `f` are
-- the next bytes.
pub sequence : ℕ → ℕ → ℕ → ℕ → Option ℕ
sequence c d e f =
    if leb c 127
    then some 0
    else if is_between 194 245 c
    then (if is_two c d
        then some 1
        else if is_three c d e
        then some 2
        else if is_four c d e f
        then some 3
        else none)
    else none

abbrev pub sequence_at : ℕ → List ℕ → Option ℕ
sequence_at c s = sequence c (char_at s 0) (char_at s 1) (char_at s 2)

-- The code point `escape_base + c` in three bytes.
pub escape : ℕ → List ℕ
escape c =
    (224 + (escape_base + c) / 4096 % 16)
    ∷ (128 + (escape_base + c) / 64 % 64)
    ∷ (128 + (escape_base + c) % 64)
    ∷ []

-- The result of `s3fs_wtf8_encode`.
pub encode_from : ℕ → List ℕ → List ℕ
encode_from n [] = []
encode_from (suc n) (c ∷ s) = c ∷ encode_from n s
encode_from zero (c ∷ s) = elim (sequence_at c s) [
  | some n ↦ c ∷ encode_from n s
  | none ↦ escape c ++ encode_from 0 s
]

abbrev pub s3fs_wtf8_encode : List ℕ → List ℕ
s3fs_wtf8_encode = encode_from 0

-- The return value of `s3fs_wtf8_encode` with a result.
pub encodes_from : ℕ → List ℕ → Bool
encodes_from n [] = false
encodes_from (suc n) (c ∷ s) = encodes_from n s
encodes_from zero (c ∷ s) = elim (sequence_at c s) [ some n ↦ encodes_from n s | none ↦ true ]

-- The return value of `s3fs_wtf8_encode` with a null result: then `s` does not move over the bytes
-- of a valid sequence.
pub encodes_null : List ℕ → Bool
encodes_null [] = false
encodes_null (c ∷ s) =
    let rest = encodes_null s in elim (sequence_at c s) [ some n ↦ rest | none ↦ true ]

-- A three byte tuple that `s3fs_wtf8_decode` turns back, with its value.
pub escaped : ℕ → ℕ → ℕ → Option ℕ
escaped c d e =
    if c / 16 == 14
      && is_continuation d
      && is_continuation e
      && leb escape_base (code_of_three c d e)
      && leb (code_of_three c d e) (escape_base + 255)
    then some (code_of_three c d e - escape_base)
    else none

abbrev pub escaped_at : ℕ → List ℕ → Option ℕ
escaped_at c s = escaped c (char_at s 0) (char_at s 1)

-- The result of `s3fs_wtf8_decode`; the first argument counts the bytes to skip.
pub decode_from : ℕ → List ℕ → List ℕ
decode_from n [] = []
decode_from (suc n) (c ∷ s) = decode_from n s
decode_from zero (c ∷ s) = elim (escaped_at c s) [
  | some b ↦ b ∷ decode_from 2 s
  | none ↦ c ∷ decode_from 0 s
]

abbrev pub s3fs_wtf8_decode : List ℕ → List ℕ
s3fs_wtf8_decode = decode_from 0

-- The return value of `s3fs_wtf8_decode`.
pub decodes_from : ℕ → List ℕ → Bool
decodes_from n [] = false
decodes_from (suc n) (c ∷ s) = decodes_from n s
decodes_from zero (c ∷ s) =
    let rest = decodes_from 0 s in elim (escaped_at c s) [ some b ↦ true | none ↦ rest ]

-- ===== src/StringUtil/Base64.antt =====
-- `s3fs_base64` and `s3fs_decode64` of src/string_util.cpp. Masks and shifts of bytes are written
-- with `/`, `%` and `*`; the parts that are joined with `|` have no bit in common.
use s3fs_fuse.StringUtil.{is_upper, is_lower, is_digit}
pub mod RoundTrip
use s3fs_fuse.Base.{ℕ, ◌+◌, ◌-◌, ◌*◌, ◌/◌, ◌%◌, List, [], ◌∷◌, ◌++◌, ◌==◌, if◌then◌else◌, char_at}

-- "ABCDEFGHIJKLMNOPQRSTUVWXYZabcdefghijklmnopqrstuvwxyz0123456789+/="
abbrev pub base : List ℕ
base =
    65 ∷ 66 ∷ 67 ∷ 68 ∷ 69 ∷ 70 ∷ 71 ∷ 72 ∷ 73 ∷ 74 ∷ 75 ∷ 76 ∷ 77 ∷ 78 ∷ 79 ∷ 80 ∷ 81 ∷ 82 ∷ 83
    ∷ 84 ∷ 85 ∷ 86 ∷ 87 ∷ 88 ∷ 89 ∷ 90 ∷ 97 ∷ 98 ∷ 99 ∷ 100 ∷ 101 ∷ 102 ∷ 103 ∷ 104 ∷ 105 ∷ 106
    ∷ 107 ∷ 108 ∷ 109 ∷ 110 ∷ 111 ∷ 112 ∷ 113 ∷ 114 ∷ 115 ∷ 116 ∷ 117 ∷ 118 ∷ 119 ∷ 120 ∷ 121 ∷ 122
    ∷ 48 ∷ 49 ∷ 50 ∷ 51 ∷ 52 ∷ 53 ∷ 54 ∷ 55 ∷ 56 ∷ 57 ∷ 43 ∷ 47 ∷ 61 ∷ []

-- The four characters of `parts`.
abbrev pub four : ℕ → ℕ → ℕ → ℕ → List ℕ
four a b c d = char_at base a ∷ char_at base b ∷ char_at base c ∷ char_at base d ∷ []

-- Index 64 is the `=` for the bytes that are missing at the end.
pub s3fs_base64 : List ℕ → List ℕ
s3fs_base64 [] = []
s3fs_base64 (x ∷ []) = four (x / 4) (x % 4 * 16) 64 64
s3fs_base64 (x ∷ y ∷ []) = four (x / 4) (x % 4 * 16 + y / 16) (y % 16 * 4) 64
s3fs_base64 (x ∷ y ∷ z ∷ s) =
    four (x / 4) (x % 4 * 16 + y / 16) (y % 16 * 4 + z / 64) (z % 64) ++ s3fs_base64 s

-- `UCHAR_MAX`, 255, for a character that is not in the table.
pub char_decode64 : ℕ → ℕ
char_decode64 ch =
    if is_upper ch
    then ch - 65
    else if is_lower ch
    then ch - 97 + 26
    else if is_digit ch
    then ch - 48 + 52
    else if ch == 43
    then 62
    else if ch == 47
    then 63
    else if ch == 61
    then 64
    else 255

-- What one round appends for its four parts, before `rest` of the later rounds.
pub decode_parts : ℕ → ℕ → ℕ → ℕ → List ℕ → List ℕ
decode_parts a b c d rest =
    (a * 4 % 256 + b / 16 % 4)
    ∷ (if 64 == c
        then []
        else (b * 16 % 256 + c / 4 % 16) ∷ (if 64 == d then [] else (c * 64 % 256 + d % 64) ∷ rest))

pub s3fs_decode64 : List ℕ → List ℕ
unfolding decode_parts
s3fs_decode64 [] = []
s3fs_decode64 (a ∷ []) = decode_parts (char_decode64 a) 64 64 64 []
s3fs_decode64 (a ∷ b ∷ []) = decode_parts (char_decode64 a) (char_decode64 b) 64 64 []
s3fs_decode64 (a ∷ b ∷ c ∷ []) =
    decode_parts (char_decode64 a) (char_decode64 b) (char_decode64 c) 64 []
s3fs_decode64 (a ∷ b ∷ c ∷ d ∷ s) =
    decode_parts (char_decode64 a) (char_decode64 b) (char_decode64 c) (char_decode64 d)
      (s3fs_decode64 s)

-- ===== src/StringUtil/Url.antt =====
-- `s3fs_hex` of src/string_util.cpp and the URL encoding that uses it: `rawUrlEncode`, the three functions that call it, and
-- `urlDecode`.
pub mod RoundTrip
use s3fs_fuse.StringUtil.{percent, is_digit, is_lower, is_upper, is_between}
use s3fs_fuse.Base.{
  ℕ, ◌+◌, ◌-◌, ◌*◌, ◌/◌, ◌%◌, Bool, true, false, not, ◌||◌, List, [], ◌∷◌, ◌++◌, ◌==◌,
  if◌then◌else◌, char_at, mem,
}

-- "0123456789abcdef"
abbrev pub hex_alphabet_lower : List ℕ
hex_alphabet_lower =
    48 ∷ 49 ∷ 50 ∷ 51 ∷ 52 ∷ 53 ∷ 54 ∷ 55 ∷ 56 ∷ 57 ∷ 97 ∷ 98 ∷ 99 ∷ 100 ∷ 101 ∷ 102 ∷ []

-- "0123456789ABCDEF"
abbrev pub hex_alphabet_upper : List ℕ
hex_alphabet_upper =
    48 ∷ 49 ∷ 50 ∷ 51 ∷ 52 ∷ 53 ∷ 54 ∷ 55 ∷ 56 ∷ 57 ∷ 65 ∷ 66 ∷ 67 ∷ 68 ∷ 69 ∷ 70 ∷ []

pub s3fs_hex : List ℕ → List ℕ → List ℕ
s3fs_hex alphabet [] = []
s3fs_hex alphabet (c ∷ s) =
    char_at alphabet (c / 16) ∷ char_at alphabet (c % 16) ∷ s3fs_hex alphabet s

abbrev pub s3fs_hex_lower : List ℕ → List ℕ
s3fs_hex_lower = s3fs_hex hex_alphabet_lower

abbrev pub s3fs_hex_upper : List ℕ → List ℕ
s3fs_hex_upper = s3fs_hex hex_alphabet_upper

-- ".-_~", ".-_~/" and ".-_~=&%"
abbrev pub encode_general_except_chars : List ℕ
encode_general_except_chars = 46 ∷ 45 ∷ 95 ∷ 126 ∷ []

abbrev pub encode_path_except_chars : List ℕ
encode_path_except_chars = 46 ∷ 45 ∷ 95 ∷ 126 ∷ 47 ∷ []

abbrev pub encode_query_except_chars : List ℕ
encode_query_except_chars = 46 ∷ 45 ∷ 95 ∷ 126 ∷ 61 ∷ 38 ∷ 37 ∷ []

-- `strchr` finds the 0 that ends its string too.
pub is_kept : List ℕ → ℕ → Bool
is_kept except_chars c = mem c except_chars || c == 0 || is_lower c || is_upper c || is_digit c

pub encode_char : List ℕ → ℕ → List ℕ
encode_char except_chars c =
    if is_kept except_chars c then c ∷ [] else percent ∷ s3fs_hex_upper (c ∷ [])

pub raw_url_encode : List ℕ → List ℕ → List ℕ
raw_url_encode except_chars [] = []
raw_url_encode except_chars (c ∷ s) = encode_char except_chars c ++ raw_url_encode except_chars s

abbrev pub url_encode_general : List ℕ → List ℕ
url_encode_general = raw_url_encode encode_general_except_chars

abbrev pub url_encode_path : List ℕ → List ℕ
url_encode_path = raw_url_encode encode_path_except_chars

abbrev pub url_encode_query : List ℕ → List ℕ
url_encode_query = raw_url_encode encode_query_except_chars

-- The value of a hexadecimal digit, 0 for any other character.
pub hex_value : ℕ → ℕ
hex_value c =
    if is_digit c
    then c - 48
    else if is_between 65 70 c
    then c - 65 + 10
    else if is_between 97 102 c
    then c - 97 + 10
    else 0

-- A `%` that less than two characters follow ends the result.
pub url_decode : List ℕ → List ℕ
url_decode [] = []
url_decode (c ∷ []) = if not (c == percent) then c ∷ [] else []
url_decode (c ∷ d ∷ []) =
    let rest = url_decode (d ∷ []) in if not (c == percent) then c ∷ rest else []
url_decode (c ∷ d ∷ e ∷ s) = elim (c == percent) [
  | true ↦ (hex_value d * 16 + hex_value e) ∷ url_decode s
  | false ↦ c ∷ url_decode (d ∷ e ∷ s)
]

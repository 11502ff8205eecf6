-- ===== src/StringUtil.antt =====
-- The byte strings of src/string_util.cpp, as lists of the numbers below 256, and the codes of the
-- characters that the functions there test for.
pub mod Trim
pub mod Url
pub mod CrCode
pub mod Base64
pub mod OptionTime
pub mod Quotes
pub mod Wtf8
mod Tests
use s3fs_fuse.Base.{ℕ, ◌<◌, Bool, ◌&&◌, List, leb, All}

-- Bytes are numbers below 256.
abbrev pub AreBytes : List ℕ → Type 0
AreBytes = All (λ c. c < 256)

abbrev pub percent : ℕ
percent = 37

abbrev pub quote : ℕ
quote = 34

-- `'0' <= c && c <= '9'`, and so for the letters.
abbrev pub is_between : ℕ → ℕ → ℕ → Bool
is_between a b c = leb a c && leb c b

abbrev pub is_digit : ℕ → Bool
is_digit = is_between 48 57

abbrev pub is_upper : ℕ → Bool
is_upper = is_between 65 90

abbrev pub is_lower : ℕ → Bool
is_lower = is_between 97 122

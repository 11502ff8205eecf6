-- ===== src/StringUtil/Tests.antt =====
-- The theorems on strings at concrete strings.
use s3fs_fuse.StringUtil.CrCode.RoundTrip.{get_decoded_cr_code-encoded}
use s3fs_fuse.StringUtil.Wtf8.RoundTrip.{s3fs_wtf8_decode-encode, no_escape}
use s3fs_fuse.StringUtil.Url.RoundTrip.{url_decode-raw_url_encode}
use s3fs_fuse.StringUtil.Base64.RoundTrip.{s3fs_decode64-base64}
use s3fs_fuse.StringUtil.Wtf8.Valid.{has_high_byte, encodes_null_lem}
use s3fs_fuse.StringUtil.Wtf8.{s3fs_wtf8_decode, encodes_null, s3fs_wtf8_encode, encodes_from}
use s3fs_fuse.StringUtil.{AreBytes}
use s3fs_fuse.StringUtil.Base64.{s3fs_decode64, s3fs_base64}
use s3fs_fuse.StringUtil.CrCode.{get_decoded_cr_code, get_encoded_cr_code, cr}
use s3fs_fuse.StringUtil.OptionTime.Format.{Field}
use s3fs_fuse.StringUtil.Url.{url_decode, url_encode_path, encode_path_except_chars}
use s3fs_fuse.Base.{ℕ, ◌≡◌, refl, false, List, [], ◌∷◌, arith, mem}

-- "a b/%"
abbrev sample : List ℕ
sample = 97 ∷ 32 ∷ 98 ∷ 47 ∷ 37 ∷ []

sample-AreBytes : AreBytes sample
sample-AreBytes = (omega arith, (omega arith, (omega arith, (omega arith, (omega arith, tt)))))

url_decode-raw_url_encode_example : url_decode (url_encode_path sample) ≡ sample
url_decode-raw_url_encode_example =
    url_decode-raw_url_encode encode_path_except_chars sample refl sample-AreBytes

get_decoded_cr_code-encoded_example :
    (get_decoded_cr_code (get_encoded_cr_code (37 ∷ 13 ∷ 97 ∷ [])) ≡ 37 ∷ 13 ∷ 97 ∷ [])
    × (mem cr (get_encoded_cr_code (37 ∷ 13 ∷ 97 ∷ [])) ≡ false)
get_decoded_cr_code-encoded_example = get_decoded_cr_code-encoded (37 ∷ 13 ∷ 97 ∷ [])

s3fs_decode64-base64_example : s3fs_decode64 (s3fs_base64 sample) ≡ sample
s3fs_decode64-base64_example = s3fs_decode64-base64 sample sample-AreBytes

-- " \t\r\n"
abbrev spaces : List ℕ
spaces = 32 ∷ 9 ∷ 13 ∷ 10 ∷ []

-- " a b "
abbrev padded : List ℕ
padded = 32 ∷ 97 ∷ 32 ∷ 98 ∷ 32 ∷ []

-- "9h30m"
abbrev nine_hours : Field
nine_hours = record { digits = 57 ∷ []; unit_type = 4 }

abbrev thirty_minutes : Field
thirty_minutes = record { digits = 51 ∷ 48 ∷ []; unit_type = 5 }

-- "é" in UTF-8, and in Latin-1 before an "a"
encodes_null_lem_example :
    (encodes_null (195 ∷ 169 ∷ []) ≡ has_high_byte (195 ∷ 169 ∷ []))
    × (encodes_from 0 (195 ∷ 169 ∷ []) ≡ false → s3fs_wtf8_encode (195 ∷ 169 ∷ []) ≡ 195 ∷ 169 ∷ [])
encodes_null_lem_example = encodes_null_lem (195 ∷ 169 ∷ [])

s3fs_wtf8_decode-encode_example :
    s3fs_wtf8_decode (s3fs_wtf8_encode (233 ∷ 97 ∷ [])) ≡ 233 ∷ 97 ∷ []
s3fs_wtf8_decode-encode_example =
    s3fs_wtf8_decode-encode (233 ∷ 97 ∷ []) (omega arith, (omega arith, tt)) no_escape

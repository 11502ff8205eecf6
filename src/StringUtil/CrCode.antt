-- ===== src/StringUtil/CrCode.antt =====
-- `get_encoded_cr_code` and `get_decoded_cr_code` of src/string_util.cpp, for a string that is not
-- null. The source copies the characters up to the next one to treat at once; here they go one by
-- one.
use s3fs_fuse.StringUtil.{percent}
pub mod RoundTrip
use s3fs_fuse.Base.{ℕ, true, false, ◌&&◌, List, [], ◌∷◌, ◌==◌, if◌then◌else◌}

abbrev pub cr : ℕ
cr = 13

-- "%45" for `%` and "%0D" for CR
pub get_encoded_cr_code : List ℕ → List ℕ
get_encoded_cr_code [] = []
get_encoded_cr_code (c ∷ s) =
    let rest = get_encoded_cr_code s in
    if c == percent
    then percent ∷ 52 ∷ 53 ∷ rest
    else if c == cr
    then percent ∷ 48 ∷ 68 ∷ rest
    else c ∷ rest

-- Any other `%` stands for itself.
pub get_decoded_cr_code : List ℕ → List ℕ
get_decoded_cr_code [] = []
get_decoded_cr_code (c ∷ []) = c ∷ []
get_decoded_cr_code (c ∷ d ∷ []) =
    let rest = get_decoded_cr_code (d ∷ []) in
    if c == percent && d == percent then percent ∷ [] else c ∷ rest
get_decoded_cr_code (c ∷ d ∷ e ∷ s) = elim (c == percent) [
  | false ↦ c ∷ get_decoded_cr_code (d ∷ e ∷ s)
  | true ↦ elim (d == 52 && e == 53) [
    | true ↦ percent ∷ get_decoded_cr_code s
    | false ↦ elim (d == 48 && e == 68) [
      | true ↦ cr ∷ get_decoded_cr_code s
      | false ↦ elim (d == percent) [
        | true ↦ percent ∷ get_decoded_cr_code (e ∷ s)
        | false ↦ percent ∷ get_decoded_cr_code (d ∷ e ∷ s)
      ]
    ]
  ]
]

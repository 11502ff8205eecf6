-- ===== src/StringUtil/CrCode/RoundTrip.antt =====
-- `get_decoded_cr_code` takes back what `get_encoded_cr_code` did.
use s3fs_fuse.StringUtil.{percent}
use s3fs_fuse.StringUtil.CrCode.{get_decoded_cr_code, get_encoded_cr_code, cr}
use s3fs_fuse.Base.{
  ℕ, ◌≡◌, refl, ap, ◌∙◌, ◌≢◌, false, ◌&&◌, List, [], ◌∷◌, arith, ◌==◌, if-elim, if-false, mem,
}

decoded-plain :
    (c : ℕ) (s : List ℕ) → c ≢ percent → get_decoded_cr_code (c ∷ s) ≡ c ∷ get_decoded_cr_code s
unfolding get_decoded_cr_code
decoded-plain c [] h = refl
decoded-plain c (d ∷ []) h =
    if-false (c == percent && d == percent) (percent ∷ []) (c ∷ get_decoded_cr_code (d ∷ []))
      (ground arith)
decoded-plain c (d ∷ e ∷ s) h =
    let k : (c == percent) ≡ false = ground arith in rw (get_decoded_cr_code, k) refl

decode-encode : (s : List ℕ) → get_decoded_cr_code (get_encoded_cr_code s) ≡ s
unfolding get_encoded_cr_code get_decoded_cr_code
decode-encode [] = refl
decode-encode (c ∷ s) =
    let ih = decode-encode s in
    if-elim (λ w. get_decoded_cr_code w ≡ c ∷ s) (c == percent) _ _
      (λ e. let q : percent ≡ c = ground arith in ap (λ x. percent ∷ x) ih ∙ ap (λ x. x ∷ s) q)
      (λ e.
        if-elim (λ w. get_decoded_cr_code w ≡ c ∷ s) (c == cr) _ _
          (λ e1. let q : cr ≡ c = ground arith in ap (λ x. cr ∷ x) ih ∙ ap (λ x. x ∷ s) q)
          (λ e1.
            decoded-plain c (get_encoded_cr_code s) (λ q. (ground arith)) ∙ ap (λ x. c ∷ x) ih))

mem-get_encoded_cr_code : (s : List ℕ) → mem cr (get_encoded_cr_code s) ≡ false
unfolding get_encoded_cr_code
mem-get_encoded_cr_code [] = refl
mem-get_encoded_cr_code (c ∷ s) =
    let ih = mem-get_encoded_cr_code s in
    if-elim (λ w. mem cr w ≡ false) (c == percent) _ _ (λ e. ih)
      (λ e. if-elim (λ w. mem cr w ≡ false) (c == cr) _ _ (λ e1. ih) (λ e1. ground arith))

-- get_decoded_cr_code of an encoded string is the string, and the encoded string has no CR, which an
-- XML parser would change.
pub get_decoded_cr_code-encoded :
    (s : List ℕ)
    → (get_decoded_cr_code (get_encoded_cr_code s) ≡ s) × (mem cr (get_encoded_cr_code s) ≡ false)
get_decoded_cr_code-encoded s = (decode-encode s, mem-get_encoded_cr_code s)

-- ===== src/StringUtil/OptionTime/Format.antt =====
-- The times that `convert_unixtime_from_option_arg` accepts: numbers with unit letters from the year
-- to the second, each unit once and in this order.
use s3fs_fuse.StringUtil.{is_digit}
use s3fs_fuse.StringUtil.OptionTime.{
  unit_of, scan_chars, scan_char, Scan, convert_unixtime_from_option_arg, scan_start,
}
use mathlib.Core.List.{nil≢cons}
use s3fs_fuse.Base.{
  ℕ, zero, suc, ◌+◌, ◌-◌, ◌*◌, ◌≤◌, ◌<◌, ◌≡◌, refl, sym, ap, ◌∙◌, ◌≢◌, Bool, true, false, not,
  Option, some, List, [], ◌∷◌, ◌++◌, arith, All, char_at, all_below-holds,
}

-- "YMDhms", from type 1 on, and the seconds of each.
abbrev pub unit_letters : List ℕ
unit_letters = 0 ∷ 89 ∷ 77 ∷ 68 ∷ 104 ∷ 109 ∷ 115 ∷ []

abbrev pub unit_seconds : List ℕ
unit_seconds = 0 ∷ 31536000 ∷ 2592000 ∷ 86400 ∷ 3600 ∷ 60 ∷ 1 ∷ []

-- A number, as its digits, and a unit type.
pub record Field : Type 0 where
  pub digits : List ℕ
  pub unit_type : ℕ

abbrev pub number_from : ℕ → List ℕ → ℕ
number_from n [] = n
number_from n (d ∷ ds) = number_from (n * 10 + (d - 48)) ds

abbrev pub IsField : ℕ → Field → Type 0
IsField last f =
    (f.digits ≢ [])
    × All (λ d. is_digit d ≡ true) f.digits
    × (last < f.unit_type)
    × (f.unit_type ≤ 6)

abbrev pub AreFields : ℕ → List Field → Type 0
AreFields last [] = Unit
AreFields last (f ∷ fs) = IsField last f × AreFields f.unit_type fs

abbrev pub print : List Field → List ℕ
print [] = []
print (f ∷ fs) = f.digits ++ char_at unit_letters f.unit_type ∷ print fs

abbrev pub total : List Field → ℕ
total [] = 0
total (f ∷ fs) = number_from 0 f.digits * char_at unit_seconds f.unit_type + total fs

scan_digits :
    (ds s : List ℕ) (z : Scan)
    → All (λ d. is_digit d ≡ true) ds
    → ds ≢ []
    → scan_chars (ds ++ s) z
      ≡ scan_chars s (record z { tmptime = number_from z.tmptime ds; is_last_number = true })
unfolding scan_chars scan_char
scan_digits [] s z h k = absurd (k refl)
scan_digits (d ∷ []) s z h k = rw (scan_chars, scan_char, h.0) refl
scan_digits (d ∷ e ∷ ds) s z h k =
    rw (scan_chars, scan_char, h.0)
      (scan_digits (e ∷ ds) s
        (record z { tmptime = z.tmptime * 10 + (d - 48); is_last_number = true }) h.1
        (λ q. nil≢cons (sym q)))

-- Each letter is its unit, if the last unit was an earlier one.
unit_of-letter :
    (k last : ℕ)
    → last < k
    → k ≤ 6
    → unit_of (char_at unit_letters k) last ≡ some (k, char_at unit_seconds k)
unfolding unit_of
unit_of-letter zero last h m = absurd (omega arith)
unit_of-letter (suc zero) last h m = ground arith
unit_of-letter (suc (suc zero)) last h m = ground arith
unit_of-letter (suc (suc (suc zero))) last h m = ground arith
unit_of-letter (suc (suc (suc (suc zero)))) last h m = ground arith
unit_of-letter (suc (suc (suc (suc (suc zero))))) last h m = ground arith
unit_of-letter (suc (suc (suc (suc (suc (suc zero)))))) last h m = ground arith
unit_of-letter (suc (suc (suc (suc (suc (suc (suc k))))))) last h m = absurd (omega arith)

letter-no_digit : (k : ℕ) → k < 7 → is_digit (char_at unit_letters k) ≡ false
letter-no_digit k h =
    not-true _ (all_below-holds 7 (λ k. not (is_digit (char_at unit_letters k))) refl k h)
  where
    not-true : (b : Bool) → not b ≡ true → b ≡ false
    not-true b e = ground arith

-- The state after a field.
abbrev after_field : Scan → Field → Scan
after_field z f = record {
  unixtime = z.unixtime + number_from z.tmptime f.digits * char_at unit_seconds f.unit_type;
  last_unit_type = f.unit_type;
  is_last_number = false;
  tmptime = 0;
}

scan_letter :
    (f : Field) (s : List ℕ) (z : Scan)
    → z.last_unit_type < f.unit_type
    → f.unit_type ≤ 6
    → scan_chars
        (char_at unit_letters f.unit_type ∷ s)
        (record z { tmptime = number_from z.tmptime f.digits; is_last_number = true })
      ≡ scan_chars s (after_field z f)
unfolding scan_chars scan_char
scan_letter f s z h k =
    rw
      (
        scan_chars,
        scan_char,
        letter-no_digit f.unit_type (omega arith),
        unit_of-letter f.unit_type z.last_unit_type h k,
      )
      refl

scan_field :
    (f : Field) (s : List ℕ) (z : Scan)
    → IsField z.last_unit_type f
    → scan_chars (f.digits ++ char_at unit_letters f.unit_type ∷ s) z
      ≡ scan_chars s (after_field z f)
scan_field f s z h =
    scan_digits f.digits (char_at unit_letters f.unit_type ∷ s) z h.1 h.0
    ∙ scan_letter f s z h.2 h.3

abbrev IsScanned : ℕ → Option Scan → Type 0
IsScanned n r = (z : Scan) × (r ≡ some z) × (z.unixtime ≡ n) × (z.is_last_number ≡ false)

scan_fields :
    (fs : List Field) (z : Scan)
    → AreFields z.last_unit_type fs
    → z.is_last_number ≡ false
    → z.tmptime ≡ 0
    → IsScanned (z.unixtime + total fs) (scan_chars (print fs) z)
unfolding scan_chars
scan_fields [] z h k t = (z, refl, omega arith, k)
scan_fields (f ∷ fs) z h k t =
    let ih = scan_fields fs (after_field z f) h.1 refl refl in
    (ih.0, scan_field f (print fs) z h.0 ∙ ih.1, ih.2 ∙ rw t (omega arith), ih.3)

-- A time that is written with at least one field, each with a digit or more and with a smaller unit
-- than the one before, is accepted, and is the sum of its numbers times their units' seconds.
pub convert_unixtime_from_option_arg-print :
    (f : Field) (fs : List Field)
    → AreFields 0 (f ∷ fs)
    → convert_unixtime_from_option_arg (print (f ∷ fs)) ≡ some (total (f ∷ fs))
unfolding convert_unixtime_from_option_arg
convert_unixtime_from_option_arg-print f fs h =
    let r = scan_fields fs (after_field scan_start f) h.1 refl refl in
    rw (convert_unixtime_from_option_arg, scan_field f (print fs) scan_start h.0, r.1, r.3, r.2)
      (ap some (omega arith))

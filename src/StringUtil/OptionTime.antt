-- ===== src/StringUtil/OptionTime.antt =====
-- `convert_unixtime_from_option_arg` of src/string_util.cpp: a time such as "12Y12M12D12h12m12s".
-- Times are numbers, which a `time_t` holds below 2^63.
use s3fs_fuse.StringUtil.{is_digit}
pub mod Format
use s3fs_fuse.Base.{
  ℕ, ◌+◌, ◌-◌, ◌*◌, Bool, true, false, ◌&&◌, Option, none, some, List, [], ◌∷◌, ltb, ◌==◌,
  if◌then◌else◌,
}

-- The variables of the loop.
pub record Scan : Type 0 where
  pub unixtime : ℕ
  pub last_unit_type : ℕ
  pub is_last_number : Bool
  pub tmptime : ℕ

-- A unit letter that is larger than the units before it, with its type and its seconds.
pub unit_of : ℕ → ℕ → Option (ℕ × ℕ)
unit_of c last_unit_type =
    if c == 89 && ltb last_unit_type 1
    then some (1, 60 * 60 * 24 * 365)
    else if c == 77 && ltb last_unit_type 2
    then some (2, 60 * 60 * 24 * 30)
    else if c == 68 && ltb last_unit_type 3
    then some (3, 60 * 60 * 24)
    else if c == 104 && ltb last_unit_type 4
    then some (4, 60 * 60)
    else if c == 109 && ltb last_unit_type 5
    then some (5, 60)
    else if c == 115 && ltb last_unit_type 6
    then some (6, 1)
    else none

-- One round of the loop, `none` for the return of false.
pub scan_char : ℕ → Scan → Option Scan
scan_char c z =
    if is_digit c
    then some (record z { tmptime = z.tmptime * 10 + (c - 48); is_last_number = true })
    else if z.is_last_number
    then (elim (unit_of c z.last_unit_type) [
      | none ↦ none
      | some u ↦ some (record {
        unixtime = z.unixtime + z.tmptime * u.1;
        last_unit_type = u.0;
        is_last_number = false;
        tmptime = 0;
      })
    ])
    else none

pub scan_chars : List ℕ → Scan → Option Scan
scan_chars [] z = some z
scan_chars (c ∷ s) z = elim (scan_char c z) [ none ↦ none | some z' ↦ scan_chars s z' ]

abbrev pub scan_start : Scan
scan_start = record { unixtime = 0; last_unit_type = 0; is_last_number = true; tmptime = 0 }

pub convert_unixtime_from_option_arg : List ℕ → Option ℕ
convert_unixtime_from_option_arg argv = elim (scan_chars argv scan_start) [
  | none ↦ none
  | some z ↦ if z.is_last_number then none else some z.unixtime
]

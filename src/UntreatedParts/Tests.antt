-- ===== src/UntreatedParts/Tests.antt =====
-- The theorems on untreated parts at concrete parts: two parts, the second one added last.
use s3fs_fuse.UntreatedParts.Clear.{in_area, is_lost}
use s3fs_fuse.UntreatedParts.Tags.{IsFound}
use s3fs_fuse.UntreatedParts.Bytes.{add_part_lem, clear_parts_lem}
use s3fs_fuse.UntreatedParts.View.{in_range, IsValid, held}
use s3fs_fuse.UntreatedParts.{
  add_part, get_last_update_part, UntreatedPart, UntreatedParts, clear_parts, clear_from, add_from,
  make_part, row_get_part, absorb, stretch, check_overlap, row_get_from,
}
use s3fs_fuse.Base.{ℕ, ◌≡◌, refl, true, not, ◌&&◌, ◌||◌, some, [], ◌∷◌, arith, pos}

abbrev part : ℕ → ℕ → ℕ → UntreatedPart
part s n t = record { start = s; size = n; untreated_tag = t }

abbrev two_parts : UntreatedParts
two_parts = record { untreated_list = part 10 5 1 ∷ part 30 10 2 ∷ []; last_tag = 2 }

two_parts-IsValid : IsValid two_parts
two_parts-IsValid =
    ((omega arith, omega arith, (omega arith, omega arith, tt)), (omega arith, (omega arith, tt)))

add_stretches :
    (add_part (pos 15) (pos 15) two_parts).1
    ≡ record { untreated_list = part 10 30 3 ∷ []; last_tag = 3 }
unfolding add_part add_from absorb stretch check_overlap
add_stretches = refl

clear_splits :
    (clear_parts (pos 32) (pos 3) two_parts).1.untreated_list
    ≡ part 10 5 1 ∷ part 30 2 2 ∷ part 0 0 0 ∷ []
unfolding clear_parts clear_from make_part
clear_splits = refl

add_part_lem_example :
    ((add_part (pos 15) (pos 15) two_parts).0 ≡ true)
    × ((b : ℕ)
        → held b (add_part (pos 15) (pos 15) two_parts).1.untreated_list
          ≡ in_range 15 15 b || held b two_parts.untreated_list)
    × IsFound 15 30 (get_last_update_part (add_part (pos 15) (pos 15) two_parts).1)
add_part_lem_example = add_part_lem 15 15 two_parts (omega arith) two_parts-IsValid

clear_parts_lem_example :
    ((clear_parts (pos 32) (pos 3) two_parts).0 ≡ true)
    × ((b : ℕ)
        → held b (clear_parts (pos 32) (pos 3) two_parts).1.untreated_list
          ≡ held b two_parts.untreated_list
            && not (in_area 32 3 b)
            && not (is_lost 32 3 b two_parts.untreated_list))
clear_parts_lem_example = clear_parts_lem 32 3 two_parts two_parts-IsValid

row_get_part_run : row_get_part (pos 6) (pos 2) true two_parts ≡ some (30, 6)
unfolding row_get_part row_get_from
row_get_part_run = refl

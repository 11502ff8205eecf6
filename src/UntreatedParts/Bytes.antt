-- ===== src/UntreatedParts/Bytes.antt =====
-- What `AddPart` and `ClearParts` do to the bytes that are held, and that they keep the invariant.
use s3fs_fuse.UntreatedParts.Tags.{tags-add_from, IsFound}
use s3fs_fuse.UntreatedParts.Clear.{
  splits, IsOrdered-clear_from, in_area, is_lost, tags-clear_from, held-clear_from,
}
use s3fs_fuse.UntreatedParts.Add.{add_from_lem}
use s3fs_fuse.UntreatedParts.View.{IsValid, held, in_range}
use s3fs_fuse.UntreatedParts.{clear_parts, add_part, UntreatedParts, get_last_update_part}
use s3fs_fuse.Base.{
  ℕ, ◌+◌, ◌<◌, ◌≡◌, refl, ◌⊎◌, inl, inr, Bool, true, false, not, ◌&&◌, ◌||◌, arith, leb, All, ℤ,
  pos, negsuc, if-elim, All-always,
}

-- AddPart keeps the invariant, whatever its parameters: ordered parts with bytes and a gap between
-- two of them, and no tag newer than the last one.
pub add_part-IsValid : (s n : ℤ) (u : UntreatedParts) → IsValid u → IsValid (add_part s n u).1
unfolding add_part
add_part-IsValid (negsuc s) n u h = h
add_part-IsValid (pos s) (negsuc n) u h = h
add_part-IsValid (pos s) (pos n) u h =
    if-elim (λ (r : Bool × UntreatedParts). IsValid r.1) (leb n 0) _ _ (λ e. h)
      (λ e. (
        (add_from_lem s n (u.last_tag + 1) 0 u.untreated_list (ground arith) (omega arith) h.0).0,
        (tags-add_from s n u.last_tag 0 u.untreated_list (ground arith) h.0 h.1).0,
      ))

-- AddPart of a range with bytes to valid parts succeeds, the parts hold the bytes of the range and
-- those that they held, and GetLastUpdatePart then finds one part that holds the whole range.
pub add_part_lem :
    (s n : ℕ) (u : UntreatedParts)
    → 0 < n
    → IsValid u
    → ((add_part (pos s) (pos n) u).0 ≡ true)
      × ((b : ℕ)
          → held b (add_part (pos s) (pos n) u).1.untreated_list
            ≡ in_range s n b || held b u.untreated_list)
      × IsFound s (s + n) (get_last_update_part (add_part (pos s) (pos n) u).1)
unfolding add_part
add_part_lem s n u h v =
    if-elim
      (λ (r : Bool × UntreatedParts).
        (r.0 ≡ true)
        × ((b : ℕ) → held b r.1.untreated_list ≡ in_range s n b || held b u.untreated_list)
        × IsFound s (s + n) (get_last_update_part r.1))
      (leb n 0) _ _ (λ e. absurd (ground arith))
      (λ e. (
        refl,
        (add_from_lem s n (u.last_tag + 1) 0 u.untreated_list h (omega arith) v.0).1,
        (tags-add_from s n u.last_tag 0 u.untreated_list h v.0 v.1).1,
      ))

-- ClearParts with parameters that are not negative succeeds, and valid parts then hold the bytes
-- they held outside of the area, except those that a part that the area splits holds behind it.
pub clear_parts_lem :
    (s n : ℕ) (u : UntreatedParts)
    → IsValid u
    → ((clear_parts (pos s) (pos n) u).0 ≡ true)
      × ((b : ℕ)
          → held b (clear_parts (pos s) (pos n) u).1.untreated_list
            ≡ held b u.untreated_list
              && not (in_area s n b)
              && not (is_lost s n b u.untreated_list))
unfolding clear_parts
clear_parts_lem s n u v = (refl, λ b. held-clear_from s n b 0 u.untreated_list v.0)

-- ClearParts keeps the invariant if the area splits no part, and in any case if it has no end.
pub clear_parts-IsValid :
    (s n : ℕ) (u : UntreatedParts)
    → IsValid u
    → (n ≡ 0) ⊎ All (λ p. splits s n p ≡ false) u.untreated_list
    → IsValid (clear_parts (pos s) (pos n) u).1
unfolding clear_parts
clear_parts-IsValid s n u v (inl e) = (
  IsOrdered-clear_from s n 0 u.untreated_list v.0
      (All-always _ (λ p. ground arith) u.untreated_list),
  tags-clear_from u.last_tag s n u.untreated_list v.1,
)
clear_parts-IsValid s n u v (inr k) = (
  IsOrdered-clear_from s n 0 u.untreated_list v.0 k,
  tags-clear_from u.last_tag s n u.untreated_list v.1,
)

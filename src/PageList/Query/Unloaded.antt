-- ===== src/PageList/Query/Unloaded.antt =====
-- `GetTotalUnloadedPageSize` and `GetUnloadedPages` against the byte view.
use s3fs_fuse.Base.{
  ℕ, ◌+◌, ◌-◌, min, max, ◌≡◌, inl, inr, Bool, false, ◌&&◌, ◌||◌, Option, none, some, List, [], ◌∷◌,
  arith, ltb, leb, Bool-cases,
}
use s3fs_fuse.PageList.{Fdpage, next}
use s3fs_fuse.PageList.View.{Flags, flags_at, Contiguous, flags_at-below, covers}
use s3fs_fuse.PageList.Query.{
  skipped, ends_loop, overlap_size, total_unloaded_loop, get_total_unloaded_page_size, add_area,
  unloaded_loop, get_unloaded_pages, request_end,
}
use s3fs_fuse.PageList.Query.Loaded.{unloaded}

abbrev pub total_bytes : List Fdpage → ℕ
total_bytes [] = 0
total_bytes (p ∷ ps) = p.bytes + total_bytes ps

-- The byte is there, and is to be loaded.
abbrev pub is_unloaded : Option Flags → Bool
is_unloaded none = false
is_unloaded (some f) = unloaded f

covers-add_area :
    (b start n : ℕ) (ps : List Fdpage)
    → covers b (add_area start n ps) ≡ (covers b ps || leb start b && ltb b (start + n))
unfolding add_area
covers-add_area b start n [] = ground arith
covers-add_area b start n (p ∷ []) = ground arith
covers-add_area b start n (p ∷ q ∷ ps) = ground (arith, covers-add_area b start n (q ∷ ps))

total_bytes-add_area :
    (start n : ℕ) (ps : List Fdpage) → total_bytes (add_area start n ps) ≡ total_bytes ps + n
unfolding add_area
total_bytes-add_area start n [] = omega arith
total_bytes-add_area start n (p ∷ []) = ground arith
total_bytes-add_area start n (p ∷ q ∷ ps) = omega (arith, total_bytes-add_area start n (q ∷ ps))

covers-unloaded_loop :
    (b start stop o : ℕ) (out ps : List Fdpage)
    → Contiguous o ps
    → covers b (unloaded_loop start stop out ps)
      ≡ (covers b out || (leb start b && ltb b stop) && is_unloaded (flags_at b ps))
unfolding unloaded_loop
covers-unloaded_loop b start stop o out [] c = ground arith
covers-unloaded_loop b start stop o out (p ∷ ps) c = elim (Bool-cases (ends_loop start stop p)) [
  | inl e ↦ rw e (ground (arith, flags_at-below b o (p ∷ ps) c))
  | inr e ↦ elim (Bool-cases (skipped start p)) [
    | inl k ↦
        rw (e, k, covers-unloaded_loop b start stop (next p) out ps c.1)
          (ground (arith, flags_at-below b (next p) ps c.1))
    | inr k ↦
        rw
          (
            e,
            k,
            covers-unloaded_loop b start stop (next p)
                (add_area (max p.offset start) (min (next p) stop - max p.offset start) out) ps c.1,
            covers-add_area,
          )
          (ground (arith, flags_at-below b (next p) ps c.1))
  ]
]

-- The four cases of the source are one formula.
overlap_size-eq :
    (start stop : ℕ) (p : Fdpage)
    → ends_loop start stop p ≡ false
    → skipped start p ≡ false
    → overlap_size start stop p ≡ min (next p) stop - max p.offset start
unfolding overlap_size skipped ends_loop
overlap_size-eq start stop p e k = ground arith

-- With no limit the number of bytes is that of the pages of `GetUnloadedPages`.
total-unloaded_loop :
    (start stop restsize : ℕ) (out ps : List Fdpage)
    → total_bytes (unloaded_loop start stop out ps) + restsize
      ≡ total_unloaded_loop start stop 0 restsize ps + total_bytes out
unfolding unloaded_loop total_unloaded_loop
total-unloaded_loop start stop restsize out [] = omega arith
total-unloaded_loop start stop restsize out (p ∷ ps) = elim (Bool-cases (ends_loop start stop p)) [
  | inl e ↦ rw e (omega arith)
  | inr e ↦ elim (Bool-cases (skipped start p)) [
    | inl k ↦ rw (e, k) (total-unloaded_loop start stop restsize out ps)
    | inr k ↦
        rw (e, k)
          (omega (
            arith,
            total-unloaded_loop start stop (restsize + overlap_size start stop p)
                (add_area (max p.offset start) (min (next p) stop - max p.offset start) out) ps,
            total_bytes-add_area (max p.offset start) (min (next p) stop - max p.offset start) out,
            overlap_size-eq start stop p e k,
          ))
  ]
]

-- `GetUnloadedPages` adds to the list exactly the bytes of the request that are there and neither
-- loaded nor modified.
pub covers-get_unloaded_pages :
    (b start n : ℕ) (out ps : List Fdpage)
    → Contiguous 0 ps
    → covers b (get_unloaded_pages out start n ps) ≡ (
        covers b out
        || (leb start b && ltb b (request_end start n ps)) && is_unloaded (flags_at b ps))
unfolding get_unloaded_pages
covers-get_unloaded_pages b start n out ps c =
    covers-unloaded_loop b start (request_end start n ps) 0 out ps c

-- `GetTotalUnloadedPageSize` without a limit is the size of the areas of `GetUnloadedPages`.
pub get_total_unloaded_page_size-eq :
    (start n : ℕ) (ps : List Fdpage)
    → get_total_unloaded_page_size start n 0 ps ≡ total_bytes (get_unloaded_pages [] start n ps)
unfolding get_unloaded_pages get_total_unloaded_page_size
get_total_unloaded_page_size-eq start n ps =
    omega (arith, total-unloaded_loop start (request_end start n ps) 0 [] ps)

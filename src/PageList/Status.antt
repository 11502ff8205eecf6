-- ===== src/PageList/Status.antt =====
-- `SetPageLoadedStatus` against the byte view.
use s3fs_fuse.PageList.Area.{
  status_after, area-IsWhole, is_shrink-area, size-area, byte-set_status_area,
}
use s3fs_fuse.Base.{ℕ, ◌+◌, max, ◌≡◌, ◌∙◌, inl, inr, Bool, Bool-cases}
use s3fs_fuse.PageList.{
  PageList, PageStatus, size, compress, set_page_loaded_status, set_status_area,
}
use s3fs_fuse.PageList.Resize.{byte, IsWhole, byte-compress, compress-IsWhole, size-compress}

module _ (start n : ℕ) (s : PageStatus) (is_compress : Bool) (l : PageList) (w : IsWhole l) where
  pub byte-set_page_loaded_status :
      (b : ℕ)
      → byte (set_page_loaded_status start n s is_compress l) b
        ≡ status_after start n s (size l) b (byte l b)
  unfolding set_page_loaded_status
  byte-set_page_loaded_status b = elim (Bool-cases is_compress) [
    | inl e ↦ rw e (
        byte-compress b (set_status_area start n s l) (area-IsWhole start n s l w)
        ∙ byte-set_status_area start n s l w b)
    | inr e ↦ rw e (byte-set_status_area start n s l w b)
  ]

  pub size-set_page_loaded_status :
      size (set_page_loaded_status start n s is_compress l) ≡ max (size l) (start + n)
  unfolding set_page_loaded_status
  size-set_page_loaded_status = elim (Bool-cases is_compress) [
    | inl e ↦ rw e (
        size-compress (set_status_area start n s l) (area-IsWhole start n s l w)
        ∙ size-area start n s l w)
    | inr e ↦ rw e (size-area start n s l w)
  ]

  pub set_page_loaded_status-IsWhole : IsWhole (set_page_loaded_status start n s is_compress l)
  unfolding set_page_loaded_status
  set_page_loaded_status-IsWhole = elim (Bool-cases is_compress) [
    | inl e ↦ rw e (compress-IsWhole (set_status_area start n s l) (area-IsWhole start n s l w))
    | inr e ↦ rw e (area-IsWhole start n s l w)
  ]

  pub is_shrink-set_page_loaded_status :
      (set_page_loaded_status start n s is_compress l).is_shrink ≡ l.is_shrink
  unfolding set_page_loaded_status compress
  is_shrink-set_page_loaded_status = elim (Bool-cases is_compress) [
    | inl e ↦ rw e (is_shrink-area start n s l w)
    | inr e ↦ rw e (is_shrink-area start n s l w)
  ]

-- In a file without gaps `SetPageLoadedStatus` gives the bytes from `start` to `start + n` the flags
-- of the status and the bytes between the old end of the file and `start` the status' `modified`
-- flag alone. It changes no other byte, makes the file longer only as far as the range reaches, and
-- keeps the `is_shrink` flag.
pub set_page_loaded_status_lem :
    (start n : ℕ) (s : PageStatus) (is_compress : Bool) (l : PageList) (b : ℕ)
    → IsWhole l
    → (byte (set_page_loaded_status start n s is_compress l) b
        ≡ status_after start n s (size l) b (byte l b))
      × (size (set_page_loaded_status start n s is_compress l) ≡ max (size l) (start + n))
      × ((set_page_loaded_status start n s is_compress l).is_shrink ≡ l.is_shrink)
set_page_loaded_status_lem start n s is_compress l b w = (
  byte-set_page_loaded_status start n s is_compress l w b,
  size-set_page_loaded_status start n s is_compress l w,
  is_shrink-set_page_loaded_status start n s is_compress l w,
)

-- ===== src/PageList/Query/Modified.antt =====
-- `BytesModified`, `IsModified` and `ClearAllModified` against the byte view.
use s3fs_fuse.PageList.Compress.{
  compress_from-nil, compress_from-cons, same_flags, joined, Contiguous-joined,
}
use s3fs_fuse.Base.{
  ℕ, zero, suc, ◌+◌, ◌-◌, ◌≤◌, ◌<◌, ◌≡◌, refl, ap, ◌∙◌, ◌↔◌, ◌⊎◌, inl, inr, Bool, true, false, ◌||◌,
  Option, none, some, List, [], ◌∷◌, arith, if◌then◌else◌, Bool-cases, All,
}
use s3fs_fuse.PageList.{Fdpage, PageList, next, size, compress_from, compress, compress_pages}
use s3fs_fuse.PageList.Resize.{
  byte, IsWhole, size-end_from, byte-compress, compress-IsWhole, size-compress,
}
use s3fs_fuse.PageList.View.{end_from, le-end_from, Flags, flags_at, Contiguous, has_modified}
use s3fs_fuse.PageList.Query.{
  bytes_modified, any_modified, is_modified, clear_flags, clear_all_modified,
}
use s3fs_fuse.PageList.View.{HasBytes}

-- How many of the `n` bytes from `o` on pass a test.
pub count_bytes : (ℕ → Bool) → ℕ → ℕ → ℕ
count_bytes test o zero = 0
count_bytes test o (suc n) = (if test o then 1 else 0) + count_bytes test (suc o) n

count_bytes-zero : (test : ℕ → Bool) (o : ℕ) → count_bytes test o 0 ≡ 0
unfolding count_bytes
count_bytes-zero test o = refl

count_bytes-const :
    (test : ℕ → Bool) (v : Bool) (o n : ℕ)
    → ((b : ℕ) → o ≤ b → b < o + n → test b ≡ v)
    → count_bytes test o n ≡ (if v then n else 0)
unfolding count_bytes
count_bytes-const test v o zero h = ground arith
count_bytes-const test v o (suc n) h =
    rw
      (
        h o (omega arith) (omega arith),
        count_bytes-const test v (suc o) n (λ b u k. h b (omega arith) (omega arith)),
      )
      (ground arith)

count_bytes-add :
    (test : ℕ → Bool) (o n m : ℕ)
    → count_bytes test o (n + m) ≡ count_bytes test o n + count_bytes test (o + n) m
unfolding count_bytes
count_bytes-add test o zero m = ground arith
count_bytes-add test o (suc n) m =
    let e : suc n + m ≡ suc (n + m) = omega arith in
    rw e (ground (arith, count_bytes-add test (suc o) n m))

count_bytes-ext :
    (f g : ℕ → Bool) (o n : ℕ)
    → ((b : ℕ) → o ≤ b → b < o + n → f b ≡ g b)
    → count_bytes f o n ≡ count_bytes g o n
unfolding count_bytes
count_bytes-ext f g o zero h = refl
count_bytes-ext f g o (suc n) h = rw (
  h o (omega arith) (omega arith),
  count_bytes-ext f g (suc o) n (λ b u k. h b (omega arith) (omega arith)),
)

abbrev modified_at : List Fdpage → ℕ → Bool
modified_at ps b = has_modified (flags_at b ps)

bytes_modified-count :
    (o : ℕ) (ps : List Fdpage)
    → Contiguous o ps
    → bytes_modified ps ≡ count_bytes (modified_at ps) o (end_from o ps - o)
unfolding bytes_modified
bytes_modified-count o [] c = let e : o - o ≡ 0 = omega arith in rw (e, count_bytes-zero)
bytes_modified-count o (p ∷ ps) c =
    let e : end_from (next p) ps - o ≡ p.bytes + (end_from (next p) ps - next p) =
      omega (arith, le-end_from (next p) ps c.1) in
    rw (e, count_bytes-add (modified_at (p ∷ ps)) o p.bytes (end_from (next p) ps - next p))
      (ground (
        arith,
        bytes_modified-count (next p) ps c.1,
        count_bytes-const (modified_at (p ∷ ps)) p.modified o p.bytes (λ b u v. ground arith),
        count_bytes-ext (modified_at (p ∷ ps)) (modified_at ps) (o + p.bytes)
            (end_from (next p) ps - next p) (λ b u v. ground arith),
      ))

any_modified_sound :
    (o : ℕ) (ps : List Fdpage)
    → Contiguous o ps
    → All HasBytes ps
    → any_modified ps ≡ true
    → (b : ℕ) × (o ≤ b) × (modified_at ps b ≡ true)
unfolding any_modified
any_modified_sound o [] c w h = absurd (cc)
any_modified_sound o (p ∷ ps) c w h = elim (Bool-cases p.modified) [
  | inl e ↦ (p.offset, ground arith, ground arith)
  | inr e ↦
      let (b, k, q) = any_modified_sound (next p) ps c.1 w.1 (ground arith) in
      (b, ground arith, ground arith)
]

any_modified_complete :
    (b : ℕ) (ps : List Fdpage) → modified_at ps b ≡ true → any_modified ps ≡ true
unfolding any_modified
any_modified_complete b [] h = cc
any_modified_complete b (p ∷ ps) h = ground (arith, any_modified_complete b ps)

-- What `ClearAllModified` makes of the flags of a byte.
abbrev pub cleared : Option Flags → Option Flags
cleared none = none
cleared (some f) = some (f.0, false)

flags_at-clear_flags :
    (b : ℕ) (ps : List Fdpage) → flags_at b (clear_flags ps) ≡ cleared (flags_at b ps)
unfolding clear_flags
flags_at-clear_flags b [] = refl
flags_at-clear_flags b (p ∷ ps) = ground (arith, flags_at-clear_flags b ps)

Contiguous-clear_flags :
    (o : ℕ) (ps : List Fdpage) → Contiguous o ps → Contiguous o (clear_flags ps)
unfolding clear_flags
Contiguous-clear_flags o [] c = tt
Contiguous-clear_flags o (p ∷ ps) c = ground (arith, Contiguous-clear_flags (next p) ps c.1)

any_modified-clear_flags : (ps : List Fdpage) → any_modified (clear_flags ps) ≡ false
unfolding clear_flags any_modified
any_modified-clear_flags [] = refl
any_modified-clear_flags (p ∷ ps) = ground (arith, any_modified-clear_flags ps)

any_modified-compress_from :
    (last : Fdpage) (ps : List Fdpage)
    → Contiguous (next last) ps
    → any_modified (compress_from last ps) ≡ (last.modified || any_modified ps)
unfolding any_modified
any_modified-compress_from last [] c = rw (compress_from-nil last) refl
any_modified-compress_from last (p ∷ ps) c =
    rw (compress_from-cons last p ps c.0) (elim (Bool-cases (same_flags last p)) [
      | inl e ↦
          rw (e, any_modified-compress_from (joined last p) ps (Contiguous-joined last p ps c))
            (ground arith)
      | inr e ↦ rw e (ground (arith, any_modified-compress_from p ps c.1))
    ])

any_modified-compress_pages :
    (ps : List Fdpage) → Contiguous 0 ps → any_modified (compress_pages ps) ≡ any_modified ps
unfolding compress_pages any_modified
any_modified-compress_pages [] c = refl
any_modified-compress_pages (p ∷ ps) c = any_modified-compress_from p ps c.1

is_modified-compress :
    (l : PageList) → IsWhole l → is_modified (compress l) ≡ (l.is_shrink || any_modified l.pages)
unfolding is_modified compress
is_modified-compress l w = ap (λ v. l.is_shrink || v) (any_modified-compress_pages l.pages w)

end_from-clear_flags : (o : ℕ) (ps : List Fdpage) → end_from o (clear_flags ps) ≡ end_from o ps
unfolding clear_flags
end_from-clear_flags o [] = refl
end_from-clear_flags o (p ∷ ps) = ground (arith, end_from-clear_flags (next p) ps)

-- `BytesModified` counts the bytes of the file whose `modified` flag is set.
pub bytes_modified_lem :
    (l : PageList)
    → IsWhole l
    → bytes_modified l.pages ≡ count_bytes (λ b. has_modified (byte l b)) 0 (size l)
bytes_modified_lem l w =
    let e : size l ≡ end_from 0 l.pages - 0 = omega (arith, size-end_from l) in
    rw e (bytes_modified-count 0 l.pages w)

-- `IsModified` is true exactly if a cut is to be uploaded or some byte is modified.
pub is_modified_iff :
    (l : PageList)
    → IsWhole l
    → All HasBytes l.pages
    → (is_modified l ≡ true) ↔ ((l.is_shrink ≡ true) ⊎ ((b : ℕ) × (has_modified (byte l b) ≡ true)))
unfolding is_modified
is_modified_iff l w h = (
  λ q. elim (Bool-cases l.is_shrink) [
    | inl e ↦ inl e
    | inr e ↦ let (b, k, m) = any_modified_sound 0 l.pages w h (ground arith) in inr (b, m)
  ],
  elim [ inl e ↦ ground arith | inr (b, m) ↦ ground (arith, any_modified_complete b l.pages m) ],
)

-- `ClearAllModified` clears the `modified` flag of each byte and keeps its `loaded` flag and the
-- size of the file, and nothing is left to upload.
pub clear_all_modified_lem :
    (l : PageList) (b : ℕ)
    → IsWhole l
    → (byte (clear_all_modified l) b ≡ cleared (byte l b))
      × (size (clear_all_modified l) ≡ size l)
      × IsWhole (clear_all_modified l)
      × (is_modified (clear_all_modified l) ≡ false)
unfolding clear_all_modified
clear_all_modified_lem l b w =
    let l' : PageList = record { pages = clear_flags l.pages; is_shrink = false } in
    let w' : IsWhole l' = Contiguous-clear_flags 0 l.pages w in
    (
      byte-compress b l' w' ∙ flags_at-clear_flags b l.pages,
      omega (
        arith,
        size-compress l' w',
        size-end_from l',
        size-end_from l,
        end_from-clear_flags 0 l.pages,
      ),
      compress-IsWhole l' w',
      is_modified-compress l' w' ∙ any_modified-clear_flags l.pages,
    )

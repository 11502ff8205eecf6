-- ===== src/PageList/Multipart/Loop.antt =====
-- The loop of `GetPageListsForMultipartUpload`: what is uploaded is what was modified and what is
-- downloaded first.
use s3fs_fuse.Base.{
  ℕ, ◌+◌, ◌-◌, ◌≤◌, ◌<◌, ◌≡◌, refl, subst, inl, inr, Bool, true, false, not, ◌&&◌, ◌||◌, none, List,
  [], ◌∷◌, ◌++◌, arith, ltb, leb, Bool-cases, if-elim,
}
use s3fs_fuse.PageList.{Fdpage, next}
use s3fs_fuse.PageList.View.{
  holds, flags_at, Contiguous, Contiguous-append, end_from, end_from-append, flags_at-append,
  flags_at-past, covers, covers-append, has_modified,
}
use s3fs_fuse.PageList.Multipart.{
  Mix, min_multipart_size, mix_modified, mix_missing, mix_unmodified, mix_step,
}

-- The areas so far, up to `o`.
abbrev pub IsTiled : ℕ → Mix → Type 0
IsTiled o m =
    Contiguous 0 m.mixupload × (end_from 0 m.mixupload ≡ m.prev.offset) × (next m.prev ≡ o)

module _ (p : Fdpage) (m : Mix) (t : IsTiled p.offset m) where
  Contiguous-push :
      (q : Fdpage)
      → q.offset ≡ m.prev.offset
      → Contiguous 0 (m.mixupload ++ q ∷ []) × (end_from 0 (m.mixupload ++ q ∷ []) ≡ next q)
  Contiguous-push q e =
      (Contiguous-append 0 m.mixupload (q ∷ []) t.0 (omega arith, tt), rw end_from-append refl)

  pub IsTiled-mix_step : IsTiled (next p) (mix_step p m)
  unfolding mix_step
  IsTiled-mix_step = ground (
    arith,
    Contiguous-push m.prev,
    Contiguous-push (record (m.prev) { modified = true }),
    Contiguous-push (record (m.prev) { modified = false }),
    Contiguous-push (record (m.prev) { bytes = min_multipart_size }),
  )

abbrev pub areas : Mix → List Fdpage
areas m = m.mixupload ++ m.prev ∷ []

abbrev pub mod_in : ℕ → List Fdpage → Bool
mod_in b ps = has_modified (flags_at b ps)

pub mod_in-push :
    (b : ℕ) (ps : List Fdpage) (q : Fdpage)
    → Contiguous 0 ps
    → end_from 0 ps ≡ q.offset
    → mod_in b (ps ++ q ∷ []) ≡ (mod_in b ps || holds q b && q.modified)
mod_in-push b ps q c e = rw flags_at-append (elim (Bool-cases (leb q.offset b)) [
  | inl h ↦ rw (flags_at-past b 0 ps c (ground arith)) (ground arith)
  | inr h ↦ ground arith
])

module _ (b : ℕ) (f : ℕ → Bool) where
  -- At byte `b`, of the `o` bytes so far: the areas to upload are what `f` says is modified and what
  -- is downloaded, and only bytes that are not modified are downloaded.
  pub record IsExact (o : ℕ) (m : Mix) : Type 0 where
    pub uploads :
        (mod_in b m.mixupload || holds m.prev b && m.prev.modified)
        ≡ (ltb b o && f b || covers b m.download)
    pub downloads : covers b m.download ≡ true → (f b ≡ false) × (b < o)

  module _ (p : Fdpage) (m : Mix) (t : IsTiled p.offset m) (x : IsExact p.offset m)
      (same_flag : holds p b ≡ true → f b ≡ p.modified) where
    -- One more area.
    push :
        (q : Fdpage)
        → q.offset ≡ m.prev.offset
        → mod_in b (m.mixupload ++ q ∷ []) ≡ (mod_in b m.mixupload || holds q b && q.modified)
    push q e = mod_in-push b m.mixupload q t.0 (omega (arith))

    past_mixupload : m.prev.offset ≤ b → flags_at b m.mixupload ≡ none
    past_mixupload h = flags_at-past b 0 m.mixupload t.0 (omega arith)

    IsExact-modified_small :
        p.modified ≡ true
        → m.prev.modified ≡ false
        → IsExact (next p) (record {
          prev = p;
          download = m.download ++ m.prev ∷ [];
          mixupload = m.mixupload ++ record (m.prev) { modified = true } ∷ [];
        })
    IsExact-modified_small e k = ground (
      arith,
      past_mixupload,
      push (record (m.prev) { modified = true }) refl,
      covers-append b m.download (m.prev ∷ []),
    )

    IsExact-modified_large :
        p.modified ≡ true
        → m.prev.modified ≡ false
        → IsExact (next p) (record m {
          prev = p;
          mixupload = m.mixupload ++ record (m.prev) { modified = false } ∷ [];
        })
    IsExact-modified_large e k = ground (arith, push (record (m.prev) { modified = false }) refl)

    IsExact-joined :
        p.modified ≡ m.prev.modified
        → IsExact (next p) (record m { prev = record (m.prev) { bytes = m.prev.bytes + p.bytes } })
    IsExact-joined k = ground arith

    IsExact-missing_split :
        p.modified ≡ false
        → m.prev.modified ≡ true
        → (k : ℕ) → k ≤ p.bytes
        → IsExact (next p) (record {
          prev = record p { offset = p.offset + k; bytes = p.bytes - k };
          download =
              m.download
              ++ record { offset = p.offset; bytes = k; loaded = false; modified = false } ∷ [];
          mixupload = m.mixupload ++ record (m.prev) { bytes = m.prev.bytes + k } ∷ [];
        })
    IsExact-missing_split e e' k h = ground (
      arith,
      push (record (m.prev) { bytes = m.prev.bytes + k }) refl,
      covers-append b m.download
          (record { offset = p.offset; bytes = k; loaded = false; modified = false } ∷ []),
    )

    IsExact-missing_all :
        p.modified ≡ false
        → m.prev.modified ≡ true
        → IsExact (next p) (record m {
          prev = record (m.prev) { bytes = m.prev.bytes + p.bytes };
          download = m.download ++ p ∷ [];
        })
    IsExact-missing_all e e' = ground (arith, covers-append b m.download (p ∷ []))

    IsExact-pushed :
        p.modified ≡ false
        → m.prev.modified ≡ true
        → IsExact (next p) (record m { prev = p; mixupload = m.mixupload ++ m.prev ∷ [] })
    IsExact-pushed e e' = ground (arith, push m.prev refl)

    IsExact-mix_missing :
        p.modified ≡ false
        → m.prev.modified ≡ true
        → m.prev.bytes < min_multipart_size
        → IsExact (next p) (mix_missing p m)
    unfolding mix_missing
    IsExact-mix_missing e e' h =
        elim (Bool-cases (ltb (min_multipart_size - m.prev.bytes + min_multipart_size) p.bytes)) [
          | inl k ↦ rw k (
              let q : m.prev.bytes + (min_multipart_size - m.prev.bytes) ≡ min_multipart_size =
                omega arith in
              subst
                (λ n. IsExact (next p) (record {
                  prev = record p {
                    offset = p.offset + (min_multipart_size - m.prev.bytes);
                    bytes = p.bytes - (min_multipart_size - m.prev.bytes);
                  };
                  download =
                      m.download
                      ++ record {
                        offset = p.offset;
                        bytes = min_multipart_size - m.prev.bytes;
                        loaded = false;
                        modified = false;
                      }
                        ∷ [];
                  mixupload = m.mixupload ++ record (m.prev) { bytes = n } ∷ [];
                }))
                q (IsExact-missing_split e e' (min_multipart_size - m.prev.bytes) (ground arith)))
          | inr k ↦ rw k (IsExact-missing_all e e')
        ]

    IsExact-mix_modified : p.modified ≡ true → IsExact (next p) (mix_modified p m)
    unfolding mix_modified
    IsExact-mix_modified e =
        if-elim (IsExact (next p)) (not m.prev.modified) _ _
          (λ k.
            if-elim (IsExact (next p)) (ltb m.prev.bytes min_multipart_size) _ _
              (λ _. IsExact-modified_small e (ground arith))
              (λ _. IsExact-modified_large e (ground arith)))
          (λ k. IsExact-joined (ground arith))

    IsExact-mix_unmodified : p.modified ≡ false → IsExact (next p) (mix_unmodified p m)
    unfolding mix_unmodified
    IsExact-mix_unmodified e =
        if-elim (IsExact (next p)) (not m.prev.modified) _ _ (λ k. IsExact-joined (ground arith))
          (λ k.
            if-elim (IsExact (next p)) (ltb m.prev.bytes min_multipart_size) _ _
              (λ h. IsExact-mix_missing e (ground arith) (ground arith))
              (λ _. IsExact-pushed e (ground arith)))

    pub IsExact-mix_step : IsExact (next p) (mix_step p m)
    unfolding mix_step
    IsExact-mix_step =
        if-elim (IsExact (next p)) p.modified _ _ IsExact-mix_modified IsExact-mix_unmodified

-- ===== src/PageList/Multipart/Download.antt =====
-- `download_pages` of `GetPageListsForMultipartUpload`: unloaded areas in ascending order.
use s3fs_fuse.Base.{
  ℕ, ◌+◌, ◌-◌, ◌≤◌, ◌≡◌, refl, true, false, not, [], ◌∷◌, ◌++◌, arith, ltb, if◌then◌else◌, if-elim,
}
use s3fs_fuse.PageList.{Fdpage, next}
use s3fs_fuse.PageList.RawCompress.Gaps.{Ascends, Ascends-push, Ascends-mono}
use s3fs_fuse.PageList.Multipart.{
  Mix, min_multipart_size, mix_modified, mix_missing, mix_unmodified, mix_step,
}

-- Where the downloads so far end: an area that is not modified may still be downloaded.
abbrev pub download_end : Fdpage → ℕ
download_end prev = if prev.modified then next prev else prev.offset

pub record IsAscending (m : Mix) : Type 0 where
  pub ascends : Ascends 0 m.download (download_end m.prev)
  pub unloaded : m.prev.loaded ≡ false

module _ (p : Fdpage) (m : Mix) (a : IsAscending m) (u : p.loaded ≡ false)
    (t : next m.prev ≡ p.offset) where
  mono : (e : ℕ) → download_end m.prev ≤ e → Ascends 0 m.download e
  mono e h = Ascends-mono 0 (download_end m.prev) e m.download a.ascends h

  push :
      (q : Fdpage) (e : ℕ)
      → download_end m.prev ≤ q.offset
      → q.loaded ≡ false
      → next q ≤ e
      → Ascends 0 (m.download ++ q ∷ []) e
  push q e h v k = Ascends-push 0 (download_end m.prev) e m.download q a.ascends h v k

  IsAscending-mix_modified : p.modified ≡ true → IsAscending (mix_modified p m)
  unfolding mix_modified
  IsAscending-mix_modified e =
      if-elim IsAscending (not m.prev.modified) _ _
        (λ k.
          if-elim IsAscending (ltb m.prev.bytes min_multipart_size) _ _
            (λ _. record {
              ascends = push m.prev (download_end p) (ground arith) a.unloaded (ground arith);
              unloaded = u;
            })
            (λ _. record { ascends = mono (download_end p) (ground arith); unloaded = u }))
        (λ k. record {
          ascends =
              mono (download_end (record (m.prev) { bytes = m.prev.bytes + p.bytes }))
                (ground arith);
          unloaded = a.unloaded;
        })

  IsAscending-mix_missing :
      p.modified ≡ false → m.prev.modified ≡ true → IsAscending (mix_missing p m)
  unfolding mix_missing
  IsAscending-mix_missing e e' =
      if-elim IsAscending (ltb (min_multipart_size - m.prev.bytes + min_multipart_size) p.bytes) _ _
        (λ _. record {
          ascends =
              push
                (record {
                  offset = p.offset;
                  bytes = min_multipart_size - m.prev.bytes;
                  loaded = false;
                  modified = false;
                })
                (download_end (record p {
                  offset = p.offset + (min_multipart_size - m.prev.bytes);
                  bytes = p.bytes - (min_multipart_size - m.prev.bytes);
                }))
                (ground arith) refl (ground arith);
          unloaded = u;
        })
        (λ _. record {
          ascends =
              push p (download_end (record (m.prev) { bytes = m.prev.bytes + p.bytes }))
                (ground arith) u (ground arith);
          unloaded = a.unloaded;
        })

  IsAscending-mix_unmodified : p.modified ≡ false → IsAscending (mix_unmodified p m)
  unfolding mix_unmodified
  IsAscending-mix_unmodified e =
      if-elim IsAscending (not m.prev.modified) _ _
        (λ k. record {
          ascends =
              mono (download_end (record (m.prev) { bytes = m.prev.bytes + p.bytes }))
                (ground arith);
          unloaded = a.unloaded;
        })
        (λ k.
          if-elim IsAscending (ltb m.prev.bytes min_multipart_size) _ _
            (λ _. IsAscending-mix_missing e (ground arith))
            (λ _. record { ascends = mono (download_end p) (ground arith); unloaded = u }))

  pub IsAscending-mix_step : IsAscending (mix_step p m)
  unfolding mix_step
  IsAscending-mix_step =
      if-elim IsAscending p.modified _ _ IsAscending-mix_modified IsAscending-mix_unmodified

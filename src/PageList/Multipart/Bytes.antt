-- ===== src/PageList/Multipart/Bytes.antt =====
-- `GetPageListsForMultipartUpload` against the byte view.
use s3fs_fuse.PageList.RawCompress.Parts.{parse_partsize_lem, parse_partsize-unmodified}
use s3fs_fuse.PageList.RawCompress.Gaps.{IsCover, raw_compress-IsCover}
use s3fs_fuse.PageList.Multipart.Download.{IsAscending, IsAscending-mix_step, download_end}
use s3fs_fuse.Base.{
  ℕ, ◌*◌, ◌≤◌, ◌<◌, ◌≡◌, refl, sym, ap, ◌∙◌, subst, ◌⊎◌, Bool, true, false, ◌&&◌, ◌||◌, some, List,
  [], ◌∷◌, arith, ltb, All,
}
use s3fs_fuse.PageList.{Fdpage, PageList, next, size, compress}
use s3fs_fuse.PageList.View.{
  Contiguous, end_from, covers, has_modified, holds, Contiguous-append, end_from-append,
}
use s3fs_fuse.PageList.Resize.{
  byte, IsWhole, compress-IsWhole, byte-compress, size-end_from, size-compress, byte-past,
}
use s3fs_fuse.PageList.RawCompress.{raw_compress, ignoring_load, ignoring_modify}
use s3fs_fuse.PageList.RawCompress.Bytes.{
  flags_at-raw_compress, IsMasked, Contiguous-raw_compress, IsMasked-raw_compress,
}
use s3fs_fuse.PageList.Multipart.{
  Mix, mix_step, mix_loop, mix_start, mix_end, get_page_lists_for_multipart_upload,
}
use s3fs_fuse.PageList.Multipart.Loop.{
  IsTiled, IsExact, mod_in, IsTiled-mix_step, IsExact-mix_step, mod_in-push,
}

-- What holds between two rounds of the loop, at byte `b`.
record Holds (b : ℕ) (f : ℕ → Bool) (o : ℕ) (m : Mix) : Type 0 where
  tiled : IsTiled o m
  ascending : IsAscending m
  exact : IsExact b f o m

Holds-eq : (b : ℕ) (f : ℕ → Bool) (o o' : ℕ) (m : Mix) → o ≡ o' → Holds b f o m → Holds b f o' m
Holds-eq b f o o' m e h = subst (λ k. Holds b f k m) e h

Holds-mix_loop :
    (b : ℕ) (f : ℕ → Bool) (o : ℕ) (ps : List Fdpage) (m : Mix)
    → Contiguous o ps
    → All (λ p. p.loaded ≡ false) ps
    → (o ≤ b → f b ≡ mod_in b ps)
    → Holds b f o m
    → Holds b f (end_from o ps) (mix_loop ps m)
unfolding mix_loop
Holds-mix_loop b f o [] m c u agrees h = h
Holds-mix_loop b f o (p ∷ ps) m c u agrees h =
    let h' = Holds-eq b f o p.offset m (sym c.0) h in
    Holds-mix_loop b f (next p) ps (mix_step p m) c.1 u.1 (λ k. ground arith)
      (record {
        tiled = IsTiled-mix_step p m h'.tiled;
        ascending = IsAscending-mix_step p m h'.ascending u.0 h'.tiled.2;
        exact = IsExact-mix_step b f p m h'.tiled h'.exact (λ k. ground arith);
      })

module _ (m : Mix) (o : ℕ) (t : IsTiled o m) where
  Contiguous-mix_end : Contiguous 0 (mix_end m) × (end_from 0 (mix_end m) ≡ o)
  unfolding mix_end
  Contiguous-mix_end = ground (
    arith,
    Contiguous-append 0 m.mixupload (m.prev ∷ []) t.0 (omega arith, tt),
    end_from-append 0 m.mixupload (m.prev ∷ []),
  )

  mod_in-mix_end :
      (b : ℕ) → mod_in b (mix_end m) ≡ (mod_in b m.mixupload || holds m.prev b && m.prev.modified)
  unfolding mix_end
  mod_in-mix_end b = ground (arith, mod_in-push b m.mixupload m.prev t.0 (omega arith))

-- Ignoring the `loaded` flag keeps the `modified` flag.
mod_in-ignoring_load :
    (b o : ℕ) (ps : List Fdpage)
    → Contiguous o ps
    → mod_in b (raw_compress (ignoring_load false) ps) ≡ mod_in b ps
mod_in-ignoring_load b o ps c = ground (arith, flags_at-raw_compress (ignoring_load false) b o ps c)

-- What the two lists of `GetPageListsForMultipartUpload` are good for.
pub record IsUploadPlan (l : PageList) (dlpages mixuppages : List Fdpage) : Type 0 where
  pub whole : Contiguous 0 mixuppages × (end_from 0 mixuppages ≡ size l)
  pub uploads : (b : ℕ) → has_modified (byte l b) ≡ true → mod_in b mixuppages ≡ true
  pub has_data :
      (b : ℕ)
      → mod_in b mixuppages ≡ true
      → (has_modified (byte l b) ≡ true) ⊎ (covers b dlpages ≡ true)

start_Holds : (b : ℕ) (f : ℕ → Bool) → Holds b f 0 mix_start
start_Holds b f = record {
  tiled = (tt, refl, refl);
  ascending = record { ascends = omega arith; unloaded = refl };
  exact = record { uploads = ground arith; downloads = λ h. absurd (cc) };
}

loaded_of_IsMasked :
    (ps : List Fdpage) → All (IsMasked (ignoring_load false)) ps → All (λ p. p.loaded ≡ false) ps
loaded_of_IsMasked [] a = tt
loaded_of_IsMasked (p ∷ ps) a = (a.0.0 refl, loaded_of_IsMasked ps a.1)

module _ (l : PageList) (w : IsWhole l) where
  abbrev modified_pages : List Fdpage
  modified_pages = raw_compress (ignoring_load false) (compress l).pages

  abbrev mixed : Mix
  mixed = mix_loop modified_pages mix_start

  compressed-IsWhole : IsWhole (compress l)
  compressed-IsWhole = compress-IsWhole l w

  modified_pages-Contiguous :
      Contiguous 0 modified_pages × (end_from 0 modified_pages ≡ end_from 0 (compress l).pages)
  modified_pages-Contiguous =
      Contiguous-raw_compress (ignoring_load false) 0 (compress l).pages compressed-IsWhole

  -- The `modified` flags of the file.
  modified_pages-eq : (b : ℕ) → mod_in b modified_pages ≡ has_modified (byte l b)
  modified_pages-eq b =
      mod_in-ignoring_load b 0 (compress l).pages compressed-IsWhole
      ∙ ap has_modified (byte-compress b l w)

  mixed-Holds : (b : ℕ) → Holds b (λ k. mod_in k modified_pages) (end_from 0 modified_pages) mixed
  mixed-Holds b =
      Holds-mix_loop b (λ k. mod_in k modified_pages) 0 modified_pages mix_start
        modified_pages-Contiguous.0
        (loaded_of_IsMasked modified_pages
          (IsMasked-raw_compress (ignoring_load false) 0 (compress l).pages compressed-IsWhole))
        (λ _. refl) (start_Holds b (λ k. mod_in k modified_pages))

  mixed-size : end_from 0 modified_pages ≡ size l
  mixed-size =
      omega (arith, modified_pages-Contiguous.1, size-end_from (compress l), size-compress l w)

  mod_in-mixed :
      (b : ℕ)
      → mod_in b (mix_end mixed)
        ≡ (ltb b (size l) && has_modified (byte l b) || covers b mixed.download)
  mod_in-mixed b =
      mod_in-mix_end mixed (end_from 0 modified_pages) (mixed-Holds b).tiled b
      ∙ (mixed-Holds b).exact.uploads
      ∙ rw (mixed-size, modified_pages-eq b)

  mix_end-Contiguous : Contiguous 0 (mix_end mixed) × (end_from 0 (mix_end mixed) ≡ size l)
  mix_end-Contiguous =
      let c = Contiguous-mix_end mixed (end_from 0 modified_pages) (mixed-Holds 0).tiled in
      (c.0, c.1 ∙ mixed-size)

  download-IsCover : IsCover mixed.download (raw_compress (ignoring_modify false) mixed.download)
  download-IsCover =
      raw_compress-IsCover 0 (download_end mixed.prev) mixed.download
        (mixed-Holds 0).ascending.ascends

  -- With a positive part size both lists exist, and are a plan of the upload: `mixuppages` goes
  -- through the file without a gap, its modified pages hold each modified byte, and any other byte
  -- that they hold is in `dlpages`. No modified page has more than two part sizes.
  pub get_page_lists_for_multipart_upload_lem :
      (max_partsize : ℕ)
      → 0 < max_partsize
      → (dlpages : List Fdpage) × (mixuppages : List Fdpage) × ((get_page_lists_for_multipart_upload
            max_partsize l).1
          ≡ some dlpages)
        × ((get_page_lists_for_multipart_upload max_partsize l).2 ≡ some mixuppages)
        × IsUploadPlan l dlpages mixuppages
        × All (λ q. q.modified ≡ true → q.bytes ≤ max_partsize * 2) mixuppages
  unfolding get_page_lists_for_multipart_upload
  get_page_lists_for_multipart_upload_lem max_partsize h =
      let mix = raw_compress (ignoring_load false) (mix_end mixed) in
      let dl = raw_compress (ignoring_modify false) mixed.download in
      let c =
        Contiguous-raw_compress (ignoring_load false) 0 (mix_end mixed) mix_end-Contiguous.0 in
      let (qs, e, d) = parse_partsize_lem max_partsize 0 mix h c.0 in
      let at : (b : ℕ)
          → mod_in b qs ≡ (ltb b (size l) && has_modified (byte l b) || covers b mixed.download) =
        λ b.
          ap has_modified (d.bytes b)
          ∙ mod_in-ignoring_load b 0 (mix_end mixed) mix_end-Contiguous.0
          ∙ mod_in-mixed b in
      (
        dl,
        qs,
        parse_partsize-unmodified max_partsize dl download-IsCover.unmodified,
        e,
        record {
          whole = (d.contiguous, d.same_end ∙ c.1 ∙ mix_end-Contiguous.1);
          uploads = λ b k. ground (arith, at b, byte-past b l w);
          has_data = λ b k. ground (arith, at b, download-IsCover.covered b);
        },
        d.small,
      )

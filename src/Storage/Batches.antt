-- ===== src/Storage/Batches.antt =====
-- WritePagesContiguous: what is in the file when it ends, while its writes stop at ends of pages.
use frostfire.Prelude.{
  ℕ, zero, suc, ◌+◌, ◌*◌, ◌/◌, ◌%◌, ◌^◌, ◌≤◌, ◌<◌, ◌≡◌, ◌≢◌, ◌⊎◌, inl, refl, sym, ◌∙◌, ap, subst,
  false, ltb, List, [], ◌∷◌, length, take, drop, length-take, length-drop, if◌then◌else◌, arith,
  Option, none, some, Result, ok, err, panic, io_error,
}
use frostfire.Bytes.{Bytes, page_size}
use frostfire.Storage.{Disk, Buffer, StorageManager, exceeds, word}
use frostfire.Storage.Pages.{DiskLaws, stored, get_offset-Inside}
use frostfire.Storage.Vectored.{
  pwritev_max_iov, skip_partial, advance, pwritev_full, whole_pages, write_pages_contiguous,
}

module _ {disk : Disk} (laws : DiskLaws disk) where
  open disk use {File, pwritev}
  open laws use {holds}

  -- The whole pages of `bufs` stand in the file one after the other from offset `o` on.
  unfoldable pub LaidOut : File → ℕ → List Buffer → Type 0
  LaidOut f o [] = Unit {0}
  LaidOut f o ((d, from) ∷ bufs) = (from ≡ 0 → holds f o ≡ d) × LaidOut f (o + page_size) bufs

  -- No page outside of `len` pages from offset `o` on has changed.
  abbrev pub Around : File → File → ℕ → ℕ → Type 0
  Around f f' o len =
      (o' : ℕ) → (o' + page_size ≤ o) ⊎ (o + len * page_size ≤ o') → holds f' o' ≡ holds f o'

  -- Buffers of whole pages, none of them shortened.
  abbrev pub AllWhole : List Buffer → Type 0
  AllWhole [] = Unit {0}
  AllWhole ((d, from) ∷ bufs) = (from ≡ 0) × AllWhole bufs

  -- What the system promises of a write of several buffers: it leaves other pages alone, and if it
  -- succeeds it has taken some bytes, no more than there are, and stored them in order, so that the
  -- pages all of whose bytes were taken stand in the file. It may stop inside a page.
  pub record VectorLaws : Type 0 where
    pub around :
        (f : File) (bufs : List Buffer) (o : ℕ) → Around f (pwritev f bufs o).1 o (length bufs)
    pub taken :
        (f : File) (bufs : List Buffer) (o n : ℕ)
        → 0 < length bufs
        → AllWhole bufs
        → (pwritev f bufs o).0 ≡ some n
        → (0 < n)
          × (n ≤ length bufs * page_size)
          × LaidOut (pwritev f bufs o).1 o (take (n / page_size) bufs)

  -- No write of this run of pwritevFull stops inside a page: each takes bytes of whole pages.
  unfoldable pub NeverInside : ℕ → File → List Buffer → ℕ → Type 0
  NeverInside zero f bufs o = Unit {0}
  NeverInside (suc fuel) f [] o = Unit {0}
  NeverInside (suc fuel) f (b ∷ bs) o =
      (n : ℕ)
      → (pwritev f (take pwritev_max_iov (b ∷ bs)) o).0 ≡ some n
      → (n % page_size ≡ 0)
        × NeverInside fuel (pwritev f (take pwritev_max_iov (b ∷ bs)) o).1
            (drop (n / page_size) (b ∷ bs)) (o + n)

  AllWhole-take : (k : ℕ) (bufs : List Buffer) → AllWhole bufs → AllWhole (take k bufs)
  AllWhole-take zero bufs h = tt
  AllWhole-take (suc k) [] h = tt
  AllWhole-take (suc k) (b ∷ bufs) h = (h.0, AllWhole-take k bufs h.1)

  AllWhole-drop : (k : ℕ) (bufs : List Buffer) → AllWhole bufs → AllWhole (drop k bufs)
  AllWhole-drop zero bufs h = h
  AllWhole-drop (suc k) [] h = tt
  AllWhole-drop (suc k) (b ∷ bufs) h = AllWhole-drop k bufs h.1

  LaidOut-join :
      (f : File) (k : ℕ) (o : ℕ) (bufs : List Buffer)
      → LaidOut f o (take k bufs)
      → LaidOut f (o + k * page_size) (drop k bufs)
      → LaidOut f o bufs
  unfolding LaidOut
  LaidOut-join f zero o bufs front back = subst (λ x. LaidOut f x bufs) (omega arith) back
  LaidOut-join f (suc k) o [] front back = tt
  LaidOut-join f (suc k) o ((d, from) ∷ bufs) front back = (
    front.0,
    LaidOut-join f k (o + page_size) bufs front.1
        (subst (λ x. LaidOut f x (drop k bufs)) (omega arith) back),
  )

  -- Later writes behind some pages leave them.
  LaidOut-kept :
      (f f' : File) (o end len : ℕ) (bufs : List Buffer)
      → Around f f' end len
      → o + length bufs * page_size ≤ end
      → LaidOut f o bufs
      → LaidOut f' o bufs
  unfolding LaidOut
  LaidOut-kept f f' o end len [] same before h = tt
  LaidOut-kept f f' o end len ((d, from) ∷ bufs) same before h = (
    (λ e. same o (inl (omega arith)) ∙ h.0 e),
    LaidOut-kept f f' (o + page_size) end len bufs same (omega arith) h.1,
  )

  -- How pwritevFull ends.
  abbrev pub Lays : File → List Buffer → ℕ → Option (Result (Unit {0}) × File) → Type 0
  Lays f bufs o none = ⊥
  Lays f bufs o (some (ok u, f')) = Around f f' o (length bufs) × LaidOut f' o bufs
  Lays f bufs o (some (err e, f')) = Around f f' o (length bufs)
  Lays f bufs o (some (panic, f')) = ⊥

  take-take : (k m : ℕ) (bufs : List Buffer) → k ≤ m → take k (take m bufs) ≡ take k bufs
  take-take zero m bufs le = refl
  take-take (suc k) zero bufs le = absurd (omega arith)
  take-take (suc k) (suc m) [] le = refl
  take-take (suc k) (suc m) (b ∷ bufs) le = ap (λ x. b ∷ x) (take-take k m bufs (omega arith))

  advance_pages :
      (k : ℕ) (bufs : List Buffer)
      → k ≤ length bufs
      → advance (k * page_size) bufs ≡ ok (drop k bufs)
  unfolding advance skip_partial
  advance_pages k bufs le =
      let full : k * page_size / page_size ≡ k = omega arith in
      let rest : k * page_size % page_size ≡ 0 = omega arith in rw (full, rest, ge→ltb k le) refl
    where
      ge→ltb : (k : ℕ) → k ≤ length bufs → ltb (length bufs) k ≡ false
      ge→ltb k le = ground arith

  module _ (vectors : VectorLaws) where
    open vectors use {around, taken}

    -- What remains after a round that took `k` pages.
    rest-Lays :
        (f f' : File) (bufs : List Buffer) (o k : ℕ) (r : Option (Result (Unit {0}) × File))
        → k ≤ length bufs
        → Around f f' o (length bufs)
        → LaidOut f' o (take k bufs)
        → Lays f' (drop k bufs) (o + k * page_size) r
        → Lays f bufs o r
    rest-Lays f f' bufs o k none le same front h = h
    rest-Lays f f' bufs o k (some (panic, f'')) le same front h = h
    rest-Lays f f' bufs o k (some (err e, f'')) le same front h =
        λ o' out. h o' (ground (arith, length-drop k bufs, out)) ∙ same o' out
    rest-Lays f f' bufs o k (some (ok u, f'')) le same front (behind, back) = (
      (λ o' out. behind o' (ground (arith, length-drop k bufs, out)) ∙ same o' out),
      LaidOut-join f'' k o bufs
          (LaidOut-kept f' f'' o (o + k * page_size) (length (drop k bufs)) (take k bufs) behind
            (omega (arith, length-take k bufs)) front)
          back,
    )

    -- If no write of this run stops inside a page, pwritevFull of whole pages ends, without a panic,
    -- in at most as many rounds as there are pages, and one more to see that none is left. If it
    -- succeeds, every page of the run stands at its place in the file; however it ends, no page
    -- outside of the run has changed.
    pub pwritev_full-Lays :
        (fuel : ℕ) (f : File) (bufs : List Buffer) (o : ℕ)
        → length bufs < fuel
        → AllWhole bufs
        → NeverInside fuel f bufs o
        → Lays f bufs o (pwritev_full disk fuel f bufs o)
    unfolding pwritev_full LaidOut NeverInside
    pwritev_full-Lays zero f bufs o enough whole never = absurd (omega arith)
    pwritev_full-Lays (suc fuel) f [] o enough whole never = ((λ o' out. refl), tt)
    pwritev_full-Lays (suc fuel) f (b ∷ bs) o enough whole never =
        round (pwritev f chunk o) (around f chunk o)
          (λ n e.
            taken f chunk o n (omega (arith, some_page))
              (AllWhole-take pwritev_max_iov (b ∷ bs) whole) e)
          never
          (λ k f' pos never'.
            pwritev_full-Lays fuel f' (drop k (b ∷ bs)) (o + k * page_size)
              (omega (arith, length-drop k (b ∷ bs), pos, enough)) (AllWhole-drop k (b ∷ bs) whole)
              never')
      where
        chunk : List Buffer
        chunk = take pwritev_max_iov (b ∷ bs)

        some_page : 0 < length chunk
        some_page = ground (arith, length-take pwritev_max_iov (b ∷ bs))

        step : File → ℕ → Result (List Buffer) → Option (Result (Unit {0}) × File)
        step f' n r = elim r [
          | ok bufs' ↦ pwritev_full disk fuel f' bufs' (o + n)
          | err e ↦ some (err e, f')
          | panic ↦ some (panic, f')
        ]

        round :
            (w : Option ℕ × File)
            → Around f w.1 o (length chunk)
            → ((n : ℕ)
                → w.0 ≡ some n
                → (0 < n)
                  × (n ≤ length chunk * page_size)
                  × LaidOut w.1 o (take (n / page_size) chunk))
            → ((n : ℕ)
                → w.0 ≡ some n
                → (n % page_size ≡ 0)
                  × NeverInside fuel w.1 (drop (n / page_size) (b ∷ bs)) (o + n))
            → ((k : ℕ) (f' : File)
                → 0 < k
                → NeverInside fuel f' (drop k (b ∷ bs)) (o + k * page_size)
                → Lays f'
                    (drop k (b ∷ bs))
                    (o + k * page_size)
                    (pwritev_full disk fuel f' (drop k (b ∷ bs)) (o + k * page_size)))
            → Lays f (b ∷ bs) o (elim (w.0) [
              | none ↦ some (err io_error, w.1)
              | some n ↦ step w.1 n (advance n (b ∷ bs))
            ])
        round (none, f') same more never ih =
            λ o' out. same o' (ground (arith, length-take pwritev_max_iov (b ∷ bs), out))
        round (some n, f') same more never ih =
            let (some_byte, bound, front) = more n refl in
            let k = n / page_size in
            let e : n ≡ k * page_size = omega (arith, (never n refl).0) in
            let pos : 0 < k = omega (arith, e, some_byte) in
            let le : k ≤ length chunk = omega (arith, bound) in
            let fits : k ≤ length (b ∷ bs) =
              omega (arith, length-take pwritev_max_iov (b ∷ bs), le) in
            subst (λ x. Lays f (b ∷ bs) o (step f' x (advance x (b ∷ bs)))) (sym e)
              (subst (λ x. Lays f (b ∷ bs) o (step f' (k * page_size) x))
                (sym (advance_pages k (b ∷ bs) fits))
                (rest-Lays f f' (b ∷ bs) o k
                  (pwritev_full disk fuel f' (drop k (b ∷ bs)) (o + k * page_size)) fits
                  (λ o' out. same o' (ground (arith, length-take pwritev_max_iov (b ∷ bs), out)))
                  (subst (λ x. LaidOut f' o x)
                    (take-take k pwritev_max_iov (b ∷ bs)
                      (omega (arith, length-take pwritev_max_iov (b ∷ bs), le)))
                    front)
                  (ih k f' pos (
                    subst (λ x. NeverInside fuel f' (drop k (b ∷ bs)) (o + x)) e
                      (never n refl).1))))

    -- The pages `ds` stand in the file from page `start` on.
    abbrev pub InRow : StorageManager disk → ℕ → List Bytes → Type 0
    InRow s start [] = Unit {0}
    InRow s start (d ∷ ds) = (stored laws s start ≡ d) × InRow s (start + 1) ds

    AllWhole-whole_pages : (ds : List Bytes) → AllWhole (whole_pages ds)
    unfolding whole_pages
    AllWhole-whole_pages [] = tt
    AllWhole-whole_pages (d ∷ ds) = (refl, AllWhole-whole_pages ds)

    length-whole_pages : (ds : List Bytes) → length (whole_pages ds) ≡ length ds
    unfolding whole_pages
    length-whole_pages [] = refl
    length-whole_pages (d ∷ ds) = ap suc (length-whole_pages ds)

    LaidOut-InRow :
        (s : StorageManager disk) (start : ℕ) (ds : List Bytes)
        → LaidOut s.file (start * page_size) (whole_pages ds)
        → InRow s start ds
    unfolding LaidOut whole_pages
    LaidOut-InRow s start [] h = tt
    LaidOut-InRow s start (d ∷ ds) h = (
      h.0 refl,
      LaidOut-InRow s (start + 1) ds
          (subst (λ x. LaidOut s.file x (whole_pages ds)) (omega arith) h.1),
    )

    outside :
        (start : ℕ) (ds : List Bytes) (j : ℕ)
        → (j < start) ⊎ (start + length ds ≤ j)
        → (j * page_size + page_size ≤ start * page_size)
          ⊎ (start * page_size + length (whole_pages ds) * page_size ≤ j * page_size)
    outside start ds j out = ground (arith, out, length-whole_pages ds)

    -- How WritePagesContiguous ends.
    abbrev pub Stores :
        StorageManager disk
        → ℕ
        → List Bytes
        → Option (Result (Unit {0}) × StorageManager disk)
        → Type 0
    Stores s start ds none = ⊥
    Stores s start ds (some (r, t)) =
        (r ≢ panic)
        × (r ≡ ok tt → InRow t start ds)
        × (t.file_size ≡ s.file_size)
        × ((j : ℕ) → (j < start) ⊎ (start + length ds ≤ j) → stored laws t j ≡ stored laws s j)

    Lays-Stores :
        (s : StorageManager disk) (start : ℕ) (ds : List Bytes)
        (r : Option (Result (Unit {0}) × File))
        → Lays s.file (whole_pages ds) (start * page_size) r
        → Stores s start ds
            (elim r [ none ↦ none | some (r', f') ↦ some (r', record s { file = f' }) ])
    Lays-Stores s start ds none h = h
    Lays-Stores s start ds (some (panic, f')) h = absurd h
    Lays-Stores s start ds (some (err e, f')) h = (
      (λ e. absurd (ground (arith, e))),
      (λ e. absurd (ground (arith, e))),
      refl,
      λ j out. h (j * page_size) (outside start ds j out),
    )
    Lays-Stores s start ds (some (ok u, f')) (h, row) = (
      (λ e. absurd (ground (arith, e))),
      (λ e. LaidOut-InRow (record s { file = f' }) start ds row),
      refl,
      λ j out. h (j * page_size) (outside start ds j out),
    )

    -- If no write of its run stops inside a page, WritePagesContiguous of pages of the file ends
    -- without a panic in at most as many rounds as there are pages, and one more to see that none is
    -- left. If it succeeds, every page of the run is in the file at its place; however it ends, no
    -- other page has changed.
    pub write_pages_contiguous-Stores :
        (fuel : ℕ) (s : StorageManager disk) (start : ℕ) (ds : List Bytes)
        → length ds < fuel
        → (start + length ds) * page_size ≤ s.file_size
        → s.file_size < 2 ^ 63
        → NeverInside fuel s.file (whole_pages ds) (start * page_size)
        → Stores s start ds (write_pages_contiguous disk fuel s start ds)
    unfolding write_pages_contiguous
    write_pages_contiguous-Stores fuel s start [] enough inside small never =
        ((λ e. absurd (ground (arith, e))), (λ e. tt), refl, λ j out. refl)
    write_pages_contiguous-Stores fuel s start (d ∷ ds) enough inside small never =
        subst (λ g. Stores s start (d ∷ ds) (at g))
          (sym (get_offset-Inside disk s start (omega (arith, inside), small)))
          (subst (λ b. Stores s start (d ∷ ds) (if b then some (panic, s) else run)) (sym fits)
            (Lays-Stores s start (d ∷ ds)
              (pwritev_full disk fuel s.file (whole_pages (d ∷ ds)) (start * page_size))
              (pwritev_full-Lays fuel s.file (whole_pages (d ∷ ds)) (start * page_size)
                (omega (arith, length-whole_pages (d ∷ ds), enough)) (AllWhole-whole_pages (d ∷ ds))
                never)))
      where
        fits :
            exceeds ((start * page_size + length (d ∷ ds) * page_size) % word) s.file_size ≡ false
        fits = ground (arith, inside, small)

        run : Option (Result (Unit {0}) × StorageManager disk)
        run = elim (pwritev_full disk fuel s.file (whole_pages (d ∷ ds)) (start * page_size)) [
          | none ↦ none
          | some (r, f') ↦ some (r, record s { file = f' })
        ]

        at : Result ℕ → Option (Result (Unit {0}) × StorageManager disk)
        at g = elim g [
          | panic ↦ some (panic, s)
          | err e ↦ some (err e, s)
          | ok offset ↦
              if exceeds ((offset + length (d ∷ ds) * page_size) % word) s.file_size
              then some (panic, s)
              else elim (pwritev_full disk fuel s.file (whole_pages (d ∷ ds)) offset) [
                | none ↦ none
                | some (r, f') ↦ some (r, record s { file = f' })
              ]
        ]

-- ===== src/Storage/BatchTests.antt =====
-- A file whose writes are short, and a run of WritePagesContiguous on it.
use frostfire.Prelude.{
  ℕ, zero, ltb, none, ◌-◌, ◌+◌, ◌*◌, ◌/◌, ◌<◌, ◌≤◌, ◌≡◌, ◌⊎◌, inl, inr, refl, subst, true, suc,
  arith, List, [], ◌∷◌, length, take, ◌==◌, if◌then◌else◌, Option, some, ne→==, ==-refl,
}
use frostfire.Bytes.{Bytes, page_size}
use frostfire.Storage.{Disk, Buffer, StorageManager}
use frostfire.Storage.Pages.{DiskLaws}
use frostfire.Storage.Torn.{pwritev_full-endless}
use frostfire.Storage.Vectored.{pwritev_full, whole_pages, write_pages_contiguous}
use frostfire.Storage.Batches.{
  VectorLaws, NeverInside, LaidOut, Around, Stores, write_pages_contiguous-Stores,
}

-- A write of several pages that stops after the first one.
pub first_page : (ℕ → Bytes) → List Buffer → ℕ → Option ℕ × (ℕ → Bytes)
first_page f [] id = (some 0, f)
first_page f ((d, from) ∷ bufs) id = (some page_size, λ p. if p == id then d else f p)

-- A file that keeps a page for each page number.
abbrev pub memory : Disk
memory = record {
  File = ℕ → Bytes;
  read_at = λ f o. some (f (o / page_size));
  write_at = λ f o b. (true, λ p. if p == o / page_size then b else f p);
  truncate = λ f size. (true, f);
  sync_file = λ f. (true, f);
  pwritev = λ f bufs o. first_page f bufs (o / page_size);
  close_file = λ f. true;
}

unfoldable pub memory_laws : DiskLaws memory
memory_laws = record {
  holds = λ f o. f (o / page_size);
  reads = λ f o b e. ground (arith, e);
  writes = λ f o b e. rw (==-refl (o / page_size)) refl;
  syncs = λ f o. refl;
  elsewhere = λ f o b o' far.
      rw (ne→== (o' / page_size) (o / page_size) (λ e. absurd (apart o o' far e))) refl;
}
  where
    apart :
        (o o' : ℕ)
        → (o + page_size ≤ o') ⊎ (o' + page_size ≤ o)
        → o' / page_size ≡ o / page_size
        → ⊥
    apart o o' (inl h) e = omega (arith, e)
    apart o o' (inr h) e = omega (arith, e)

pub memory_vectors : VectorLaws memory_laws
unfolding memory_laws LaidOut first_page
memory_vectors = record {
  around = λ f bufs o. elsewhere_kept f bufs o;
  taken = λ f bufs o n some_page whole e. one_taken f bufs o n some_page e;
}
  where
    elsewhere_kept :
        (f : ℕ → Bytes) (bufs : List Buffer) (o : ℕ)
        → Around memory_laws f (memory.pwritev f bufs o).1 o (length bufs)
    elsewhere_kept f [] o = λ o' out. refl
    elsewhere_kept f ((d, from) ∷ bufs) o = λ o' out.
        rw (ne→== (o' / page_size) (o / page_size) (λ e. absurd (ground (arith, e, out)))) refl

    one_taken :
        (f : ℕ → Bytes) (bufs : List Buffer) (o n : ℕ)
        → 0 < length bufs
        → (memory.pwritev f bufs o).0 ≡ some n
        → (0 < n)
          × (n ≤ length bufs * page_size)
          × LaidOut memory_laws (memory.pwritev f bufs o).1 o (take (n / page_size) bufs)
    one_taken f [] o n some_page e = absurd (omega arith)
    one_taken f ((d, from) ∷ bufs) o n some_page e =
        let size : page_size ≡ n = ground (arith, e) in
        subst
          (λ x.
            (0 < x)
            × (x ≤ length ((d, from) ∷ bufs) * page_size)
            × LaidOut memory_laws (memory.pwritev f ((d, from) ∷ bufs) o).1 o
                (take (x / page_size) ((d, from) ∷ bufs)))
          size (omega arith, omega arith, ((λ whole. rw (==-refl (o / page_size)) refl), tt))

-- Its writes stop behind a page.
pub memory-NeverInside :
    (fuel : ℕ) (f : ℕ → Bytes) (bufs : List Buffer) (o : ℕ) → NeverInside memory_laws fuel f bufs o
unfolding NeverInside first_page
memory-NeverInside zero f bufs o = tt
memory-NeverInside (suc fuel) f [] o = tt
memory-NeverInside (suc fuel) f ((d, from) ∷ bs) o =
    λ n e. (ground (arith, e), memory-NeverInside fuel _ _ _)

abbrev zeros : StorageManager memory
zeros = record { file = λ id p. 0; file_size = 65536 }

-- Two pages take two writes.
abbrev two : List Bytes
two = (λ p. 7) ∷ (λ p. 8) ∷ []

write_pages_contiguous-Stores_example :
    Stores memory_laws memory_vectors zeros 3 two (write_pages_contiguous memory 3 zeros 3 two)
write_pages_contiguous-Stores_example =
    write_pages_contiguous-Stores memory_laws memory_vectors 3 zeros 3 two (omega arith)
      (omega arith) (omega arith)
      (memory-NeverInside 3 zeros.file (whole_pages two) (3 * page_size))

-- A file whose first write of a page stops after 100 bytes, and whose next one takes the rest.
abbrev stops_inside : (ℕ → Bytes) → List Buffer → ℕ → Option ℕ × (ℕ → Bytes)
stops_inside f [] o = (some 0, f)
stops_inside f ((d, from) ∷ bufs) o =
    let begun : ℕ → Bytes =
      λ p. if p == o / page_size then (λ i. if ltb i 100 then d i else f p i) else f p in
    let ended : ℕ → Bytes = λ p. if p == o / page_size then d else f p in
    if from == 0
    then (some 100, begun)
    else (if ltb from page_size then (some (page_size - from), ended) else (some 0, f))

abbrev stopping : Disk
stopping = record memory { pwritev = stops_inside }

pwritev_full-endless_example :
    pwritev_full stopping 1000 zeros.file ((λ p. 7, 0) ∷ []) (3 * page_size) ≡ none
pwritev_full-endless_example =
    pwritev_full-endless stopping 1000 zeros.file _ _ (λ p. 7) 100 (3 * page_size) (omega arith)
      (omega arith) refl refl (λ f o. refl)

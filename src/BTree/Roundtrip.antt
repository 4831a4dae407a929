-- ===== src/BTree/Roundtrip.antt =====
-- A value that writeOverflowPages stored is read back by readOverflowPages.
use frostfire.Prelude.{
  ℕ, ◌≤◌, ◌<◌, ◌≡◌, refl, sym, ◌∙◌, subst, List, [], ◌∷◌, length, take, drop, length-take,
  length-drop, none, some, Result, ok, err, panic, arith,
}
use frostfire.Bytes.{slice}
use frostfire.Bytes.Codec.{slice-ext}
use frostfire.BTree.Pages.{Pages}
use frostfire.BTree.Action.{Action, follow, on_error, ◌>>=◌}
use frostfire.BTree.Nodes.{id, edit}
use frostfire.BTree.Overflow.{
  overflow_chunk_size, overflow_header_size, chunk_page, release_prev, link, write_chunks,
  write_overflow_pages, read_overflow_pages,
}
use frostfire.BTree.Runs.{Run, Run-follow, Run-map, Got, ReadLaws}
use frostfire.BTree.Trees.{IsChain, collect}
use frostfire.BTree.Chains.{Chunks, collect-Chunks, Store, WriteLaws, Granted, Fetched}
use frostfire.BTree.Writing.{Fresh, Granted-Fresh, Rest}
use frostfire.BTree.WriteLoop.{Failed, write_chunks-Completes}
use frostfire.BTree.Values.{Calm, read_chunks-collect}

module _ {p : Pages} (store : Store p) (laws : WriteLaws p store) where
  open p use {State, get, allocate, unpin, id_of, bytes_of, set_bytes}
  open store use {Good, Used, content, pins}
  open laws use {get_law, allocate_law, unpin_law}

  -- The pages in use at `t`, as they are then.
  frozen_laws : (t : State) → ReadLaws p (content t) (Used t)
  frozen_laws t = record {
    Good = λ u.
        Good u × ((i : ℕ) → Used t i → Used u i) × ((i : ℕ) → Used t i → content u i ≡ content t i);
    pins = pins;
    get_law = λ i u live (good, kept, same).
        fetched i u live kept same (get i u) (get_law i u good (kept i live));
    unpin_law = λ n u (good, kept, same) pinned.
        let q = unpin_law n u good pinned in
        (q.0, (q.1, (λ i live. q.4 i (kept i live)), (λ i live. q.5 i ∙ same i live)), q.2);
  }
    where
      fetched :
          (i : ℕ) (u : State)
          → Used t i
          → ((j : ℕ) → Used t j → Used u j)
          → ((j : ℕ) → Used t j → content u j ≡ content t j)
          → (r : Result ℕ × State) → Fetched p store u i r
          → Got p
              (content t)
              (λ u.
                Good u
                × ((i : ℕ) → Used t i → Used u i)
                × ((i : ℕ) → Used t i → content u i ≡ content t i))
              pins
              u
              i
              r
      fetched i u live kept same (ok n, w) (good, here, more, kept', same') = (
        (good, (λ j h. kept' j (kept j h)), (λ j h. same' j (kept j h) ∙ same j h)),
        here ∙ same i live,
        more,
      )
      fetched i u live kept same (err e, w) (good, more, kept', same') =
          ((good, (λ j h. kept' j (kept j h)), (λ j h. same' j (kept j h) ∙ same j h)), more)
      fetched i u live kept same (panic, w) h = h

  -- The chain from page `first` has the value.
  record Saved (s : State) (value : List ℕ) (first : ℕ) (t : State) : Type 0 where
    good : Good t
    balanced : (m : ℕ) → pins t m ≡ pins s m
    kept : (j : ℕ) → Used s j → Used t j
    same : (j : ℕ) → Used s j → content t j ≡ content s j
    ids : List ℕ
    short : length ids ≤ length value
    chain : IsChain (content t) (Used t) ids first
    chunks : Chunks (content t) ids value

  abbrev Balanced : State → State → Type 0
  Balanced s t = Good t × ((m : ℕ) → pins t m ≡ pins s m)

  write_overflow_pages-Saved :
      (value : List ℕ) (s : State)
      → Good s
      → Run (λ r t. Saved s value r t) (λ t. Balanced s t) (write_overflow_pages p value s)
  unfolding write_overflow_pages write_chunks
  write_overflow_pages-Saved [] s good = record {
    good = good;
    balanced = λ m. refl;
    kept = λ j u. u;
    same = λ j u. refl;
    ids = [];
    short = omega arith;
    chain = refl;
    chunks = refl;
  }
  write_overflow_pages-Saved (b ∷ bs) s good = go (allocate s) (allocate_law s good)
    where
      value : List ℕ
      value = b ∷ bs

      after : ℕ → Action State ℕ
      after n = edit p n (λ d. ok (chunk_page (take overflow_chunk_size value) d)) >>= λ x.
          id p n >>= λ i. link p none 0 i >>= λ first.
          write_chunks p (length value) (drop overflow_chunk_size value) first (some n)

      step :
          (n : ℕ) (s1 : State)
          → Fresh store laws s n (id_of n s1) (take overflow_chunk_size value) s1
          → Run
              (λ r t. Saved s value r t)
              (λ t. Balanced s t)
              (write_chunks p
                (length value)
                (drop overflow_chunk_size value)
                (id_of n s1)
                (some n)
                s1)
      step n s1 fresh =
          let later : List ℕ = drop overflow_chunk_size value in
          Run-map (λ r t. (r ≡ id_of n s1) × Rest store laws s1 n (id_of n s1) later t)
            (λ r t. Saved s value r t) (λ t. Failed store laws s1 n t) (λ t. Balanced s t)
            (write_chunks p (length value) later (id_of n s1) (some n) s1)
            (λ r t a. saved r t a.0 a.1) (λ t a. (a.0, λ m. omega (arith, a.1 m, fresh.more m)))
            (write_chunks-Completes store laws (length value) later
              (omega (arith, length-drop overflow_chunk_size value)) (id_of n s1) n s1 fresh.good
              (ground (arith, fresh.more n)) fresh.used fresh.last)
        where
          saved :
              (r : ℕ) (t : State)
              → r ≡ id_of n s1
              → Rest store laws s1 n (id_of n s1) (drop overflow_chunk_size value) t
              → Saved s value r t
          saved r t e rest = record {
            good = rest.good;
            balanced = λ m. omega (arith, rest.fewer m, fresh.more m);
            kept = λ j u. rest.kept j (fresh.kept j u);
            same = λ j u.
                rest.same j (fresh.kept j u) (λ e. fresh.new (subst (Used s) e u)) ∙ fresh.same j u;
            ids = id_of n s1 ∷ rest.ids;
            short = omega (arith, rest.short, length-drop overflow_chunk_size value);
            chain = (e, fresh.nonzero, rest.kept (id_of n s1) fresh.used, rest.chain);
            chunks = (
              subst
                  (λ k.
                    slice k (content t (id_of n s1)) overflow_header_size
                    ≡ take overflow_chunk_size value)
                  (length-take overflow_chunk_size value)
                  (slice-ext (length (take overflow_chunk_size value)) (content t (id_of n s1))
                      (content s1 (id_of n s1)) overflow_header_size (λ q lo hi. rest.behind q lo)
                    ∙ fresh.holds),
              rest.chunks,
            );
          }

      go :
          (r : Result ℕ × State)
          → Granted p store s r
          → Run
              (λ r t. Saved s value r t)
              (λ t. Balanced s t)
              (follow (on_error (λ u. some r) (release_prev p none) s) after)
      go (ok n, t) granted =
          let s1 : State =
            set_bytes n (chunk_page (take overflow_chunk_size value) (bytes_of n t)) t in
          let fresh : Fresh store laws s n (id_of n t) (take overflow_chunk_size value) s1 =
            Granted-Fresh store laws s t n (take overflow_chunk_size value) granted in
          step n s1 (
            subst (λ j. Fresh store laws s n j (take overflow_chunk_size value) s1) (sym fresh.at)
              fresh)
      go (err e, t) (good', same) = (good', same)
      go (panic, t) h = h

  -- A value of any length that is written to overflow pages and read back with its length is the
  -- value again, unless the store reports an error. Neither panics nor loops, with one round of
  -- reading more than the value has bytes, and whatever comes out, every pin is given back.
  pub read-write_overflow_pages :
      (fuel : ℕ) (value : List ℕ) (s : State)
      → length value < fuel
      → Good s
      → Run
          (λ v t. (v ≡ value) × Good t × ((m : ℕ) → pins t m ≡ pins s m))
          (λ t. Good t × ((m : ℕ) → pins t m ≡ pins s m))
          ((write_overflow_pages p value >>= λ first.
              read_overflow_pages p fuel first (length value))
            s)
  unfolding read_overflow_pages frozen_laws
  read-write_overflow_pages fuel value s enough good =
      Run-follow (λ r t. Saved s value r t)
        (λ v t. (v ≡ value) × Good t × ((m : ℕ) → pins t m ≡ pins s m)) (λ t. Balanced s t)
        (write_overflow_pages p value s) _ (write_overflow_pages-Saved value s good)
        λ r t saved.
          Run-map
            (λ v u.
              (v ≡ collect (content t) (Used t) (length value) [] saved.ids)
              × Calm (frozen_laws t) t u)
            (λ v u. (v ≡ value) × Good u × ((m : ℕ) → pins u m ≡ pins s m))
            (λ u. Calm (frozen_laws t) t u) (λ u. Balanced s u)
            (read_overflow_pages p fuel r (length value) t)
            (λ v u a. (
              a.0
                  ∙ collect-Chunks (content t) (Used t) saved.ids value [] (length value)
                      (omega arith) saved.chunks,
              a.1.0.0,
              λ m. a.1.1 m ∙ saved.balanced m,
            ))
            (λ u a. (a.0.0, λ m. a.1 m ∙ saved.balanced m))
            (read_chunks-collect (frozen_laws t) saved.ids fuel r (length value) [] t saved.chain
              (omega (arith, saved.short)) (saved.good, (λ i h. h), (λ i h. refl)))

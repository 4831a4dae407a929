-- ===== src/BTree/Writing.antt =====
-- writeOverflowPages, one round: a new page with a chunk, linked behind the page before it.
use frostfire.Prelude.{
  ℕ, ◌+◌, ◌-◌, ◌^◌, ◌≤◌, ◌<◌, ◌≡◌, ◌≢◌, refl, sym, ap, ◌∙◌, subst, List, ◌∷◌, length, take, drop,
  length-take, length-drop, some, Result, ok, err, panic, arith,
}
use frostfire.Bytes.{Bytes, slice}
use frostfire.Bytes.Codec.{slice-ext}
use frostfire.BTree.Pages.{Pages}
use frostfire.BTree.Nodes.{release}
use frostfire.BTree.Overflow.{
  overflow_chunk_size, overflow_header_size, chunk_page, set_next, next_of, link,
}
use frostfire.BTree.Runs.{Run, Run-follow, one_if}
use frostfire.BTree.Trees.{IsChain}
use frostfire.BTree.Chains.{
  Chunks, Store, WriteLaws, Granted, next_of-chunk_page, next_of-set_next, set_next-behind,
  slice-chunk_page,
}

module _ {p : Pages} (store : Store p) (laws : WriteLaws p store) where
  open p use {State, allocate, unpin, id_of, bytes_of, set_bytes}
  open store use {Good, Used, content, pins}
  open laws use {allocate_law, bytes_law, write_law, unpin_law}

  -- Page `i`, not in use before, has a chunk and no next page, and is in frame `n`.
  pub record Fresh (s : State) (n i : ℕ) (chunk : List ℕ) (t : State) : Type 0 where
    pub good : Good t
    pub more : (m : ℕ) → pins t m ≡ pins s m + one_if m n
    pub at : id_of n t ≡ i
    pub nonzero : i ≢ 0
    pub small : i < 256 ^ 8
    pub new : Used s i → ⊥
    pub used : Used t i
    pub kept : (j : ℕ) → Used s j → Used t j
    pub last : next_of (content t i) ≡ 0
    pub holds : slice (length chunk) (content t i) overflow_header_size ≡ chunk
    pub same : (j : ℕ) → Used s j → content t j ≡ content s j
    pub frames : (m : ℕ) → 0 < pins s m → id_of m t ≡ id_of m s

  pub Granted-Fresh :
      (s t : State) (n : ℕ) (chunk : List ℕ)
      → Granted p store s (ok n, t)
      → Fresh s n (id_of n t) chunk (set_bytes n (chunk_page chunk (bytes_of n t)) t)
  Granted-Fresh s t n chunk (good, more, nonzero, small, new, used, kept, same, frames) =
      let w = write_law n (chunk_page chunk (bytes_of n t)) t good (ground (arith, more n)) in
      record {
        good = w.0;
        more = λ m. w.1 m ∙ more m;
        at = w.2 n;
        nonzero = nonzero;
        small = small;
        new = new;
        used = w.3 (id_of n t) used;
        kept = λ j u. w.3 j (kept j u);
        last = ap next_of w.4 ∙ next_of-chunk_page chunk (bytes_of n t);
        holds =
            ap (λ d. slice (length chunk) d overflow_header_size) w.4
            ∙ slice-chunk_page chunk (bytes_of n t);
        same = λ j u. w.5 j (λ e. new (subst (Used s) e u)) ∙ same j u;
        frames = λ m h. w.2 m ∙ frames m h;
      }

  -- The page `i` of frame `n` points to page `next`, and the frame has a pin less.
  pub record Linked (s : State) (n i next : ℕ) (t : State) : Type 0 where
    pub good : Good t
    pub fewer : (m : ℕ) → pins t m ≡ pins s m - one_if m n
    pub kept : (j : ℕ) → Used s j → Used t j
    pub linked : content t i ≡ set_next next (content s i)
    pub same : (j : ℕ) → j ≢ i → content t j ≡ content s j
    pub frames : (m : ℕ) → 0 < pins t m → id_of m t ≡ id_of m s

  abbrev pub Released : State → ℕ → State → Type 0
  Released s n t =
      Good t
      × ((m : ℕ) → pins t m ≡ pins s m - one_if m n)
      × ((m : ℕ) → 0 < pins t m → id_of m t ≡ id_of m s)
      × ((i : ℕ) → Used s i → Used t i)
      × ((i : ℕ) → content t i ≡ content s i)

  pub release-Released :
      (Bad : State → Type 0) (n : ℕ) (s : State)
      → Good s
      → 0 < pins s n
      → Run (λ (x : Unit {0}) t. Released s n t) Bad (release p n s)
  release-Released Bad n s good pinned = go (unpin n s) (unpin_law n s good pinned)
    where
      go :
          (r : Result (Unit {0}) × State)
          → (r.0 ≡ ok tt)
            × Good r.1
            × ((m : ℕ) → pins r.1 m ≡ pins s m - one_if m n)
            × ((m : ℕ) → 0 < pins r.1 m → id_of m r.1 ≡ id_of m s)
            × ((i : ℕ) → Used s i → Used r.1 i)
            × ((i : ℕ) → content r.1 i ≡ content s i)
          → Run (λ (x : Unit {0}) t. Released s n t) Bad (some r)
      go (ok x, t) (e, good', fewer, frames, kept, same) = (good', fewer, frames, kept, same)
      go (err x, t) (e, good', fewer, frames, kept, same) = cc
      go (panic, t) (e, good', fewer, frames, kept, same) = cc

  pub link-Linked :
      (Bad : State → Type 0) (s : State) (n first next : ℕ)
      → Good s
      → 0 < pins s n
      → Run (λ r t. (r ≡ first) × Linked s n (id_of n s) next t) Bad (link p (some n) first next s)
  link-Linked Bad s n first next good pinned =
      let d : Bytes = set_next next (bytes_of n s) in
      let u : State = set_bytes n d s in
      let w = write_law n d s good pinned in
      Run-follow (λ (x : Unit {0}) t. Released u n t)
        (λ r t. (r ≡ first) × Linked s n (id_of n s) next t) Bad (release p n u) _
        (release-Released Bad n u w.0 (omega (arith, w.1 n)))
        λ x t q. (
          refl,
          record {
            good = q.0;
            fewer = λ m. omega (arith, q.1 m, w.1 m);
            kept = λ j h. q.3 j (w.3 j h);
            linked = q.4 (id_of n s) ∙ w.4 ∙ ap (set_next next) (bytes_law n s good pinned);
            same = λ j ne. q.4 j ∙ w.5 j ne;
            frames = λ m h. q.2 m h ∙ w.2 m;
          },
        )

  -- What is written of a value behind the page `i` of frame `n`, which is let go.
  pub record Rest (s : State) (n i : ℕ) (value : List ℕ) (t : State) : Type 0 where
    pub good : Good t
    pub fewer : (m : ℕ) → pins t m ≡ pins s m - one_if m n
    pub kept : (j : ℕ) → Used s j → Used t j
    pub behind : (q : ℕ) → 9 ≤ q → content t i q ≡ content s i q
    pub same : (j : ℕ) → Used s j → j ≢ i → content t j ≡ content s j
    pub ids : List ℕ
    pub short : length ids ≤ length value
    pub chain : IsChain (content t) (Used t) ids (next_of (content t i))
    pub chunks : Chunks (content t) ids value

  -- The new page, and what is written behind it.
  pub Rest-cons :
      (s s1 s2 t : State) (n n' i i' : ℕ) (value : List ℕ)
      → Used s i
      → 0 < pins s n
      → 0 < length value
      → Fresh s n' i' (take overflow_chunk_size value) s1
      → Linked s1 n i i' s2
      → Rest s2 n' i' (drop overflow_chunk_size value) t
      → Rest s n i value t
  Rest-cons s s1 s2 t n n' i i' value used pinned some_left fresh linked rest = record {
    good = rest.good;
    fewer = λ m. ground (arith, rest.fewer m, linked.fewer m, fresh.more m);
    kept = λ j h. rest.kept j (linked.kept j (fresh.kept j h));
    behind = λ q h. ap (λ d. d q) at_i ∙ set_next-behind i' (content s i) q h;
    same = λ j h ne.
        rest.same j (linked.kept j (fresh.kept j h)) (λ e. fresh.new (subst (Used s) e h))
        ∙ linked.same j ne
        ∙ fresh.same j h;
    ids = i' ∷ rest.ids;
    short = omega (arith, rest.short, length-drop overflow_chunk_size value);
    chain = (
      ap next_of at_i ∙ next_of-set_next i' (content s i) fresh.small,
      fresh.nonzero,
      rest.kept i' (linked.kept i' fresh.used),
      rest.chain,
    );
    chunks = (
      subst (λ k. slice k (content t i') overflow_header_size ≡ take overflow_chunk_size value)
          (length-take overflow_chunk_size value) chunk,
      rest.chunks,
    );
  }
    where
      apart : i' ≢ i
      apart e = fresh.new (subst (Used s) (sym e) used)

      at_i : content t i ≡ set_next i' (content s i)
      at_i =
          rest.same i (linked.kept i (fresh.kept i used)) (λ e. apart (sym e))
          ∙ linked.linked
          ∙ ap (set_next i') (fresh.same i used)

      chunk :
          slice (length (take overflow_chunk_size value)) (content t i') overflow_header_size
          ≡ take overflow_chunk_size value
      chunk =
          slice-ext (length (take overflow_chunk_size value)) (content t i') (content s1 i')
            overflow_header_size
            (λ q lo hi. rest.behind q lo ∙ ap (λ d. d q) (linked.same i' apart))
          ∙ fresh.holds

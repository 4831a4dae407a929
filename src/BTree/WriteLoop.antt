-- ===== src/BTree/WriteLoop.antt =====
-- The loop of writeOverflowPages to its end, by the pieces of one round.
use frostfire.Prelude.{
  ℕ, zero, suc, ◌-◌, ◌<◌, ◌≡◌, ◌≢◌, refl, sym, ap, ◌∙◌, subst, List, [], ◌∷◌, length, take, drop,
  length-drop, some, Result, ok, err, panic, arith,
}
use frostfire.BTree.Pages.{Pages}
use frostfire.BTree.Action.{Action, follow, raise, on_error, ◌>>=◌}
use frostfire.BTree.Nodes.{id, release, edit}
use frostfire.BTree.Overflow.{
  overflow_chunk_size, chunk_page, next_of, release_prev, link, write_chunks,
}
use frostfire.BTree.Runs.{Run, Run-follow, Run-map, one_if}
use frostfire.BTree.Chains.{Store, WriteLaws, Granted}
use frostfire.BTree.Writing.{
  Fresh, Granted-Fresh, Linked, Released, release-Released, link-Linked, Rest, Rest-cons,
}

module _ {p : Pages} (store : Store p) (laws : WriteLaws p store) where
  open p use {State, allocate, unpin, id_of, bytes_of, set_bytes}
  open store use {Good, Used, content, pins}
  open laws use {allocate_law, bytes_law, write_law, unpin_law}

  -- After an error the frame is let go as well.
  abbrev pub Failed : State → ℕ → State → Type 0
  Failed s n t = Good t × ((m : ℕ) → pins t m ≡ pins s m - one_if m n)

  abbrev pub Completes : ℕ → List ℕ → Type 0
  Completes fuel value =
      (first n : ℕ) (s : State)
      → Good s
      → 0 < pins s n
      → Used s (id_of n s)
      → next_of (content s (id_of n s)) ≡ 0
      → Run (λ r t. (r ≡ first) × Rest store laws s n (id_of n s) value t) (λ t. Failed s n t)
          (write_chunks p fuel value first (some n) s)

  Completes-nil : (fuel : ℕ) → Completes (suc fuel) []
  unfolding write_chunks
  Completes-nil fuel first n s good pinned used last =
      Run-follow (λ (x : Unit {0}) t. Released store laws s n t)
        (λ r t. (r ≡ first) × Rest store laws s n (id_of n s) [] t) (λ t. Failed s n t)
        (release p n s) _ (release-Released store laws (λ t. Failed s n t) n s good pinned)
        λ x t q. (
          refl,
          record {
            good = q.0;
            fewer = q.1;
            kept = q.3;
            behind = λ k h. ap (λ d. d k) (q.4 (id_of n s));
            same = λ j u ne. q.4 j;
            ids = [];
            short = omega arith;
            chain = ap next_of (q.4 (id_of n s)) ∙ last;
            chunks = refl;
          },
        )

  Completes-cons :
      (fuel b : ℕ) (bs : List ℕ)
      → Completes fuel (drop overflow_chunk_size (b ∷ bs))
      → Completes (suc fuel) (b ∷ bs)
  unfolding write_chunks
  Completes-cons fuel b bs later first n s good pinned used last =
      go (allocate s) (allocate_law s good)
    where
      value : List ℕ
      value = b ∷ bs

      rest_of : ℕ → ℕ → Action State ℕ
      rest_of n' first' = write_chunks p fuel (drop overflow_chunk_size value) first' (some n')

      after : ℕ → Action State ℕ
      after n' = edit p n' (λ d. ok (chunk_page (take overflow_chunk_size value) d)) >>= λ x.
          id p n' >>= λ i. link p (some n) first i >>= rest_of n'

      step :
          (n' : ℕ) (s1 : State)
          → Fresh store laws s n' (id_of n' s1) (take overflow_chunk_size value) s1
          → Run
              (λ r t. (r ≡ first) × Rest store laws s n (id_of n s) value t)
              (λ t. Failed s n t)
              (follow (link p (some n) first (id_of n' s1) s1) (rest_of n'))
      step n' s1 fresh =
          Run-follow (λ r t. (r ≡ first) × Linked store laws s1 n (id_of n s) (id_of n' s1) t)
            (λ r t. (r ≡ first) × Rest store laws s n (id_of n s) value t) (λ t. Failed s n t)
            (link p (some n) first (id_of n' s1) s1) (rest_of n')
            (subst
              (λ j.
                Run (λ r t. (r ≡ first) × Linked store laws s1 n j (id_of n' s1) t)
                  (λ t. Failed s n t) (link p (some n) first (id_of n' s1) s1))
              same_id
              (link-Linked store laws (λ t. Failed s n t) s1 n first (id_of n' s1) fresh.good
                (omega (arith, fresh.more n))))
            λ r s2 q. behind r s2 q.0 q.1
        where
          same_id : id_of n s1 ≡ id_of n s
          same_id = fresh.frames n pinned

          apart : id_of n' s1 ≢ id_of n s
          apart e = fresh.new (subst (Used s) (sym e) used)

          other : n' ≢ n
          other e = apart (ap (λ m. id_of m s1) e ∙ same_id)

          behind :
              (r : ℕ) (s2 : State)
              → r ≡ first
              → Linked store laws s1 n (id_of n s) (id_of n' s1) s2
              → Run
                  (λ r t. (r ≡ first) × Rest store laws s n (id_of n s) value t)
                  (λ t. Failed s n t)
                  (rest_of n' r s2)
          behind r s2 e linked =
              let held : 0 < pins s2 n' = ground (arith, linked.fewer n', fresh.more n', other) in
              let at : id_of n' s2 ≡ id_of n' s1 = linked.frames n' held in
              Run-map
                (λ r' t.
                  (r' ≡ r) × Rest store laws s2 n' (id_of n' s2) (drop overflow_chunk_size value) t)
                (λ r t. (r ≡ first) × Rest store laws s n (id_of n s) value t) (λ t. Failed s2 n' t)
                (λ t. Failed s n t) (rest_of n' r s2)
                (λ r' t a. (
                  a.0 ∙ e,
                  Rest-cons store laws s s1 s2 t n n' (id_of n s) (id_of n' s1) value used pinned
                      (omega arith) fresh linked
                      (subst (λ j. Rest store laws s2 n' j (drop overflow_chunk_size value) t) at
                        a.1),
                ))
                (λ t x. (x.0, λ m. ground (arith, x.1 m, linked.fewer m, fresh.more m)))
                (later r n' s2 linked.good held
                  (subst (Used s2) (sym at) (linked.kept (id_of n' s1) fresh.used))
                  (ap (λ j. next_of (content s2 j)) at
                    ∙ ap next_of (linked.same (id_of n' s1) apart)
                    ∙ fresh.last))

      go :
          (r : Result ℕ × State)
          → Granted p store s r
          → Run
              (λ r t. (r ≡ first) × Rest store laws s n (id_of n s) value t)
              (λ t. Failed s n t)
              (follow (on_error (λ u. some r) (release_prev p (some n)) s) after)
      go (ok n', t) granted =
          let s1 : State =
            set_bytes n' (chunk_page (take overflow_chunk_size value) (bytes_of n' t)) t in
          let fresh : Fresh store laws s n' (id_of n' t) (take overflow_chunk_size value) s1 =
            Granted-Fresh store laws s t n' (take overflow_chunk_size value) granted in
          step n' s1 (
            subst (λ j. Fresh store laws s n' j (take overflow_chunk_size value) s1) (sym fresh.at)
              fresh)
      go (err e, t) (good', same) =
          Run-follow (λ (a : ℕ) u. ⊥) (λ r t. (r ≡ first) × Rest store laws s n (id_of n s) value t)
            (λ t. Failed s n t) (follow (release p n t) (λ x. raise e)) after
            (Run-follow (λ (x : Unit {0}) u. Released store laws t n u) (λ (a : ℕ) u. ⊥)
              (λ u. Failed s n u) (release p n t) (λ x. raise e)
              (release-Released store laws (λ u. Failed s n u) n t good' (omega (arith, same n)))
              (λ x u q. (q.0, λ m. omega (arith, q.1 m, same m))))
            (λ a u h. elim h [ ])
      go (panic, t) h = h

  pub write_chunks-Completes :
      (fuel : ℕ) (value : List ℕ) → length value < fuel → Completes fuel value
  write_chunks-Completes zero value enough = elim enough [ ]
  write_chunks-Completes (suc fuel) [] enough = Completes-nil fuel
  write_chunks-Completes (suc fuel) (b ∷ bs) enough = Completes-cons fuel b bs (
      write_chunks-Completes fuel (drop overflow_chunk_size (b ∷ bs))
        (omega (arith, length-drop overflow_chunk_size (b ∷ bs))))

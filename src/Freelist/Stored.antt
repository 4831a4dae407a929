-- ===== src/Freelist/Stored.antt =====
-- What is stored as a chain of freelist pages is read back.
use frostfire.Prelude.{
  ℕ, zero, suc, ◌+◌, ◌*◌, ◌^◌, ◌≤◌, ◌<◌, ◌≡◌, ◌≢◌, refl, sym, ap, ◌∙◌, Bool, true, false, List, [],
  ◌∷◌, ◌++◌, if◌then◌else◌, arith, length, take, drop, some, Result, ok, panic, ◌>>=◌, bind_ok,
  ok_injective, lt→ltb, le→ltb, All, ltb, ne→==, ==-refl, append-nil, append_assoc, length-take,
  length-drop,
}
use frostfire.Bytes.{Bytes, page_size}
use frostfire.FreelistPage.{
  freelist_per_page, encode_freelist_page, decode_freelist_page, freelist_page_next,
}
use frostfire.FreelistPage.Roundtrip.{AreIds, decode-encode_freelist_page}
use frostfire.Freelist.Chain.{
  Fetch, head_id, set_page, walk_chain_loop, walk_chain_ids, read_chain_loop, read_freelist_chain,
  write_chain,
}

-- Page ids of 64 bits that are not 0, each once.
abbrev pub IsChain : List ℕ → Type 0
IsChain [] = Unit {0}
IsChain (id ∷ chain) = (0 < id) × (id < 2 ^ 64) × All (λ i. i ≢ id) chain × IsChain chain

guard_ok :
    {A : Type 0} (a b : Bool) (r : Result A) {x : A}
    → (if a then (if b then panic else r) else r) ≡ ok x
    → r ≡ ok x
guard_ok true true r h = cc
guard_ok true false r h = h
guard_ok false b r h = h

take-drop : (n : ℕ) (ids : List ℕ) → take n ids ++ drop n ids ≡ ids
take-drop zero ids = refl
take-drop (suc n) [] = refl
take-drop (suc n) (id ∷ ids) = ap (◌∷◌ id) (take-drop n ids)

AreIds-take : (n : ℕ) (ids : List ℕ) → AreIds ids → AreIds (take n ids)
AreIds-take zero ids h = tt
AreIds-take (suc n) [] h = tt
AreIds-take (suc n) (id ∷ ids) h = (h.0, AreIds-take n ids h.1)

AreIds-drop : (n : ℕ) (ids : List ℕ) → AreIds ids → AreIds (drop n ids)
AreIds-drop zero ids h = h
AreIds-drop (suc n) [] h = tt
AreIds-drop (suc n) (id ∷ ids) h = AreIds-drop n ids h.1

head_id_small : (chain : List ℕ) → IsChain chain → head_id chain < 2 ^ 64
head_id_small [] c = omega arith
head_id_small (id ∷ chain) c = c.1

-- A page outside the chain stays as it was.
write_chain_ne :
    (chain persist : List ℕ) (fetch : Fetch) (id : ℕ) {after : Fetch}
    → All (λ i. i ≢ id) chain
    → write_chain chain persist fetch ≡ ok after
    → after id ≡ fetch id
unfolding write_chain
write_chain_ne [] persist fetch id a h = ground arith
write_chain_ne (i ∷ chain) persist fetch id a h =
    let (page, e, rest) =
      bind_ok (encode_freelist_page (λ p. 0) (take freelist_per_page persist) (head_id chain)) _
        h in
    write_chain_ne chain (drop freelist_per_page persist) (set_page fetch i page) id a.1
      (guard_ok (ltb 0 (length chain)) (ltb (length persist) freelist_per_page) _ rest)
    ∙ (rw (ne→== id i (λ same. a.0 (sym same))) refl)

read_chain_loop-write_chain :
    (chain persist all : List ℕ) (fetch : Fetch) {after : Fetch}
    → IsChain chain
    → AreIds persist
    → length persist ≤ freelist_per_page * length chain
    → write_chain chain persist fetch ≡ ok after
    → read_chain_loop (suc (length chain)) after (head_id chain) all ≡ some (ok (all ++ persist))
unfolding write_chain read_chain_loop
read_chain_loop-write_chain [] [] all fetch c ids fits h = rw (append-nil all) refl
read_chain_loop-write_chain [] (id ∷ ids') all fetch c ids fits h = absurd (omega arith)
read_chain_loop-write_chain (id ∷ chain) persist all fetch {after} c ids fits h =
    let (page, e, rest) =
      bind_ok (encode_freelist_page (λ p. 0) (take freelist_per_page persist) (head_id chain)) _
        h in
    let rest' =
      guard_ok (ltb 0 (length chain)) (ltb (length persist) freelist_per_page)
        (write_chain chain (drop freelist_per_page persist) (set_page fetch id page)) rest in
    let stored : after id ≡ ok page =
      write_chain_ne chain (drop freelist_per_page persist) (set_page fetch id page) id c.2 rest'
      ∙ (rw (==-refl id) refl) in
    let decoded : decode_freelist_page page_size page
        ≡ ok (take freelist_per_page persist, head_id chain) =
      ap (λ r. r >>= decode_freelist_page page_size) (sym e)
      ∙ (decode-encode_freelist_page (λ p. 0) (take freelist_per_page persist) (head_id chain)
          (omega (arith, length-take freelist_per_page persist))
          (AreIds-take freelist_per_page persist ids) (head_id_small chain c.3)).0 in
    rw (ne→== id 0 (omega (arith, c.0)), stored, decoded)
      (read_chain_loop-write_chain chain (drop freelist_per_page persist)
          (all ++ take freelist_per_page persist) (set_page fetch id page) c.3
          (AreIds-drop freelist_per_page persist ids)
          (omega (arith, length-drop freelist_per_page persist)) rest'
        ∙ ap (λ xs. some (ok xs))
            (append_assoc all (take freelist_per_page persist) (drop freelist_per_page persist)
              ∙ ap (λ xs. all ++ xs) (take-drop freelist_per_page persist)))

module _ (chain ids : List ℕ) (c : IsChain chain) (fits : length ids ≤ freelist_per_page)
    (small : AreIds ids) where
  -- The page that is written for `ids` before the pages `chain`, and what it is read as.
  encoded :
      (page : Bytes) × (encode_freelist_page (λ p. 0) ids (head_id chain) ≡ ok page)
      × (freelist_page_next page ≡ head_id chain)
  encoded =
      let trip =
        decode-encode_freelist_page (λ p. 0) ids (head_id chain) fits small
          (head_id_small chain c) in
      let (page, e, next) = bind_ok (encode_freelist_page (λ p. 0) ids (head_id chain)) _ trip.1 in
      (page, e, ok_injective next)

write_chain_total :
    (chain persist : List ℕ) (fetch : Fetch)
    → IsChain chain
    → AreIds persist
    → freelist_per_page * length chain ≤ length persist + freelist_per_page
    → (after : Fetch) × (write_chain chain persist fetch ≡ ok after)
unfolding write_chain
write_chain_total [] persist fetch c ids full = (fetch, refl)
write_chain_total (id ∷ []) persist fetch c ids full =
    let (page, e, next) =
      encoded [] (take freelist_per_page persist) tt
        (omega (arith, length-take freelist_per_page persist))
        (AreIds-take freelist_per_page persist ids) in
    (set_page fetch id page, rw e refl)
write_chain_total (id ∷ i ∷ chain) persist fetch c ids full =
    let (page, e, next) =
      encoded (i ∷ chain) (take freelist_per_page persist) c.3
        (omega (arith, length-take freelist_per_page persist))
        (AreIds-take freelist_per_page persist ids) in
    let (after, rest) =
      write_chain_total (i ∷ chain) (drop freelist_per_page persist) (set_page fetch id page) c.3
        (AreIds-drop freelist_per_page persist ids)
        (omega (arith, length-drop freelist_per_page persist)) in
    (
      after,
      rw
          (
            e,
            lt→ltb 0 (suc (length chain)) (omega arith),
            le→ltb (length persist) freelist_per_page (omega arith),
          )
          rest,
    )

walk_chain_step :
    (fuel : ℕ) (fetch : Fetch) (id : ℕ) (walked : List ℕ) {page : Bytes}
    → id ≢ 0
    → fetch id ≡ ok page
    → walk_chain_loop (suc fuel) fetch id walked
      ≡ walk_chain_loop fuel fetch (freelist_page_next page) (walked ++ id ∷ [])
unfolding walk_chain_loop
walk_chain_step fuel fetch id walked nonzero stored = rw (ne→== id 0 nonzero, stored) refl

walk_chain_loop-write_chain :
    (chain persist walked : List ℕ) (fetch : Fetch) {after : Fetch}
    → IsChain chain
    → AreIds persist
    → write_chain chain persist fetch ≡ ok after
    → walk_chain_loop (suc (length chain)) after (head_id chain) walked
      ≡ some (ok (walked ++ chain))
unfolding write_chain walk_chain_loop
walk_chain_loop-write_chain [] persist walked fetch c ids h = rw (append-nil walked) refl
walk_chain_loop-write_chain (id ∷ chain) persist walked fetch {after} c ids h =
    let (page, e, rest) =
      bind_ok (encode_freelist_page (λ p. 0) (take freelist_per_page persist) (head_id chain)) _
        h in
    let rest' =
      guard_ok (ltb 0 (length chain)) (ltb (length persist) freelist_per_page)
        (write_chain chain (drop freelist_per_page persist) (set_page fetch id page)) rest in
    let stored : after id ≡ ok page =
      write_chain_ne chain (drop freelist_per_page persist) (set_page fetch id page) id c.2 rest'
      ∙ (rw (==-refl id) refl) in
    let (page', e', next') =
      encoded chain (take freelist_per_page persist) c.3
        (omega (arith, length-take freelist_per_page persist))
        (AreIds-take freelist_per_page persist ids) in
    let next : freelist_page_next page ≡ head_id chain =
      ap freelist_page_next (ok_injective (sym e ∙ e')) ∙ next' in
    walk_chain_step (suc (length chain)) after id walked (omega (arith, c.0)) stored
    ∙ ap (λ i. walk_chain_loop (suc (length chain)) after i (walked ++ id ∷ [])) next
    ∙ walk_chain_loop-write_chain chain (drop freelist_per_page persist) (walked ++ id ∷ [])
        (set_page fetch id page) c.3 (AreIds-drop freelist_per_page persist ids) rest'
    ∙ ap (λ xs. some (ok xs)) (append_assoc walked (id ∷ []) chain)

-- Free ids of 64 bits that fit a chain of distinct pages and fill all of its pages but the last are
-- written without a panic; reading the chain then gives the ids in order, and walking it the pages.
pub read_freelist_chain-write_chain :
    (chain persist : List ℕ) (fetch : Fetch)
    → IsChain chain
    → AreIds persist
    → length persist ≤ freelist_per_page * length chain
    → freelist_per_page * length chain ≤ length persist + freelist_per_page
    → (after : Fetch) × (write_chain chain persist fetch ≡ ok after)
      × (read_freelist_chain (suc (length chain)) after (head_id chain) ≡ some (ok persist))
      × (walk_chain_ids (suc (length chain)) after (head_id chain) ≡ some (ok chain))
unfolding read_freelist_chain walk_chain_ids
read_freelist_chain-write_chain chain persist fetch c ids fits full =
    let (after, h) = write_chain_total chain persist fetch c ids full in
    (
      after,
      h,
      read_chain_loop-write_chain chain persist [] fetch c ids fits h,
      walk_chain_loop-write_chain chain persist [] fetch c ids h,
    )

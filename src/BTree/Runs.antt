-- ===== src/BTree/Runs.antt =====
-- How a run ends, and what the tree's reading relies on: a page that is asked for is handed out and
-- pinned, or the store reports an error; no page changes by that.
use frostfire.Prelude.{
  ℕ, ◌+◌, ◌-◌, ◌<◌, ◌≡◌, ◌==◌, if◌then◌else◌, Option, none, some, Result, ok, err, panic,
}
use frostfire.Bytes.{Bytes}
use frostfire.BTree.Pages.{Pages}
use frostfire.BTree.Action.{Action, follow, pure, raise, finally, ◌>>=◌}

-- A run neither panics nor runs out of fuel: after success `Good` holds of the result and the state,
-- after an error `Bad` of the state.
abbrev pub Run : {S A : Type 0} → (A → S → Type 0) → (S → Type 0) → Option (Result A × S) → Type 0
Run Good Bad (some (ok a, s)) = Good a s
Run Good Bad (some (err e, s)) = Bad s
Run Good Bad (some (panic, s)) = ⊥
Run Good Bad none = ⊥

module _ {S A : Type 0} where
  pub Run-follow :
      {B : Type 0} (Mid : A → S → Type 0) (Good : B → S → Type 0) (Bad : S → Type 0)
      (r : Option (Result A × S)) (k : A → Action S B)
      → Run Mid Bad r
      → ((a : A) (s : S) → Mid a s → Run Good Bad (k a s))
      → Run Good Bad (follow r k)
  Run-follow Mid Good Bad (some (ok a, s)) k h next = next a s h
  Run-follow Mid Good Bad (some (err e, s)) k h next = h
  Run-follow Mid Good Bad (some (panic, s)) k h next = h
  Run-follow Mid Good Bad none k h next = h

module _ {S A : Type 0} where
  pub Run-map :
      (Good Good' : A → S → Type 0) (Bad Bad' : S → Type 0) (r : Option (Result A × S))
      → ((a : A) (s : S) → Good a s → Good' a s)
      → ((s : S) → Bad s → Bad' s)
      → Run Good Bad r
      → Run Good' Bad' r
  Run-map Good Good' Bad Bad' (some (ok a, s)) f g h = f a s h
  Run-map Good Good' Bad Bad' (some (err e, s)) f g h = g s h
  Run-map Good Good' Bad Bad' (some (panic, s)) f g h = h
  Run-map Good Good' Bad Bad' none f g h = h

  -- The cleanup of `finally`, after success and after an error.
  pub Run-finally :
      (Mid Good : A → S → Type 0) (MidBad Bad : S → Type 0) (m : Action S A)
      (c : Action S (Unit {0})) (s : S)
      → Run Mid MidBad (m s)
      → ((a : A) (t : S) → Mid a t → Run (λ (u : Unit {0}) t'. Good a t') Bad (c t))
      → ((t : S) → MidBad t → Run (λ (u : Unit {0}) t'. Bad t') Bad (c t))
      → Run Good Bad (finally m c s)
  Run-finally Mid Good MidBad Bad m c s h after_ok after_err = go (m s) h
    where
      go : (r : Option (Result A × S)) → Run Mid MidBad r → Run Good Bad (finally (λ s. r) c s)
      go (some (ok a, t)) h =
          Run-follow (λ u t'. Good a t') Good Bad (c t) (λ u. pure a) (after_ok a t h) (λ u t' g. g)
      go (some (err e, t)) h = bad (c t) (after_err t h)
        where
          bad :
              (r : Option (Result (Unit {0}) × S))
              → Run (λ (u : Unit {0}) t'. Bad t') Bad r
              → Run Good Bad (follow (follow r (λ u. raise e)) (λ a. c >>= λ u. pure a))
          bad (some (ok u, t')) g = g
          bad (some (err e', t')) g = g
          bad (some (panic, t')) g = g
          bad none g = g
      go (some (panic, t)) h = h
      go none h = h

-- The frames' pins after one more pin of frame `n`.
abbrev pub one_if : ℕ → ℕ → ℕ
one_if m n = if m == n then 1 else 0

module _ (p : Pages) (page : ℕ → Bytes) where
  open p use {State, get, unpin, bytes_of}

  abbrev pub Got : (State → Type 0) → (State → ℕ → ℕ) → State → ℕ → Result ℕ × State → Type 0
  Got Good pins s i (ok n, t) =
      Good t × (bytes_of n t ≡ page i) × ((m : ℕ) → pins t m ≡ pins s m + one_if m n)
  Got Good pins s i (err e, t) = Good t × ((m : ℕ) → pins t m ≡ pins s m)
  Got Good pins s i (panic, t) = ⊥

  -- In a state that is `Good`, the pages that are `Live` are those of `page`.
  pub record ReadLaws (Live : ℕ → Type 0) : Type 1 where
    pub Good : State → Type 0
    pub pins : State → ℕ → ℕ
    pub get_law : (i : ℕ) (s : State) → Live i → Good s → Got Good pins s i (get i s)
    pub unpin_law :
        (n : ℕ) (s : State)
        → Good s
        → 0 < pins s n
        → let (r, t) = unpin n s in
          (r ≡ ok tt) × Good t × ((m : ℕ) → pins t m ≡ pins s m - one_if m n)

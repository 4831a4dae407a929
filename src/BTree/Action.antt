-- ===== src/BTree/Action.antt =====
-- A run of tree code: state, errors and panics. `none` is fuel that ran out.
use frostfire.Prelude.{Option, none, some, Result, ok, err, panic, Error}

abbrev pub Action : Type 0 → Type 0 → Type 0
Action S A = S → Option (Result A × S)

module _ {S A : Type 0} where
  abbrev pub pure : A → Action S A
  pure a s = some (ok a, s)

  abbrev pub raise : Error → Action S A
  raise e s = some (err e, s)

  abbrev pub out_of_fuel : Action S A
  out_of_fuel s = none

  -- An operation of the state, and a pure computation.
  abbrev pub call : (S → Result A × S) → Action S A
  call f s = some (f s)

  abbrev pub lift : Result A → Action S A
  lift r s = some (r, s)

  abbrev pub lift_loop : Option (Result A) → Action S A
  lift_loop none s = none
  lift_loop (some r) s = some (r, s)

  -- What follows an action, by how it ended.
  abbrev pub follow :
      {B : Type 0} → Option (Result A × S) → (A → Action S B) → Option (Result B × S)
  follow none k = none
  follow (some (ok a, s)) k = k a s
  follow (some (err e, s)) k = some (err e, s)
  follow (some (panic, s)) k = some (panic, s)

infixl 5 ◌>>=◌ ◌>>◌
abbrev pub ◌>>=◌ : {S A B : Type 0} → Action S A → (A → Action S B) → Action S B
◌>>=◌ m k s = follow (m s) k

abbrev pub ◌>>◌ : {S A B : Type 0} → Action S A → Action S B → Action S B
m >> k = m >>= λ _. k

module _ {S A : Type 0} where
  abbrev settle : Option (Result A × S) → Action S (Unit {0}) → Option (Result A × S)
  settle none c = none
  settle (some (ok a, s)) c = some (ok a, s)
  settle (some (err e, s)) c = (c >> raise e) s
  settle (some (panic, s)) c = some (panic, s)

  -- `if err != nil { cleanup; return err }`
  abbrev pub on_error : Action S A → Action S (Unit {0}) → Action S A
  on_error m c s = settle (m s) c

  -- The cleanup runs after success and after an error.
  abbrev pub finally : Action S A → Action S (Unit {0}) → Action S A
  finally m c = on_error m c >>= λ a. c >> pure a

  abbrev attempted : Option (Result A × S) → Option (Result (Option A) × S)
  attempted none = none
  attempted (some (ok a, s)) = some (ok (some a), s)
  attempted (some (err e, s)) = some (ok none, s)
  attempted (some (panic, s)) = some (panic, s)

  -- An error that the caller drops.
  abbrev pub attempt : Action S A → Action S (Option A)
  attempt m s = attempted (m s)

  abbrev as_value : Option (Result A × S) → Option (Result (Result A) × S)
  as_value none = none
  as_value (some (ok a, s)) = some (ok (ok a), s)
  as_value (some (err e, s)) = some (ok (err e), s)
  as_value (some (panic, s)) = some (panic, s)

  -- An error that the caller looks at.
  abbrev pub caught : Action S A → Action S (Result A)
  caught m s = as_value (m s)

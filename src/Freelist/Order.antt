-- ===== src/Freelist/Order.antt =====
-- The freelist stays in the order of the freeing transactions, so a test of its head alone finds
-- every page that may be reused.
use frostfire.Prelude.{
  ℕ, ◌≤◌, ◌<◌, ◌≡◌, refl, ◌∙◌, ap, inl, inr, List, [], ◌∷◌, ◌++◌, append_assoc, append-nil, arith,
  All, Option, none, some, ltb, Bool-cases, ltb→lt, ltb→le,
}
use frostfire.Freelist.{FreelistEntry, Freelist, entry, push, pop_reusable, all, load}

-- Ids go up along the list, from `low` at least to `high` at most.
abbrev pub IsOrdered : ℕ → ℕ → Freelist → Type 0
IsOrdered low high [] = Unit {0}
IsOrdered low high (e ∷ es) =
    (low ≤ e.freed_at) × (e.freed_at ≤ high) × IsOrdered e.freed_at high es

all-append : (xs ys : Freelist) → all (xs ++ ys) ≡ all xs ++ all ys
unfolding all
all-append [] ys = refl
all-append (x ∷ xs) ys = ap (◌∷◌ x.page_id) (all-append xs ys)

-- The ids that are pushed go to the end, in their order.
pub all-push :
    (freed_at : ℕ) (ids : List ℕ) (pending : Freelist)
    → all (push freed_at ids pending) ≡ all pending ++ ids
unfolding push all
all-push freed_at [] pending = rw append-nil
all-push freed_at (id ∷ ids) pending =
    all-push freed_at ids (pending ++ entry freed_at id ∷ [])
    ∙ rw all-append (append_assoc (all pending) (id ∷ []) ids)

IsOrdered-append :
    (low high f id : ℕ) (pending : Freelist)
    → low ≤ f
    → high ≤ f
    → IsOrdered low high pending
    → IsOrdered low f (pending ++ entry f id ∷ [])
IsOrdered-append low high f id [] le above h = omega arith
IsOrdered-append low high f id (e ∷ es) le above h =
    (h.0, omega arith, IsOrdered-append e.freed_at high f id es (omega arith) above h.2)

IsOrdered-mono :
    (low low' high high' : ℕ) (pending : Freelist)
    → low' ≤ low
    → high ≤ high'
    → IsOrdered low high pending
    → IsOrdered low' high' pending
IsOrdered-mono low low' high high' [] a b h = tt
IsOrdered-mono low low' high high' (e ∷ es) a b h = (
  omega arith,
  omega arith,
  IsOrdered-mono e.freed_at e.freed_at high high' es (omega arith) b h.2,
)

-- Pages pushed under a transaction id that is not below the earlier ones keep the list in order.
pub push-IsOrdered :
    (low high f : ℕ) (ids : List ℕ) (pending : Freelist)
    → low ≤ f
    → high ≤ f
    → IsOrdered low high pending
    → IsOrdered low f (push f ids pending)
unfolding push
push-IsOrdered low high f [] pending le above h =
    IsOrdered-mono low low high f pending (omega arith) above h
push-IsOrdered low high f (id ∷ ids) pending le above h =
    push-IsOrdered low f f ids (pending ++ entry f id ∷ []) le (omega arith)
      (IsOrdered-append low high f id pending le above h)

-- What a reopened database loads is in order, and gives back the ids that were stored.
pub load_lem : (ids : List ℕ) → (all (load ids) ≡ ids) × IsOrdered 0 0 (load ids)
unfolding load all
load_lem [] = (refl, tt)
load_lem (id ∷ ids) = let (e, o) = load_lem ids in (ap (◌∷◌ id) e, (omega arith, omega arith, o))

All-above :
    (low high min_txn : ℕ) (pending : Freelist)
    → min_txn < low
    → IsOrdered low high pending
    → All (λ (e : FreelistEntry). min_txn < e.freed_at) pending
All-above low high m [] lt h = tt
All-above low high m (e ∷ es) lt h = (omega arith, All-above e.freed_at high m es (omega arith) h.2)

-- What a call of popReusable may give.
abbrev pub Pops : ℕ → Freelist → Option (ℕ × Freelist) → Type 0
Pops m pending (some (id, rest)) =
    (e : FreelistEntry) × (pending ≡ e ∷ rest) × (id ≡ e.page_id) × (e.freed_at ≤ m)
Pops m pending none = All (λ (e : FreelistEntry). m < e.freed_at) pending

-- Of a list in order popReusable gives the first entry, freed no later than `min_txn`, and leaves
-- the rest; when it gives none, every entry of the whole list was freed after `min_txn`.
pub pop_reusable-Pops :
    (low high min_txn : ℕ) (pending : Freelist)
    → IsOrdered low high pending
    → Pops min_txn pending (pop_reusable min_txn pending)
unfolding pop_reusable
pop_reusable-Pops low high m [] h = tt
pop_reusable-Pops low high m (e ∷ es) h = elim (Bool-cases (ltb m e.freed_at)) [
  | inl late ↦ rw late (ltb→lt _ _ late, All-above e.freed_at high m es (ltb→lt _ _ late) h.2)
  | inr early ↦ rw early (e, refl, refl, ltb→le _ _ early)
]

-- A page that is given is the head, and the transaction that freed it is old enough.
pub pop_reusable_lem :
    (min_txn : ℕ) (pending : Freelist) {id : ℕ} {rest : Freelist}
    → pop_reusable min_txn pending ≡ some (id, rest)
    → (e : FreelistEntry) × (pending ≡ e ∷ rest)
      × (e.page_id ≡ id)
      × (e.freed_at ≤ min_txn)
      × (all pending ≡ id ∷ all rest)
unfolding pop_reusable all
pop_reusable_lem m [] h = cc
pop_reusable_lem m (e ∷ es) h = (e, ground arith, ground arith, ground arith, ground arith)

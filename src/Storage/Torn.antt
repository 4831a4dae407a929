-- ===== src/Storage/Torn.antt =====
-- pwritevFull after a write that stops inside a page.
use frostfire.Prelude.{
  ℕ, zero, suc, ◌+◌, ◌-◌, ◌<◌, ◌≡◌, refl, sym, ◌∙◌, ap, subst, List, [], ◌∷◌, arith, Option, none,
  some, Result, ok, err, panic, io_error, ◌≤◌,
}
use frostfire.Bytes.{Bytes, page_size}
use frostfire.Storage.{Disk, Buffer}
use frostfire.Storage.Vectored.{skip_partial, advance, pwritev_full}

-- A write that stops inside the last page shortens its buffer.
advance_inside :
    (d : Bytes) (from n to : ℕ)
    → n < page_size
    → from + n ≡ to
    → to ≤ page_size
    → advance n ((d, from) ∷ []) ≡ ok ((d, to) ∷ [])
unfolding advance skip_partial
advance_inside d from zero to small e le = ap (λ x. ok ((d, x) ∷ [])) (omega (arith, e))
advance_inside d from (suc n) to small e le = ground arith

module _ (disk : Disk) where
  open disk use {File, pwritev}

  -- A round of pwritevFull whose write stops inside its one page.
  round_inside :
      (fuel : ℕ) (f f' : File) (d : Bytes) (from n to o : ℕ)
      → n < page_size
      → from + n ≡ to
      → to ≤ page_size
      → pwritev f ((d, from) ∷ []) o ≡ (some n, f')
      → pwritev_full disk (suc fuel) f ((d, from) ∷ []) o
        ≡ pwritev_full disk fuel f' ((d, to) ∷ []) (o + n)
  unfolding pwritev_full
  round_inside fuel f f' d from n to o small sum le e =
      subst (λ w. next w ≡ pwritev_full disk fuel f' ((d, to) ∷ []) (o + n)) (sym e)
        (subst (λ r. step r ≡ pwritev_full disk fuel f' ((d, to) ∷ []) (o + n))
          (sym (advance_inside d from n to small sum le)) refl)
    where
      step : Result (List Buffer) → Option (Result (Unit {0}) × File)
      step r = elim r [
        | ok bufs' ↦ pwritev_full disk fuel f' bufs' (o + n)
        | err e ↦ some (err e, f')
        | panic ↦ some (panic, f')
      ]

      next : Option ℕ × File → Option (Result (Unit {0}) × File)
      next w = elim (w.0) [
        | none ↦ some (err io_error, w.1)
        | some n ↦ elim (advance n ((d, from) ∷ [])) [
          | ok bufs' ↦ pwritev_full disk fuel (w.1) bufs' (o + n)
          | err e ↦ some (err e, w.1)
          | panic ↦ some (panic, w.1)
        ]
      ]

  -- Once its one buffer is empty, pwritevFull goes on writing it.
  empty_endless :
      (fuel : ℕ) (f : File) (d : Bytes) (o : ℕ)
      → ((f : File) (o : ℕ) → pwritev f ((d, page_size) ∷ []) o ≡ (some 0, f))
      → pwritev_full disk fuel f ((d, page_size) ∷ []) o ≡ none
  unfolding pwritev_full
  empty_endless zero f d o idle = refl
  empty_endless (suc fuel) f d o idle =
      round_inside fuel f f d page_size 0 page_size o (omega arith) (omega arith) (omega arith)
        (idle f o)
      ∙ empty_endless fuel f d (o + 0) idle

  -- If a write of one page stops inside it, the next write takes all the bytes that are left, and
  -- writes of no bytes succeed and change nothing, pwritevFull never ends, however much fuel it has:
  -- it counts the shortened buffer as part of a page, keeps it, empty, and writes it again.
  pub pwritev_full-endless :
      (fuel : ℕ) (f f' f'' : File) (d : Bytes) (n o : ℕ)
      → 0 < n
      → n < page_size
      → pwritev f ((d, 0) ∷ []) o ≡ (some n, f')
      → pwritev f' ((d, n) ∷ []) (o + n) ≡ (some (page_size - n), f'')
      → ((f : File) (o : ℕ) → pwritev f ((d, page_size) ∷ []) o ≡ (some 0, f))
      → pwritev_full disk fuel f ((d, 0) ∷ []) o ≡ none
  unfolding pwritev_full
  pwritev_full-endless zero f f' f'' d n o some_byte inside first second idle = refl
  pwritev_full-endless (suc zero) f f' f'' d n o some_byte inside first second idle =
      round_inside 0 f f' d 0 n n o inside (omega arith) (omega arith) first
  pwritev_full-endless (suc (suc fuel)) f f' f'' d n o some_byte inside first second idle =
      round_inside (suc fuel) f f' d 0 n n o inside (omega arith) (omega arith) first
      ∙ round_inside fuel f' f'' d n (page_size - n) page_size (o + n) (omega arith) (omega arith)
          (omega arith) second
      ∙ empty_endless fuel f'' d (o + n + (page_size - n)) idle

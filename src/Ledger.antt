-- ===== src/Ledger.antt =====
-- What a function takes and gives back, as a list of events, and when such a list is in order. Each
-- part of the sources with resources of its own gives their rules.
pub mod Track
use fortai.Prelude.{
  ◌≡◌, refl, ap, Bool, true, false, not, ◌&&◌, ◌||◌, Option, none, some, List, [], ◌∷◌, ◌++◌,
  if◌then◌else◌, arith, ℕ, zero, suc, replicate,
}

-- A resource is taken, used or given back.
pub data Event (R : Type 0) : Type 0 where
  acquired used released : R → Event R

-- `same` tells resources apart; a `shared` one may be held more than once, as several threads or
-- processes are; `needs s r` is true if `r` may not be given back while `s` is held.
pub record Rules (R : Type 0) : Type 0 where
  pub same : R → R → Bool
  pub shared : R → Bool
  pub needs : R → R → Bool

-- an event under a condition, as in `if (it != NULL)`
abbrev pub on : {R : Type 0} → Bool → Event R → List (Event R)
on true e = e ∷ []
on false e = []

module _ {R : Type 0} (rules : Rules R) where
  abbrev pub holds : R → List R → Bool
  holds r [] = false
  holds r (s ∷ ss) = rules.same r s || holds r ss

  abbrev pub in_use : R → List R → Bool
  in_use r [] = false
  in_use r (s ∷ ss) = rules.needs s r || in_use r ss

  abbrev pub without : R → List R → List R
  without r [] = []
  without r (s ∷ ss) = if rules.same r s then ss else s ∷ without r ss

  -- What is held behind the events. There is nothing if one of them is out of order: it takes what
  -- is held already, uses what is not held, or gives back what is not held or still needed.
  unfoldable pub replay : List (Event R) → List R → Option (List R)
  replay [] held = some held
  replay (acquired r ∷ es) held =
      if holds r held && not (rules.shared r) then none else replay es (r ∷ held)
  replay (used r ∷ es) held = if holds r held then replay es held else none
  replay (released r ∷ es) held =
      if holds r held && not (in_use r held) then replay es (without r held) else none

  -- The events of a first part, in order, come before those of a second.
  pub replay-append :
      (es fs : List (Event R)) (held after : List R)
      → replay es held ≡ some after
      → replay (es ++ fs) held ≡ replay fs after
  unfolding replay
  replay-append [] fs held after e = ground arith
  replay-append (acquired r ∷ es) fs held after e =
      ground (arith, replay-append es fs (r ∷ held) after)
  replay-append (used r ∷ es) fs held after e = ground (arith, replay-append es fs held after)
  replay-append (released r ∷ es) fs held after e =
      ground (arith, replay-append es fs (without r held) after)

  -- Of a resource that nothing needs, none is in use.
  pub in_use_none :
      (r : R) (held : List R) → ((s : R) → rules.needs s r ≡ false) → in_use r held ≡ false
  in_use_none r [] free = refl
  in_use_none r (s ∷ held) free = ground (arith, free s, in_use_none r held free)

  pub holds-replicate :
      (r s : R) (n : ℕ) (held : List R)
      → rules.same r s ≡ false
      → holds r (replicate n s ++ held) ≡ holds r held
  holds-replicate r s zero held d = refl
  holds-replicate r s (suc n) held d = ground (arith, holds-replicate r s n held d)

  pub without-replicate :
      (r s : R) (n : ℕ) (held : List R)
      → rules.same r s ≡ false
      → without r (replicate n s ++ held) ≡ replicate n s ++ without r held
  without-replicate r s zero held d = refl
  without-replicate r s (suc n) held d = ground (arith, without-replicate r s n held d)

  replicate_last :
      (r : R) (n : ℕ) (held : List R) → replicate n r ++ (r ∷ held) ≡ r ∷ (replicate n r ++ held)
  replicate_last r zero held = refl
  replicate_last r (suc n) held = ap (λ l. r ∷ l) (replicate_last r n held)

  -- A shared resource is taken `n` times.
  pub replay-acquire_all :
      (r : R) (n : ℕ) (es : List (Event R)) (held : List R)
      → rules.shared r ≡ true
      → replay (replicate n (acquired r) ++ es) held ≡ replay es (replicate n r ++ held)
  unfolding replay
  replay-acquire_all r zero es held m = refl
  replay-acquire_all r (suc n) es held m =
      ground (arith, replicate_last r n held, replay-acquire_all r n es (r ∷ held) m)

  pub replay-use_all :
      (r : R) (n : ℕ) (es : List (Event R)) (held : List R)
      → holds r held ≡ true
      → replay (replicate n (used r) ++ es) held ≡ replay es held
  unfolding replay
  replay-use_all r zero es held h = refl
  replay-use_all r (suc n) es held h = ground (arith, replay-use_all r n es held h)

  -- A resource that nothing needs is given back as often as it was taken.
  pub replay-release_all :
      (r : R) (n : ℕ) (es : List (Event R)) (held : List R)
      → rules.same r r ≡ true
      → ((s : R) → rules.needs s r ≡ false)
      → replay (replicate n (released r) ++ es) (replicate n r ++ held) ≡ replay es held
  unfolding replay
  replay-release_all r zero es held m free = refl
  replay-release_all r (suc n) es held m free = ground (
    arith,
    in_use_none r (replicate n r ++ held) free,
    free r,
    replay-release_all r n es held m free,
  )

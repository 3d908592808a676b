-- ===== src/Ledger/Track.antt =====
-- One resource out of a list of events: whether it is held, step by step. For resources of which
-- there are as many as an array has places, where a list of what is held would be long.
use fortai.Prelude.{◌≡◌, refl, Bool, true, false, Option, none, some, List, [], ◌∷◌, ◌++◌}
use fortai.Ledger.{Event, acquired, used, released}

-- What one event does to a resource: `concerns` is true if the event is about it, and `none` stands
-- for an event out of order, which takes what is held, or uses or gives back what is not.
abbrev pub after_acquire : Bool → Option Bool → Option Bool
after_acquire false held = held
after_acquire true none = none
after_acquire true (some true) = none
after_acquire true (some false) = some true

abbrev pub after_use : Bool → Option Bool → Option Bool
after_use false held = held
after_use true none = none
after_use true (some true) = some true
after_use true (some false) = none

abbrev pub after_release : Bool → Option Bool → Option Bool
after_release false held = held
after_release true none = none
after_release true (some true) = some false
after_release true (some false) = none

module _ {R : Type 0} (same : R → R → Bool) (r : R) where
  unfoldable pub track : List (Event R) → Option Bool → Option Bool
  track [] held = held
  track (acquired s ∷ es) held = track es (after_acquire (same r s) held)
  track (used s ∷ es) held = track es (after_use (same r s) held)
  track (released s ∷ es) held = track es (after_release (same r s) held)

  pub track-append :
      (es fs : List (Event R)) (held : Option Bool)
      → track (es ++ fs) held ≡ track fs (track es held)
  unfolding track
  track-append [] fs held = refl
  track-append (acquired s ∷ es) fs held = track-append es fs (after_acquire (same r s) held)
  track-append (used s ∷ es) fs held = track-append es fs (after_use (same r s) held)
  track-append (released s ∷ es) fs held = track-append es fs (after_release (same r s) held)

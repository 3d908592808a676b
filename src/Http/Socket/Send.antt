-- ===== src/Http/Socket/Send.antt =====
-- What `fortai_send_all` puts on the wire.
use fortai.Prelude.{
  ℕ, zero, suc, ◌≤◌, ◌≡◌, refl, ap, ◌∙◌, true, List, [], ◌∷◌, ◌++◌, length, take, drop, arith,
  take-append-drop, append_assoc, length-drop,
}
use fortai.Libc.{Bytes}
use fortai.Http.Socket.{SendOutcome, takes, retried, failed, send_all}

-- The bytes on the wire are always the first ones of the data, in order; they are all of them if
-- and only if the result is 0.
pub send_all-prefix :
    (outcomes : List SendOutcome) (s : Bytes)
    → (rest : Bytes) × ((send_all outcomes s).0 ++ rest ≡ s)
      × ((send_all outcomes s).1 ≡ true → rest ≡ [])
      × (rest ≡ [] → (send_all outcomes s).1 ≡ true)
unfolding send_all
send_all-prefix outcomes [] = ([], refl, λ _. refl, λ _. refl)
send_all-prefix [] (c ∷ cs) = (c ∷ cs, refl, λ e. cc, λ e. cc)
send_all-prefix (failed ∷ outcomes) (c ∷ cs) = (c ∷ cs, refl, λ e. cc, λ e. cc)
send_all-prefix (retried ∷ outcomes) (c ∷ cs) = send_all-prefix outcomes (c ∷ cs)
send_all-prefix (takes zero ∷ outcomes) (c ∷ cs) = (c ∷ cs, refl, λ e. cc, λ e. cc)
send_all-prefix (takes (suc n) ∷ outcomes) (c ∷ cs) =
    let (rest, split, done, back) = send_all-prefix outcomes (drop n cs) in
    (
      rest,
      ap (λ t. c ∷ t)
          (append_assoc (take n cs) (send_all outcomes (drop n cs)).0 rest
            ∙ ap (λ t. take n cs ++ t) split
            ∙ take-append-drop n cs),
      done,
      back,
    )

-- A schedule that never fails and always takes something.
abbrev pub Progresses : List SendOutcome → Type 0
Progresses [] = Unit {0}
Progresses (takes n ∷ os) = (1 ≤ n) × Progresses os
Progresses (retried ∷ os) = Progresses os
Progresses (failed ∷ os) = ⊥

-- How many calls take something.
abbrev pub taking : List SendOutcome → ℕ
taking [] = 0
taking (takes n ∷ os) = suc (taking os)
taking (_ ∷ os) = taking os

-- Interruptions and partial sends are made up for: with one call that takes something for each
-- byte, and no failure, all the data reaches the wire and the result is 0.
pub send_all_total :
    (outcomes : List SendOutcome) (s : Bytes)
    → Progresses outcomes
    → length s ≤ taking outcomes
    → send_all outcomes s ≡ (s, true)
unfolding send_all
send_all_total outcomes [] p h = refl
send_all_total [] (c ∷ cs) p h = absurd (omega arith)
send_all_total (failed ∷ outcomes) (c ∷ cs) p h = absurd p
send_all_total (retried ∷ outcomes) (c ∷ cs) p h = send_all_total outcomes (c ∷ cs) p h
send_all_total (takes zero ∷ outcomes) (c ∷ cs) p h = absurd (omega arith)
send_all_total (takes (suc n) ∷ outcomes) (c ∷ cs) p h =
    rw (send_all_total outcomes (drop n cs) p.1 (omega (arith, length-drop {0} n cs)))
      (ap (λ (t : Bytes). (c ∷ t, true)) (take-append-drop n cs))

-- ===== src/Gpu/Layer/Life.antt =====
-- A layer writes only to the bytes of its buffers, and gives back what it took.
use fortai.Prelude.{
  ℕ, zero, suc, ◌+◌, ◌≡◌, refl, Bool, true, false, not, ◌&&◌, Option, none, some, List, [], ◌∷◌,
  ◌++◌, ltb, leb, ◌==◌, arith, if_rule,
}
use fortai.Ledger.{acquired, released}
use fortai.Ledger.Track.{track, track-append}
use fortai.Gpu.Context.{Status, ok, is_present}
use fortai.Gpu.Layer.{
  Resource, handle, buffer, Buffers, Call, allocate, fill, put, run, free_buffers, no_buffers,
  Creation, create, refuse, destroy,
}

abbrev pub same : Resource → Resource → Bool
same handle handle = true
same (buffer i) (buffer j) = i == j
same r s = false

abbrev pub fits : Option ℕ → ℕ → Bool
fits none n = false
fits (some bytes) n = leb n bytes

abbrev pub all_fit : List (Option ℕ × ℕ) → Bool
all_fit [] = true
all_fit (w ∷ ws) = fits w.0 w.1 && all_fit ws

-- Calls that allocate only the first buffers, each at most once, and write only within them.
unfoldable pub are_sound : ℕ → List Call → Buffers → Bool
are_sound count [] buffers = true
are_sound count (allocate i n ∷ cs) buffers =
    not (is_present (buffers i)) && ltb i count && are_sound count cs (put i (some n) buffers)
are_sound count (fill i n ∷ cs) buffers = fits (buffers i) n && are_sound count cs buffers

abbrev held : ℕ → Buffers → Resource → Bool
held count buffers handle = true
held count buffers (buffer k) = ltb k count && is_present (buffers k)

-- The loop that frees the buffers gives back those that are there, from `i` on.
free_buffers-buffer :
    (buffers : Buffers) (count k n i : ℕ)
    → i + n ≡ count
    → track same
        (buffer k)
        (free_buffers n i buffers)
        (some (leb i k && (ltb k count && is_present (buffers k))))
      ≡ some false
unfolding free_buffers track
free_buffers-buffer buffers count k zero i e = ground arith
free_buffers-buffer buffers count k (suc n) i e =
    ground (arith, free_buffers-buffer buffers count k n (suc i) (omega arith))

free_buffers-handle :
    (buffers : Buffers) (taken : Option Bool) (n i : ℕ)
    → track same handle (free_buffers n i buffers) taken ≡ taken
unfolding free_buffers track
free_buffers-handle buffers taken zero i = refl
free_buffers-handle buffers taken (suc n) i =
    ground (arith, free_buffers-handle buffers taken n (suc i))

-- The layer is given back behind its buffers.
release_all :
    (r : Resource) (count : ℕ) (buffers : Buffers)
    → track same r
        (free_buffers count 0 buffers ++ (released handle ∷ []))
        (some (held count buffers r))
      ≡ some false
unfolding track
release_all handle count buffers = ground (
  arith,
  track-append same handle (free_buffers count 0 buffers) (released handle ∷ []) (some true),
  free_buffers-handle buffers (some true) count 0,
)
release_all (buffer k) count buffers = ground (
  arith,
  track-append same (buffer k) (free_buffers count 0 buffers) (released handle ∷ [])
      (some (held count buffers (buffer k))),
  free_buffers-buffer buffers count k count 0 (omega arith),
)

module _ (succeeds : ℕ → Bool) (count : ℕ) where
  -- Sound calls take the buffers that they leave.
  run-track :
      (r : Resource) (m : ℕ) (cs : List Call) (buffers : Buffers)
      → are_sound count cs buffers ≡ true
      → track same r (run succeeds m cs buffers).events (some (held count buffers r))
        ≡ some (held count (run succeeds m cs buffers).buffers r)
  unfolding run track are_sound
  run-track r m [] buffers s = refl
  run-track handle m (allocate i n ∷ cs) buffers s =
      ground (arith, run-track handle (suc m) cs (put i (some n) buffers))
  run-track (buffer k) m (allocate i n ∷ cs) buffers s =
      ground (arith, run-track (buffer k) (suc m) cs (put i (some n) buffers))
  run-track r m (fill i n ∷ cs) buffers s = ground (arith, run-track r (suc m) cs buffers)

  run-all_fit :
      (m : ℕ) (cs : List Call) (buffers : Buffers)
      → are_sound count cs buffers ≡ true
      → all_fit (run succeeds m cs buffers).writes ≡ true
  unfolding run are_sound
  run-all_fit m [] buffers s = refl
  run-all_fit m (allocate i n ∷ cs) buffers s =
      ground (arith, run-all_fit (suc m) cs (put i (some n) buffers))
  run-all_fit m (fill i n ∷ cs) buffers s = ground (arith, run-all_fit (suc m) cs buffers)

abbrev is_handed_out : Option Buffers → Bool
is_handed_out none = false
is_handed_out (some buffers) = true

abbrev is_ok : Status → Bool
is_ok ok = true
is_ok status = false

-- A creation and then the destruction of what it hands out: the resource `r` is taken and given back in
-- order, every write lies within its buffer, and there is a layer exactly with FORTAI_CUDA_OK.
abbrev pub IsKept : Resource → ℕ → Creation → Type 0
IsKept r count c =
    (track same r (c.events ++ destroy count c.layer) (some false) ≡ some false)
    × (all_fit c.writes ≡ true)
    × (is_handed_out c.layer ≡ is_ok c.status)

-- What is taken with the layer is what its buffers hold.
taken :
    (succeeds : ℕ → Bool) (r : Resource) (count : ℕ) (calls : List Call)
    → are_sound count calls no_buffers ≡ true
    → track same r (acquired handle ∷ (run succeeds 0 calls no_buffers).events) (some false)
      ≡ some (held count (run succeeds 0 calls no_buffers).buffers r)
unfolding track
taken succeeds handle count calls s = run-track succeeds count handle 0 calls no_buffers s
taken succeeds (buffer k) count calls s =
    ground (arith, run-track succeeds count (buffer k) 0 calls no_buffers s)

all_returned :
    (succeeds : ℕ → Bool) (r : Resource) (count : ℕ) (calls : List Call)
    → are_sound count calls no_buffers ≡ true
    → track same r
        ((acquired handle ∷ (run succeeds 0 calls no_buffers).events)
          ++ (free_buffers count 0 (run succeeds 0 calls no_buffers).buffers
              ++ (released handle ∷ [])))
        (some false)
      ≡ some false
all_returned succeeds r count calls s =
    let o = run succeeds 0 calls no_buffers in
    ground (
      arith,
      track-append same r (acquired handle ∷ o.events)
          (free_buffers count 0 o.buffers ++ (released handle ∷ [])) (some false),
      taken succeeds r count calls s,
      release_all r count o.buffers,
    )

pub refuse-IsKept : (r : Resource) (count : ℕ) → IsKept r count refuse
unfolding destroy track
refuse-IsKept r count = (refl, refl, refl)

-- Sound calls make a creation that is in order whichever of them fails.
pub create-IsKept :
    (has_handle : Bool) (succeeds : ℕ → Bool) (r : Resource) (count : ℕ) (calls : List Call)
    → are_sound count calls no_buffers ≡ true
    → IsKept r count (create has_handle succeeds count calls)
unfolding create destroy track
create-IsKept false succeeds r count calls s = (refl, refl, refl)
create-IsKept true succeeds r count calls s =
    if_rule (IsKept r count) (run succeeds 0 calls no_buffers).succeeds _ _
      (λ _. (
        all_returned succeeds r count calls s,
        run-all_fit succeeds count 0 calls no_buffers s,
        refl,
      ))
      λ _. (
        ground (
          arith,
          track-append same r
              ((acquired handle ∷ (run succeeds 0 calls no_buffers).events)
                ++ (free_buffers count 0 (run succeeds 0 calls no_buffers).buffers
                    ++ (released handle ∷ [])))
              [] (some false),
          all_returned succeeds r count calls s,
        ),
        run-all_fit succeeds count 0 calls no_buffers s,
        refl,
      )

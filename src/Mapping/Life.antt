-- ===== src/Mapping/Life.antt =====
-- A model file from its mapping on: what is read and evicted, and that everything is given back.
use fortai.Prelude.{
  ℕ, ◌+◌, ◌%◌, ◌^◌, ◌≤◌, ◌<◌, ◌≡◌, ◌≢◌, refl, sym, ◌∙◌, Bool, true, false, not, ◌&&◌, ◌||◌, Option,
  none, some, List, [], ◌∷◌, ◌++◌, ltb, leb, ◌==◌, arith, if_rule, Bool-cases, inl, inr,
}
use mathlib.Core.Path.{subst}
use fortai.Ledger.{Rules, replay, used}
use fortai.Mapping.{
  Resource, descriptor, mapped, Event, Opening, mmap_file, map_open_file, munmap_file, is_outside,
  mmap_slice, Eviction, invalid, nothing, advises, mmap_evict,
}
use fortai.Mapping.Pages.{mmap_slice_lem, mmap_evict-range}

abbrev same : Resource → Resource → Bool
same descriptor descriptor = true
same mapped mapped = true
same r s = false

abbrev rules : Rules Resource
rules = record { same = same; shared = λ r. false; needs = λ r s. false }

-- a call on the mapping, with any offset and size
pub data Request : Type 0 where
  slice evict : ℕ → ℕ → Request

-- what is touched: the address and the bytes of each slice that is given out, and of each range that
-- the system is advised on
abbrev slice_range : Option ℕ → ℕ → List (ℕ × ℕ)
slice_range none size = []
slice_range (some address) size = (address, size) ∷ []

abbrev evicted_range : Eviction → List (ℕ × ℕ)
evicted_range invalid = []
evicted_range nothing = []
evicted_range (advises begin bytes) = (begin, bytes) ∷ []

abbrev request_range : ℕ → ℕ → ℕ → Request → List (ℕ × ℕ)
request_range page mapping mapped_size (slice offset size) =
    slice_range (mmap_slice mapping offset size mapped_size) size
request_range page mapping mapped_size (evict offset size) =
    evicted_range (mmap_evict page mapping offset size mapped_size)

abbrev ranges : ℕ → ℕ → ℕ → List Request → List (ℕ × ℕ)
ranges page mapping mapped_size [] = []
ranges page mapping mapped_size (r ∷ rs) =
    request_range page mapping mapped_size r ++ ranges page mapping mapped_size rs

abbrev uses : List (ℕ × ℕ) → List Event
uses [] = []
uses (r ∷ rs) = used mapped ∷ uses rs

-- The file is mapped, the requests are made, and it is unmapped with the size that was given out.
abbrev life_of : ℕ → List Request → List Event × Option (ℕ × ℕ) → List Event × List (ℕ × ℕ)
life_of page rs (events, none) = (events, [])
life_of page rs (events, some (mapping, size)) = (
  events ++ (uses (ranges page mapping size rs) ++ munmap_file mapping size),
  ranges page mapping size rs,
)

abbrev pub life : Bool → Opening → ℕ → List Request → List Event × List (ℕ × ℕ)
life has_arguments o page rs = life_of page rs (mmap_file has_arguments o)

abbrev AllInside : ℕ → ℕ → List (ℕ × ℕ) → Type 0
AllInside from end [] = Unit {0}
AllInside from end ((address, bytes) ∷ rs) =
    (from ≤ address) × (address + bytes ≤ end) × AllInside from end rs

-- What POSIX says of an address that the system has chosen: it is a page's, not 0, and the mapping ends
-- before the last page of the memory.
abbrev pub IsPlaced : ℕ → ℕ → Option ℕ → Type 0
IsPlaced page size none = Unit {0}
IsPlaced page size (some address) =
    (address ≢ 0) × (address % page ≡ 0) × (address + size + page < 2 ^ 64)

abbrev IsInside : Option ℕ → ℕ → List (ℕ × ℕ) → Type 0
IsInside none size rs = rs ≡ []
IsInside (some address) size rs = AllInside address (address + size) rs

-- Everything is given back in order, and what is touched lies in the mapping.
abbrev pub IsKept : Opening → List Event × List (ℕ × ℕ) → Type 0
IsKept o l = (replay rules l.0 [] ≡ some []) × IsInside o.maps o.st_size l.1

AllInside-append :
    (from end : ℕ) (xs ys : List (ℕ × ℕ))
    → AllInside from end xs
    → AllInside from end ys
    → AllInside from end (xs ++ ys)
AllInside-append from end [] ys h k = k
AllInside-append from end (x ∷ xs) ys h k = (h.0, h.1, AllInside-append from end xs ys h.2 k)

module _ (page mapping size : ℕ) (wide : 0 < page)
    (placed : IsPlaced page size (some mapping)) where
  slice-inside :
      (offset bytes : ℕ)
      → AllInside mapping
          (mapping + size)
          (slice_range (mmap_slice mapping offset bytes size) bytes)
  slice-inside offset bytes =
      subst (λ o. AllInside mapping (mapping + size) (slice_range o bytes))
        (sym (mmap_slice_lem mapping offset bytes size placed.0 (omega (arith, placed.2))))
        (if_rule (λ o. AllInside mapping (mapping + size) (slice_range o bytes))
          (ltb 0 bytes && leb (offset + bytes) size) (some (mapping + offset)) none
          (λ e. (omega arith, ground arith, tt)) λ e. tt)

  outside_lem :
      (offset bytes : ℕ)
      → (ltb 0 bytes && leb (offset + bytes) size) ≡ false
      → mmap_evict page mapping offset bytes size ≡ invalid
  unfolding mmap_evict is_outside
  outside_lem offset bytes e = ground arith

  evict-inside :
      (offset bytes : ℕ)
      → AllInside mapping
          (mapping + size)
          (evicted_range (mmap_evict page mapping offset bytes size))
  evict-inside offset bytes = elim (Bool-cases (ltb 0 bytes && leb (offset + bytes) size)) [
    | inl fits ↦
        let (begin, n, e, aligned, above, start, stop, below) =
          mmap_evict-range page mapping offset bytes size wide placed.0 placed.1 placed.2
            (ground arith) (ground arith) in
        subst (λ v. AllInside mapping (mapping + size) (evicted_range v)) (sym e) (above, below, tt)
    | inr outside ↦
        subst (λ v. AllInside mapping (mapping + size) (evicted_range v))
          (sym (outside_lem offset bytes outside)) tt
  ]

  ranges-inside :
      (rs : List Request) → AllInside mapping (mapping + size) (ranges page mapping size rs)
  ranges-inside [] = tt
  ranges-inside (slice offset bytes ∷ rs) =
      AllInside-append mapping (mapping + size) _ _ (slice-inside offset bytes) (ranges-inside rs)
  ranges-inside (evict offset bytes ∷ rs) =
      AllInside-append mapping (mapping + size) _ _ (evict-inside offset bytes) (ranges-inside rs)

uses_lem :
    (rs : List (ℕ × ℕ)) (es : List Event)
    → replay rules (uses rs ++ es) (mapped ∷ []) ≡ replay rules es (mapped ∷ [])
unfolding replay
uses_lem [] es = refl
uses_lem (r ∷ rs) es = uses_lem rs es

unmapped :
    (address size : ℕ)
    → address ≢ 0
    → 0 < size
    → replay rules (munmap_file address size) (mapped ∷ []) ≡ some []
unfolding replay munmap_file
unmapped address size n p = ground arith

untouched : (maps : Option ℕ) (size : ℕ) → IsInside maps size []
untouched none size = refl
untouched (some address) size = tt

map_open_file-kept :
    (page : ℕ) (rs : List Request) (maps : Option ℕ) (size : ℕ)
    → 0 < page
    → IsPlaced page size maps
    → 0 < size
    → (replay rules (life_of page rs (map_open_file maps size)).0 [] ≡ some [])
      × IsInside maps size (life_of page rs (map_open_file maps size)).1
unfolding map_open_file replay
map_open_file-kept page rs none size wide placed p = (refl, refl)
map_open_file-kept page rs (some address) size wide placed p = (
  uses_lem (ranges page address size rs) (munmap_file address size)
      ∙ unmapped address size placed.0 p,
  ranges-inside page address size wide placed rs,
)

-- A model file, with any arguments and whatever the system returns: `fortai_gguf_mmap_file`, and if it
-- gives out a mapping, calls of `fortai_gguf_mmap_slice` and `fortai_gguf_mmap_evict` with any offsets
-- and sizes and that mapping's size, in any order, and `fortai_gguf_munmap_file`. The file is closed and
-- the mapping taken back once each, the mapping after its last use. Each slice that is given out and
-- each range that the system is advised to drop lies in the mapping. A mapping that the system makes
-- begins at a page, is not NULL, and ends more than a page below 2 ^ 64; a page is not empty.
pub life-IsKept :
    (has_arguments : Bool) (o : Opening) (page : ℕ) (rs : List Request)
    → 0 < page
    → IsPlaced page o.st_size o.maps
    → IsKept o (life has_arguments o page rs)
unfolding mmap_file replay
life-IsKept has_arguments o page rs wide placed =
    let Kept : List Event × Option (ℕ × ℕ) → Type 0 = λ r. IsKept o (life_of page rs r) in
    if_rule Kept (not (has_arguments && o.opens)) _ _ (λ _. (refl, untouched o.maps o.st_size))
      λ _.
        if_rule Kept (not o.stats || o.st_size == 0) _ _ (λ _. (refl, untouched o.maps o.st_size))
          λ e. map_open_file-kept page rs o.maps o.st_size wide placed (ground arith)

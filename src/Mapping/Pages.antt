-- ===== src/Mapping/Pages.antt =====
-- What a slice of the mapping and an eviction may touch.
use fortai.Prelude.{
  ℕ, ◌+◌, ◌-◌, ◌*◌, ◌/◌, ◌%◌, ◌^◌, ◌≤◌, ◌<◌, ◌≡◌, ◌≢◌, refl, sym, ap, ◌∙◌, false, ◌&&◌, none, some,
  ltb, leb, ◌==◌, if◌then◌else◌, arith,
}
use native.Mathlib.Nat.{mod-lt, mod-le, div-add-mod, mod-add-mod, mul-mod_right}
use fortai.Mapping.{word, is_outside, mmap_slice, advises, page_of, mmap_evict}

-- A slice is given exactly when it is not empty and lies in the mapping, as unbounded numbers; it
-- then begins `offset` bytes behind the mapping. The mapping is not NULL and ends below 2 ^ 64.
pub mmap_slice_lem :
    (mapping offset size mapped_size : ℕ)
    → mapping ≢ 0
    → mapping + mapped_size < 2 ^ 64
    → mmap_slice mapping offset size mapped_size
      ≡ (if ltb 0 size && leb (offset + size) mapped_size then some (mapping + offset) else none)
unfolding mmap_slice is_outside
mmap_slice_lem mapping offset size mapped_size n b = ground arith

begin_of :
    (page mapping offset : ℕ) → mapping % page ≡ 0 → (mapping + offset) % page ≡ offset % page
begin_of page mapping offset a =
    sym (mod-add-mod mapping page offset)
    ∙ ap (λ k. (k + offset) % page) a
    ∙ ap (λ k. k % page) (zero_plus offset)
  where
    zero_plus : (n : ℕ) → 0 + n ≡ n
    zero_plus n = omega arith

inside_false :
    (mapping offset size mapped_size : ℕ)
    → mapping ≢ 0
    → 0 < size
    → offset + size ≤ mapped_size
    → is_outside mapping offset size mapped_size ≡ false
unfolding is_outside
inside_false mapping offset size mapped_size n p f = ground arith

-- the start and the end of the range, for a slice inside a mapping that ends below 2 ^ 64
abbrev first_page : ℕ → ℕ → ℕ → ℕ
first_page page mapping offset = page_of page (mapping + offset)

abbrev last_page : ℕ → ℕ → ℕ → ℕ → ℕ → ℕ
last_page page mapping offset size mapped_size =
    let rounded = page_of page (mapping + offset + size + page - 1) in
    if ltb (mapping + mapped_size) rounded then mapping + mapped_size else rounded

range_of :
    (page mapping offset size mapped_size : ℕ)
    → 0 < page
    → mapping % page ≡ 0
    → 0 < size
    → offset + size ≤ mapped_size
    → (mapping ≤ first_page page mapping offset)
      × (first_page page mapping offset ≤ mapping + offset)
      × (mapping + offset + size ≤ last_page page mapping offset size mapped_size)
      × (last_page page mapping offset size mapped_size ≤ mapping + mapped_size)
range_of page mapping offset size mapped_size p a s f = ground (
  arith,
  begin_of page mapping offset a,
  mod-le offset page,
  mod-lt (mapping + offset + size + page - 1) p,
  mod-le (mapping + offset + size + page - 1) page,
)

evict_lem :
    (page mapping offset size mapped_size : ℕ)
    → 0 < page
    → mapping ≢ 0
    → mapping % page ≡ 0
    → mapping + mapped_size + page < 2 ^ 64
    → 0 < size
    → offset + size ≤ mapped_size
    → mmap_evict page mapping offset size mapped_size
      ≡ advises
          (first_page page mapping offset)
          (last_page page mapping offset size mapped_size - first_page page mapping offset)
unfolding mmap_evict
evict_lem page mapping offset size mapped_size p n a b s f =
    let r = range_of page mapping offset size mapped_size p a s f in
    rw
      (
        inside_false mapping offset size mapped_size n s f,
        page_some page p,
        small (mapping + offset) (omega arith),
        small (mapping + mapped_size) (omega arith),
        small (mapping + offset + size) (omega arith),
        unclipped (mapping + mapped_size) (mapping + offset + size) (omega arith),
        small (mapping + offset + size + page - 1) (omega arith),
        longer (last_page page mapping offset size mapped_size) (first_page page mapping offset)
            (omega (arith, r.1, r.2)),
      )
      refl
  where
    page_some : (page : ℕ) → 0 < page → (page == 0) ≡ false
    page_some page p = ground arith

    small : (k : ℕ) → k < 2 ^ 64 → word k ≡ k
    small k h = omega arith

    unclipped : (m e : ℕ) → e ≤ m → ltb m e ≡ false
    unclipped m e h = ground arith

    longer : (m e : ℕ) → e < m → leb m e ≡ false
    longer m e h = ground arith

page_of-mod : (page address : ℕ) → page_of page address % page ≡ 0
page_of-mod page address =
    ap (λ k. k % page)
      (exact page (address / page) (address % page) address (div-add-mod address page))
    ∙ mul-mod_right page (address / page)
  where
    exact : (page q r a : ℕ) → page * q + r ≡ a → a - r ≡ page * q
    exact page q r a e = omega arith

-- An eviction of a slice inside the mapping advises the system on a range that begins at a page,
-- contains the slice, and lies in the mapping. The mapping begins at a page, is not NULL, and ends
-- more than a page below 2 ^ 64; no sum wraps then.
pub mmap_evict-range :
    (page mapping offset size mapped_size : ℕ)
    → 0 < page
    → mapping ≢ 0
    → mapping % page ≡ 0
    → mapping + mapped_size + page < 2 ^ 64
    → 0 < size
    → offset + size ≤ mapped_size
    → (begin bytes : ℕ) × (mmap_evict page mapping offset size mapped_size ≡ advises begin bytes)
      × (begin % page ≡ 0)
      × (mapping ≤ begin)
      × (begin ≤ mapping + offset)
      × (mapping + offset + size ≤ begin + bytes)
      × (begin + bytes ≤ mapping + mapped_size)
mmap_evict-range page mapping offset size mapped_size p n a b s f =
    let r = range_of page mapping offset size mapped_size p a s f in
    (
      first_page page mapping offset,
      last_page page mapping offset size mapped_size - first_page page mapping offset,
      evict_lem page mapping offset size mapped_size p n a b s f,
      page_of-mod page (mapping + offset),
      r.0,
      r.1,
      omega (arith, r.1, r.2),
      omega (arith, r.1, r.2, r.3),
    )

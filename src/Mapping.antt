-- ===== src/Mapping.antt =====
-- The model file's mapping, src/backend/cpu/fortai_gguf_mmap.c: `fortai_gguf_mmap_file`,
-- `fortai_gguf_mmap_slice`, `fortai_gguf_mmap_evict` and `fortai_gguf_munmap_file`. A pointer is its address, 0 for NULL; a size_t is a number below
-- 2 ^ 64, and a sum of two wraps. The page size is what `sysconf` returns, 0 for an error; for a
-- power of two, `address & ~(page_size - 1)` takes off the remainder.
pub mod Life
pub mod Pages
pub mod Tests
use fortai.Prelude.{
  ℕ, ◌+◌, ◌-◌, ◌%◌, ◌^◌, Bool, true, false, not, ◌&&◌, ◌||◌, Option, none, some, List, [], ◌∷◌, ltb,
  leb, ◌==◌, if◌then◌else◌,
}
use fortai.Ledger
use fortai.Ledger.{acquired, used, released, on}

-- the file that is open, and the bytes that are mapped
pub data Resource : Type 0 where
  descriptor mapped : Resource

abbrev pub Event : Type 0
Event = Ledger.Event Resource

-- What the system returns: whether `open` and `fstat` succeed, `st_size`, 0 if it is not positive, and
-- the address of `mmap`, none for MAP_FAILED.
pub record Opening : Type 0 where
  pub opens : Bool
  pub stats : Bool
  pub st_size : ℕ
  pub maps : Option ℕ

-- the call of `mmap` and what follows
unfoldable pub map_open_file : Option ℕ → ℕ → List Event × Option (ℕ × ℕ)
map_open_file none size = (acquired descriptor ∷ used descriptor ∷ released descriptor ∷ [], none)
map_open_file (some address) size = (
  acquired descriptor ∷ used descriptor ∷ acquired mapped ∷ released descriptor ∷ [],
  some (address, size),
)

-- `fortai_gguf_mmap_file`: the mapping with `*size_out`, none for NULL
unfoldable pub mmap_file : Bool → Opening → List Event × Option (ℕ × ℕ)
mmap_file has_arguments o =
    if not (has_arguments && o.opens)
    then ([], none)
    else if not o.stats || o.st_size == 0
    then (acquired descriptor ∷ released descriptor ∷ [], none)
    else map_open_file o.maps o.st_size

-- `fortai_gguf_munmap_file`
unfoldable pub munmap_file : ℕ → ℕ → List Event
munmap_file mapping size = on (not (mapping == 0) && ltb 0 size) (released mapped)

abbrev pub word : ℕ → ℕ
word n = n % 2 ^ 64

-- the test that both functions begin with
unfoldable pub is_outside : ℕ → ℕ → ℕ → ℕ → Bool
is_outside mapping offset size mapped_size =
    mapping == 0 || (size == 0 || (ltb mapped_size offset || ltb (mapped_size - offset) size))

-- `fortai_gguf_mmap_slice`
unfoldable pub mmap_slice : ℕ → ℕ → ℕ → ℕ → Option ℕ
mmap_slice mapping offset size mapped_size =
    if is_outside mapping offset size mapped_size then none else some (word (mapping + offset))

-- What an eviction comes to: EINVAL, no call, or `madvise` on a range.
pub data Eviction : Type 0 where
  invalid nothing : Eviction
  advises : ℕ → ℕ → Eviction

-- `address & ~(page_size - 1)`
abbrev pub page_of : ℕ → ℕ → ℕ
page_of page_size address = address - address % page_size

-- `fortai_gguf_mmap_evict` up to the call of `madvise`
unfoldable pub mmap_evict : ℕ → ℕ → ℕ → ℕ → ℕ → Eviction
unfolding is_outside
mmap_evict page_size mapping offset size mapped_size =
    if is_outside mapping offset size mapped_size || page_size == 0
    then invalid
    else let begin = page_of page_size (word (mapping + offset)) in
      let mapping_end = word (mapping + mapped_size) in
      let end = word (word (mapping + offset) + size) in
      let clipped = if ltb mapping_end end then mapping_end else end in
      let rounded = page_of page_size (word (clipped + page_size - 1)) in
      let last = if ltb mapping_end rounded then mapping_end else rounded in
      if leb last begin then nothing else advises begin (last - begin)

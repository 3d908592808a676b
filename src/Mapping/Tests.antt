-- ===== src/Mapping/Tests.antt =====
-- Uses of the theorems on the mapping, at a mapping of 10000 bytes.
use fortai.Prelude.{◌≡◌, refl, true, some, List, [], ◌∷◌, arith}
use fortai.Mapping.{mmap_evict, mmap_slice, is_outside, advises, Opening, mmap_file, map_open_file}
use fortai.Mapping.Life.{Request, slice, evict, life, IsKept, life-IsKept}

-- the tail of the mapping, which ends inside its last page
tail_evicted : mmap_evict 4096 0x7000_0000 9000 1000 10000 ≡ advises 0x7000_2000 1808
unfolding mmap_evict
tail_evicted = refl

-- a file of 10000 bytes, mapped
abbrev opening : Opening
opening = record { opens = true; stats = true; st_size = 10000; maps = some 0x7000_0000 }

-- the tail, more than there is, and a part in the middle
abbrev requests : List Request
requests = evict 9000 1000 ∷ slice 9000 1001 ∷ slice 5000 100 ∷ []

file_example : IsKept opening (life true opening 4096 requests)
file_example =
    life-IsKept true opening 4096 requests (omega arith) (omega arith, omega arith, omega arith)

ranges_test : (life true opening 4096 requests).1 ≡ (0x7000_2000, 1808) ∷ (0x7000_1388, 100) ∷ []
unfolding mmap_file map_open_file mmap_evict mmap_slice is_outside
ranges_test = refl

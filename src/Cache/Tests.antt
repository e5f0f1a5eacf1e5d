-- ===== src/Cache/Tests.antt =====
-- A cache of three nodes over a disk of two-byte blocks.
use simplified_os_kernel.Prelude.{
  true, ℕ, ◌+◌, ◌*◌, ◌≡◌, refl, arith, some, List, [], ◌∷◌, ◌>>=◌, All, length,
}
use simplified_os_kernel.BlockIo.{
  Device, read_all, read_loop, read_round, read, read_part, k_min, slice,
}
use simplified_os_kernel.Cache.{
  MruQueue, Cache, new_node, new_queue, seek, contains, add, detach_last, copy_bytes, peek, filled,
  read_miss, read_hit, read_found, read_block, read_blocks,
}
use simplified_os_kernel.Cache.Coherent.{
  IsCoherent, Asks, block, new_queue-IsCoherent, read_blocks_lem,
}
use simplified_os_kernel.Cache.Recent.{ids, make_room, recent_lem}

abbrev disk : Device
disk = record {
  block_size = 2;
  size_in_bytes = 20;
  reads = λ b. true;
  read_block = λ b i. 10 * b + i;
}

abbrev blank : List ℕ
blank = 0 ∷ 0 ∷ []

abbrev small_cache : Cache
small_cache = record {
  ide = disk;
  block_size = 2;
  mru = new_node blank ∷ new_node blank ∷ new_node blank ∷ [];
}

abbrev new_cache : Cache
new_cache = record { ide = disk; block_size = 2; mru = new_queue (λ i. blank) }

-- The cached block comes to the front, and the fourth block takes the last place.
order :
    (read_blocks small_cache ((3, blank) ∷ (4, blank) ∷ (3, blank) ∷ (5, blank) ∷ (6, blank) ∷ [])
      >>= λ r. some (ids r.0.mru))
    ≡ some (6 ∷ 5 ∷ 3 ∷ [])
unfolding read_blocks read_block read_found read_hit read_miss contains seek add detach_last
    copy_bytes peek filled read_all read_loop read_round read read_part k_min slice
order = refl

sixteen : length (new_queue (λ i. blank)) ≡ 16
unfolding new_queue
sixteen = refl

one_more :
    (r : ℕ × List ℕ) (rs : List (ℕ × List ℕ))
    → Asks disk 2 r
    → All (Asks disk 2) rs
    → All (Asks disk 2) (r ∷ rs)
one_more r rs a h = (a, h)

on_disk : All (Asks disk 2) ((3, blank) ∷ (4, blank) ∷ (3, blank) ∷ [])
on_disk =
    one_more (3, blank) ((4, blank) ∷ (3, blank) ∷ []) (omega arith, refl)
      (one_more (4, blank) ((3, blank) ∷ []) (omega arith, refl)
        (one_more (3, blank) [] (omega arith, refl) tt))

read_blocks_lem_example :
    (mru : MruQueue) × (read_blocks new_cache ((3, blank) ∷ (4, blank) ∷ (3, blank) ∷ [])
      ≡ some
          (record new_cache { mru = mru }, block disk 2 3 ∷ block disk 2 4 ∷ block disk 2 3 ∷ []))
    × IsCoherent (record new_cache { mru = mru })
read_blocks_lem_example =
    read_blocks_lem new_cache ((3, blank) ∷ (4, blank) ∷ (3, blank) ∷ [])
      (new_queue-IsCoherent disk 2 (λ i. blank) (omega arith) (λ i. refl))
      (record { some_block = omega arith; all_read = λ b h. refl }) (omega arith) on_disk

recent_lem_example :
    (mru : MruQueue) × (after : List ℕ) × (read_block small_cache 3 blank
      ≡ some (record small_cache { mru = mru }, after))
    × (ids mru ≡ 3 ∷ make_room 3 (ids small_cache.mru))
recent_lem_example =
    recent_lem small_cache 3 blank (omega arith) (omega arith)
      (record { some_block = omega arith; all_read = λ b h. refl })

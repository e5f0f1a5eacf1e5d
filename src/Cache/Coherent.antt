-- ===== src/Cache/Coherent.antt =====
-- A cache that holds blocks of the disk answers like the disk.
use simplified_os_kernel.Prelude.{
  ℕ, zero, suc, ◌+◌, ◌*◌, ◌-◌, ◌%◌, ◌≤◌, ◌<◌, ◌^◌, ◌≡◌, ◌≢◌, refl, sym, ap, subst, ◌∙◌, arith, true,
  false, none, some, List, [], ◌∷◌, ◌++◌, ◌==◌, some_bind, length, All, All-append, Bool-cases,
  ==→eq, min, map, ◌⊎◌, inl, inr, length-append,
}
use simplified_os_kernel.Prelude.Words.{u32_mod, minus_one}
use simplified_os_kernel.BlockIo.{IsReadable, Device, got, read_all, slice}
use simplified_os_kernel.BlockIo.Slice.{content, length-slice}
use simplified_os_kernel.BlockIo.ReadAll.{read_all_lem}
use simplified_os_kernel.Cache.{
  MruNode, MruQueue, copy_bytes, detach_last, add, peek, seek, contains, Cache, filled, read_miss,
  read_hit, read_found, read_block, read_blocks, new_node, new_nodes, new_queue,
}

-- The bytes of a block of the disk.
abbrev pub block : Device → ℕ → ℕ → List ℕ
block ide size id = slice (content ide) (id * size) size

-- A node holds no block, or the one with its number.
abbrev pub Holds : Device → ℕ → MruNode → Type 0
Holds ide size it =
    (length it.buffer ≡ size) × (it.id ≢ minus_one → it.buffer ≡ block ide size it.id)

pub record IsCoherent (c : Cache) : Type 0 where
  pub some_size : 0 < c.block_size
  pub two : 2 ≤ length c.mru
  pub held : All (Holds c.ide c.block_size) c.mru

-- The block lies on the disk, and the buffer has its size.
abbrev pub Asks : Device → ℕ → ℕ × List ℕ → Type 0
Asks ide size request = ((request.0 + 1) * size ≤ ide.size_in_bytes) × (length request.1 ≡ size)

pub copy_all :
    (from to : List ℕ) (n : ℕ) → length from ≡ n → length to ≡ n → copy_bytes n from to ≡ from
unfolding copy_bytes
copy_all [] [] zero a b = refl
copy_all [] (x ∷ to) zero a b = absurd (omega (arith, b))
copy_all (x ∷ from) to zero a b = absurd (omega (arith, a))
copy_all [] to (suc n) a b = absurd (omega (arith, a))
copy_all (x ∷ from) [] (suc n) a b = absurd (omega (arith, b))
copy_all (x ∷ from) (y ∷ to) (suc n) a b =
    ap (λ r. x ∷ r) (copy_all from to n (omega (arith, a)) (omega (arith, b)))

filled_all : (bytes to : List ℕ) → length bytes ≡ length to → filled (got bytes) to ≡ bytes
unfolding filled
filled_all [] [] e = refl
filled_all [] (x ∷ to) e = absurd (omega (arith, e))
filled_all (b ∷ bytes) [] e = absurd (omega (arith, e))
filled_all (b ∷ bytes) (x ∷ to) e = ap (λ r. b ∷ r) (filled_all bytes to (omega (arith, e)))

-- What `detach_last` gives is the list in two parts.
pub detach_last_lem :
    (it : MruNode) (rest : MruQueue)
    → (init : MruQueue) × (final : MruNode) × (detach_last (it ∷ rest) ≡ some (init, final))
      × (it ∷ rest ≡ init ++ (final ∷ []))
unfolding detach_last
detach_last_lem it [] = ([], it, refl, refl)
detach_last_lem it (next ∷ rest) =
    let (init, final, e, parts) = detach_last_lem next rest in
    (
      it ∷ init,
      final,
      some_bind (detach_last (next ∷ rest)) (λ found. some (it ∷ found.0, found.1)) (init, final) e,
      ap (λ r. it ∷ r) parts,
    )

-- A node with the block is found, or none is.
pub seek_lem :
    (id : ℕ) (q : MruQueue)
    → (seek id q ≡ none)
      ⊎ ((passed : MruQueue) × (it : MruNode) × (rest : MruQueue) × (seek id q
            ≡ some (passed, it, rest))
          × (q ≡ passed ++ (it ∷ rest))
          × (it.id ≡ id))
unfolding seek
seek_lem id [] = inl refl
seek_lem id (x ∷ q) = elim (Bool-cases (x.id == id)) [
  | inl here ↦ inr ([], x, q, rw (here) refl, refl, ==→eq x.id id here)
  | inr further ↦ elim (seek_lem id q) [
    | inl nowhere ↦ inl (rw (further, nowhere) refl)
    | inr (passed, it, rest, e, parts, same) ↦
        inr (x ∷ passed, it, rest, rw (further, e) refl, ap (λ r. x ∷ r) parts, same)
  ]
]

All_parts : (P : MruNode → Type 0) (xs ys : MruQueue) → All P (xs ++ ys) → All P xs × All P ys
All_parts P [] ys h = (tt, h)
All_parts P (x ∷ xs) ys h = let (a, b) = All_parts P xs ys h.1 in ((h.0, a), b)

-- The node that `contains` moves to the front is one of those that were there.
contains_hit :
    (P : MruNode → Type 0) (passed rest : MruQueue) (it : MruNode)
    → All P (passed ++ (it ∷ rest))
    → All P (it ∷ (passed ++ rest))
      × (length (it ∷ (passed ++ rest)) ≡ length (passed ++ (it ∷ rest)))
contains_hit P passed rest it h =
    let (a, b) = All_parts P passed (it ∷ rest) h in
    (
      (b.0, All-append P passed rest a b.1),
      omega (arith, length-append passed rest, length-append passed (it ∷ rest)),
    )

-- A new node in front, and the last one gone.
add_lem :
    (size : ℕ) (P : MruNode → Type 0) (q : MruQueue) (id : ℕ) (bytes : List ℕ)
    → 2 ≤ length q
    → length bytes ≡ size
    → All (λ it. length it.buffer ≡ size) q
    → All P q
    → P (record { id = id; buffer = bytes })
    → (q' : MruQueue) × (add size q id bytes ≡ some q') × All P q' × (length q' ≡ length q)
unfolding add
add_lem size P [] id bytes two few sizes h new = absurd (omega arith)
add_lem size P (it ∷ []) id bytes two few sizes h new = absurd (omega arith)
add_lem size P (it ∷ next ∷ rest) id bytes two few sizes h new =
    let (init, final, e, parts) = detach_last_lem it (next ∷ rest) in
    let kept = All_parts P init (final ∷ []) (subst (All P) parts h) in
    let small =
      (All_parts _ init (final ∷ []) (subst (All (λ x. length x.buffer ≡ size)) parts sizes)).1.0 in
    (
      record { id = id; buffer = bytes } ∷ init,
      rw (e) (
          ap (λ b. some (record { id = id; buffer = b } ∷ init))
            (copy_all bytes final.buffer size few small)),
      (new, kept.0),
      omega (arith, ap length parts, length-append init (final ∷ [])),
    )

module _ (ide : Device) (size : ℕ) where
  sizes_lem : (q : MruQueue) → All (Holds ide size) q → All (λ it. length it.buffer ≡ size) q
  sizes_lem [] h = tt
  sizes_lem (it ∷ q) h = (h.0.0, sizes_lem q h.1)

  -- The read of a whole block from the disk.
  whole_block :
      (id : ℕ)
      → 0 < size
      → ide.size_in_bytes < 2 ^ 32
      → IsReadable ide
      → (id + 1) * size ≤ ide.size_in_bytes
      → read_all ide (id * size % u32_mod) size ≡ some (got (block ide size id))
  whole_block id pos small ide_pos fits =
      rw (start, read_all_lem ide (id * size) size ide_pos inside, whole) refl
    where
      next : (id + 1) * size ≡ id * size + size
      next = omega arith

      start : id * size % u32_mod ≡ id * size
      start = omega (arith, next)

      inside : id * size ≤ ide.size_in_bytes
      inside = omega (arith, next)

      whole : min size (ide.size_in_bytes - id * size) ≡ size
      whole = omega (arith, next)

pub contains-none : (q : MruQueue) (id : ℕ) → seek id q ≡ none → contains q id ≡ (false, q)
unfolding contains
contains-none q id e = rw (e, contains) refl

pub contains-some :
    (q : MruQueue) (id : ℕ) (passed rest : MruQueue) (it : MruNode)
    → seek id q ≡ some (passed, it, rest)
    → contains q id ≡ (true, it ∷ (passed ++ rest))
unfolding contains
contains-some q id passed rest it e = rw (e, contains) refl

module _ (c : Cache) (coherent : IsCoherent c) (ide_pos : IsReadable c.ide)
    (small : c.ide.size_in_bytes < 2 ^ 32) where
  -- The block comes from the cache or from the disk.
  read_block_lem :
      (id : ℕ) (buffer : List ℕ)
      → Asks c.ide c.block_size (id, buffer)
      → (mru : MruQueue) × (read_block c id buffer
          ≡ some (record c { mru = mru }, block c.ide c.block_size id))
        × IsCoherent (record c { mru = mru })
  unfolding read_block read_found read_miss read_hit peek
  read_block_lem id buffer asks = elim (seek_lem id c.mru) [
    | inl nowhere ↦
        let (mru, e, held, same) =
          add_lem c.block_size (Holds c.ide c.block_size) c.mru id bytes coherent.two bytes_size
            (sizes_lem c.ide c.block_size c.mru coherent.held) coherent.held
            (bytes_size, λ _. refl) in
        (
          mru,
          ap (read_found c id buffer) (contains-none c.mru id nowhere) ∙ missed mru e,
          record {
            some_size = coherent.some_size;
            two = omega (arith, same, coherent.two);
            held = held;
          },
        )
    | inr (passed, it, rest, e, parts, same) ↦
        let (held, count) =
          contains_hit (Holds c.ide c.block_size) passed rest it
            (subst (All (Holds c.ide c.block_size)) parts coherent.held) in
        (
          it ∷ (passed ++ rest),
          ap (read_found c id buffer) (contains-some c.mru id passed rest it e)
              ∙ hit it (passed ++ rest) held.0 same,
          record {
            some_size = coherent.some_size;
            two = omega (arith, count, ap length parts, coherent.two);
            held = held;
          },
        )
  ]
    where
      bytes : List ℕ
      bytes = block c.ide c.block_size id

      bytes_size : length bytes ≡ c.block_size
      bytes_size = length-slice (content c.ide) (id * c.block_size) c.block_size

      read : read_all c.ide (id * c.block_size % u32_mod) c.block_size ≡ some (got bytes)
      read = whole_block c.ide c.block_size id coherent.some_size small ide_pos asks.0

      fill : filled (got bytes) buffer ≡ bytes
      fill = filled_all bytes buffer (bytes_size ∙ sym asks.1)

      at_least : (k n : ℕ) → 0 < n → k ≤ k * n
      at_least k n h = grind arith

      real : id ≢ minus_one
      real e = absurd (omega (arith, at_least (id + 1) c.block_size coherent.some_size, asks.0))

      missed :
          (mru : MruQueue)
          → add c.block_size c.mru id bytes ≡ some mru
          → read_miss c c.mru id buffer ≡ some (record c { mru = mru }, bytes)
      missed mru e = rw (read, fill, e) refl

      hit :
          (it : MruNode) (rest : MruQueue)
          → Holds c.ide c.block_size it
          → it.id ≡ id
          → read_hit c (it ∷ rest) buffer ≡ some (record c { mru = it ∷ rest }, bytes)
      hit it rest holds same =
          ap (λ b. some (record c { mru = it ∷ rest }, b))
            (copy_all it.buffer buffer c.block_size holds.0 asks.1
              ∙ holds.1 (subst (λ k. k ≢ minus_one) (sym same) real)
              ∙ ap (block c.ide c.block_size) same)

new_nodes_lem :
    (ide : Device) (size : ℕ) (fresh : ℕ → List ℕ) (n : ℕ)
    → ((i : ℕ) → length (fresh i) ≡ size)
    → All (Holds ide size) (new_nodes fresh n)
new_nodes_lem ide size fresh zero h = tt
new_nodes_lem ide size fresh (suc n) h =
    ((h n, λ ne. absurd (ne refl)), new_nodes_lem ide size fresh n h)

-- A new cache holds no block.
pub new_queue-IsCoherent :
    (ide : Device) (size : ℕ) (fresh : ℕ → List ℕ)
    → 0 < size
    → ((i : ℕ) → length (fresh i) ≡ size)
    → IsCoherent (record { ide = ide; block_size = size; mru = new_queue fresh })
unfolding new_queue
new_queue-IsCoherent ide size fresh pos h = record {
  some_size = pos;
  two = omega arith;
  held =
      All-append (Holds ide size) (new_node (fresh 15) ∷ new_nodes (λ i. fresh (suc i)) 14)
        (new_node (fresh 0) ∷ [])
        (
          (h 15, λ ne. absurd (ne refl)),
          new_nodes_lem ide size (λ i. fresh (suc i)) 14 (λ i. h (suc i)),
        )
        ((h 0, λ ne. absurd (ne refl)), tt);
}

-- From a cache whose nodes hold no block or a block of the disk, with at least two nodes, any series
-- of reads of blocks that lie on the disk, into buffers of the block's size, gives what the disk has
-- in these blocks, whichever of them the cache holds; and the cache still holds no blocks but the
-- disk's. The disk is smaller than 2^32 bytes, and its blocks are not empty
-- and can be read.
pub read_blocks_lem :
    (c : Cache) (requests : List (ℕ × List ℕ))
    → IsCoherent c
    → IsReadable c.ide
    → c.ide.size_in_bytes < 2 ^ 32
    → All (Asks c.ide c.block_size) requests
    → (mru : MruQueue) × (read_blocks c requests
        ≡ some
            (record c { mru = mru }, map (λ request. block c.ide c.block_size request.0) requests))
      × IsCoherent (record c { mru = mru })
unfolding read_blocks
read_blocks_lem c [] coherent ide_pos small asks = (c.mru, refl, coherent)
read_blocks_lem c (request ∷ rest) coherent ide_pos small asks =
    let (mru, e, coherent') = read_block_lem c coherent ide_pos small request.0 request.1 asks.0 in
    let (last, e', coherent'') =
      read_blocks_lem (record c { mru = mru }) rest coherent' ide_pos small asks.1 in
    (last, rw (e, e') refl, coherent'')

-- ===== src/Cache.antt =====
-- `MRUQueue` of kernel/queue.h and the block cache of kernel/cache.h and kernel/cache.cc. The doubly
-- linked list of the queue is the list of its nodes from `first` to `last`. `none` is an access through
-- a null pointer, or a failed ASSERT of the disk.
pub mod Recent
pub mod Coherent
mod Tests
use simplified_os_kernel.Prelude.{
  ℕ, zero, suc, ◌*◌, ◌%◌, Bool, true, false, Option, none, some, List, [], ◌∷◌, ◌++◌, ◌==◌,
  if◌then◌else◌, ◌>>=◌,
}
use simplified_os_kernel.Prelude.Words.{u32_mod, minus_one}
use simplified_os_kernel.BlockIo.{Device, Read, error, got, read_all}

pub record MruNode : Type 0 where
  pub id : ℕ
  pub buffer : List ℕ

abbrev pub MruQueue : Type 0
MruQueue = List MruNode

-- A node without a block; what its fresh buffer holds is not known.
abbrev pub new_node : List ℕ → MruNode
new_node buffer = record { id = minus_one; buffer = buffer }

abbrev pub new_nodes : (ℕ → List ℕ) → ℕ → MruQueue
new_nodes fresh zero = []
new_nodes fresh (suc n) = new_node (fresh n) ∷ new_nodes fresh n

-- The first node, fourteen after it, and the last.
unfoldable pub new_queue : (ℕ → List ℕ) → MruQueue
new_queue fresh =
    (new_node (fresh 15) ∷ new_nodes (λ i. fresh (suc i)) 14) ++ (new_node (fresh 0) ∷ [])

-- The loop that copies `n` bytes over the first bytes of a buffer.
unfoldable pub copy_bytes : ℕ → List ℕ → List ℕ → List ℕ
copy_bytes zero from to = to
copy_bytes (suc n) [] to = to
copy_bytes (suc n) (b ∷ from) [] = []
copy_bytes (suc n) (b ∷ from) (old ∷ to) = b ∷ copy_bytes n from to

-- The nodes before the last, and the last.
unfoldable pub detach_last : MruQueue → Option (MruQueue × MruNode)
detach_last [] = none
detach_last (it ∷ []) = some ([], it)
detach_last (it ∷ next ∷ rest) = do found ← detach_last (next ∷ rest); some (it ∷ found.0, found.1)

-- The last node comes to the front with the new block. It needs one before it.
unfoldable pub add : ℕ → MruQueue → ℕ → List ℕ → Option MruQueue
add block_size [] index buffer = none
add block_size (it ∷ []) index buffer = none
add block_size (it ∷ next ∷ rest) index buffer = do
  found ← detach_last (it ∷ next ∷ rest)
  some (record { id = index; buffer = copy_bytes block_size buffer found.1.buffer } ∷ found.0)

unfoldable pub peek : MruQueue → Option MruNode
peek [] = none
peek (it ∷ rest) = some it

-- The walk to the first node with the block: the nodes passed, the node, and those after it.
unfoldable pub seek : ℕ → MruQueue → Option (MruQueue × MruNode × MruQueue)
seek id [] = none
seek id (it ∷ rest) =
    let further = (do found ← seek id rest; some (it ∷ found.0, found.1, found.2)) in
    if it.id == id then some ([], it, rest) else further

-- A node that is found is unlinked, and linked in front.
unfoldable pub contains : MruQueue → ℕ → Bool × MruQueue
contains q id = elim (seek id q) [
  | none ↦ (false, q)
  | some (passed, it, rest) ↦ (true, it ∷ (passed ++ rest))
]

pub record Cache : Type 0 where
  pub ide : Device
  pub block_size : ℕ
  pub mru : MruQueue

-- What the bytes that were read leave of the buffer.
unfoldable pub filled : Read → List ℕ → List ℕ
filled error buffer = buffer
filled (got []) buffer = buffer
filled (got (b ∷ bytes)) [] = []
filled (got (b ∷ bytes)) (old ∷ buffer) = b ∷ filled (got bytes) buffer

-- The result of read_all is not looked at.
unfoldable pub read_miss : Cache → MruQueue → ℕ → List ℕ → Option (Cache × List ℕ)
read_miss c mru block_id buffer = do
  bytes ← read_all c.ide (block_id * c.block_size % u32_mod) c.block_size
  mru' ← add c.block_size mru block_id (filled bytes buffer)
  some (record c { mru = mru' }, filled bytes buffer)

unfoldable pub read_hit : Cache → MruQueue → List ℕ → Option (Cache × List ℕ)
read_hit c mru buffer = do
  cached_node ← peek mru
  some (record c { mru = mru }, copy_bytes c.block_size cached_node.buffer buffer)

unfoldable pub read_found : Cache → ℕ → List ℕ → Bool × MruQueue → Option (Cache × List ℕ)
read_found c block_id buffer (true, mru) = read_hit c mru buffer
read_found c block_id buffer (false, mru) = read_miss c mru block_id buffer

-- The cache and the caller's buffer afterwards.
unfoldable pub read_block : Cache → ℕ → List ℕ → Option (Cache × List ℕ)
read_block c block_id buffer = read_found c block_id buffer (contains c.mru block_id)

-- Reads one after the other, each into a buffer of its own.
unfoldable pub read_blocks : Cache → List (ℕ × List ℕ) → Option (Cache × List (List ℕ))
read_blocks c [] = some (c, [])
read_blocks c (request ∷ rest) = do
  here ← read_block c request.0 request.1
  others ← read_blocks here.0 rest
  some (others.0, here.1 ∷ others.1)

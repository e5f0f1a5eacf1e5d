-- ===== src/Cache/Recent.antt =====
-- The order of the cache: the block asked for last is in front, and a block that is not cached takes
-- the place of the one that was asked for longest ago.
use simplified_os_kernel.Prelude.{
  ℕ, ◌≤◌, ◌≡◌, refl, sym, ap, ap₂, ◌*◌, ◌<◌, ◌%◌, ◌∙◌, arith, none, some, List, [], ◌∷◌, ◌++◌, ◌==◌,
  if◌then◌else◌, length, map, Bool-cases, ◌⊎◌, inl, inr, ==→eq,
}
use simplified_os_kernel.BlockIo.{IsReadable, Read, read_all}
use simplified_os_kernel.BlockIo.Things.{read_all_answers}
use simplified_os_kernel.Prelude.Words.{u32_mod}
use simplified_os_kernel.Cache.{
  MruNode, MruQueue, add, seek, Cache, filled, read_found, read_miss, read_hit, read_block,
  copy_bytes, peek,
}
use simplified_os_kernel.Cache.Coherent.{detach_last_lem, contains-none, contains-some}

abbrev pub ids : MruQueue → List ℕ
ids = map (λ it. it.id)

-- The list without the first `id`, or without its last element if `id` is not in it.
unfoldable pub make_room : ℕ → List ℕ → List ℕ
make_room id [] = []
make_room id (k ∷ []) = []
make_room id (k ∷ l ∷ ks) = if k == id then l ∷ ks else k ∷ make_room id (l ∷ ks)

abbrev init : List ℕ → List ℕ
init [] = []
init (k ∷ []) = []
init (k ∷ l ∷ ks) = k ∷ init (l ∷ ks)

init-append : (xs : MruQueue) (it : MruNode) → init (ids (xs ++ (it ∷ []))) ≡ ids xs
init-append [] it = refl
init-append (x ∷ []) it = refl
init-append (x ∷ y ∷ xs) it = ap (λ r. x.id ∷ r) (init-append (y ∷ xs) it)

-- A search leaves room where the list does.
make_room_lem :
    (id : ℕ) (q : MruQueue)
    → ((seek id q ≡ none) × (make_room id (ids q) ≡ init (ids q)))
      ⊎ ((passed : MruQueue) × (it : MruNode) × (rest : MruQueue) × (seek id q
            ≡ some (passed, it, rest))
          × (it.id ≡ id)
          × (make_room id (ids q) ≡ ids (passed ++ rest)))
unfolding seek make_room
make_room_lem id [] = inl (refl, refl)
make_room_lem id (x ∷ []) = elim (Bool-cases (x.id == id)) [
  | inl here ↦ inr ([], x, [], rw (here) refl, ==→eq x.id id here, refl)
  | inr away ↦ inl (rw (away) refl, refl)
]
make_room_lem id (x ∷ y ∷ q) = elim (Bool-cases (x.id == id)) [
  | inl here ↦ inr ([], x, y ∷ q, rw (here) refl, ==→eq x.id id here, rw (here) refl)
  | inr away ↦ elim (make_room_lem id (y ∷ q)) [
    | inl (nowhere, same) ↦ inl (rw (away, nowhere) refl, rw (away) (ap (λ r. x.id ∷ r) same))
    | inr (passed, it, rest, e, here, same) ↦
        inr (x ∷ passed, it, rest, rw (away, e) refl, here, rw (away) (ap (λ r. x.id ∷ r) same))
  ]
]

-- A new node takes the place of the last one.
added :
    (size : ℕ) (q : MruQueue) (id : ℕ) (bytes : List ℕ)
    → 2 ≤ length q
    → (q' : MruQueue) × (add size q id bytes ≡ some q') × (ids q' ≡ id ∷ init (ids q))
unfolding add
added size [] id bytes two = absurd (omega arith)
added size (it ∷ []) id bytes two = absurd (omega arith)
added size (it ∷ next ∷ rest) id bytes two =
    let (first, final, e, parts) = detach_last_lem it (next ∷ rest) in
    (
      record { id = id; buffer = copy_bytes size bytes final.buffer } ∷ first,
      rw (e) refl,
      ap (λ r. id ∷ r) (sym (ap (λ q. init (ids q)) parts ∙ init-append first final)),
    )

-- In a cache with at least two nodes and with blocks that are not empty, over a disk whose blocks can be
-- read, a read of any block
-- returns, be the disk's answer an error, and puts the block in front of the queue; behind it come
-- the other blocks in the order they had, without the last of them if the block was not cached.
pub recent_lem :
    (c : Cache) (id : ℕ) (buffer : List ℕ)
    → 2 ≤ length c.mru
    → 0 < c.block_size
    → IsReadable c.ide
    → (mru : MruQueue) × (after : List ℕ) × (read_block c id buffer
        ≡ some (record c { mru = mru }, after))
      × (ids mru ≡ id ∷ make_room id (ids c.mru))
unfolding read_block read_found read_miss read_hit peek
recent_lem c id buffer two some_size ide_pos = elim (make_room_lem id c.mru) [
  | inl (nowhere, room) ↦
      let (bytes, answer) =
        read_all_answers c.ide (id * c.block_size % u32_mod) c.block_size ide_pos in
      let (mru, e, order) = added c.block_size c.mru id (filled bytes buffer) two in
      (
        mru,
        filled bytes buffer,
        ap (read_found c id buffer) (contains-none c.mru id nowhere) ∙ missed bytes answer mru e,
        order ∙ ap (λ r. id ∷ r) (sym room),
      )
  | inr (passed, it, rest, e, here, room) ↦ (
    it ∷ (passed ++ rest),
    copy_bytes c.block_size it.buffer buffer,
    ap (read_found c id buffer) (contains-some c.mru id passed rest it e),
    ap₂ (λ k r. k ∷ r) here (sym room),
  )
]
  where
    missed :
        (bytes : Read)
        → read_all c.ide (id * c.block_size % u32_mod) c.block_size ≡ some bytes
        → (mru : MruQueue) → add c.block_size c.mru id (filled bytes buffer) ≡ some mru
        → read_miss c c.mru id buffer ≡ some (record c { mru = mru }, filled bytes buffer)
    missed bytes answer mru e = rw (answer, e) refl

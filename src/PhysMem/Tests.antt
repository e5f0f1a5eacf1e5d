-- ===== src/PhysMem/Tests.antt =====
-- The theorems on the frame allocator at a machine with three frames, two of them free.
use simplified_os_kernel.Prelude.{ℕ, ◌≡◌, refl, ◌⊎◌, none, some, List, [], ◌∷◌, arith}
use simplified_os_kernel.Machine.{write}
use simplified_os_kernel.PhysMem.{PhysMem, alloc_frame, dealloc_frame}
use simplified_os_kernel.PhysMem.Free.{IsFree, is_frame, is_out}
use simplified_os_kernel.PhysMem.Alloc.{HandedOut, TakenBack, alloc_frame_lem, dealloc_frame_lem}

-- The frame at 0x2000 was freed after the one at 0x1000.
abbrev machine : PhysMem
machine = record {
  memory = write (λ _. 0) 0x2000 0x1000;
  first_free = 0x2000;
  avail = 0x4000;
  limit = 0x4000;
}

abbrev free_frames : List ℕ
free_frames = 0x2000 ∷ 0x1000 ∷ []

machine-IsFree : IsFree 0x1000 machine free_frames
machine-IsFree = record {
  chain = omega arith;
  frames = (refl, (refl, tt));
  distinct = omega arith;
  base_pos = omega arith;
  base_aligned = refl;
  avail_aligned = refl;
  limit_aligned = refl;
  base-le-avail = omega arith;
  avail-le-limit = omega arith;
  limit-lt = omega arith;
}

alloc_frame_lem_example :
    ((alloc_frame machine ≡ none)
      × ((f : ℕ) → is_frame 0x1000 machine.limit f ≡ is_out 0x1000 machine free_frames f))
    ⊎ ((p : ℕ) × (s' : PhysMem) × (fs' : List ℕ) × (alloc_frame machine ≡ some (p, s'))
        × HandedOut 0x1000 machine free_frames p s' fs')
alloc_frame_lem_example = alloc_frame_lem 0x1000 machine free_frames machine-IsFree

dealloc_frame_lem_example :
    (s' : PhysMem) × (dealloc_frame machine 0x3000 ≡ some s')
    × TakenBack 0x1000 machine free_frames 0x3000 s' (0x3000 ∷ free_frames)
    × ((s'' : PhysMem) × (alloc_frame s' ≡ some (0x3000, s'')))
dealloc_frame_lem_example = dealloc_frame_lem 0x1000 0x3000 machine free_frames machine-IsFree refl

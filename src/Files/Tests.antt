-- ===== src/Files/Tests.antt =====
-- A process with a file of ten bytes open as descriptor 0, at offset 3.
use simplified_os_kernel.Prelude.{
  ℕ, ◌+◌, ◌<◌, ◌≤◌, ◌≡◌, refl, inl, inr, arith, true, false, none, some, some_inj, [], ◌∷◌, length,
  ◌⊎◌, if◌then◌else◌, ◌==◌, ◌*◌, Bool-cases, subst,
}
use simplified_os_kernel.Prelude.Words.{minus_one, u32_mod}
use simplified_os_kernel.Shared.{Counted}
use simplified_os_kernel.Shared.Contents.{none_absurd}
use simplified_os_kernel.BlockIo.Slice.{content}
use simplified_os_kernel.Handles.{nulls}
use simplified_os_kernel.Handles.Laws.{refs-nulls, length-nulls}
use simplified_os_kernel.Files.{Node, FileDescriptor, Files, returns, opens, sys_open, opened}
use simplified_os_kernel.Files.Table.{Sound, IsOk, Placed, IsFull, open_lem}
use simplified_os_kernel.Files.Pipe.{sys_pipe}
use simplified_os_kernel.Files.Piping.{Piped, HasOneFree, pipe_lem}

abbrev ten_bytes : Node
ten_bytes = record {
  mode = 0x81a4;
  device = record {
    block_size = 4;
    size_in_bytes = 10;
    reads = λ b. true;
    read_block = λ b i. 10 * b + i;
  };
}

abbrev at_three : FileDescriptor
at_three = record {
  vnode = some ten_bytes;
  offset = 3;
  readable = true;
  writable = false;
  pipe = none;
}

abbrev one_open : Files
one_open = record {
  handles = record {
    store = record {
      next_name = 1;
      object = λ p. if p == 0 then some (record { content = at_three; ref_count = 1 }) else none;
    };
    cells = some 0 ∷ nulls 9;
  };
  pipes = [];
  terminal = [];
}

at_three-Sound : (p : ℕ) → Sound 0 p at_three
at_three-Sound p = (
  ((record { some_block = omega arith; all_read = λ b h. refl }), omega arith, omega arith),
  refl,
)

one_open-IsOk : IsOk one_open
one_open-IsOk = record {
  good = (
    omega (arith, length-nulls 9),
    record {
      counted = λ p. ground (arith, refs-nulls p 9);
      fresh = λ p h. ground (arith, h);
      few = λ p. ground (arith, refs-nulls p 9);
    },
  );
  sound = λ p c e. elim (Bool-cases (p == 0)) [
    | inl y ↦
        subst (λ (d : Counted FileDescriptor). Sound 0 p d.content) (some_inj _ c (rw y at e))
          (at_three-Sound p)
    | inr n ↦ none_absurd c (rw n at e)
  ];
}

room : 0 + 10 ≤ length one_open.handles.cells
room = omega (arith, length-nulls 9)

few : length one_open.handles.cells + 3 < u32_mod
few = omega (arith, length-nulls 9)

open_lem_example :
    ((sys_open 0 (some ten_bytes) one_open ≡ some (returns minus_one, one_open))
      × IsFull 0 one_open)
    ⊎ ((i : ℕ) × (st' : Files) × (sys_open 0 (some ten_bytes) one_open ≡ some (returns i, st'))
        × Placed 0 one_open i (some 1) st'
        × (st'.handles.store.object 1
            ≡ some (record { content = opened ten_bytes; ref_count = 1 })))
open_lem_example =
    open_lem 0 ten_bytes one_open one_open-IsOk
      ((record { some_block = omega arith; all_read = λ b h. refl }), omega arith, omega arith) room

pipe_lem_example :
    ((sys_pipe 0 one_open ≡ some (returns minus_one, one_open)) × HasOneFree 0 one_open)
    ⊎ ((w r : ℕ) × (st' : Files) × (sys_pipe 0 one_open ≡ some (opens w r 0, st'))
        × Piped 0 one_open w r st')
pipe_lem_example = pipe_lem 0 one_open one_open-IsOk room

-- ===== src/Mmap/Tests.antt =====
-- simple_mmap in a process with a stack and one open file of ten bytes.
use simplified_os_kernel.Prelude.{
  ◌+◌, ◌-◌, ◌≡◌, refl, arith, ◌⊎◌, some, none, [], ◌∷◌, if◌then◌else◌, ◌==◌, ◌*◌, true, false,
}
use simplified_os_kernel.Prelude.Words.{minus_one, u32_mod, user_lo}
use simplified_os_kernel.BlockIo.Slice.{content}
use simplified_os_kernel.Vme.{VmeQueue}
use simplified_os_kernel.Vme.Order.{Sorted}
use simplified_os_kernel.Vme.Fit.{Added}
use simplified_os_kernel.Handles.{nulls}
use simplified_os_kernel.Files.{Node, Files}
use simplified_os_kernel.Mmap.{returns, file_of, simple_mmap}
use simplified_os_kernel.Mmap.Fits.{IsFit, mmap_lem}

abbrev stack_only : VmeQueue
stack_only = record { start = 0xEFF0_0000; end = 0xF000_0000; size = 0x10_0000 } ∷ []

stack_only-Sorted : Sorted user_lo stack_only
stack_only-Sorted = omega arith

abbrev ten_bytes : Node
ten_bytes = record {
  mode = 0x81a4;
  device = record {
    block_size = 4;
    size_in_bytes = 10;
    reads = λ b. true;
    read_block = λ b i. 10 * b + i;
  };
}

abbrev one_file : Files
one_file = record {
  handles = record {
    store = record {
      next_name = 1;
      object = λ p.
          if p == 0
          then some (record {
            content = record {
              vnode = some ten_bytes;
              offset = 0;
              readable = true;
              writable = false;
              pipe = none;
            };
            ref_count = 1;
          })
          else none;
    };
    cells = some 0 ∷ nulls 9;
  };
  pipes = [];
  terminal = [];
}

-- A negative descriptor other than -1 passes the test for 10, and indexes the array.
negative : file_of one_file 0 (u32_mod - 2) 0 ≡ none
unfolding file_of
negative = refl

mmap_lem_example :
    (IsFit stack_only 0x9000_0000 0x1000
      × ((q' : VmeQueue) × (simple_mmap 0 0x9000_0000 0x1000 minus_one 0 stack_only one_file
            ≡ some (returns 0x9000_0000, q'))
          × Added user_lo 0x9000_0000 0x1000 stack_only (0x9000_0000, q')))
    ⊎ (¬ IsFit stack_only 0x9000_0000 0x1000
        × (simple_mmap 0 0x9000_0000 0x1000 minus_one 0 stack_only one_file
            ≡ some (returns 0, stack_only)))
mmap_lem_example =
    mmap_lem 0 0x9000_0000 0x1000 0 stack_only one_file stack_only-Sorted (omega arith)
      (omega arith) (omega arith)

-- ===== src/Files/ConsoleTests.antt =====
-- A process with the terminal as descriptor 1.
use simplified_os_kernel.Prelude.{true, false, none, some, [], ◌∷◌, if◌then◌else◌, ◌==◌}
use simplified_os_kernel.Handles.{nulls}
use simplified_os_kernel.Files.{FileDescriptor, Files}

abbrev terminal : FileDescriptor
terminal = record { vnode = none; offset = 0; readable = false; writable = true; pipe = none }

abbrev console : Files
console = record {
  handles = record {
    store = record {
      next_name = 1;
      object = λ p. if p == 0 then some (record { content = terminal; ref_count = 1 }) else none;
    };
    cells = none ∷ some 0 ∷ nulls 8;
  };
  pipes = [];
  terminal = [];
}

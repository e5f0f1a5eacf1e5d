-- ===== src/Vmm/Tests.antt =====
-- A page fault in an empty address space.
use simplified_os_kernel.Prelude.{refl, [], arith}
use simplified_os_kernel.PhysMem.{PhysMem}
use simplified_os_kernel.PhysMem.Free.{IsFree}
use simplified_os_kernel.Vmm.{present, map_page}
use simplified_os_kernel.Vmm.Space.{IsSpace}
use simplified_os_kernel.Vmm.Fault.{Exhausted}
use simplified_os_kernel.Vmm.Page.{MapResult, map_page_lem}

-- The directory is the frame at 0x1000, and three frames are left.
abbrev machine : PhysMem
machine = record { memory = λ _. 0; first_free = 0; avail = 0x2000; limit = 0x5000 }

machine-IsFree : IsFree 0x1000 machine []
machine-IsFree = record {
  chain = refl;
  frames = tt;
  distinct = tt;
  base_pos = omega arith;
  base_aligned = refl;
  avail_aligned = refl;
  limit_aligned = refl;
  base-le-avail = omega arith;
  avail-le-limit = omega arith;
  limit-lt = omega arith;
}

machine-IsSpace : IsSpace 0x1000 machine [] 0x1000
unfolding present
machine-IsSpace = record {
  directory_out = refl;
  tables_out = λ i h here. cc;
  tables_apart = λ i j hi hj ne here there. cc;
}

map_page_lem_example :
    MapResult
      (Exhausted 0x1000 machine [])
      0x1000
      machine
      []
      0x1000
      0x8000_1234
      (map_page machine 0x1000 0x8000_1234)
map_page_lem_example =
    map_page_lem 0x1000 0x1000 0x8000_1234 (omega arith) machine [] machine-IsFree machine-IsSpace

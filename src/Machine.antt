-- ===== src/Machine.antt =====
-- Physical memory as the kernel reads and writes it: 32-bit words by their byte address, which is
-- how kernel/machine.h's `memcpy` and `bzero` and every `uint32_t*` of the kernel see it. The kernel's
-- part of the address space maps each page to itself, so an address of the kernel is a physical one.
use simplified_os_kernel.Prelude.{ℕ, ◌+◌, ◌&&◌, ltb, leb, ◌==◌, if◌then◌else◌}

abbrev pub Memory : Type 0
Memory = ℕ → ℕ

abbrev pub write : Memory → ℕ → ℕ → Memory
write m a v x = if x == a then v else m x

-- `bzero(p, n)`.
abbrev pub bzero : Memory → ℕ → ℕ → Memory
bzero m p n x = if leb p x && ltb x (p + n) then 0 else m x

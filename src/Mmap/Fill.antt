-- ===== src/Mmap/Fill.antt =====
-- simple_mmap of a file.
use simplified_os_kernel.Files.{Files}

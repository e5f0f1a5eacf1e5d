-- ===== src/Mmap/Fits.antt =====
-- Which requests simple_mmap takes, and what it does with them when no file is given.
use simplified_os_kernel.Prelude.{
  ℕ, ◌+◌, ◌%◌, ◌≤◌, ◌<◌, ◌≡◌, refl, sym, ap, ◌∙◌, arith, Bool, true, false, not, ◌||◌, ◌&&◌, ◌⊎◌,
  inl, inr, some, Bool-cases, ◌==◌, ltb, leb,
}
use simplified_os_kernel.Prelude.Words.{minus_one, add32, u32_mod, user_lo, user_hi}
use simplified_os_kernel.Prelude.Bits.{bit_and-fff}
use simplified_os_kernel.Vme.{VmeQueue, new_vme, intersects_queue, add_vme}
use simplified_os_kernel.Vme.Order.{Sorted, Apart, intersects_queue_iff, Free-of_Apart}
use simplified_os_kernel.Vme.Fit.{Added, add_vme-Added}
use simplified_os_kernel.Files.{Files}
use simplified_os_kernel.Mmap.{returns, unaligned, bad_request, simple_mmap}

-- A request with an address that can be met: whole pages in the user range, apart from every region.
pub record IsFit (q : VmeQueue) (addr size : ℕ) : Type 0 where
  pub some_size : 0 < size
  pub addr_aligned : addr % 4096 ≡ 0
  pub size_aligned : size % 4096 ≡ 0
  pub from : user_lo ≤ addr
  pub to : addr + size < user_hi
  pub apart : Apart addr size q

unaligned_lem : (a : ℕ) → unaligned a ≡ not (a % 4096 == 0)
unaligned_lem a = rw (bit_and-fff a) refl

-- The tests before that of the queue.
range_lem :
    (addr size : ℕ) (meets : Bool)
    → 0 < addr
    → addr < u32_mod
    → size < u32_mod
    → ((size == 0)
        || (not (addr % 4096 == 0)
            || (not (size % 4096 == 0)
                || ((not (addr == 0)
                      && (ltb addr user_lo
                          || (leb user_hi (add32 addr size) || ltb (add32 addr size) addr)))
                    || (not (addr == 0) && meets)))))
      ≡ false
    → (0 < size)
      × (addr % 4096 ≡ 0)
      × (size % 4096 ≡ 0)
      × (user_lo ≤ addr)
      × (addr + size < user_hi)
      × (meets ≡ false)
range_lem addr size meets pos wa ws e =
    (ground arith, ground arith, ground arith, ground arith, ground arith, ground arith)

no_reason :
    (addr size : ℕ) (meets : Bool)
    → 0 < size
    → addr % 4096 ≡ 0
    → size % 4096 ≡ 0
    → user_lo ≤ addr
    → addr + size < user_hi
    → meets ≡ false
    → ((size == 0)
        || (not (addr % 4096 == 0)
            || (not (size % 4096 == 0)
                || ((not (addr == 0)
                      && (ltb addr user_lo
                          || (leb user_hi (add32 addr size) || ltb (add32 addr size) addr)))
                    || (not (addr == 0) && meets)))))
      ≡ false
no_reason addr size meets a b c d e f = ground arith

bad_request_lem :
    (q : VmeQueue) (addr size : ℕ)
    → bad_request q addr size ≡ (
        (size == 0)
        || (not (addr % 4096 == 0)
            || (not (size % 4096 == 0)
                || ((not (addr == 0)
                      && (ltb addr user_lo
                          || (leb user_hi (add32 addr size) || ltb (add32 addr size) addr)))
                    || (not (addr == 0) && intersects_queue q addr size)))))
unfolding bad_request
bad_request_lem q addr size = rw (bit_and-fff addr, bit_and-fff size) refl

pub request-IsFit :
    (q : VmeQueue) (addr size : ℕ)
    → 0 < addr
    → addr < u32_mod
    → size < u32_mod
    → bad_request q addr size ≡ false
    → IsFit q addr size
request-IsFit q addr size pos wa ws e =
    let (a, b, c, d, f, g) =
      range_lem addr size (intersects_queue q addr size) pos wa ws
        (sym (bad_request_lem q addr size) ∙ e) in
    record {
      some_size = a;
      addr_aligned = b;
      size_aligned = c;
      from = d;
      to = f;
      apart = (intersects_queue_iff addr size q (omega (arith, f))).0 g;
    }

pub good_request :
    (q : VmeQueue) (addr size : ℕ) → IsFit q addr size → bad_request q addr size ≡ false
good_request q addr size t =
    bad_request_lem q addr size
    ∙ no_reason addr size (intersects_queue q addr size) t.some_size t.addr_aligned t.size_aligned
        t.from t.to ((intersects_queue_iff addr size q (omega (arith, t.to))).1 t.apart)

pub fit-Added :
    (q : VmeQueue) (addr size : ℕ)
    → Sorted user_lo q
    → IsFit q addr size
    → Added user_lo addr size q (add_vme q (new_vme addr size))
fit-Added q addr size o t =
    add_vme-Added addr size user_lo q o t.some_size (omega (arith, t.from)) t.from
      (omega (arith, t.to)) (Free-of_Apart addr size q t.apart)

-- simple_mmap with an address, not 0, and no file, on a queue in order within the user range: a
-- request for whole pages of the user range, not up to its last byte, that is apart from every
-- region returns the address and adds the region to the queue, which stays in order; any other
-- request returns 0 and changes nothing.
pub mmap_lem :
    (base addr size offset : ℕ) (q : VmeQueue) (st : Files)
    → Sorted user_lo q
    → 0 < addr
    → addr < u32_mod
    → size < u32_mod
    → (IsFit q addr size
        × ((q' : VmeQueue) × (simple_mmap base addr size minus_one offset q st
              ≡ some (returns addr, q'))
            × Added user_lo addr size q (addr, q')))
      ⊎ (¬ IsFit q addr size
          × (simple_mmap base addr size minus_one offset q st ≡ some (returns 0, q)))
unfolding simple_mmap
mmap_lem base addr size offset q st o pos wa ws = elim (Bool-cases (bad_request q addr size)) [
  | inl bad ↦ inr (λ t. not_both (sym bad ∙ good_request q addr size t), rw bad refl)
  | inr good ↦
      let t = request-IsFit q addr size pos wa ws good in
      let d = fit-Added q addr size o t in
      inl (
        t,
        (
          (add_vme q (new_vme addr size)).1,
          rw good (ap (λ a. some (returns a, (add_vme q (new_vme addr size)).1)) d.address),
          record { address = refl; sorted = d.sorted; contents = d.contents },
        ),
      )
]
  where
    not_both : true ≡ false → ⊥
    not_both e = absurd cc

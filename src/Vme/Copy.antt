-- ===== src/Vme/Copy.antt =====
-- `deep_copy`: what a forked child gets.
use simplified_os_kernel.Prelude.{
  ℕ, ◌+◌, ◌<◌, ◌≡◌, refl, ap, ◌∙◌, [], ◌∷◌, ◌++◌, arith, ne→==, le→ltb,
}
use native.Mathlib.Nat.{mod-eq_of_lt}
use mathlib.Core.List.{reverse, reverse-cons}
use simplified_os_kernel.Prelude.Words.{u32_mod, user_lo}
use simplified_os_kernel.Vme.{Vme, VmeQueue, new_vme, add_vme, copy_into, deep_copy, seek_place}
use simplified_os_kernel.Vme.Order.{Sorted, Sorted-mono}

copy_into-append :
    (acc xs ys : VmeQueue) → copy_into acc (xs ++ ys) ≡ copy_into (copy_into acc xs) ys
unfolding copy_into
copy_into-append acc [] ys = refl
copy_into-append acc (v ∷ xs) ys = copy_into-append (add_vme acc (new_vme v.start v.size)).1 xs ys

seek_place-first : (e : ℕ) (q : VmeQueue) → Sorted e q → seek_place e q ≡ ([], q)
unfolding seek_place
seek_place-first e [] o = refl
seek_place-first e (v ∷ q) o = rw (le→ltb v.start e o.0)

-- A region that ends before all others becomes the first.
add_vme-cons :
    (v : Vme) (q : VmeQueue)
    → Sorted user_lo (v ∷ q)
    → (add_vme q (new_vme v.start v.size)).1 ≡ v ∷ q
unfolding add_vme new_vme
add_vme-cons v q o = rw (
  ne→== v.size 0 (omega arith),
  ne→== v.start 0 (omega arith),
  mod-eq_of_lt w,
  o.2,
  seek_place-first v.end q o.4,
)
  where
    w : v.start + v.size < u32_mod
    w = omega arith

-- The copy of a queue in order is the same queue, region for region.
pub deep_copy_lem : (q : VmeQueue) → Sorted user_lo q → deep_copy q ≡ q
unfolding deep_copy
deep_copy_lem [] o = refl
deep_copy_lem (v ∷ q) o =
    ap (copy_into []) (reverse-cons v q)
    ∙ copy_into-append [] (reverse q) (v ∷ [])
    ∙ ap (λ c. (add_vme c (new_vme v.start v.size)).1)
        (deep_copy_lem q (Sorted-mono v.end user_lo q (omega arith) o.4))
    ∙ add_vme-cons v q o

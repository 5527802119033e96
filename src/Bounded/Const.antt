-- ===== src/Bounded/Const.antt =====
-- Constant queues against allocated ones.
use native.Mathlib.Nat.{pow-succ'}
use lfqueue.Base.{ℕ, suc, ◌*◌, ◌/◌, ◌%◌, ◌^◌, ◌≤◌, ◌≡◌, refl, arith, eq→==, ne→==, done}
use lfqueue.Word.{word_mod, wrapping_add}
use lfqueue.Lfring.{determine_order, determine_order_const}
use lfqueue.Lfring.Laws.{lfring_pow2_lem}
use lfqueue.Lfring.Order.{
  IsLog-pow, determine_order_const_lem, determine_order_exact, IsAccepted-pow,
}
use lfqueue.Ring.Holds.{sizes}
use lfqueue.Alloc.{
  new_const_ring_empty, new_const_ring_full, new_alloc_ring_empty, new_alloc_ring_full,
}
use lfqueue.Alloc.{
  create_const_atomic_array_empty, create_const_atomic_array_full, allocate_atomic_array_empty,
  allocate_atomic_array_full, allocate_standard_atomic_array,
}
use lfqueue.Bounded.{new, new_const}

module _ (order : ℕ) (small : order ≤ 59) where
  const_order : determine_order_const (2 ^ suc order) ≡ done order
  const_order = rw (pow-succ' 2 order) (
      determine_order_const_lem (2 ^ order) order (omega (arith, sizes order small))
        (IsLog-pow order))

  ring_empty :
      (mode : ℕ)
      → new_const_ring_empty mode (2 ^ suc order) ≡ done (new_alloc_ring_empty mode order)
  unfolding new_const_ring_empty new_alloc_ring_empty create_const_atomic_array_empty
      allocate_atomic_array_empty allocate_standard_atomic_array
  ring_empty mode =
      let up : wrapping_add order 1 ≡ suc order = omega arith in
      rw (const_order, up, lfring_pow2_lem (suc order) (omega arith))

  ring_full : (mode : ℕ) → new_const_ring_full mode (2 ^ suc order) ≡ new_alloc_ring_full mode order
  unfolding new_const_ring_full new_alloc_ring_full create_const_atomic_array_full
      allocate_atomic_array_full allocate_standard_atomic_array
  ring_full mode =
      let half : 2 ^ suc order / 2 ≡ 2 ^ order = omega (arith, sizes order small) in
      let size : 2 ^ order * 2 % word_mod ≡ 2 ^ suc order = omega (arith, sizes order small) in
      rw (const_order, half, lfring_pow2_lem order (omega arith), size) refl

  even_size : 2 ^ suc order % 2 ≡ 0
  even_size = omega (arith, pow-succ' 2 order)

-- A constant queue of `2 ^ (order + 1)` slots is the allocated queue for `2 ^ order` items, for an
-- order up to 59.
pub new_const_lem {ℓ} :
    (A : Type ℓ) (order : ℕ) → order ≤ 59 → new_const A (2 ^ suc order) ≡ new A 0 (2 ^ order)
unfolding new_const new
new_const_lem A order small =
    let backing : 2 * 2 ^ order % word_mod ≡ 2 ^ suc order = omega (arith, sizes order small) in
    let given : determine_order (2 ^ order) ≡ done order =
      (determine_order_exact (2 ^ order) order (omega (arith, sizes order small))).0.1
        (IsAccepted-pow order, IsLog-pow order) in
    rw
      (
        eq→== (2 ^ suc order % 2) 0 (even_size order small),
        ne→== (2 ^ suc order) 0 (λ e. omega (arith, sizes order small)),
        ring_empty order small 0,
        ring_full order small 0,
        given,
        backing,
      )
      refl

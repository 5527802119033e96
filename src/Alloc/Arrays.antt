-- ===== src/Alloc/Arrays.antt =====
-- What the loops of `initialize_atomic_array_full` leave in the array.
use native.Mathlib.Nat.{mod-eq_of_lt, pow-succ'}
use lfqueue.Base.{ℕ, zero, suc, ◌+◌, ◌-◌, ◌^◌, ◌≤◌, ◌<◌, ◌≡◌, refl, arith, ◌∙◌, ◌⊎◌, inl}
use lfqueue.Base.{List, some, length, get_elem?, set, done, lt→ltb, ℕ_discrete}
use lfqueue.Base.{length-set, get_elem?-set_self, get_elem?-set_ne}
use lfqueue.Word.{minus_one, wrapping_add}
use lfqueue.Lfring.{lfring_map}
use lfqueue.Lfring.Laws.{lfring_map_lem, pow-le_60}
use lfqueue.Alloc.{store, fill_live, fill_free, initialize_atomic_array_full}

-- `after` is `before` with the words `word j` written at the indices from `lo` on, below `hi`.
pub record Filled (word : ℕ → ℕ) (lo hi : ℕ) (before after : List ℕ) : Type 0 where
  pub same_length : length after ≡ length before
  pub inside : (j : ℕ) → lo ≤ j → j < hi → get_elem? after j ≡ some (word j)
  pub outside : (j : ℕ) → (j < lo) ⊎ (hi ≤ j) → get_elem? after j ≡ get_elem? before j

Filled-none : (word : ℕ → ℕ) (i hi : ℕ) (b : List ℕ) → i ≡ hi → Filled word i hi b b
Filled-none word i hi b e = record {
  same_length = refl;
  inside = λ j lo hi. absurd (omega arith);
  outside = λ j o. refl;
}

Filled-step :
    (word : ℕ → ℕ) (i hi : ℕ) (b a : List ℕ)
    → i < hi
    → i < length b
    → Filled word (i + 1) hi (set b i (word i)) a
    → Filled word i hi b a
Filled-step word i hi b a lt in_bounds f = record {
  same_length = f.same_length ∙ length-set b i (word i);
  inside = λ j lo up. elim (ℕ_discrete i j) [
    | yes e ↦ rw (← e) (f.outside i (inl (omega arith)) ∙ get_elem?-set_self b i (word i) in_bounds)
    | no ne ↦ f.inside j (omega arith) up
  ];
  outside = λ j o. f.outside j (ground arith) ∙ get_elem?-set_ne b i j (word i) (λ e. ground arith);
}

store_lem : (b : List ℕ) (i v : ℕ) → i < length b → store b i v ≡ done (set b i v)
unfolding store
store_lem b i v h = rw (lt→ltb i (length b) h)

module _ (order : ℕ) (small : order ≤ 59) where
  abbrev half : ℕ
  half = 2 ^ order

  abbrev n : ℕ
  n = 2 ^ suc order

  map_slots : (i : ℕ) → i < n → lfring_map i n ≡ i
  map_slots i h = lfring_map_lem (suc order) i (omega arith) ∙ mod-eq_of_lt h

  map_half : (i : ℕ) → i < half → lfring_map i half ≡ i
  map_half i h = lfring_map_lem order i (omega arith) ∙ mod-eq_of_lt h

  live_step :
      (left i : ℕ) (b : List ℕ)
      → i < half
      → length b ≡ n
      → fill_live half n (suc left) i b ≡ fill_live half n left (i + 1) (set b i (n + i))
  unfolding fill_live
  live_step left i b h size =
      let in_array : i < n = omega (arith, pow-succ' 2 order) in
      let word : wrapping_add n i ≡ n + i = omega (arith, pow-le_60 (suc order) (omega arith)) in
      rw (map_slots i in_array, map_half i h, word, store_lem b i (n + i) (omega arith))

  free_step :
      (left i : ℕ) (b : List ℕ)
      → i < n
      → length b ≡ n
      → fill_free half n (suc left) i b ≡ fill_free half n left (i + 1) (set b i minus_one)
  unfolding fill_free
  free_step left i b h size = rw (map_slots i h, store_lem b i minus_one (omega arith))

  fill_live_lem :
      (left i hi : ℕ) (b : List ℕ)
      → i + left ≡ hi
      → hi ≤ half
      → length b ≡ n
      → (a : List ℕ) × (fill_live half n left i b ≡ done a) × Filled (λ j. n + j) i hi b a
  unfolding fill_live
  fill_live_lem zero i hi b ends fits size = (b, refl, Filled-none _ i hi b (omega arith))
  fill_live_lem (suc left) i hi b ends fits size =
      let (a, e, f) =
        fill_live_lem left (i + 1) hi (set b i (n + i)) (omega arith) fits
          (length-set b i (n + i) ∙ size) in
      (
        a,
        live_step left i b (omega arith) size ∙ e,
        Filled-step (λ j. n + j) i hi b a (omega arith) (omega (arith, pow-succ' 2 order)) f,
      )

  fill_free_lem :
      (left i : ℕ) (b : List ℕ)
      → i + left ≡ n
      → length b ≡ n
      → (a : List ℕ) × (fill_free half n left i b ≡ done a) × Filled (λ j. minus_one) i n b a
  unfolding fill_free
  fill_free_lem zero i b ends size = (b, refl, Filled-none _ i n b (omega arith))
  fill_free_lem (suc left) i b ends size =
      let (a, e, f) =
        fill_free_lem left (i + 1) (set b i minus_one) (omega arith)
          (length-set b i minus_one ∙ size) in
      (
        a,
        free_step left i b (omega arith) size ∙ e,
        Filled-step (λ j. minus_one) i n b a (omega arith) (omega arith) f,
      )

  -- The first half of the slots holds the indices in order, for the tickets of the first round, and
  -- the other half has never been used.
  pub record IsFull (a : List ℕ) : Type 0 where
    pub size : length a ≡ n
    pub first_half : (j : ℕ) → j < half → get_elem? a j ≡ some (n + j)
    pub second_half : (j : ℕ) → half ≤ j → j < n → get_elem? a j ≡ some minus_one

  pub initialize_atomic_array_full_lem :
      (b : List ℕ)
      → length b ≡ n
      → (a : List ℕ) × (initialize_atomic_array_full b half n ≡ done a) × IsFull a
  unfolding initialize_atomic_array_full
  initialize_atomic_array_full_lem b size =
      let (m, e, f) = fill_live_lem half 0 half b (omega arith) (omega arith) size in
      let (a, e', g) =
        fill_free_lem (n - half) half m (omega (arith, pow-succ' 2 order)) (f.same_length ∙ size) in
      (
        a,
        rw e e',
        record {
          size = g.same_length ∙ f.same_length ∙ size;
          first_half = λ j h. g.outside j (inl h) ∙ f.inside j (omega arith) h;
          second_half = λ j lo hi. g.inside j lo hi;
        },
      )

-- ===== src/Bounded/Store.antt =====
-- What it means that a bounded queue holds a list of values: each index stands in exactly one of
-- the two rings, and the slots of the allocated ones hold the values, oldest first.
use lfqueue.Base.{ℕ, suc, ◌+◌, ◌^◌, ◌≤◌, ◌<◌, ◌≡◌, refl, arith, ap, ◌∙◌, ◌==◌, if◌then◌else◌}
use lfqueue.Base.{false, Option, none, some, List, [], ◌∷◌, ◌++◌, length, get_elem?, set}
use lfqueue.Base.{done, get_elem?-set_ne, lt→ltb}
use lfqueue.Ring.{finalized}
use lfqueue.Ring.Holds.{Holds, IsYoung}
use lfqueue.Bounded.{BoundedQueue, write_slot, read_slot}

unfoldable pub count : ℕ → List ℕ → ℕ
count i [] = 0
count i (x ∷ xs) = (if x == i then 1 else 0) + count i xs

pub count-append :
    (i x : ℕ) (xs : List ℕ) → count i (xs ++ (x ∷ [])) ≡ count i xs + (if x == i then 1 else 0)
unfolding count
count-append i x [] = omega arith
count-append i x (y ∷ xs) = omega (arith, count-append i x xs)

pub count-cons : (i x : ℕ) (xs : List ℕ) → count i (x ∷ xs) ≡ count i xs + (if x == i then 1 else 0)
unfolding count
count-cons i x xs = omega arith

module _ {ℓ} {A : Type ℓ} where
  -- The slot of each index holds the value at the same place.
  abbrev pub Stored : List (Option A) → List ℕ → List A → Type ℓ
  Stored b [] [] = Unit
  Stored b [] (x ∷ q) = Unit × ⊥
  Stored b (i ∷ is) [] = Unit × ⊥
  Stored b (i ∷ is) (x ∷ q) = (get_elem? b i ≡ some (some x)) × Stored b is q

  pub length-Stored :
      (b : List (Option A)) (is : List ℕ) (q : List A) → Stored b is q → length is ≡ length q
  length-Stored b [] [] s = refl
  length-Stored b [] (x ∷ q) s = absurd (s.1)
  length-Stored b (i ∷ is) [] s = absurd (s.1)
  length-Stored b (i ∷ is) (x ∷ q) s = ap suc (length-Stored b is q s.1)

  -- A write at an index that does not occur changes none of the values.
  pub Stored-set :
      (b : List (Option A)) (pos : ℕ) (v : Option A) (is : List ℕ) (q : List A)
      → count pos is ≡ 0
      → Stored b is q
      → Stored (set b pos v) is q
  unfolding count
  Stored-set b pos v [] [] free s = tt
  Stored-set b pos v [] (x ∷ q) free s = s
  Stored-set b pos v (i ∷ is) [] free s = s
  Stored-set b pos v (i ∷ is) (x ∷ q) free s = (
    get_elem?-set_ne b pos i v (λ e. ground arith) ∙ s.0,
    Stored-set b pos v is q (omega arith) s.1,
  )

  pub Stored-append :
      (b : List (Option A)) (pos : ℕ) (x : A) (is : List ℕ) (q : List A)
      → get_elem? b pos ≡ some (some x)
      → Stored b is q
      → Stored b (is ++ (pos ∷ [])) (q ++ (x ∷ []))
  Stored-append b pos x [] [] here s = (here, tt)
  Stored-append b pos x [] (y ∷ q) here s = absurd s.1
  Stored-append b pos x (i ∷ is) [] here s = absurd s.1
  Stored-append b pos x (i ∷ is) (y ∷ q) here s = (s.0, Stored-append b pos x is q here s.1)

  pub write_slot_lem :
      (b : List (Option A)) (pos : ℕ) (x : A)
      → pos < length b
      → write_slot b pos x ≡ done (set b pos (some x))
  unfolding write_slot
  write_slot_lem b pos x h = rw (lt→ltb pos (length b) h)

  pub read_slot_lem :
      (b : List (Option A)) (pos : ℕ) (x : A)
      → get_elem? b pos ≡ some (some x)
      → read_slot b pos ≡ done (x, set b pos none)
  unfolding read_slot
  read_slot_lem b pos x h = rw (h, read_slot)

  -- `free` and `allocated` are the indices in the two rings.
  pub record Store (b : BoundedQueue A) (free allocated : List ℕ) (q : List A) : Type ℓ where
    pub free_ring : Holds b.free_queue free
    pub alloc_ring : Holds b.alloc_queue allocated
    pub same_order : b.alloc_queue.order ≡ b.free_queue.order
    pub total : length free + length allocated ≡ 2 ^ b.free_queue.order
    pub distinct : (i : ℕ) → count i free + count i allocated ≤ 1
    pub stored : Stored b.backing allocated q
    pub used_is : b.used ≡ length allocated
    pub backed : 2 ^ b.free_queue.order ≤ length b.backing
    pub free_open : finalized b.free_queue ≡ false

  -- Neither ring has handed out 2 ^ 61 tickets.
  abbrev pub IsYoungQueue : BoundedQueue A → Type 0
  IsYoungQueue b = IsYoung b.free_queue × IsYoung b.alloc_queue

-- ===== src/Unbounded.antt =====
-- The unbounded queues of src/lfstd.rs: a list of bounded queues, which grows at `tail` and shrinks
-- at `head`, as one thread at a time uses it. The atomic pointers are those of a crate that the
-- source only calls; `AtomicPtr` is what it relies on.
pub mod Pointers
pub mod Segment
pub mod Chain
pub mod Enqueue
pub mod Dequeue
pub mod Fifo
pub mod Drop
pub mod Handles
pub mod Tests
use lfqueue.Base.{
  ℕ, zero, suc, ◌+◌, ◌*◌, if◌then◌else◌, ◌==◌, Bool, true, false, Option, none, some,
}
use lfqueue.Base.{List, [], ◌∷◌, ◌++◌, length, get_elem?, set}
use lfqueue.Base.{Exec, done, panic, undefined, out_of_fuel, ◌>>=◌}
use lfqueue.Word.{wrapping_add, wrapping_sub, shift_left}
use lfqueue.Ring.{ScqRing, Cpu}
use lfqueue.Bounded
use lfqueue.Bounded.{BoundedQueue, accepted, returned, enqueue_cycle}
use lfqueue.Unbounded.Pointers.{AtomicPtr}

pub record LscqNode {ℓ} (A : Type ℓ) (P : Type 0) : Type ℓ where
  pub value : BoundedQueue A
  pub next : P

-- The heap is part of the state: a node stands at its address, and `none` where it has been freed.
pub record UnboundedQueueInternal {ℓ} (A : Type ℓ) (P : Type 0) : Type ℓ where
  pub head : P
  pub tail : P
  pub internal_order : ℕ
  pub heap : List (Option (LscqNode A P))

-- What a pointer points to; an address that is not allocated is not checked for.
unfoldable pub deref {ℓ} :
    {A : Type ℓ} {P : Type 0} → List (Option (LscqNode A P)) → ℕ → Exec (LscqNode A P)
deref heap a = elim (get_elem? heap a) [
  | none ↦ undefined
  | some place ↦ elim place [ none ↦ undefined | some node ↦ done node ]
]

-- `unwrap`
abbrev pub unwrap {ℓ} : {A : Type ℓ} → Option A → Exec A
unwrap none = panic
unwrap (some a) = done a

-- The threshold that `dequeue` stores before its second try.
unfoldable pub rearm {ℓ} : {A : Type ℓ} → BoundedQueue A → BoundedQueue A
rearm b =
    let threshold = wrapping_sub (3 * shift_left 1 (wrapping_add b.free_queue.order 1)) 1 in
    record b { alloc_queue = record b.alloc_queue { threshold = threshold } }

module _ {ℓ} {A : Type ℓ} {P : Type 0} (ops : AtomicPtr P) where
  abbrev pub put : UnboundedQueueInternal A P → ℕ → LscqNode A P → UnboundedQueueInternal A P
  put q a node = record q { heap = set q.heap a (some node) }

  -- `free_owned_alloc`, and a node that is retired. The queue that the box drops with it is not
  -- dropped here: where a node is freed, its queue holds no value.
  abbrev pub free : UnboundedQueueInternal A P → ℕ → UnboundedQueueInternal A P
  free q a = record q { heap = set q.heap a none }

  unfoldable pub new_node : ℕ → Exec (LscqNode A P)
  new_node size = do
    value ← Bounded.new A 1 size
    done (record { value = value; next = ops.make none })

  unfoldable pub new : ℕ → Exec (UnboundedQueueInternal A P)
  new segment_size = do
    node ← new_node segment_size
    done (record {
      head = ops.make (some 0);
      tail = ops.make (some 0);
      internal_order = segment_size;
      heap = some node ∷ [];
    })

  -- The calls of the rings within one operation run on the processor `c`.
  unfoldable pub enqueue_loop :
      ℕ → Cpu → UnboundedQueueInternal A P → A → Exec (UnboundedQueueInternal A P)
  enqueue_loop zero c q element = out_of_fuel
  enqueue_loop (suc fuel) c q element = do
    cq_ptr ← unwrap (ops.load q.tail)
    cq ← deref q.heap cq_ptr
    elim (ops.load cq.next) [
      | some next_ptr ↦
          let (moved, tail) = ops.compare_exchange q.tail (some cq_ptr) (some next_ptr) in
          enqueue_loop fuel c (record q { tail = tail }) element
      | none ↦ do
        (sent, value) ← enqueue_cycle true c cq.value element
        let q1 = put q cq_ptr (record cq { value = value })
        elim sent [
          | accepted ↦ done q1
          | returned elem e ↦ do
            ncq ← new_node q.internal_order
            (refused, filled) ← Bounded.enqueue c ncq.value elem
            elim refused [
              | some x ↦ panic
              | none ↦
                  let new_ptr = length q1.heap in
                  let q2 = record q1 {
                    heap = q1.heap ++ (some (record ncq { value = filled }) ∷ []);
                  } in
                  let (linked, next) = ops.compare_exchange cq.next none (some new_ptr) in
                  let q3 = put q2 cq_ptr (record cq { value = value; next = next }) in
                  elim linked [
                    | true ↦
                        let (moved, tail) =
                          ops.compare_exchange q3.tail (some cq_ptr) (some new_ptr) in
                        done (record q3 { tail = tail })
                    | false ↦ do
                      (kept, emptied) ← Bounded.dequeue c filled
                      back ← unwrap kept
                      enqueue_loop fuel c (free q3 new_ptr) back
                  ]
            ]
        ]
    ]

  -- A node that is taken out of the list is retired; no other thread guards it, so it is freed
  -- before the next access.
  unfoldable pub dequeue_loop :
      ℕ → Cpu → UnboundedQueueInternal A P → Exec (Option A × UnboundedQueueInternal A P)
  unfolding rearm
  dequeue_loop zero c q = out_of_fuel
  dequeue_loop (suc fuel) c q = do
    cq_ptr ← unwrap (ops.load q.head)
    cq ← deref q.heap cq_ptr
    (found, value) ← Bounded.dequeue c cq.value
    let q1 = put q cq_ptr (record cq { value = value })
    elim found [
      | some p ↦ done (some p, q1)
      | none ↦ elim (ops.load cq.next) [
        | none ↦ done (none, q1)
        | some next_ptr ↦ do
          next ← deref q1.heap next_ptr
          (again, value2) ← Bounded.dequeue c (rearm value)
          let q2 = put q1 cq_ptr (record cq { value = value2 })
          elim again [
            | some p ↦ done (some p, q2)
            | none ↦
                let (moved, head) = ops.compare_exchange q2.head (some cq_ptr) (some next_ptr) in
                let q3 = record q2 { head = head } in
                dequeue_loop fuel c (if moved then free q3 cq_ptr else q3)
          ]
      ]
    ]

  -- The loop of `drop`: the values that it drops, segment after segment.
  unfoldable pub drop_loop : ℕ → Cpu → Option ℕ → List (Option (LscqNode A P)) → Exec (List A)
  drop_loop zero c next heap = out_of_fuel
  drop_loop (suc fuel) c none heap = done []
  drop_loop (suc fuel) c (some temp) heap = do
    node ← deref heap temp
    (values, emptied) ← Bounded.drop fuel c node.value
    rest ← drop_loop fuel c (ops.load node.next) (set heap temp none)
    done (values ++ rest)

  unfoldable pub drop : ℕ → Cpu → UnboundedQueueInternal A P → Exec (List A)
  drop fuel c q = drop_loop fuel c (ops.load q.head) q.heap

-- The handles add hazard pointers to a queue, which change no value: each call goes to the queue.
pub record UnboundedQueue {ℓ} (A : Type ℓ) (P : Type 0) : Type ℓ where
  pub internal : UnboundedQueueInternal A P
  pub size : ℕ

pub record CountedUnboundedQueue {ℓ} (A : Type ℓ) (P : Type 0) : Type ℓ where
  pub queue : UnboundedQueue A P
  pub counter : ℕ

module _ {ℓ} {A : Type ℓ} {P : Type 0} (ops : AtomicPtr P) where
  unfoldable pub with_segment_size : ℕ → Exec (UnboundedQueue A P)
  with_segment_size size = do
    internal ← new ops size
    done (record { internal = internal; size = size })

  abbrev pub base_segment_capacity : UnboundedQueue A P → ℕ
  base_segment_capacity q = q.size

  unfoldable pub enqueue : ℕ → Cpu → UnboundedQueue A P → A → Exec (UnboundedQueue A P)
  unfolding enqueue_loop
  enqueue fuel c q item = do
    internal ← enqueue_loop ops fuel c q.internal item
    done (record q { internal = internal })

  unfoldable pub dequeue : ℕ → Cpu → UnboundedQueue A P → Exec (Option A × UnboundedQueue A P)
  unfolding dequeue_loop
  dequeue fuel c q = do
    (found, internal) ← dequeue_loop ops fuel c q.internal
    done (found, record q { internal = internal })

  unfoldable pub counted_with_segment_size : ℕ → Exec (CountedUnboundedQueue A P)
  counted_with_segment_size seg = do
    queue ← with_segment_size seg
    done (record { queue = queue; counter = 0 })

  abbrev pub len : CountedUnboundedQueue A P → ℕ
  len q = q.counter

  abbrev pub is_empty : CountedUnboundedQueue A P → Bool
  is_empty q = len q == 0

  unfoldable pub counted_enqueue :
      ℕ → Cpu → CountedUnboundedQueue A P → A → Exec (CountedUnboundedQueue A P)
  counted_enqueue fuel c q item =
      let longer = wrapping_add q.counter 1 in
      do queue ← enqueue fuel c q.queue item; done (record { queue = queue; counter = longer })

  unfoldable pub counted_dequeue :
      ℕ → Cpu → CountedUnboundedQueue A P → Exec (Option A × CountedUnboundedQueue A P)
  counted_dequeue fuel c q = do
    (found, queue) ← dequeue fuel c q.queue
    elim found [
      | some item ↦ done (some item, record { queue = queue; counter = wrapping_sub q.counter 1 })
      | none ↦ done (none, record { queue = queue; counter = q.counter })
    ]

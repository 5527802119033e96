-- ===== src/Unbounded/Handles.antt =====
-- The handles of src/lfstd.rs. A handle borrows a queue and keeps hazard pointers for its calls,
-- which change no value; its state is the queue that it borrows.
use mathlib.Core.List.{append_assoc, append-nil}
use lfqueue.Base.{ℕ, zero, suc, ◌+◌, ◌*◌, ◌^◌, ◌<◌, ◌≡◌, refl, arith, sym, subst}
use lfqueue.Base.{
  Option, some, List, [], ◌∷◌, ◌++◌, length, Exec, done, panic, undefined, out_of_fuel, ◌>>=◌,
}
use lfqueue.Ring.{Cpu}
use lfqueue.Ring.Holds.{IsFair}
use lfqueue.Unbounded.{
  with_segment_size, UnboundedQueueInternal, UnboundedQueue, enqueue_loop, dequeue_loop, enqueue,
  dequeue,
}
use lfqueue.Unbounded.Pointers.{AtomicPtr}
use lfqueue.Unbounded.Chain.{IsSize, Contains, Contains-weaken}
use lfqueue.Unbounded.Fifo.{with_segment_size_lem, unbounded_enqueue_lem, unbounded_dequeue_lem}

-- `Some` of each value.
abbrev pub somes {ℓ} : {A : Type ℓ} → List A → List (Option A)
somes [] = []
somes (x ∷ l) = some x ∷ somes l

pub record UnboundedEnqueueHandle {ℓ} (A : Type ℓ) (P : Type 0) : Type ℓ where
  pub internal : UnboundedQueue A P

pub record UnboundedFullHandle {ℓ} (A : Type ℓ) (P : Type 0) : Type ℓ where
  pub enqueue_handle : UnboundedEnqueueHandle A P

module _ {ℓ} {A : Type ℓ} {P : Type 0} where
  abbrev pub new_enqueue_handle : UnboundedQueue A P → UnboundedEnqueueHandle A P
  new_enqueue_handle q = record { internal = q }

  abbrev pub new_full_handle : UnboundedQueue A P → UnboundedFullHandle A P
  new_full_handle q = record { enqueue_handle = new_enqueue_handle q }

  -- The queue that a handle borrows.
  abbrev pub queue_of : UnboundedFullHandle A P → UnboundedQueue A P
  queue_of h = h.enqueue_handle.internal

module _ {ℓ} {A : Type ℓ} {P : Type 0} (ops : AtomicPtr P) where
  unfoldable pub handle_enqueue :
      ℕ → Cpu → UnboundedEnqueueHandle A P → A → Exec (UnboundedEnqueueHandle A P)
  handle_enqueue fuel c h item = do
    internal ← enqueue_loop ops fuel c h.internal.internal item
    done (record { internal = record h.internal { internal = internal } })

  unfoldable pub full_enqueue :
      ℕ → Cpu → UnboundedFullHandle A P → A → Exec (UnboundedFullHandle A P)
  full_enqueue fuel c h item = do
    handle ← handle_enqueue fuel c h.enqueue_handle item
    done (record { enqueue_handle = handle })

  unfoldable pub full_dequeue :
      ℕ → Cpu → UnboundedFullHandle A P → Exec (Option A × UnboundedFullHandle A P)
  full_dequeue fuel c h = do
    (found, internal) ← dequeue_loop ops fuel c (queue_of h).internal
    done (found, new_full_handle (record (queue_of h) { internal = internal }))

  -- Many calls on one handle; the call `k` runs on the processor `cs k`.
  unfoldable pub enqueue_all :
      ℕ → (ℕ → Cpu) → ℕ → UnboundedFullHandle A P → List A → Exec (UnboundedFullHandle A P)
  enqueue_all fuel cs k h [] = done h
  enqueue_all fuel cs k h (item ∷ items) = do
    h' ← full_enqueue fuel (cs k) h item
    enqueue_all fuel cs (k + 1) h' items

  unfoldable pub dequeue_all :
      ℕ
      → (ℕ → Cpu)
      → ℕ
      → UnboundedFullHandle A P
      → ℕ
      → Exec (List (Option A) × UnboundedFullHandle A P)
  dequeue_all fuel cs k h zero = done ([], h)
  dequeue_all fuel cs k h (suc count) = do
    (found, h') ← full_dequeue fuel (cs k) h
    (rest, h'') ← dequeue_all fuel cs (k + 1) h' count
    done (found ∷ rest, h'')

  -- `UnboundedQueue::enqueue` and `dequeue` are those of a new handle.
  enqueue_by_handle :
      (fuel : ℕ) (c : Cpu) (q : UnboundedQueue A P) (item : A)
      → full_enqueue fuel c (new_full_handle q) item
        ≡ (enqueue ops fuel c q item >>= λ q'. done (new_full_handle q'))
  unfolding full_enqueue handle_enqueue enqueue
  enqueue_by_handle fuel c q item = split (enqueue_loop ops fuel c q.internal item)
    where
      split :
          (r : Exec (UnboundedQueueInternal A P))
          → ◌≡◌ {A = Exec (UnboundedFullHandle A P)}
              (◌>>=◌ {B = UnboundedEnqueueHandle A P} r
                  (λ i. done (record { internal = record q { internal = i } }))
                >>= λ handle. done (record { enqueue_handle = handle }))
              (◌>>=◌ {B = UnboundedQueue A P} r (λ i. done (record q { internal = i })) >>= λ q'.
                done (new_full_handle q'))
      split (done i) = refl
      split panic = refl
      split undefined = refl
      split out_of_fuel = refl

  dequeue_by_handle :
      (fuel : ℕ) (c : Cpu) (q : UnboundedQueue A P)
      → full_dequeue fuel c (new_full_handle q)
        ≡ (dequeue ops fuel c q >>= λ r. done (r.0, new_full_handle (r.1)))
  unfolding full_dequeue dequeue
  dequeue_by_handle fuel c q = split (dequeue_loop ops fuel c q.internal)
    where
      split :
          (r : Exec (Option A × UnboundedQueueInternal A P))
          → ◌≡◌ {A = Exec (Option A × UnboundedFullHandle A P)}
              (r >>= λ p. done (p.0, new_full_handle (record q { internal = p.1 })))
              (◌>>=◌ {B = Option A × UnboundedQueue A P} r
                  (λ p. done (p.0, record q { internal = p.1 }))
                >>= λ p. done (p.0, new_full_handle (p.1)))
      split (done i) = refl
      split panic = refl
      split undefined = refl
      split out_of_fuel = refl

  module _ (size order fuel : ℕ) (z : IsSize size order) (cs : ℕ → Cpu)
      (fair : (k : ℕ) → IsFair (cs k)) where
    -- The values that a queue, borrowed by a handle, contains.
    abbrev pub Holding : UnboundedQueue A P → ℕ → List A → Type ℓ
    Holding q room l = Contains ops q.internal size order room l

    -- On fair processors, and while no counter comes near 2 ^ 61: the calls of `enqueue` on one
    -- handle append the items in order.
    pub enqueue_all_lem :
        (k room : ℕ) (items l : List A) (q : UnboundedQueue A P)
        → length items + room < 2 ^ 60
        → Holding q (length items + room) l
        → (q' : UnboundedQueue A P) × (enqueue_all (suc fuel) cs k (new_full_handle q) items
            ≡ done (new_full_handle q'))
          × Holding q' room (l ++ items)
    unfolding enqueue_all
    enqueue_all_lem k room [] l q few h = (
      q,
      refl,
      subst (λ p. Holding q room p) (sym (append-nil l)) (Contains-weaken ops (omega arith) h),
    )
    enqueue_all_lem k room (x ∷ items) l q few h =
        let (q1, e1, h1) =
          unbounded_enqueue_lem ops q (cs k) (fair k) fuel (length items + room) x z (omega arith)
            (Contains-weaken ops (omega arith) h) in
        let (q', e, h') = enqueue_all_lem (k + 1) room items (l ++ (x ∷ [])) q1 (omega arith) h1 in
        (
          q',
          rw (enqueue_by_handle (suc fuel) (cs k) q x, e1) e,
          subst (λ p. Holding q' room p) (append_assoc l (x ∷ []) items) h',
        )

    -- On fair processors, and while no counter comes near 2 ^ 61: as many calls of `dequeue` on one
    -- handle as the queue contains values return them all, in order, and leave nothing.
    pub dequeue_all_lem :
        (k room : ℕ) (l : List A) (q : UnboundedQueue A P)
        → Holding q (3 * length l + room) l
        → (q' : UnboundedQueue A P) × (dequeue_all
              (suc (suc fuel))
              cs
              k
              (new_full_handle q)
              (length l)
            ≡ done (somes l, new_full_handle q'))
          × Holding q' room []
    unfolding dequeue_all
    dequeue_all_lem k room [] q h = (q, refl, Contains-weaken ops (omega arith) h)
    dequeue_all_lem k room (x ∷ l) q h =
        let (q1, e1, h1) =
          unbounded_dequeue_lem ops q (cs k) (fair k) fuel (3 * length l + room)
            (Contains-weaken ops (omega arith) h) in
        let (q', e, h') = dequeue_all_lem (k + 1) room l q1 h1 in
        (q', rw (dequeue_by_handle (suc (suc fuel)) (cs k) q, e1, e) refl, h')

-- For segments of any size that the assertion accepts, on fair processors, with fuel for two rounds
-- of each call, and for fewer than 2 ^ 57 items: what one full handle of a new queue is given comes
-- back from it, in order, and the queue contains nothing in the end.
pub bulk_roundtrip {ℓ} :
    {A : Type ℓ} {P : Type 0} (ops : AtomicPtr P) (size order fuel : ℕ) (cs : ℕ → Cpu)
    (items : List A)
    → IsSize size order
    → ((k : ℕ) → IsFair (cs k))
    → length items < 2 ^ 57
    → (q : UnboundedQueue A P) × (filled : UnboundedQueue A P) × (emptied : UnboundedQueue A P)
      × (with_segment_size ops size ≡ done q)
      × (enqueue_all ops (suc (suc fuel)) cs 0 (new_full_handle q) items
          ≡ done (new_full_handle filled))
      × (dequeue_all ops (suc (suc fuel)) cs 0 (new_full_handle filled) (length items)
          ≡ done (somes items, new_full_handle emptied))
      × Contains ops emptied.internal size order 0 []
bulk_roundtrip ops size order fuel cs items z fair few =
    let room = 3 * length items + 0 in
    let (q, e, h, same) =
      with_segment_size_lem ops size order (length items + room) z (omega arith) in
    let (q1, e1, h1) =
      enqueue_all_lem ops size order (suc fuel) z cs fair 0 room items [] q (omega arith) h in
    let (q2, e2, h2) = dequeue_all_lem ops size order fuel z cs fair 0 0 items q1 h1 in
    (q, q1, q2, e, e1, e2, h2)

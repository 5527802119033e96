-- ===== src/Ring/Shared/Consistent.antt =====
-- Every run of threads keeps the ring consistent, while its counters are small.
use lfqueue.Base.{
  ℕ, suc, ◌+◌, ◌-◌, ◌^◌, ◌≤◌, ◌<◌, ◌≡◌, ◌≢◌, refl, arith, ap, sym, ◌∙◌, subst, bit_xor, leb,
}
use lfqueue.Base.{
  Bool-cases, Option, none, some, List, [], ◌∷◌, length, get_elem?, set, done, inl, inr,
}
use lfqueue.Word.{wrapping_sub}
use lfqueue.Ring
use lfqueue.Ring.{ScqRing, finalizable, capacity, err, index_larger_than_order}
use lfqueue.Ring.Holds.{slots, sizes}
use lfqueue.Ring.Enqueue.{capacity_lem}
use lfqueue.Ring.Shared.{
  Place, SharedRing, Action, start_enqueue, start_dequeue, access, finalizes, begin, begin_enqueue,
  claim_tail, enqueued, check_threshold, act, play, n_enqueue,
}
use lfqueue.Ring.Shared.Steps.{IsSized, n_enqueue_lem}
use lfqueue.Ring.Shared.Places.{IsOrdered, begin_cases}
use lfqueue.Ring.Shared.Runs.{act_access, act_lem}
use lfqueue.Ring.Shared.View.{View, enq, deq, IsGood, Turned}
use lfqueue.Ring.Shared.Sound.{Turns, rests}
use lfqueue.Ring.Shared.Moves.{view}
use lfqueue.Ring.Shared.Turning.{moved}
use lfqueue.Ring.Shared.Kept.{IsKept, turn_lem}

abbrev pub view_of : SharedRing → View
view_of s = view s.ring s.stored s.removed s.passed

abbrev pub IsConsistent : SharedRing → Type 0
IsConsistent s = IsKept (slots s.ring) (view_of s) s.places

abbrev IsAfter : ScqRing → SharedRing → Type 0
IsAfter r s = IsKept (slots r) (view_of s) s.places

-- Where a call of `enqueue` starts, it has turned an index of the ring over.
begin_enqueue_good :
    (r : ScqRing) (eidx : ℕ) (P : Place → Type 0)
    → r.order ≤ 59
    → P (enqueued (err index_larger_than_order))
    → ((x : ℕ) → Turned (slots r) x → P (claim_tail x))
    → P (begin_enqueue r eidx)
unfolding begin_enqueue
begin_enqueue_good r eidx P small refused claims = elim (Bool-cases (leb (capacity r) eidx)) [
  | inl big ↦ rw big refused
  | inr fits ↦
      let below : eidx < slots r - 1 =
        ground (arith, fits, capacity_lem r small, sizes r.order small) in
      let masked : wrapping_sub (n_enqueue r) 1 ≡ slots r - 1 =
        rw (n_enqueue_lem r small) (omega (arith, sizes r.order small)) in
      rw fits (
        claims (bit_xor eidx (wrapping_sub (n_enqueue r) 1))
          (eidx, below, ap (bit_xor eidx) masked))
]

module _ (s : SharedRing) (z : IsSized s.ring) (k : IsConsistent s) where
  pos : 0 < slots s.ring
  pos = omega (arith, sizes s.ring.order z.small)

  -- A thread that starts a call, or does not.
  starts :
      (i : ℕ) (p call : Place)
      → get_elem? s.places i ≡ some p
      → IsGood (slots s.ring) (view_of s) call
      → enq call ≡ none
      → deq call ≡ none
      → IsAfter s.ring (record s { places = set s.places i (begin p call) })
  starts i p call here good e d =
      turn_lem (slots s.ring) pos (view_of s) (view_of s) s.places i p (begin p call) here k (
        begin_cases (λ q. Turns (slots s.ring) (view_of s) p (view_of s) q) p call
          (λ e' d'.
            rests (slots s.ring) {v = view_of s} {p = p} {p' = call} s.ring.tail k.sound
              (omega arith) good (λ t h. absurd (some_none t (sym h ∙ e)))
              (λ t h. absurd (some_none t (sym h ∙ d))) (λ t h. absurd (some_none t (sym h ∙ d'))))
          (rests (slots s.ring) {v = view_of s} {p = p} {p' = p} s.ring.tail k.sound (omega arith)
            (k.good i p here) (λ t h. h) (λ t h. h) (λ t h. h)))
    where
      some_none : (t : ℕ) → some t ≢ none
      some_none t h = cc

  begins :
      (i : ℕ) (call : Place) (o : Option Place)
      → get_elem? s.places i ≡ o
      → IsGood (slots s.ring) (view_of s) call
      → enq call ≡ none
      → deq call ≡ none
      → (s' : SharedRing) × ((elim o [
        | none ↦ done s
        | some place ↦ done (record s { places = set s.places i (begin place call) })
      ])
          ≡ done s')
        × IsAfter s.ring s'
  begins i call none h g e d = (s, refl, k)
  begins i call (some p) h g e d = (_, refl, starts i p call h g e d)

  pub act_kept :
      (a : Action)
      → s.ring.head < 2 ^ 61
      → s.ring.tail < 2 ^ 61
      → IsOrdered s
      → (s' : SharedRing) × (act s a ≡ done s') × IsAfter s.ring s'
  unfolding act Ring.finalize
  act_kept (start_enqueue i eidx) hh ht o =
      begin_enqueue_good s.ring eidx
        (λ call.
          (s' : SharedRing) × ((elim (get_elem? s.places i) [
            | none ↦ done s
            | some place ↦ done (record s { places = set s.places i (begin place call) })
          ])
            ≡ done s')
          × IsAfter s.ring s')
        z.small
        (begins i (enqueued (err index_larger_than_order)) (get_elem? s.places i) refl tt refl refl)
        (λ x turned. begins i (claim_tail x) (get_elem? s.places i) refl turned refl refl)
  act_kept (start_dequeue i) hh ht o =
      begins i check_threshold (get_elem? s.places i) refl tt refl refl
  act_kept (access i spurious) hh ht o = by_place (get_elem? s.places i) refl
    where
      by_place :
          (q : Option Place)
          → get_elem? s.places i ≡ q
          → (s' : SharedRing) × (act s (access i spurious) ≡ done s') × IsAfter s.ring s'
      by_place none h = (s, rw (act, h) refl, k)
      by_place (some p) h =
          let m =
            moved spurious s.ring s.stored s.removed s.passed k.sound p z hh ht (o.in_order i p h)
              (k.good i p h) in
          (
            _,
            act_access s i spurious p m.next m.ring h m.steps,
            turn_lem (slots s.ring) pos (view_of s) _ s.places i p m.next h k m.turns,
          )
  act_kept finalizes hh ht o = elim (Bool-cases (finalizable s.ring)) [
    | inl can ↦ (record s { ring = Ring.finalize s.ring }, refl, rw can k)
    | inr cannot ↦ (record s { ring = Ring.finalize s.ring }, refl, rw cannot k)
  ]

play_first :
    (s s1 s' : SharedRing) (a : Action) (actions : List Action)
    → act s a ≡ done s1
    → play s1 actions ≡ done s'
    → play s (a ∷ actions) ≡ done s'
unfolding play
play_first s s1 s' a actions acts plays = rw acts plays

pub play_kept :
    (s : SharedRing) (actions : List Action)
    → IsSized s.ring
    → IsOrdered s
    → IsConsistent s
    → s.ring.head + length actions < 2 ^ 61
    → s.ring.tail + length actions < 2 ^ 61
    → (s' : SharedRing) × (play s actions ≡ done s')
      × (s'.ring.order ≡ s.ring.order)
      × IsConsistent s'
      × (s'.ring.head < 2 ^ 61)
      × (s'.ring.tail < 2 ^ 61)
unfolding play
play_kept s [] z o k hh ht = (s, refl, refl, k, omega arith, omega arith)
play_kept s (a ∷ actions) z o k hh ht =
    let m = act_lem s a z in
    let (s1, acts, kept) = act_kept s z k a (omega arith) (omega arith) o in
    let same : s1 ≡ m.after = (let both : done s1 ≡ done m.after = sym acts ∙ m.acts in cc) in
    let kept1 : IsConsistent m.after =
      subst (λ (order : ℕ). IsKept (2 ^ suc order) (view_of m.after) m.after.places)
        (sym m.same_order) (subst (IsAfter s.ring) same kept) in
    let risen = m.head (omega arith) in
    let tail_below =
      m.below (2 ^ 61 - 1 - length actions) (omega arith) (omega arith) o (omega arith)
        (omega arith) in
    let (s', plays, order, done_kept, head, tail) =
      play_kept m.after actions m.sized (m.ordered (omega arith) (omega arith) o) kept1
        (omega (arith, risen, m.few)) (omega (arith, tail_below)) in
    let same_order : s'.ring.order ≡ s.ring.order = omega (arith, order, m.same_order) in
    (s', play_first s m.after s' a actions m.acts plays, same_order, done_kept, head, tail)

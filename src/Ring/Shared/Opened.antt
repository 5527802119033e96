-- ===== src/Ring/Shared/Opened.antt =====
-- A new ring, empty or filled, before any thread has made a call on it.
use native.Mathlib.Nat.{mod-eq_of_lt, div-add-mod'}
use lfqueue.Base.{
  ℕ, zero, suc, ◌+◌, ◌-◌, ◌*◌, ◌%◌, ◌/◌, ◌≤◌, ◌<◌, ◌≡◌, ◌≢◌, refl, arith, ap, sym, ◌∙◌, subst,
  dec_lt,
}
use lfqueue.Base.{none, some, List, [], ◌∷◌, length, get_elem?, get_elem?_total, ◌⊎◌, inl, inr}
use lfqueue.Word.{minus_one}
use lfqueue.Ring.{ScqRing}
use lfqueue.Ring.Entry.{live}
use lfqueue.Ring.Holds.{Holds, slots, sizes}
use lfqueue.Ring.Shared.{SharedRing, share}
use lfqueue.Ring.Shared.Fields.{age, idx, age_of, IsWord, live_fields}
use lfqueue.Ring.Shared.View.{View, Has, HasTicket, IsOnce, slot, at, enq, deq, IsGood}
use lfqueue.Ring.Shared.Sound.{IsSound}
use lfqueue.Ring.Shared.Steps.{IsSized, IsInOrder}
use lfqueue.Ring.Shared.Places.{Every-outside, IsOrdered}
use lfqueue.Ring.Shared.Consistent.{IsConsistent}

-- The indices `q` with their tickets, which count up from `t`.
unfoldable pub numbered : ℕ → List ℕ → List (ℕ × ℕ)
numbered t [] = []
numbered t (i ∷ q) = (t, i) ∷ numbered (t + 1) q

-- `count` threads on a new ring that was made with the indices `q`.
unfoldable pub opened : ScqRing → List ℕ → ℕ → SharedRing
opened r q count = record (share r count) { stored = numbered 0 q }

pub numbered_range :
    (a t : ℕ) (q : List ℕ) → HasTicket t (numbered a q) → (a ≤ t) × (t < a + length q)
unfolding numbered
numbered_range a t [] h = absurd h
numbered_range a t (i ∷ q) (inl e) = (omega arith, omega arith)
numbered_range a t (i ∷ q) (inr h) =
    let (lo, hi) = numbered_range (a + 1) t q h in (omega arith, omega arith)

numbered-IsOnce : (a : ℕ) (q : List ℕ) → IsOnce (numbered a q)
unfolding numbered
numbered-IsOnce a [] = tt
numbered-IsOnce a (i ∷ q) =
    ((λ h. omega (arith, (numbered_range (a + 1) a q h).0)), numbered-IsOnce (a + 1) q)

numbered_has : (a j i : ℕ) (q : List ℕ) → get_elem? q j ≡ some i → Has (a + j) i (numbered a q)
unfolding numbered
numbered_has a j i [] h = absurd (cc)
numbered_has a zero i (x ∷ q) h = inl (omega arith, cc)
numbered_has a (suc j) i (x ∷ q) h =
    let next : a + suc j ≡ a + 1 + j = omega arith in
    inr (subst (λ t. Has t i (numbered (a + 1) q)) (sym next) (numbered_has (a + 1) j i q h))

numbered_elem :
    (a t i : ℕ) (q : List ℕ)
    → Has t i (numbered a q)
    → (j : ℕ) × (t ≡ a + j) × (get_elem? q j ≡ some i) × (j < length q)
unfolding numbered
numbered_elem a t i [] h = absurd h
numbered_elem a t i (x ∷ q) (inl e) = (0, omega (arith, e.0), ap some (sym (e.1)), omega arith)
numbered_elem a t i (x ∷ q) (inr h) =
    let (j, e, f, lt) = numbered_elem (a + 1) t i q h in (suc j, omega arith, f, omega arith)

module _ (r : ScqRing) (q : List ℕ) (h : Holds r q) (first : r.head ≡ 0) where
  abbrev n : ℕ
  n = slots r

  abbrev v : View
  v = record {
    array = r.array;
    head = r.head;
    tail = r.tail;
    stored = numbered 0 q;
    removed = [];
    passed = [];
  }

  pos : 0 < n
  pos = omega (arith, sizes r.order h.order_small)

  small : suc r.order ≤ 60
  small = omega (arith, h.order_small)

  record IsHeld (t i : ℕ) : Type 0 where
    index : get_elem? q (t % n) ≡ some i
    below : i < n - 1
    age_is : age n (at n v t) ≡ 1
    idx_is : idx n (at n v t) ≡ i
    word : IsWord (at n v t)

  word_at : (t e : ℕ) → get_elem? r.array (t % n) ≡ some e → at n v t ≡ e
  word_at t e here = rw (slot, here) refl

  -- A slot has the index of its ticket, or was never used.
  slot_of : (t : ℕ) → ((i : ℕ) × IsHeld t i) ⊎ (at n v t ≡ minus_one)
  slot_of t = elim (dec_lt j (length q)) [
    | yes lt ↦
        let (i, f) = get_elem?_total q j lt in
        let (fits, here) = h.held j i f in
        let ticket : r.head + j ≡ j = omega (arith, first) in
        let low : j < n = omega (arith, pos) in
        let same : at n v t ≡ live n j i = word_at t (live n j i) (
          subst (λ (x : ℕ). get_elem? r.array x ≡ some (live n j i))
            (mod-eq_of_lt {n = j} {m = n} low)
            (subst (λ (x : ℕ). get_elem? r.array (x % n) ≡ some (live n x i)) ticket here)) in
        let f2 =
          live_fields (suc r.order) small j i (omega (arith, low, sizes r.order h.order_small))
            (omega (arith, fits, sizes r.order h.order_small)) in
        inl (
          i,
          record {
            index = f;
            below = omega (arith, fits, sizes r.order h.order_small);
            age_is = ap (age n) same ∙ f2.0 ∙ ap suc (quotient low);
            idx_is = ap (idx n) same ∙ f2.2;
            word = subst IsWord (sym same) (f2.3);
          },
        )
    | no ge ↦
        let low : j < n = omega (arith, pos) in
        let f = h.rest j (omega (arith, first)) (omega (arith, first)) in
        let same : at n v t ≡ f.entry = word_at t f.entry (
          subst (λ (x : ℕ). get_elem? r.array x ≡ some f.entry) (mod-eq_of_lt {n = j} {m = n} low)
            f.here) in
        elim (f.free.1) [
          | inl ones ↦ inr (same ∙ ones)
          | inr older ↦ absurd (omega (arith, ap (λ x. x * (2 * n)) (quotient low)))
        ]
  ]
    where
      j : ℕ
      j = t % n

      quotient : j < n → j / n ≡ 0
      quotient low = grind arith

  -- The ticket of an index that was there.
  held_ticket : (t i : ℕ) → Has t i v.stored → (t < n) × (t % n ≡ t) × (get_elem? q t ≡ some i)
  held_ticket t i m =
      let (j, e, f, lt) = numbered_elem 0 t i q m in
      let same : t ≡ j = omega arith in
      let low : t < n = omega (arith, h.room, sizes r.order h.order_small) in
      (
        low,
        mod-eq_of_lt {n = t} {m = n} low,
        subst (λ (x : ℕ). get_elem? q x ≡ some i) (sym same) f,
      )

  never_used : (t : ℕ) → at n v t ≡ minus_one → age n (at n v t) ≡ 0
  never_used t e = ap (age n) e

  -- A slot with the age of a ticket has the ticket's index.
  of_age : (t i : ℕ) → IsHeld t i → age n (at n v t) ≡ age_of n t → Has t i v.stored
  of_age t i f a =
      let first_round : t / n ≡ 0 = omega (arith, f.age_is, a) in
      let same : 0 + t % n ≡ t = omega (arith, div_small_ticket t first_round) in
      subst (λ (x : ℕ). Has x i v.stored) same (numbered_has 0 (t % n) i q f.index)
    where
      div_small_ticket : (t : ℕ) → t / n ≡ 0 → t % n ≡ t
      div_small_ticket t e = omega (arith, div-add-mod' t n, ap (λ (x : ℕ). x * n) e)

  opened-IsSound : IsSound n v
  opened-IsSound = record {
    size = h.size;
    words = λ t. elim (slot_of t) [ inl f ↦ (f.1).word | inr e ↦ inl e ];
    stored_below = λ t m. omega (arith, (numbered_range 0 t q m).1, h.ends, first);
    stored_index = λ t i m.
        let (low, e, f) = held_ticket t i m in
        omega (arith, (h.held t i f).0, sizes r.order h.order_small);
    stored_once = numbered-IsOnce 0 q;
    removed_below = λ t m. absurd m;
    removed_stored = λ t i m. absurd m;
    removed_once = tt;
    passed_below = λ t m. absurd m;
    behind = λ t m. absurd m;
    filled = λ t a f. elim (slot_of t) [
      | inl g ↦
          (subst (λ (x : ℕ). Has t x v.stored) (sym (g.1).idx_is) (of_age t (g.0) (g.1) a), λ m. m)
      | inr e ↦ absurd (omega (arith, never_used t e, a))
    ];
    emptied = λ t a f. elim (slot_of t) [
      | inl g ↦ absurd (omega (arith, (g.1).idx_is, (g.1).below, f))
      | inr e ↦ absurd (omega (arith, never_used t e, a))
    ];
    kept = λ t i m.
        let (low, e, f) = held_ticket t i m in
        elim (slot_of t) [
          | inl g ↦
              let same : g.0 ≡ i =
                (let both : some (g.0) ≡ some i = sym (g.1).index ∙ ap (get_elem? q) e ∙ f in cc) in
              inr ((g.1).age_is ∙ ap suc (sym (quotient t low)), (g.1).idx_is ∙ same, λ k. k)
          | inr ones ↦ absurd (unused t i low e f ones)
        ];
  }
    where
      quotient : (t : ℕ) → t < n → t / n ≡ 0
      quotient t low = grind arith

      unused : (t i : ℕ) → t < n → t % n ≡ t → get_elem? q t ≡ some i → at n v t ≢ minus_one
      unused t i low e f ones =
          let ticket : r.head + t ≡ t = omega (arith, first) in
          let here = (h.held t i f).1 in
          let same : at n v t ≡ live n t i =
            word_at t (live n t i)
              (subst (λ (x : ℕ). get_elem? r.array (x % n) ≡ some (live n x i)) ticket here) in
          let g =
            live_fields (suc r.order) small t i (omega (arith, low, sizes r.order h.order_small))
              (omega (arith, (h.held t i f).0, sizes r.order h.order_small)) in
          omega (arith, never_used t ones, ap (age n) same, g.0)

  module _ (count : ℕ) where
    pub opened-IsSized : IsSized (opened r q count).ring
    unfolding opened share
    opened-IsSized = record { small = h.order_small; size = h.size }

    pub opened-IsOrdered : IsOrdered (opened r q count)
    unfolding opened share
    opened-IsOrdered = record {
      in_order = Every-outside (λ p. IsInOrder p r) count tt;
      falling = tt;
    }

    pub opened-IsConsistent : IsConsistent (opened r q count)
    unfolding opened share
    opened-IsConsistent = record {
      sound = opened-IsSound;
      good = Every-outside (IsGood n v) count tt;
      enq_apart = λ i j p p' t e f a b. absurd (
          let no : none ≡ some t = sym (Every-outside (λ x. enq x ≡ none) count refl i p e) ∙ a in
          cc);
      deq_apart = λ i j p p' t e f a b. absurd (
          let no : none ≡ some t = sym (Every-outside (λ x. deq x ≡ none) count refl i p e) ∙ a in
          cc);
      gone = λ t lt. absurd (omega (arith, first));
    }

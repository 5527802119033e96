-- ===== src/Ring/Shared/Conserved.antt =====
-- The indices that go through a ring, whatever its threads do.
use lfqueue.Base.{
  ℕ, suc, ◌+◌, ◌-◌, ◌%◌, ◌^◌, ◌≤◌, ◌<◌, ◌≡◌, refl, arith, ap, sym, ◌∙◌, subst, bit_and,
}
use lfqueue.Base.{
  none, some, List, [], ◌∷◌, length, get_elem?, get_elem?_total, done, ◌⊎◌, inl, inr,
}
use lfqueue.Word.{shift_left}
use lfqueue.Word.Fields.{bit_and_mask}
use lfqueue.Lfring.{modup}
use lfqueue.Ring.{ScqRing, look, take}
use lfqueue.Ring.Entry.{cycle_word, ticket_cycle}
use lfqueue.Ring.Holds.{Holds, slots, sizes}
use lfqueue.Ring.Shared.{SharedRing, Action, play, share}
use lfqueue.Ring.Shared.Fields.{age, idx, age_of}
use lfqueue.Ring.Shared.Looks.{look-mine, look-take}
use lfqueue.Ring.Shared.View.{Has, HasTicket, ticket_of_Has, IsOnce, slot, deq}
use lfqueue.Ring.Shared.Sound.{IsSound, index_of}
use lfqueue.Ring.Shared.Places.{Every}
use lfqueue.Ring.Shared.Consistent.{IsConsistent, view_of, play_kept}
use lfqueue.Ring.Shared.Opened.{opened, opened-IsSized, opened-IsOrdered, opened-IsConsistent}

-- The word in the slot of the ticket `t` is one from which `dequeue` with this ticket takes `i`.
abbrev pub Waits : ScqRing → ℕ → ℕ → Type 0
Waits r t i =
    (w : ℕ) × (get_elem? r.array (t % slots r) ≡ some w)
    × ((attempt : ℕ) → look (slots r) (modup (shift_left t 1) (slots r)) attempt w ≡ take)
    × (bit_and w (slots r - 1) ≡ i)

-- No ticket was stored or removed twice, what was removed had been stored with the same ticket, and
-- what was stored has either been removed or waits in the slot of its ticket.
pub record IsConserved (s : SharedRing) : Type 0 where
  pub stored_once : IsOnce s.stored
  pub removed_once : IsOnce s.removed
  pub removed_stored : (t i : ℕ) → Has t i s.removed → Has t i s.stored
  pub kept : (t i : ℕ) → Has t i s.stored → Has t i s.removed ⊎ Waits s.ring t i
  pub apart : (t i : ℕ) → Has t i s.removed → ¬ Waits s.ring t i

Has_unique : (l : List (ℕ × ℕ)) (t i j : ℕ) → IsOnce l → Has t i l → Has t j l → i ≡ j
Has_unique [] t i j o a b = absurd a
Has_unique (p ∷ l) t i j o (inl a) (inl b) = a.1 ∙ sym (b.1)
Has_unique (p ∷ l) t i j o (inl a) (inr b) =
    absurd (o.0 (subst (λ x. HasTicket x l) (a.0) (ticket_of_Has l t j b)))
Has_unique (p ∷ l) t i j o (inr a) (inl b) =
    absurd (o.0 (subst (λ x. HasTicket x l) (b.0) (ticket_of_Has l t i a)))
Has_unique (p ∷ l) t i j o (inr a) (inr b) = Has_unique l t i j (o.1) a b

module _ (s : SharedRing) (small : s.ring.order ≤ 59) (sound : IsSound (slots s.ring) (view_of s))
    (young : s.ring.tail < 2 ^ 61) where
  abbrev n : ℕ
  n = slots s.ring

  removed_index : (t i : ℕ) → Has t i s.stored → HasTicket t s.removed → Has t i s.removed
  removed_index t i m h =
      let (j, f) = index_of s.removed t h in
      let same = Has_unique s.stored t j i sound.stored_once (sound.removed_stored t j f) m in
      subst (λ (x : ℕ). Has t x s.removed) same f

  cycle : (t i : ℕ) → Has t i s.stored → t < 2 ^ 61
  cycle t i m = omega (arith, sound.stored_below t (ticket_of_Has s.stored t i m))

  word_of :
      (t : ℕ)
      → (w : ℕ) × (get_elem? s.ring.array (t % n) ≡ some w) × (slot s.ring.array (t % n) ≡ w)
  word_of t =
      let inside : t % n < length s.ring.array =
        omega (arith, sound.size, sizes s.ring.order small) in
      let (w, here) = get_elem?_total s.ring.array (t % n) inside in (w, here, rw (slot, here) refl)

  ticket_word : (t : ℕ) → t < 2 ^ 61 → modup (shift_left t 1) n ≡ cycle_word n t
  ticket_word t low = ticket_cycle (suc s.ring.order) (omega (arith, small)) t (omega arith)

  waits :
      (t i : ℕ)
      → Has t i s.stored
      → age n (slot s.ring.array (t % n)) ≡ age_of n t
      → idx n (slot s.ring.array (t % n)) ≡ i
      → Waits s.ring t i
  waits t i m a f =
      let w = slot s.ring.array (t % n) in
      let low = cycle t i m in
      let (x, here, same) = word_of t in
      (
        w,
        here ∙ ap some (sym same),
        λ attempt.
            ap (λ (c : ℕ). look n c attempt w) (ticket_word t low)
            ∙ look-mine (suc s.ring.order) (omega (arith, small)) w t (sound.words t) low attempt a,
        bit_and_mask (suc s.ring.order) w ∙ f,
      )

  never_both : (t i : ℕ) → Has t i s.removed → ¬ Waits s.ring t i
  never_both t i m (w, here, takes, index) =
      let stored = sound.removed_stored t i m in
      let low = cycle t i stored in
      let (x, there, same) = word_of t in
      let word : slot s.ring.array (t % n) ≡ w =
        same ∙ (let both : some x ≡ some w = sym there ∙ here in cc) in
      let mine =
        look-take (suc s.ring.order) (omega (arith, small)) (slot s.ring.array (t % n)) t
          (sound.words t) low 0
          (ap (λ (c : ℕ). look n c 0 (slot s.ring.array (t % n))) (sym (ticket_word t low))
            ∙ ap (look n (modup (shift_left t 1) n) 0) word
            ∙ takes 0) in
      let held : idx n (slot s.ring.array (t % n)) ≡ i =
        ap (idx n) word ∙ sym (bit_and_mask (suc s.ring.order) w) ∙ index in
      (sound.filled t mine (λ f. omega (arith, sound.stored_index t i stored, held, f))).1
        (ticket_of_Has s.removed t i m)

  pub conserved : IsConserved s
  conserved = record {
    stored_once = sound.stored_once;
    removed_once = sound.removed_once;
    removed_stored = sound.removed_stored;
    kept = λ t i m. elim (sound.kept t i m) [
      | inl h ↦ inl (removed_index t i m h)
      | inr f ↦ inr (waits t i m (f.0) (f.1))
    ];
    apart = never_both;
  }

-- On a new ring that was made with the indices `q`, however the accesses of any number of threads
-- follow one another, whichever exchanges fail spuriously, and while fewer than 2 ^ 61 tickets can
-- have been taken: the run ends, and no index is lost, made up or returned twice. No ticket is
-- stored or removed twice, every index that `dequeue` returned had been stored with its ticket, and
-- every index that was stored has been returned with its ticket or waits in the slot of the ticket,
-- never both.
pub exactly_once :
    (r : ScqRing) (q : List ℕ) (count : ℕ) (actions : List Action)
    → Holds r q
    → r.head ≡ 0
    → r.tail + length actions < 2 ^ 61
    → (s' : SharedRing) × (play (opened r q count) actions ≡ done s') × IsConserved s'
unfolding opened share
exactly_once r q count actions h first few =
    let (s', plays, order, k, head, tail) =
      play_kept (opened r q count) actions (opened-IsSized r q h first count)
        (opened-IsOrdered r q h first count) (opened-IsConsistent r q h first count)
        (omega (arith, first)) few in
    (s', plays, conserved s' (omega (arith, order, h.order_small)) k.sound tail)

-- In such a run that leaves no thread with a ticket of `head`: every index that was stored with a
-- ticket that `head` has passed was returned by `dequeue` with that ticket.
pub nothing_lost :
    (r : ScqRing) (q : List ℕ) (count : ℕ) (actions : List Action) (s' : SharedRing)
    → Holds r q
    → r.head ≡ 0
    → r.tail + length actions < 2 ^ 61
    → play (opened r q count) actions ≡ done s'
    → Every (λ p. deq p ≡ none) s'.places
    → (t i : ℕ) → Has t i s'.stored
    → t < s'.ring.head
    → Has t i s'.removed
unfolding opened share
nothing_lost r q count actions s' h first few ends idle t i stored behind =
    let (s2, plays, order, k, head, tail) =
      play_kept (opened r q count) actions (opened-IsSized r q h first count)
        (opened-IsOrdered r q h first count) (opened-IsConsistent r q h first count)
        (omega (arith, first)) few in
    let same : s2 ≡ s' = (let both : done s2 ≡ done s' = sym plays ∙ ends in cc) in
    let k' : IsConsistent s' = subst IsConsistent same k in
    let small : s'.ring.order ≤ 59 =
      omega (arith, ap (λ (x : SharedRing). x.ring.order) same, order, h.order_small) in
    let young : s'.ring.tail < 2 ^ 61 =
      omega (arith, ap (λ (x : SharedRing). x.ring.tail) same, tail) in
    let was_removed : HasTicket t s'.removed = elim (k'.sound.kept t i stored) [
      | inl done_already ↦ done_already
      | inr f ↦ elim (k'.gone t behind) [
        | inl (j, p, here, has) ↦ absurd (let no : none ≡ some t = sym (idle j p here) ∙ has in cc)
        | inr (inl out) ↦ absurd (f.2 out)
        | inr (inr out) ↦ out
      ]
    ] in
    removed_index s' small k'.sound young t i stored was_removed

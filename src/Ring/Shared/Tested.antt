-- ===== src/Ring/Shared/Tested.antt =====
-- What `enqueue` knows after its test of an entry, and `dequeue` after its look at one.
use lfqueue.Base.{ℕ, suc, ◌+◌, ◌-◌, ◌%◌, ◌^◌, ◌≤◌, ◌<◌, ◌≡◌, ◌≢◌, refl, arith, ap, sym, ◌∙◌, subst}
use lfqueue.Base.{
  Bool, true, false, ==_iff, ◌==◌, if◌then◌else◌, get_elem?_total, done, bit_xor, ◌⊎◌, inl, inr,
}
use lfqueue.Word.{shift_left}
use lfqueue.Lfring.{lfring_map, modup, lfring_signed_cmp, is_lt}
use lfqueue.Lfring.Laws.{lfring_map_lem}
use lfqueue.Ring.{ScqRing, load, look, Look, take, leave, wait, swap}
use lfqueue.Ring.Holds.{slots, sizes}
use lfqueue.Ring.Entry.{cycle_word, ticket_cycle}
use lfqueue.Ring.Shared.{
  Place, claim_tail, check_head, probe_entry, take_entry, swap_entry, load_tail, n_enqueue,
  n_dequeue, test_entry, after_test, after_probe,
}
use lfqueue.Ring.Shared.Steps.{IsSized, n_enqueue_lem, n_dequeue_lem, load_lem}
use lfqueue.Ring.Shared.Fields.{age, idx, safe, age_of, IsWord, empty_safe, empty_unsafe}
use lfqueue.Ring.Shared.Looks.{Looked, Swapped, looked}
use lfqueue.Ring.Shared.Older.{older, not_older}
use lfqueue.Ring.Shared.View.{View, slot, at, Unpassed, age_later}
use lfqueue.Ring.Shared.Sound.{IsSound}

module _ (r : ScqRing) (z : IsSized r) where
  abbrev n : ℕ
  n = slots r

  few : suc r.order ≤ 60
  few = omega (arith, z.small)

  pub loads_slot : (t m : ℕ) → m ≡ n → load r.array (lfring_map t m) ≡ done (slot r.array (t % n))
  loads_slot t m e =
      let here : lfring_map t m ≡ t % n =
        rw e (lfring_map_lem (suc r.order) t (omega (arith, z.small))) in
      let positive : 0 < n = omega (arith, sizes r.order z.small) in
      let (entry, found) = get_elem?_total r.array (t % n) (omega (arith, z.size)) in
      let same : slot r.array (t % n) ≡ entry = rw (slot, found) refl in
      rw here (load_lem r.array (t % n) entry found ∙ ap done (sym same))

  cycle : (t m : ℕ) → t < 2 ^ 61 → m ≡ n → modup (shift_left t 1) m ≡ cycle_word n t
  cycle t m young e = rw e (ticket_cycle (suc r.order) (omega (arith, z.small)) t (omega arith))

  -- The entry is free for the ticket.
  pub tested :
      (eidx t e : ℕ) (P : Place → Type 0)
      → t < 2 ^ 61
      → IsWord e
      → (age n e < age_of n t → idx n e ≡ n - 1 → safe n e ≡ 1 → P (after_test r eidx t e))
      → (age n e < age_of n t → idx n e ≡ n - 1 → P (check_head eidx t e))
      → P (claim_tail eidx)
      → P (test_entry r eidx t e)
  unfolding test_entry
  tested eidx t e P young w after check claim =
      let m = n_enqueue r in
      by_tests (is_lt (lfring_signed_cmp (modup e m) (modup (shift_left t 1) m))) (e == modup e m)
        (e == bit_xor (modup e m) m) refl refl refl
    where
      same : n_enqueue r ≡ n
      same = n_enqueue_lem r z.small

      before :
          is_lt (lfring_signed_cmp (modup e (n_enqueue r)) (modup (shift_left t 1) (n_enqueue r)))
            ≡ true
          → age n e < age_of n t
      before h = older (suc r.order) few e t w young (
          sym (ap (λ c. is_lt (lfring_signed_cmp (modup e n) c)) (cycle t n young refl))
          ∙ ap (λ m. is_lt (lfring_signed_cmp (modup e m) (modup (shift_left t 1) m))) (sym same)
          ∙ h)

      by_tests :
          (a b c : Bool)
          → is_lt (lfring_signed_cmp (modup e (n_enqueue r)) (modup (shift_left t 1) (n_enqueue r)))
            ≡ a
          → (e == modup e (n_enqueue r)) ≡ b
          → (e == bit_xor (modup e (n_enqueue r)) (n_enqueue r)) ≡ c
          → P (
              if a
              then if b
                then after_test r eidx t e
                else if c
                then check_head eidx t e
                else claim_tail eidx
              else claim_tail eidx)
      by_tests true true c ha hb hc =
          let f = empty_safe (suc r.order) few e ((==_iff _ _).0 hb ∙ ap (modup e) same) in
          after (before ha) (f.0) (f.1)
      by_tests true false true ha hb hc =
          let f =
            empty_unsafe (suc r.order) few e
              ((==_iff _ _).0 hc ∙ ap (λ m. bit_xor (modup e m) m) same) in
          check (before ha) (f.0)
      by_tests true false false ha hb hc = claim
      by_tests false b c ha hb hc = claim

  -- What the look at the entry leads to.
  pub probed :
      (t attempt e : ℕ) (P : Place → Type 0)
      → t < 2 ^ 61
      → IsWord e
      → (age n e ≡ age_of n t → P (take_entry t e))
      → (age n e ≢ age_of n t
          → (age_of n t ≤ age n e) ⊎ ((idx n e ≢ n - 1) × (safe n e ≡ 0))
          → P (load_tail t))
      → ((k : ℕ) → P (probe_entry t k))
      → ((k new : ℕ)
          → IsWord new
          → age n e < age_of n t
          → Swapped n t e new
          → P (swap_entry t k e new))
      → P (after_probe r t attempt e)
  unfolding after_probe
  probed t attempt e P young w taken left waits swaps =
      let m = n_dequeue r in
      by_look (look m (modup (shift_left t 1) m) attempt e)
        (is_lt (lfring_signed_cmp (modup e m) (modup (shift_left t 1) m))) known refl
    where
      same : n_dequeue r ≡ n
      same = n_dequeue_lem r z.small

      known : Looked n t e (look (n_dequeue r) (modup (shift_left t 1) (n_dequeue r)) attempt e)
      known =
          subst (λ m. Looked n t e (look m (modup (shift_left t 1) m) attempt e)) (sym same)
            (subst (λ c. Looked n t e (look n c attempt e)) (sym (cycle t n young refl))
              (looked (suc r.order) few e t w young attempt))

      by_test :
          (b : Bool)
          → is_lt (lfring_signed_cmp (modup e (n_dequeue r)) (modup (shift_left t 1) (n_dequeue r)))
            ≡ b
          → is_lt (lfring_signed_cmp (modup e n) (cycle_word n t)) ≡ b
      by_test b h =
          sym (ap (λ c. is_lt (lfring_signed_cmp (modup e n) c)) (cycle t n young refl))
          ∙ ap (λ m. is_lt (lfring_signed_cmp (modup e m) (modup (shift_left t 1) m))) (sym same)
          ∙ h

      by_look :
          (l : Look) (b : Bool)
          → Looked n t e l
          → is_lt (lfring_signed_cmp (modup e (n_dequeue r)) (modup (shift_left t 1) (n_dequeue r)))
            ≡ b
          → P (elim l [
            | take ↦ take_entry t e
            | leave ↦ load_tail t
            | wait ↦ probe_entry t (attempt + 1)
            | swap entry_new attempts ↦ if b then swap_entry t attempts e entry_new else load_tail t
          ])
      by_look take b k h = taken k
      by_look leave b k h = left (k.0) (inr (k.1, k.2))
      by_look wait b k h = waits (attempt + 1)
      by_look (swap new a) true k h =
          swaps a new (k.1) (older (suc r.order) few e t w young (by_test true h)) (k.2)
      by_look (swap new a) false k h =
          left (k.0) (inl (not_older (suc r.order) few e t w young (by_test false h)))

module _ (n : ℕ) (v : View) (s : IsSound n v) (pos : 0 < n) (t e : ℕ) where
  -- A safe entry was not passed for a ticket of its own age or a later one.
  pub Unpassed-safe : at n v t ≡ e → safe n e ≡ 1 → age n e < age_of n t → Unpassed n v t e
  Unpassed-safe here one lt u i m le = elim (s.behind u i) [
    | inl b ↦ omega (arith, age_later n t u pos le, ap (λ j. age n (slot v.array j)) m)
    | inr zero_bit ↦ absurd (omega (arith, ap (safe n) here, ap (λ j. safe n (slot v.array j)) m))
  ]

  -- A ticket that `head` has not reached was not passed.
  pub Unpassed-ahead : v.head ≤ t → Unpassed n v t e
  Unpassed-ahead ahead u i m le = absurd (omega (arith, s.passed_below u i))

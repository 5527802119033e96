-- ===== src/Ring/Holds.antt =====
-- The ring as a queue: what it means that a ring holds a list of indices, oldest first.
use native.Mathlib.Nat.{pow-succ', one-le-pow, div-add-mod'}
use lfqueue.Base.{ℕ, suc, ◌+◌, ◌*◌, ◌/◌, ◌%◌, ◌^◌, ◌≤◌, ◌<◌, ◌≡◌, ◌≢◌, arith}
use lfqueue.Base.{
  false, List, Option, some, length, get_elem?, set, dec_lt, sym, get_elem?-set_self,
  get_elem?-set_ne,
}
use lfqueue.Word.{word_mod, sign_bit}
use lfqueue.Lfring.Laws.{pow-le_60}
use lfqueue.Ring.{ScqRing, Cpu, finalized}
use lfqueue.Ring.Entry.{live, IsFree}

-- The number of slots, twice the capacity.
abbrev pub slots : ScqRing → ℕ
slots r = 2 ^ suc r.order

-- The word at the slot of a ticket.
abbrev pub at : ScqRing → ℕ → Option ℕ
at r t = get_elem? r.array (t % slots r)

-- The slot of the ticket `t` is free for it.
pub record IsFreeAt (r : ScqRing) (t : ℕ) : Type 0 where
  pub entry : ℕ
  pub here : at r t ≡ some entry
  pub word : entry < word_mod
  pub free : IsFree (slots r) t entry

-- The ring holds the indices `q`: its tickets from `head` on carry them, and the slots of the other
-- tickets of this round are free. Once the ring is finalized one more ticket may have been taken.
pub record Holds (r : ScqRing) (q : List ℕ) : Type 0 where
  pub order_small : r.order ≤ 59
  pub size : length r.array ≡ slots r
  pub room : length q ≤ 2 ^ r.order
  pub ends : r.head + length q ≤ r.tail
  pub hole : r.tail ≤ r.head + length q + 1
  pub tight : finalized r ≡ false → r.tail ≡ r.head + length q
  pub held :
      (j i : ℕ)
      → get_elem? q j ≡ some i
      → (i < 2 ^ r.order) × (at r (r.head + j) ≡ some (live (slots r) (r.head + j) i))
  pub rest : (t : ℕ) → r.head + length q ≤ t → t < r.head + slots r → IsFreeAt r t
  pub armed : 0 < length q → r.threshold < sign_bit
  pub threshold_word : r.threshold < word_mod

-- Every ticket that was taken carries one of the `held` indices or has been dequeued.
abbrev pub IsTight : ScqRing → ℕ → Type 0
IsTight r held = r.tail ≡ r.head + held

-- Fewer than 2 ^ 61 tickets have been taken, so that neither counter has wrapped.
abbrev pub IsYoung : ScqRing → Type 0
IsYoung r = r.tail < 2 ^ 61

-- The exchanges of the last 16 rounds of a loop do not fail spuriously.
pub record IsFair (c : Cpu) : Type 0 where
  pub enough : 16 ≤ c.fuel
  pub calm : (k : ℕ) → k < 16 → c.fails k ≡ false

times_mono : (x y m : ℕ) → x ≤ y → x * m ≤ y * m
times_mono x y m h = grind arith

pub times_suc : (x m : ℕ) → (x + 1) * m ≡ x * m + m
times_suc x m = omega arith

-- Two tickets of one round have different slots.
pub slot-ne : (n a b : ℕ) → a < b → b < a + n → a % n ≢ b % n
slot-ne n a b lt near e = elim (dec_lt (a / n) (b / n)) [
  | yes later ↦ omega (
    arith,
    div-add-mod' a n,
    div-add-mod' b n,
    times_mono (a / n + 1) (b / n) n (omega arith),
    times_suc (a / n) n,
  )
  | no same ↦
      omega (arith, div-add-mod' a n, div-add-mod' b n, times_mono (b / n) (a / n) n (omega arith))
]

pub slot-next : (n t : ℕ) → 0 < n → (t + n) % n ≡ t % n
slot-next n t pos = grind arith

pub round-next : (n t : ℕ) → 0 < n → (t + n) / n ≡ t / n + 1
round-next n t pos = grind arith

-- The sizes of a ring of a small order.
pub record Sizes (order : ℕ) : Type 0 where
  pub half_pos : 0 < 2 ^ order
  pub double : 2 ^ suc order ≡ 2 * 2 ^ order
  pub bound : 2 ^ suc order ≤ 2 ^ 60

pub sizes : (order : ℕ) → order ≤ 59 → Sizes order
sizes order h =
    omega (arith, one-le-pow order 2, pow-succ' 2 order, pow-le_60 (suc order) (omega arith))

-- A write at the slot of the ticket `s` is read there, and at no other slot of the round.
module _ (a : List ℕ) (n s v : ℕ) (pos : 0 < n) (size : length a ≡ n) where
  pub at-set_self : get_elem? (set a (s % n) v) (s % n) ≡ some v
  at-set_self = get_elem?-set_self a (s % n) v (omega arith)

  pub at-set_before :
      (t : ℕ) → t < s → s < t + n → get_elem? (set a (s % n) v) (t % n) ≡ get_elem? a (t % n)
  at-set_before t lt near =
      get_elem?-set_ne a (s % n) (t % n) v (λ e. slot-ne n t s lt near (sym e))

  pub at-set_after :
      (t : ℕ) → s < t → t < s + n → get_elem? (set a (s % n) v) (t % n) ≡ get_elem? a (t % n)
  at-set_after t lt near = get_elem?-set_ne a (s % n) (t % n) v (slot-ne n s t lt near)

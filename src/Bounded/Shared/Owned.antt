-- ===== src/Bounded/Shared/Owned.antt =====
-- Which index a thread has to itself, and what holds of a queue and of all the threads on it.
use lfqueue.Base.{
  ℕ, zero, suc, ◌+◌, ◌-◌, ◌^◌, ◌≤◌, ◌<◌, ◌≡◌, refl, arith, ap, sym, subst, bit_xor, ltb,
  if◌then◌else◌,
}
use lfqueue.Base.{false, Option, none, some, List, [], ◌∷◌, length, get_elem?, set, ◌⊎◌, inl, inr}
use lfqueue.Ring.{finalized}
use lfqueue.Ring.Shared.{Place, outside}
use lfqueue.Bounded.{BoundedQueue}
use lfqueue.Bounded.Shared.{
  Spot, resting, counting, uncounting, taking, writing, entering, giving_up, taking_back,
  finalizing, removing, uncounted, reading, freeing, ended,
}
use lfqueue.Bounded.Shared.Rings.{Log, IsWell, IsLow}
use lfqueue.Bounded.Shared.Shapes.{carried, IsEnqueue, IsDequeue}
use lfqueue.Bounded.Shared.Counts.{ind, count, count-le, total, total-set, filled}

-- The index `pos`, as long as the call of `enqueue` has not stored it.
abbrev pub carrying : Option ℕ → ℕ → ℕ → ℕ
carrying none pos i = 0
carrying (some e) pos i = ind pos i

abbrev pub quota : ℕ → ℕ → ℕ
quota capacity i = if ltb i capacity then 1 else 0

module _ {ℓ} {A : Type ℓ} where
  -- The place of a thread in the calls of one of the rings.
  abbrev pub free_place : Spot A → Place
  free_place (taking item size p) = p
  free_place (freeing result pos p) = p
  free_place spot = outside

  abbrev pub alloc_place : Spot A → Place
  alloc_place (entering size pos p) = p
  alloc_place (removing p) = p
  alloc_place spot = outside

  -- Does the thread have the index `i` to itself?
  abbrev pub owns : ℕ → Spot A → ℕ
  owns i (writing item size pos) = ind pos i
  owns i (entering size pos p) = carrying (carried p) pos i
  owns i (giving_up pos) = ind pos i
  owns i (taking_back pos) = ind pos i
  owns i (uncounted pos) = ind pos i
  owns i (reading pos) = ind pos i
  owns i (freeing result pos p) = carrying (carried p) pos i
  owns i spot = 0

  -- And is there a value in its slot?
  abbrev pub holds : ℕ → Spot A → ℕ
  holds i (entering size pos p) = carrying (carried p) pos i
  holds i (giving_up pos) = ind pos i
  holds i (taking_back pos) = ind pos i
  holds i (uncounted pos) = ind pos i
  holds i (reading pos) = ind pos i
  holds i spot = 0

  pub holds-le : (i : ℕ) (spot : Spot A) → holds i spot ≤ owns i spot
  holds-le i resting = omega arith
  holds-le i (counting item) = omega arith
  holds-le i (uncounting item) = omega arith
  holds-le i (taking item size p) = omega arith
  holds-le i (writing item size pos) = omega arith
  holds-le i (entering size pos p) = omega arith
  holds-le i (giving_up pos) = omega arith
  holds-le i (taking_back pos) = omega arith
  holds-le i finalizing = omega arith
  holds-le i (removing p) = omega arith
  holds-le i (uncounted pos) = omega arith
  holds-le i (reading pos) = omega arith
  holds-le i (freeing result pos p) = omega arith
  holds-le i (ended result) = omega arith

  -- The places are in the calls that the spot says, and carry its index.
  abbrev pub IsLinked : ℕ → Spot A → Type 0
  IsLinked n (taking item size p) = IsDequeue p
  IsLinked n (removing p) = IsDequeue p
  IsLinked n (entering size pos p) =
      IsEnqueue p × ((e : ℕ) → carried p ≡ some e → e ≡ bit_xor pos (n - 1))
  IsLinked n (freeing result pos p) =
      IsEnqueue p × ((e : ℕ) → carried p ≡ some e → e ≡ bit_xor pos (n - 1))
  IsLinked n spot = Unit

  abbrev pub places : (Spot A → Place) → List (Spot A) → List Place
  places f [] = []
  places f (x ∷ xs) = f x ∷ places f xs

  pub places-set :
      (f : Spot A → Place) (xs : List (Spot A)) (i : ℕ) (x : Spot A)
      → places f (set xs i x) ≡ set (places f xs) i (f x)
  places-set f [] i x = refl
  places-set f (y ∷ xs) zero x = refl
  places-set f (y ∷ xs) (suc i) x = ap (λ (l : List Place). f y ∷ l) (places-set f xs i x)

  pub get_elem?-places :
      (f : Spot A → Place) (xs : List (Spot A)) (i : ℕ) (x : Spot A)
      → get_elem? xs i ≡ some x
      → get_elem? (places f xs) i ≡ some (f x)
  get_elem?-places f [] i x h = absurd (cc)
  get_elem?-places f (y ∷ xs) zero x h = let same : y ≡ x = cc in ap (λ z. some (f z)) same
  get_elem?-places f (y ∷ xs) (suc i) x h = get_elem?-places f xs i x h

  -- The gap between two sums is at least that of one member.
  pub total-gap :
      (f g : Spot A → ℕ) (xs : List (Spot A)) (i : ℕ) (x : Spot A)
      → ((y : Spot A) → f y ≤ g y)
      → get_elem? xs i ≡ some x
      → total f xs + g x ≤ total g xs + f x
  unfolding total
  total-gap f g [] i x le h = absurd (cc)
  total-gap f g (y ∷ xs) zero x le h =
      let same : y ≡ x = cc in omega (arith, ap f same, ap g same, total_mono xs)
    where
      total_mono : (xs : List (Spot A)) → total f xs ≤ total g xs
      total_mono [] = omega arith
      total_mono (z ∷ zs) = omega (arith, le z, total_mono zs)
  total-gap f g (y ∷ xs) (suc i) x le h = omega (arith, le y, total-gap f g xs i x le h)

  -- What holds of the queue: both rings are well, nobody finalizes the ring of the free indices, and
  -- each index below the capacity is in exactly one of the rings or one thread has it. The slot of
  -- an index has a value where the index is in `alloc_queue`, and where the thread says so.
  pub record IsSafe (order bound : ℕ) (b : BoundedQueue A) (spots : List (Spot A)) (fl al : Log)
      : Type ℓ where
    pub free : IsWell order b.free_queue fl (places free_place spots)
    pub alloc : IsWell order b.alloc_queue al (places alloc_place spots)
    pub low_free : IsLow bound b.free_queue
    pub low_alloc : IsLow bound b.alloc_queue
    pub unfinalized : finalized b.free_queue ≡ false
    pub room : 2 ^ order ≤ length b.backing
    pub linked : (i : ℕ) (x : Spot A) → get_elem? spots i ≡ some x → IsLinked (2 ^ suc order) x
    pub once :
        (i : ℕ)
        → count i fl.stored + count i al.stored + total (owns i) spots
          ≡ count i fl.removed + count i al.removed + quota (2 ^ order) i
    pub full :
        (i : ℕ)
        → filled b.backing i + count i al.removed ≡ count i al.stored + total (holds i) spots

  -- A place of a list after one of them was set.
  set_spot :
      (xs : List (Spot A)) (i j : ℕ) (x y : Spot A)
      → get_elem? (set xs i x) j ≡ some y
      → (x ≡ y) ⊎ (get_elem? xs j ≡ some y)
  set_spot [] i j x y h = inr h
  set_spot (z ∷ xs) zero zero x y h = inl (cc)
  set_spot (z ∷ xs) zero (suc j) x y h = inr h
  set_spot (z ∷ xs) (suc i) zero x y h = inr h
  set_spot (z ∷ xs) (suc i) (suc j) x y h = set_spot xs i j x y h

  -- What the access of one thread has to keep.
  pub keeps :
      {order bound : ℕ} {b : BoundedQueue A} {spots : List (Spot A)} {fl al : Log}
      (s : IsSafe order bound b spots fl al) (i : ℕ) (spot next : Spot A) (b' : BoundedQueue A)
      (fl' al' : Log)
      → get_elem? spots i ≡ some spot
      → IsWell order b'.free_queue fl' (set (places free_place spots) i (free_place next))
      → IsWell order b'.alloc_queue al' (set (places alloc_place spots) i (alloc_place next))
      → IsLow (bound + 1) b'.free_queue
      → IsLow (bound + 1) b'.alloc_queue
      → finalized b'.free_queue ≡ false
      → length b'.backing ≡ length b.backing
      → IsLinked (2 ^ suc order) next
      → ((j : ℕ)
          → count j fl'.stored
              + count j al'.stored
              + owns j next
              + (count j fl.removed + count j al.removed)
            ≡ count j fl.stored
              + count j al.stored
              + owns j spot
              + (count j fl'.removed + count j al'.removed))
      → ((j : ℕ)
          → filled b'.backing j + count j al'.removed + (count j al.stored + holds j spot)
            ≡ filled b.backing j + count j al.removed + (count j al'.stored + holds j next))
      → IsSafe order (bound + 1) b' (set spots i next) fl' al'
  keeps {order} {bound} {b} {spots} {fl} {al} s i spot next b' fl' al' here f a lf la u size link c1
        c2 =
      record {
        free = subst (IsWell order b'.free_queue fl') (sym (places-set free_place spots i next)) f;
        alloc =
            subst (IsWell order b'.alloc_queue al') (sym (places-set alloc_place spots i next)) a;
        low_free = lf;
        low_alloc = la;
        unfinalized = u;
        room = omega (arith, s.room, size);
        linked = λ j x h. elim (set_spot spots i j next x h) [
          | inl same ↦ subst (IsLinked (2 ^ suc order)) same link
          | inr old ↦ s.linked j x old
        ];
        once = λ j. omega (arith, s.once j, c1 j, total-set (owns j) spots i spot next here);
        full = λ j. omega (arith, s.full j, c2 j, total-set (holds j) spots i spot next here);
      }

  -- The index that a thread has is below the capacity, in no ring, and no other thread has it.
  pub owned :
      {order bound : ℕ} {b : BoundedQueue A} {spots : List (Spot A)} {fl al : Log}
      (s : IsSafe order bound b spots fl al) (i : ℕ) (spot : Spot A) (pos : ℕ)
      → get_elem? spots i ≡ some spot
      → owns pos spot ≡ 1
      → (pos < 2 ^ order) × (filled b.backing pos ≡ holds pos spot)
  owned {order} {bound} {b} {spots} {fl} {al} s i spot pos here one =
      let f =
        count-le fl.removed fl.stored s.free.kept.sound.removed_once
          s.free.kept.sound.removed_stored pos in
      let a =
        count-le al.removed al.stored s.alloc.kept.sound.removed_once
          s.alloc.kept.sound.removed_stored pos in
      let gap = total-gap (holds pos) (owns pos) spots i spot (holds-le pos) here in
      let at_least = total-set (holds pos) spots i spot resting here in
      let mine = total-set (owns pos) spots i spot resting here in
      let has : 1 ≤ quota (2 ^ order) pos = omega (arith, s.once pos, f, a, mine, one) in
      let below : pos < 2 ^ order = ground (arith, has) in
      let only : quota (2 ^ order) pos ≤ 1 = ground arith in
      (below, omega (arith, s.once pos, s.full pos, f, a, mine, one, only, gap, at_least))

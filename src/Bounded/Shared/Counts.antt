-- ===== src/Bounded/Shared/Counts.antt =====
-- How often an index stands in a log, how many threads have it, and whether its slot has a value.
use lfqueue.Base.{
  ℕ, zero, suc, ◌+◌, ◌≤◌, ◌<◌, ◌≡◌, ◌≢◌, refl, arith, ap, sym, ◌∙◌, subst, ◌==◌, if◌then◌else◌,
  ℕ_discrete, eq→==, ne→==,
}
use lfqueue.Base.{
  Option, none, some, List, [], ◌∷◌, length, get_elem?, set, get_elem?-set_self, get_elem?-set_ne,
  inl, inr,
}
use lfqueue.Ring.Shared.View.{Has, HasTicket, ticket_of_Has, IsOnce}

abbrev pub ind : ℕ → ℕ → ℕ
ind x i = if x == i then 1 else 0

pub ind_self : (x : ℕ) → ind x x ≡ 1
ind_self x = rw (eq→== x x refl) refl

pub ind-le : (x i : ℕ) → ind x i ≤ 1
ind-le x i = ground arith

unfoldable pub count : ℕ → List (ℕ × ℕ) → ℕ
count i [] = 0
count i (p ∷ l) = ind (p.1) i + count i l

-- To take one entry out of a log.
split_off :
    (l : List (ℕ × ℕ)) (t x : ℕ)
    → Has t x l
    → (rest : List (ℕ × ℕ)) × ((i : ℕ) → count i l ≡ ind x i + count i rest)
      × ((u j : ℕ) → u ≢ t → Has u j l → Has u j rest)
unfolding count
split_off [] t x h = absurd h
split_off (p ∷ l) t x (inl e) = (
  l,
  (λ i. ap (λ y. ind y i + count i l) (sym (e.1))),
  λ u j ne h. elim h [ inl f ↦ absurd (ne (f.0 ∙ sym (e.0))) | inr g ↦ g ],
)
split_off (p ∷ l) t x (inr h) =
    let (rest, counts, others) = split_off l t x h in
    (
      p ∷ rest,
      (λ i. omega (arith, counts i)),
      λ u j ne g. elim g [ inl f ↦ inl f | inr k ↦ inr (others u j ne k) ],
    )

-- What was removed once each after it was stored was stored at least as often.
pub count-le :
    (removed stored : List (ℕ × ℕ))
    → IsOnce removed
    → ((t i : ℕ) → Has t i removed → Has t i stored)
    → (i : ℕ) → count i removed ≤ count i stored
unfolding count
count-le [] stored o sub i = omega arith
count-le (p ∷ removed) stored o sub i =
    let (rest, counts, others) =
      split_off stored (p.0) (p.1) (sub (p.0) (p.1) (inl (refl, refl))) in
    let below =
      count-le removed rest (o.1)
        (λ t j h.
          others t j
            (λ same. o.0 (subst (λ y. HasTicket y removed) same (ticket_of_Has removed t j h)))
            (sub t j (inr h)))
        i in
    omega (arith, counts i, below)

module _ {ℓ} {A : Type ℓ} where
  -- The sum over a list.
  unfoldable pub total : (A → ℕ) → List A → ℕ
  total f [] = 0
  total f (x ∷ xs) = f x + total f xs

  pub total-set :
      (f : A → ℕ) (xs : List A) (i : ℕ) (x y : A)
      → get_elem? xs i ≡ some x
      → total f (set xs i y) + f x ≡ total f xs + f y
  unfolding total
  total-set f [] i x y h = absurd (cc)
  total-set f (z ∷ xs) zero x y h = let same : z ≡ x = cc in omega (arith, ap f same)
  total-set f (z ∷ xs) (suc i) x y h = omega (arith, total-set f xs i x y h)

  pub total-le :
      (f : A → ℕ) (xs : List A) (i : ℕ) (x : A) → get_elem? xs i ≡ some x → f x ≤ total f xs
  unfolding total
  total-le f [] i x h = absurd (cc)
  total-le f (z ∷ xs) zero x h = let same : z ≡ x = cc in omega (arith, ap f same)
  total-le f (z ∷ xs) (suc i) x h = omega (arith, total-le f xs i x h)

  -- Is there a value in the slot?
  abbrev filled_slot : Option (Option A) → ℕ
  filled_slot none = 0
  filled_slot (some none) = 0
  filled_slot (some (some v)) = 1

  unfoldable pub filled : List (Option A) → ℕ → ℕ
  filled backing i = filled_slot (get_elem? backing i)

  pub filled_value :
      (backing : List (Option A)) (i : ℕ)
      → 1 ≤ filled backing i
      → (v : A) × (get_elem? backing i ≡ some (some v))
  unfolding filled
  filled_value backing i h = by_slot (get_elem? backing i) h
    where
      by_slot : (o : Option (Option A)) → 1 ≤ filled_slot o → (v : A) × (o ≡ some (some v))
      by_slot none h = absurd (omega arith)
      by_slot (some none) h = absurd (omega arith)
      by_slot (some (some v)) h = (v, refl)

  pub filled-write :
      (backing : List (Option A)) (pos : ℕ) (v : A)
      → pos < length backing
      → filled backing pos ≡ 0
      → (i : ℕ) → filled (set backing pos (some v)) i ≡ ind pos i + filled backing i
  unfolding filled
  filled-write backing pos v inside free i = elim (ℕ_discrete pos i) [
    | yes same ↦
        ap (λ j. filled_slot (get_elem? (set backing pos (some v)) j)) (sym same)
        ∙ ap filled_slot (get_elem?-set_self backing pos (some v) inside)
        ∙ omega (
          arith,
          ap (ind pos) same,
          ind_self pos,
          free,
          ap (λ j. filled_slot (get_elem? backing j)) same,
        )
    | no ne ↦
        ap filled_slot (get_elem?-set_ne backing pos i (some v) ne)
        ∙ (let zero_ind : ind pos i ≡ 0 = rw (ne→== pos i ne) refl in omega arith)
  ]

  pub filled-read :
      (backing : List (Option A)) (pos : ℕ) (v : A)
      → pos < length backing
      → get_elem? backing pos ≡ some (some v)
      → (i : ℕ) → filled (set backing pos none) i + ind pos i ≡ filled backing i
  unfolding filled
  filled-read backing pos v inside here i = elim (ℕ_discrete pos i) [
    | yes same ↦
        let before : filled_slot (get_elem? backing i) ≡ 1 =
          ap (λ j. filled_slot (get_elem? backing j)) (sym same) ∙ ap filled_slot here in
        let after : filled_slot (get_elem? (set backing pos none) i) ≡ 0 =
          ap (λ j. filled_slot (get_elem? (set backing pos none) j)) (sym same)
          ∙ ap filled_slot (get_elem?-set_self backing pos none inside) in
        omega (arith, before, after, ap (ind pos) same, ind_self pos)
    | no ne ↦
        let zero_ind : ind pos i ≡ 0 = rw (ne→== pos i ne) refl in
        let kept : filled_slot (get_elem? (set backing pos none) i)
            ≡ filled_slot (get_elem? backing i) =
          ap filled_slot (get_elem?-set_ne backing pos i none ne) in
        omega (arith, kept, zero_ind)
  ]

-- ===== src/Ring/Equal.antt =====
-- `eq` of rings.
use lfqueue.Base.{ℕ, ◌≤◌, ◌≡◌, ◌↔◌, refl, arith, ap, ap₂, ◌==◌, ==_iff, eq→==}
use lfqueue.Base.{Bool, true, false, ◌&&◌, List, [], ◌∷◌, length}
use lfqueue.Ring.{ScqRing, eq, same_words, same_flags, first_differs}

and_iff : (a b : Bool) → (a && b ≡ true) ↔ ((a ≡ true) × (b ≡ true))
and_iff true b = (λ e. (refl, e), λ h. h.1)
and_iff false b = (λ e. absurd (cc), λ h. absurd (cc))

and_six :
    (a b c d e f : Bool)
    → (a && b && c && d && e && f ≡ true)
    → (a ≡ true) × (b ≡ true) × (c ≡ true) × (d ≡ true) × (e ≡ true) × (f ≡ true)
and_six a b c d e f h =
    let (h1, pf) = (and_iff (a && b && c && d && e) f).0 h in
    let (h2, pe) = (and_iff (a && b && c && d) e).0 h1 in
    let (h3, pd) = (and_iff (a && b && c) d).0 h2 in
    let (h4, pc) = (and_iff (a && b) c).0 h3 in
    let (pa, pb) = (and_iff a b).0 h4 in (pa, pb, pc, pd, pe, pf)

same_words_lem : (xs ys : List ℕ) → length xs ≡ length ys → (same_words xs ys ≡ true) ↔ (xs ≡ ys)
unfolding same_words
same_words_lem [] [] e = (λ h. refl, λ h. refl)
same_words_lem [] (y ∷ ys) e = absurd (omega arith)
same_words_lem (x ∷ xs) [] e = absurd (omega arith)
same_words_lem (x ∷ xs) (y ∷ ys) e =
    let rest = same_words_lem xs ys (omega arith) in
    let both = and_iff (x == y) (same_words xs ys) in
    (
      λ h. let (p, q) = both.0 h in ap₂ (λ a l. a ∷ l) ((==_iff x y).0 p) (rest.0 q),
      λ h. both.1 ((==_iff x y).1 (let s : x ≡ y = cc in s), rest.1 (let s : xs ≡ ys = cc in s)),
    )

same_flags_lem : (xs ys : List Bool) → length xs ≤ 1 → (same_flags xs ys ≡ true) ↔ (xs ≡ ys)
unfolding same_flags first_differs
same_flags_lem [] [] m = (λ h. refl, λ h. refl)
same_flags_lem [] (y ∷ ys) m = (λ h. absurd (ground arith), λ h. absurd (cc))
same_flags_lem (x ∷ xs) [] m = (λ h. absurd (ground arith), λ h. absurd (cc))
same_flags_lem (x ∷ x2 ∷ xs) (y ∷ ys) m = absurd (omega arith)
same_flags_lem (x ∷ []) (y ∷ y2 ∷ ys) m = (λ h. absurd (ground arith), λ h. absurd (cc))
same_flags_lem (true ∷ []) (true ∷ []) m = (λ h. refl, λ h. refl)
same_flags_lem (true ∷ []) (false ∷ []) m = (λ h. absurd (cc), λ h. absurd (cc))
same_flags_lem (false ∷ []) (true ∷ []) m = (λ h. absurd (cc), λ h. absurd (cc))
same_flags_lem (false ∷ []) (false ∷ []) m = (λ h. refl, λ h. refl)

same_fields :
    (a b : ScqRing)
    → a.is_finalized ≡ b.is_finalized
    → a.head ≡ b.head
    → a.tail ≡ b.tail
    → a.threshold ≡ b.threshold
    → a.order ≡ b.order
    → a.array ≡ b.array
    → a ≡ b
same_fields a b f h t s o w = rw (f, h, t, s, o, w) refl

-- `eq` says whether two rings of the same mode, 0 or 1, and with arrays of the same length are
-- equal.
pub eq_lem :
    (a b : ScqRing)
    → length a.is_finalized ≤ 1
    → length a.array ≡ length b.array
    → (eq a b ≡ true) ↔ (a ≡ b)
unfolding eq
eq_lem a b mode size =
    let flags = same_flags_lem a.is_finalized b.is_finalized mode in
    let words = same_words_lem a.array b.array size in
    (
      λ h.
          let (f, p, q, s, o, w) =
            and_six (same_flags a.is_finalized b.is_finalized) (a.head == b.head) (a.tail == b.tail)
              (a.threshold == b.threshold) (a.order == b.order) (same_words a.array b.array) h in
          same_fields a b (flags.0 f) ((==_iff _ _).0 p) ((==_iff _ _).0 q) ((==_iff _ _).0 s)
            ((==_iff _ _).0 o) (words.0 w),
      λ h.
          rw
            (
              flags.1 (ap (λ (r : ScqRing). r.is_finalized) h),
              eq→== _ _ (ap (λ (r : ScqRing). r.head) h),
              eq→== _ _ (ap (λ (r : ScqRing). r.tail) h),
              eq→== _ _ (ap (λ (r : ScqRing). r.threshold) h),
              eq→== _ _ (ap (λ (r : ScqRing). r.order) h),
              words.1 (ap (λ (r : ScqRing). r.array) h),
            )
            refl,
    )

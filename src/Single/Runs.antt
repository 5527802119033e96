-- ===== src/Single/Runs.antt =====
-- The runs of several threads on one queue.
use mathlib.Core.List.{append_assoc}
use lfqueue.Base.{ℕ, zero, suc, ◌+◌, ◌<◌, ◌≡◌, refl, arith, ap, sym, ◌∙◌, Option, none, some}
use lfqueue.Base.{List, [], ◌∷◌, ◌++◌, get_elem?, set, replicate, done}
use lfqueue.Single.{
  SingleSize, Pc, idle, enqueue_load, enqueue_exchange, enqueue_write, enqueue_store,
  enqueue_returned,
}
use lfqueue.Single.{dequeue_load, dequeue_exchange, dequeue_read, dequeue_store, dequeue_returned}
use lfqueue.Single.{
  Threads, Event, call_enqueue, call_dequeue, move, start_call, writes, takes_at, perform, run,
  start, new,
}
use lfqueue.Single.Shared.{
  at_write, at_store, at_read, at_release, tally, held, filled, indicator, Local, advance_lem,
}

module _ {ℓ} {A : Type ℓ} where
  -- The threads but the `i`-th.
  others : (Pc A → ℕ) → List (Pc A) → ℕ → ℕ
  others f [] i = 0
  others f (pc ∷ ts) zero = tally f ts
  others f (pc ∷ ts) (suc i) = f pc + others f ts i

  tally_split :
      (f : Pc A → ℕ) (ts : List (Pc A)) (i : ℕ) (pc : Pc A)
      → get_elem? ts i ≡ some pc
      → tally f ts ≡ others f ts i + f pc
  unfolding others
  tally_split f [] i pc e = absurd (cc)
  tally_split f (t ∷ ts) zero pc e = let same : t ≡ pc = cc in rw same (omega arith)
  tally_split f (t ∷ ts) (suc i) pc e = omega (arith, tally_split f ts i pc e)

  tally-set :
      (f : Pc A → ℕ) (ts : List (Pc A)) (i : ℕ) (pc next : Pc A)
      → get_elem? ts i ≡ some pc
      → tally f (set ts i next) ≡ others f ts i + f next
  unfolding others
  tally-set f [] i pc next e = absurd (cc)
  tally-set f (t ∷ ts) zero pc next e = omega arith
  tally-set f (t ∷ ts) (suc i) pc next e = omega (arith, tally-set f ts i pc next e)

  -- What holds after every run: the counts of threads follow the state, and the values written are
  -- the values taken and then the value held.
  pub record Inv (s : Threads A) : Type ℓ where
    pub bound : s.queue.state < 4
    pub writing : tally at_write s.threads + tally at_store s.threads ≡ indicator s.queue.state 1
    pub reading : tally at_read s.threads + tally at_release s.threads ≡ indicator s.queue.state 3
    pub full :
        filled s.queue.payload
        ≡ tally at_store s.threads + tally at_read s.threads + indicator s.queue.state 2
    pub history : s.written ≡ s.taken ++ held s.queue.payload

  -- To start a call moves no thread to or from the payload.
  start_call_lem :
      (pc call : Pc A)
      → at_write call ≡ 0
      → at_store call ≡ 0
      → at_read call ≡ 0
      → at_release call ≡ 0
      → (at_write (start_call pc call) ≡ at_write pc)
        × (at_store (start_call pc call) ≡ at_store pc)
        × (at_read (start_call pc call) ≡ at_read pc)
        × (at_release (start_call pc call) ≡ at_release pc)
  unfolding start_call
  start_call_lem idle call w s r l = (w, s, r, l)
  start_call_lem (enqueue_returned x) call w s r l = (w, s, r, l)
  start_call_lem (dequeue_returned x) call w s r l = (w, s, r, l)
  start_call_lem (enqueue_load x) call w s r l = (refl, refl, refl, refl)
  start_call_lem (enqueue_exchange x) call w s r l = (refl, refl, refl, refl)
  start_call_lem (enqueue_write x) call w s r l = (refl, refl, refl, refl)
  start_call_lem enqueue_store call w s r l = (refl, refl, refl, refl)
  start_call_lem dequeue_load call w s r l = (refl, refl, refl, refl)
  start_call_lem dequeue_exchange call w s r l = (refl, refl, refl, refl)
  start_call_lem dequeue_read call w s r l = (refl, refl, refl, refl)
  start_call_lem (dequeue_store x) call w s r l = (refl, refl, refl, refl)

  -- The invariant, as the `i`-th thread sees it, and back.
  module _ (ts : List (Pc A)) (i : ℕ) (pc : Pc A) (here : get_elem? ts i ≡ some pc) where
    abbrev Seen : SingleSize A → Pc A → Type 0
    Seen q at =
        Local q at (others at_write ts i) (others at_store ts i) (others at_read ts i)
          (others at_release ts i)

    seen : (s : Threads A) → s.threads ≡ ts → Inv s → Seen s.queue pc
    seen s e v = record {
      bound = v.bound;
      writing = omega (
        arith,
        v.writing,
        tally_split at_write ts i pc here,
        tally_split at_store ts i pc here,
        ap (tally at_write) e,
        ap (tally at_store) e,
      );
      reading = omega (
        arith,
        v.reading,
        tally_split at_read ts i pc here,
        tally_split at_release ts i pc here,
        ap (tally at_read) e,
        ap (tally at_release) e,
      );
      full = omega (
        arith,
        v.full,
        tally_split at_store ts i pc here,
        tally_split at_read ts i pc here,
        ap (tally at_store) e,
        ap (tally at_read) e,
      );
    }

    unseen :
        (next : Pc A) (q : SingleSize A) (written taken : List A)
        → Seen q next
        → written ≡ taken ++ held q.payload
        → Inv (record { queue = q; threads = set ts i next; written = written; taken = taken })
    unseen next q written taken h hist = record {
      bound = h.bound;
      writing = omega (
        arith,
        h.writing,
        tally-set at_write ts i pc next here,
        tally-set at_store ts i pc next here,
      );
      reading = omega (
        arith,
        h.reading,
        tally-set at_read ts i pc next here,
        tally-set at_release ts i pc next here,
      );
      full = omega (
        arith,
        h.full,
        tally-set at_store ts i pc next here,
        tally-set at_read ts i pc next here,
      );
      history = hist;
    }

  -- An event after which the invariant holds.
  Performed : Threads A → Event A → Type ℓ
  Performed s e = (s' : Threads A) × (perform s e ≡ done s') × Inv s'

  Inv-start_call :
      (s : Threads A) (i : ℕ) (pc call : Pc A)
      → get_elem? s.threads i ≡ some pc
      → at_write call ≡ 0
      → at_store call ≡ 0
      → at_read call ≡ 0
      → at_release call ≡ 0
      → Inv s
      → Inv (record s { threads = set s.threads i (start_call pc call) })
  Inv-start_call s i pc call here cw cs cr cl v =
      let (w, st, r, l) = start_call_lem pc call cw cs cr cl in
      let h = seen s.threads i pc here s refl v in
      unseen s.threads i pc here (start_call pc call) s.queue s.written s.taken
        (record {
          bound = h.bound;
          writing = omega (arith, h.writing, w, st);
          reading = omega (arith, h.reading, r, l);
          full = omega (arith, h.full, st, r);
        })
        v.history

  history_step :
      (written taken w t : List A) (p p' : Option A)
      → written ≡ taken ++ held p
      → held p ++ w ≡ t ++ held p'
      → written ++ w ≡ (taken ++ t) ++ held p'
  history_step written taken w t p p' e f = rw (e) (
      append_assoc taken (held p) w
      ∙ ap (λ (l : List A). taken ++ l) f
      ∙ sym (append_assoc taken t (held p')))

  perform_lem : (s : Threads A) (e : Event A) → Inv s → Performed s e
  unfolding Performed perform
  perform_lem s (call_enqueue i x) v = by_thread (get_elem? s.threads i) refl
    where
      by_thread : (o : Option (Pc A)) → get_elem? s.threads i ≡ o → Performed s (call_enqueue i x)
      by_thread none e = (s, rw (perform, e), v)
      by_thread (some pc) e = (
        record s { threads = set s.threads i (start_call pc (enqueue_load x)) },
        rw (perform, e),
        Inv-start_call s i pc (enqueue_load x) e refl refl refl refl v,
      )
  perform_lem s (call_dequeue i) v = by_thread (get_elem? s.threads i) refl
    where
      by_thread : (o : Option (Pc A)) → get_elem? s.threads i ≡ o → Performed s (call_dequeue i)
      by_thread none e = (s, rw (perform, e), v)
      by_thread (some pc) e = (
        record s { threads = set s.threads i (start_call pc dequeue_load) },
        rw (perform, e),
        Inv-start_call s i pc dequeue_load e refl refl refl refl v,
      )
  perform_lem s (move i value) v = by_thread (get_elem? s.threads i) refl
    where
      by_thread : (o : Option (Pc A)) → get_elem? s.threads i ≡ o → Performed s (move i value)
      by_thread none e = (s, rw (perform, e), v)
      by_thread (some pc) e =
          let ts = s.threads in
          let m =
            advance_lem value s.queue.payload s.queue.state pc (others at_write ts i)
              (others at_store ts i) (others at_read ts i) (others at_release ts i)
              (seen ts i pc e s refl v) in
          (
            record {
              queue = m.queue;
              threads = set s.threads i m.next;
              written = s.written ++ writes pc;
              taken = s.taken ++ takes_at pc m.next;
            },
            rw (perform, e, m.steps),
            unseen ts i pc e m.next m.queue _ _ m.local (
                history_step s.written s.taken (writes pc) (takes_at pc m.next) s.queue.payload
                  m.queue.payload v.history m.history),
          )

  pub run_lem :
      (s : Threads A) (es : List (Event A))
      → Inv s
      → (s' : Threads A) × (run s es ≡ done s') × Inv s'
  unfolding run Performed
  run_lem s [] v = (s, refl, v)
  run_lem s (e ∷ es) v =
      let (s1, e1, v1) = perform_lem s e v in
      let (s2, e2, v2) = run_lem s1 es v1 in (s2, rw (e1, e2), v2)

  tally-idle : (f : Pc A → ℕ) (count : ℕ) → f idle ≡ 0 → tally f (replicate count idle) ≡ 0
  tally-idle f zero e = refl
  tally-idle f (suc count) e = omega (arith, tally-idle f count e, e)

  pub Inv-start : (count : ℕ) → Inv (start {A = A} count)
  unfolding start new
  Inv-start count = record {
    bound = omega arith;
    writing = omega (arith, tally-idle at_write count refl, tally-idle at_store count refl);
    reading = omega (arith, tally-idle at_read count refl, tally-idle at_release count refl);
    full = omega (arith, tally-idle at_store count refl, tally-idle at_read count refl);
    history = refl;
  }

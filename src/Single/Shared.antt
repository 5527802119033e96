-- ===== src/Single/Shared.antt =====
-- The accesses of a thread among the calls of several threads on one queue.
use lfqueue.Base.{ℕ, ◌+◌, ◌<◌, ◌≡◌, refl, arith, ◌==◌, if◌then◌else◌, Option, none, some}
use lfqueue.Base.{List, [], ◌∷◌, ◌++◌, done, ℕ_discrete, eq→==, ne→==}
use mathlib.Core.List.{append-nil}
use lfqueue.Single.{
  SingleSize, Pc, idle, enqueue_load, enqueue_exchange, enqueue_write, enqueue_store,
  enqueue_returned,
}
use lfqueue.Single.{dequeue_load, dequeue_exchange, dequeue_read, dequeue_store, dequeue_returned}
use lfqueue.Single.{
  state_empty, state_writing, state_ready, state_reading, advance, read_payload, store,
}
use lfqueue.Single.{writes, takes, takes_at}

abbrev pub indicator : ℕ → ℕ → ℕ
indicator s t = if s == t then 1 else 0

module _ {ℓ} {A : Type ℓ} where
  -- The four places at which a thread has the payload to itself.
  abbrev pub at_write : Pc A → ℕ
  at_write (enqueue_write x) = 1
  at_write pc = 0

  abbrev pub at_store : Pc A → ℕ
  at_store enqueue_store = 1
  at_store pc = 0

  abbrev pub at_read : Pc A → ℕ
  at_read dequeue_read = 1
  at_read pc = 0

  abbrev pub at_release : Pc A → ℕ
  at_release (dequeue_store v) = 1
  at_release pc = 0

  abbrev pub tally : (Pc A → ℕ) → List (Pc A) → ℕ
  tally f [] = 0
  tally f (pc ∷ ts) = f pc + tally f ts

  -- The number of threads with the payload to themselves.
  abbrev pub owners : List (Pc A) → ℕ
  owners ts = (tally at_write ts + tally at_store ts) + (tally at_read ts + tally at_release ts)

  abbrev pub held : Option A → List A
  held none = []
  held (some v) = v ∷ []

  abbrev pub filled : Option A → ℕ
  filled none = 0
  filled (some v) = 1

  -- What holds of the queue and a thread, where the others have `w`, `s`, `r` and `l` at the
  -- places.
  pub record Local (q : SingleSize A) (pc : Pc A) (w s r l : ℕ) : Type 0 where
    pub bound : q.state < 4
    pub writing : (w + at_write pc) + (s + at_store pc) ≡ indicator q.state state_writing
    pub reading : (r + at_read pc) + (l + at_release pc) ≡ indicator q.state state_reading
    pub full :
        filled q.payload ≡ (s + at_store pc) + (r + at_read pc) + indicator q.state state_ready

  -- What an access of a thread leaves.
  pub record Moved (seen : ℕ) (q : SingleSize A) (pc : Pc A) (w s r l : ℕ) : Type ℓ where
    pub next : Pc A
    pub queue : SingleSize A
    pub steps : advance seen pc q ≡ done (next, queue)
    pub local : Local queue next w s r l
    pub history : held q.payload ++ writes pc ≡ takes_at pc next ++ held queue.payload

  stays :
      (seen : ℕ) (q : SingleSize A) (pc next : Pc A) (w s r l : ℕ)
      → advance seen pc q ≡ done (next, q)
      → writes pc ≡ []
      → takes_at pc next ≡ []
      → Local q next w s r l
      → Moved seen q pc w s r l
  stays seen q pc next w s r l steps no_write no_take h = record {
    next = next;
    queue = q;
    steps = steps;
    local = h;
    history = rw (no_write, no_take) (append-nil (held q.payload));
  }

  load_enqueue :
      (seen : ℕ) (q : SingleSize A) (x : A) (w s r l : ℕ)
      → Local q (enqueue_load x) w s r l
      → Moved seen q (enqueue_load x) w s r l
  unfolding advance writes takes_at
  load_enqueue seen q x w s r l h = elim (ℕ_discrete seen state_empty) [
    | yes e ↦
        stays seen q (enqueue_load x) (enqueue_exchange x) w s r l (rw (eq→== seen state_empty e))
          refl refl
          (record { bound = h.bound; writing = h.writing; reading = h.reading; full = h.full })
    | no ne ↦
        stays seen q (enqueue_load x) (enqueue_returned (some x)) w s r l
          (rw (ne→== seen state_empty ne)) refl refl
          (record { bound = h.bound; writing = h.writing; reading = h.reading; full = h.full })
  ]

  load_dequeue :
      (seen : ℕ) (q : SingleSize A) (w s r l : ℕ)
      → Local q dequeue_load w s r l
      → Moved seen q dequeue_load w s r l
  unfolding advance writes takes_at
  load_dequeue seen q w s r l h = elim (ℕ_discrete seen state_ready) [
    | yes e ↦
        stays seen q dequeue_load dequeue_exchange w s r l (rw (eq→== seen state_ready e)) refl refl
          (record { bound = h.bound; writing = h.writing; reading = h.reading; full = h.full })
    | no ne ↦
        stays seen q dequeue_load (dequeue_returned none) w s r l (rw (ne→== seen state_ready ne))
          refl refl
          (record { bound = h.bound; writing = h.writing; reading = h.reading; full = h.full })
  ]

  exchange_enqueue :
      (seen : ℕ) (q : SingleSize A) (x : A) (w s r l : ℕ)
      → Local q (enqueue_exchange x) w s r l
      → Moved seen q (enqueue_exchange x) w s r l
  unfolding advance writes takes_at
  exchange_enqueue seen q x w s r l h = elim (ℕ_discrete q.state state_empty) [
    | yes e ↦ record {
      next = enqueue_write x;
      queue = store state_writing q;
      steps = rw (eq→== q.state state_empty e);
      local = record {
        bound = omega arith;
        writing = ground (arith, h.writing);
        reading = ground (arith, h.reading);
        full = ground (arith, h.full);
      };
      history = append-nil (held q.payload);
    }
    | no ne ↦
        stays seen q (enqueue_exchange x) (enqueue_returned (some x)) w s r l
          (rw (ne→== q.state state_empty ne)) refl refl
          (record { bound = h.bound; writing = h.writing; reading = h.reading; full = h.full })
  ]

  exchange_dequeue :
      (seen : ℕ) (q : SingleSize A) (w s r l : ℕ)
      → Local q dequeue_exchange w s r l
      → Moved seen q dequeue_exchange w s r l
  unfolding advance writes takes_at
  exchange_dequeue seen q w s r l h = elim (ℕ_discrete q.state state_ready) [
    | yes e ↦ record {
      next = dequeue_read;
      queue = store state_reading q;
      steps = rw (eq→== q.state state_ready e);
      local = record {
        bound = omega arith;
        writing = ground (arith, h.writing);
        reading = ground (arith, h.reading);
        full = ground (arith, h.full);
      };
      history = append-nil (held q.payload);
    }
    | no ne ↦
        stays seen q dequeue_exchange (dequeue_returned none) w s r l
          (rw (ne→== q.state state_ready ne)) refl refl
          (record { bound = h.bound; writing = h.writing; reading = h.reading; full = h.full })
  ]

  -- An access of a thread reads no uninitialized payload, and keeps what holds of the queue.
  pub advance_lem :
      (seen : ℕ) (p : Option A) (st : ℕ) (pc : Pc A) (w s r l : ℕ)
      → Local (record { payload = p; state = st }) pc w s r l
      → Moved seen (record { payload = p; state = st }) pc w s r l
  unfolding advance writes takes takes_at read_payload
  advance_lem seen p st idle w s r l h =
      stays seen (record { payload = p; state = st }) idle idle w s r l refl refl refl h
  advance_lem seen p st (enqueue_load x) w s r l h =
      load_enqueue seen (record { payload = p; state = st }) x w s r l h
  advance_lem seen p st (enqueue_exchange x) w s r l h =
      exchange_enqueue seen (record { payload = p; state = st }) x w s r l h
  advance_lem seen none st (enqueue_write x) w s r l h = record {
    next = enqueue_store;
    queue = record { payload = some x; state = st };
    steps = refl;
    local = record {
      bound = h.bound;
      writing = omega (arith, h.writing);
      reading = h.reading;
      full = omega (arith, h.full);
    };
    history = refl;
  }
  advance_lem seen (some v) st (enqueue_write x) w s r l h =
      absurd (ground (arith, h.writing, h.reading, h.full))
  advance_lem seen p st enqueue_store w s r l h = record {
    next = enqueue_returned none;
    queue = record { payload = p; state = state_ready };
    steps = refl;
    local = record {
      bound = omega arith;
      writing = ground (arith, h.writing);
      reading = ground (arith, h.writing, h.reading);
      full = ground (arith, h.writing, h.full);
    };
    history = append-nil (held p);
  }
  advance_lem seen p st (enqueue_returned x) w s r l h =
      stays seen (record { payload = p; state = st }) (enqueue_returned x) (enqueue_returned x) w s
        r l refl refl refl h
  advance_lem seen p st dequeue_load w s r l h =
      load_dequeue seen (record { payload = p; state = st }) w s r l h
  advance_lem seen p st dequeue_exchange w s r l h =
      exchange_dequeue seen (record { payload = p; state = st }) w s r l h
  advance_lem seen none st dequeue_read w s r l h = absurd (omega (arith, h.full))
  advance_lem seen (some v) st dequeue_read w s r l h = record {
    next = dequeue_store v;
    queue = record { payload = none; state = st };
    steps = refl;
    local = record {
      bound = h.bound;
      writing = h.writing;
      reading = omega (arith, h.reading);
      full = omega (arith, h.full);
    };
    history = refl;
  }
  advance_lem seen p st (dequeue_store v) w s r l h = record {
    next = dequeue_returned (some v);
    queue = record { payload = p; state = state_empty };
    steps = refl;
    local = record {
      bound = omega arith;
      writing = ground (arith, h.reading, h.writing);
      reading = ground (arith, h.reading);
      full = ground (arith, h.reading, h.full);
    };
    history = append-nil (held p);
  }
  advance_lem seen p st (dequeue_returned x) w s r l h =
      stays seen (record { payload = p; state = st }) (dequeue_returned x) (dequeue_returned x) w s
        r l refl refl refl h

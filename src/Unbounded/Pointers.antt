-- ===== src/Unbounded/Pointers.antt =====
-- The atomic pointers of the crate `haphazard`, as src/lfstd.rs uses them: a cell holds an address
-- or is null.
use lfqueue.Base.{ℕ, ◌≡◌, ◌≢◌, Bool, true, false, Option}

-- `safe_load` and `load_ptr` both read the cell. `compare_exchange_ptr` stores the new pointer and
-- succeeds when the cell holds the expected one, and else leaves the cell and fails.
pub record AtomicPtr (P : Type 0) : Type 0 where
  pub make : Option ℕ → P
  pub load : P → Option ℕ
  pub compare_exchange : P → Option ℕ → Option ℕ → Bool × P
  pub load-make : (a : Option ℕ) → load (make a) ≡ a
  pub exchange_same :
      (p : P) (e a : Option ℕ)
      → load p ≡ e
      → ((compare_exchange p e a).0 ≡ true) × (load ((compare_exchange p e a).1) ≡ a)
  pub exchange_other : (p : P) (e a : Option ℕ) → load p ≢ e → compare_exchange p e a ≡ (false, p)

-- ===== src/State/Action.antt =====
-- Actions on the state of a volume: sequencing, Go's `if err != nil`, and API requests.
use roommate_csi.Prelude.{ℕ, Option, ◌∷◌, update}
use roommate_csi.State.{Error, Result, ok, err, Entry, Manager, Handle, Request, Shared, State}

abbrev pub Act : Type 0 → Type 0 → Type 0
Act W A = State W → A × State W

module _ {W A : Type 0} where
  abbrev pub return : A → Act W A
  return a s = (a, s)

  abbrev pub fail : Error → Act W (Result A)
  fail e s = (err e, s)

module _ {W A B : Type 0} where
  infixl 5 ◌>>=◌ ◌>>◌
  abbrev pub ◌>>=◌ : Act W A → (A → Act W B) → Act W B
  ◌>>=◌ m f s = let (a, s') = m s in f a s'

  abbrev pub ◌>>◌ : Act W A → Act W B → Act W B
  m >> k = m >>= λ _. k

  -- if err != nil { return err }
  abbrev pub on_ok : Result A → (A → Act W (Result B)) → Act W (Result B)
  on_ok (ok a) f = f a
  on_ok (err e) f = fail e

module _ {W : Type 0} where
  abbrev pub get_state : Act W (State W)
  get_state s = (s, s)

  abbrev pub modify : (State W → State W) → Act W (Unit {0})
  modify f s = (tt, f s)

  -- Issues an API request.
  unfoldable pub request : {A : Type 0} → Request → (Shared W → A × Shared W) → Act W A
  request q call s =
      let (a, shared) = call s.shared in (a, record { shared = shared; requests = q ∷ s.requests })

  unfoldable pub set_cur : Option Entry → State W → State W
  set_cur e s = record s { shared = record s.shared { cur = e } }

  unfoldable pub set_manager : ℕ → Manager → State W → State W
  set_manager i m s = record s {
    shared = record s.shared { managers = update s.shared.managers i m };
  }

  unfoldable pub set_handle : ℕ → Handle → State W → State W
  set_handle h v s = record s { shared = record s.shared { handles = update s.shared.handles h v } }

  -- Lets the other goroutines run.
  unfoldable pub interleave : (Shared W → Shared W) → State W → State W
  interleave others s = record s { shared = others s.shared }

-- ===== src/Lease/Wait.antt =====
-- `Acquire` of pkg/objectfs/lease.go: how the wait for a lease ends.
use roommate_csi.Prelude.{
  ℕ, zero, suc, ◌/◌, ◌<◌, ◌≤◌, ◌≡◌, refl, Bool, true, false, Option, none, some, arith,
}
use roommate_csi.State.{Result, ok, err, Shared, State, Env}
use roommate_csi.State.Action.{Act}
use roommate_csi.Lease.{manager, try_acquire, awake, poll, acquire}
use roommate_csi.Lease.Attempt.{try_acquire-held}

-- The wait has ended, and the lease is held if it ended well.
abbrev pub Ended : {W : Type 0} → ℕ → Option (Result (Unit {0})) × State W → Type 0
Ended i (none, s) = ⊥
Ended i (some (ok u), s) = (manager i s).held ≡ true
Ended i (some (err e), s) = Unit

module _ {W : Type 0} (env : Env W) (i : ℕ) (patience : Shared W → ℕ)
    (tries : (s : State W) → patience (try_acquire env i s).1.shared ≤ patience s.shared)
    (sleeps : (n : ℕ) (h : Shared W)
      → (env.sleep n h).0 ≡ true
      → patience (env.sleep n h).1 < patience h) where
  awake-Ended :
      (rest : Act W (Option (Result (Unit {0})))) (slept : Bool) (s : State W)
      → (slept ≡ true → Ended i (rest s))
      → Ended i (awake env rest slept s)
  awake-Ended rest true s next = next refl
  awake-Ended rest false s next = tt

  poll-Ended :
      (rest : Act W (Option (Result (Unit {0})))) (n : ℕ) (r : Result Bool) (s : State W)
      → ((s' : State W) → patience s'.shared < patience s.shared → Ended i (rest s'))
      → (r ≡ ok true → (manager i s).held ≡ true)
      → Ended i (poll env rest n r s)
  poll-Ended rest n (err e) s next won = tt
  poll-Ended rest n (ok true) s next won = won refl
  poll-Ended rest n (ok false) s next won =
      awake-Ended rest (env.sleep n s.shared).0 (record s { shared = (env.sleep n s.shared).1 })
        (λ slept. next _ (sleeps n s.shared slept))

  -- Suppose that the context ends after a bounded number of sleeps: each sleep that it does not
  -- end lowers a number which no attempt raises. Then with more fuel than that number `Acquire`
  -- returns, and if it returns no error the lease is held.
  pub acquire-Ended :
      (fuel : ℕ) (s : State W) → patience s.shared < fuel → Ended i (acquire env fuel i s)
  unfolding acquire
  acquire-Ended zero s lt = elim lt [ ]
  acquire-Ended (suc fuel) s lt =
      poll-Ended (acquire env fuel i) ((manager i s).duration / 3) (try_acquire env i s).0
        (try_acquire env i s).1 (λ s' less. acquire-Ended fuel s' (omega (arith, tries s)))
        (try_acquire-held env i s)

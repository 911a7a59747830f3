-- ===== src/Tests/LockRuns.antt =====
-- The theorems on the locks of targets, at a run of two goroutines.
use roommate_csi.Prelude.{ℕ, ◌≡◌, ◌↔◌, refl, false, some, arith}
use roommate_csi.Prelude.Bytes.{Str, str, str_eq}
use roommate_csi.Driver.Serializing.{
  missed, entered, publishing, System, at, lock_target, lock, ask, want, take, look, init, Run,
  here, later,
}
use roommate_csi.Driver.Serializing.Facts.{lock_of}
use roommate_csi.Driver.Serializing.Exclusion.{publish_once, table_exact}
use roommate_csi.Driver.Serializing.Progress.{lock_granted}

abbrev target : Str
target = str "/pods/1/home"

abbrev first : System
first = init (λ _. false)

abbrev asked : System
asked = at 1 (missed target) (at 0 (missed target) first)

-- Both missed, and one goroutine has the lock that the other waits for.
abbrev contended : System
contended = lock 0 target 0 (lock_target 1 target (lock_target 0 target asked))

abbrev busy : System
busy = at 0 (publishing target 0) contended

run : Run 2 first busy
unfolding str_eq
run =
    later
      (later
        (later
          (later
            (later (later here (ask 0 target (omega arith) refl)) (ask 1 target (omega arith) refl))
            (want 0 (omega arith) refl))
          (want 1 (omega arith) refl))
        (take 0 (omega arith) refl refl))
      (look 0 (omega arith) refl)

publish_once_example :
    (busy.live target ≡ false) × ((u b : ℕ) → busy.pc u ≡ publishing target b → u ≡ 0)
publish_once_example = publish_once 2 run 0 target 0 refl

table_exact_example :
    (busy.locks target ≡ some 0) ↔ ((t : ℕ) × (lock_of (busy.pc t) ≡ some (target, 0)))
table_exact_example = table_exact 2 run target 0

lock_granted_example : (s : System) × Run 2 busy s × (s.pc 1 ≡ entered target 0)
unfolding str_eq
lock_granted_example = lock_granted 2 run 1 target 0 refl

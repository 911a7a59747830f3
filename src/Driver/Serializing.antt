-- ===== src/Driver/Serializing.antt =====
-- pkg/driver/targetlock.go, and the publishes of pkg/driver/node.go that it serializes: goroutines
-- that run NodePublishVolume for any targets, interleaved in any order. A critical section under
-- `locksMu` is one step, as is an operation on a lock's channel. A lock has the address at which it
-- was allocated, and its channel is whether the token is in it.
mod Counting
pub mod Facts
pub mod Moves
pub mod Table
pub mod Exclusion
pub mod Progress
use roommate_csi.Prelude.{
  ℕ, suc, ◌-◌, ◌<◌, ◌≡◌, ◌==◌, Bool, true, false, Option, none, some, update, if◌then◌else◌,
}
use roommate_csi.Prelude.Bytes.{Str, str_eq}

-- Where a goroutine is in NodePublishVolume, with its target and the lock that it has.
pub data Pc : Type 0 where
  idle : Pc
  missed : Str → Pc
  waiting entered publishing settled leaving : Str → ℕ → Pc

pub record System : Type 0 where
  pub locks : Str → Option ℕ
  pub next : ℕ
  pub refs : ℕ → ℕ
  pub unlocked : ℕ → Bool
  -- the targets with a live mount
  pub live : Str → Bool
  pub pc : ℕ → Pc

-- A write to one cell of a map that is a function.
abbrev pub assign {ℓ} : {A : Type ℓ} → (Str → A) → Str → A → Str → A
assign f k v x = if str_eq x k then v else f x

abbrev pub at : ℕ → Pc → System → System
at t p s = record s { pc = update s.pc t p }

-- `newTargetLock`, entered into the table.
abbrev pub new_target_lock : Str → System → System
new_target_lock target s = record s {
  locks = assign s.locks target (some s.next);
  next = suc s.next;
  refs = update s.refs s.next 0;
  unlocked = update s.unlocked s.next true;
}

abbrev pub use_lock : ℕ → Str → ℕ → System → System
use_lock t target a s =
    at t (waiting target a) (record s { refs = update s.refs a (suc (s.refs a)) })

abbrev pub use_found : ℕ → Str → Option ℕ → System → System
use_found t target none s = use_lock t target s.next (new_target_lock target s)
use_found t target (some a) s = use_lock t target a s

-- `lockTarget`, up to the wait.
abbrev pub lock_target : ℕ → Str → System → System
lock_target t target s = use_found t target (s.locks target) s

-- `Lock`
abbrev pub lock : ℕ → Str → ℕ → System → System
lock t target a s = at t (entered target a) (record s { unlocked = update s.unlocked a false })

-- `Unlock`
abbrev pub unlock : ℕ → Str → ℕ → System → System
unlock t target a s = at t (leaving target a) (record s { unlocked = update s.unlocked a true })

-- The rest of `unlockTarget`.
abbrev pub unlock_target : ℕ → Str → ℕ → System → System
unlock_target t target a s =
    let refs = s.refs a - 1 in
    at t idle (record s {
      refs = update s.refs a refs;
      locks = if refs == 0 then assign s.locks target none else s.locks;
    })

-- The Get before the lock, and the one under it.
abbrev pub fast_path : Str → Bool → Pc
fast_path target true = idle
fast_path target false = missed target

abbrev pub recheck : Str → ℕ → Bool → Pc
recheck target a true = settled target a
recheck target a false = publishing target a

-- One step of a goroutine below `n`, or of an unpublish of any target.
pub data Step (n : ℕ) (s : System) : System → Type 0 where
  ask :
      (t : ℕ) (target : Str)
      → t < n
      → s.pc t ≡ idle
      → Step n s (at t (fast_path target (s.live target)) s)
  want : (t : ℕ) {target : Str} → t < n → s.pc t ≡ missed target → Step n s (lock_target t target s)
  take :
      (t : ℕ) {target : Str} {a : ℕ}
      → t < n
      → s.pc t ≡ waiting target a
      → s.unlocked a ≡ true
      → Step n s (lock t target a s)
  look :
      (t : ℕ) {target : Str} {a : ℕ}
      → t < n
      → s.pc t ≡ entered target a
      → Step n s (at t (recheck target a (s.live target)) s)
  -- `publish`, with its Put or with an error
  put :
      (t : ℕ) {target : Str} {a : ℕ}
      → t < n
      → s.pc t ≡ publishing target a
      → Step n s (at t (settled target a) (record s { live = assign s.live target true }))
  give_up :
      (t : ℕ) {target : Str} {a : ℕ}
      → t < n
      → s.pc t ≡ publishing target a
      → Step n s (at t (settled target a) s)
  -- a send on a channel of one place waits while the token is in it
  give_back :
      (t : ℕ) {target : Str} {a : ℕ}
      → t < n
      → s.pc t ≡ settled target a
      → s.unlocked a ≡ false
      → Step n s (unlock t target a s)
  leave :
      (t : ℕ) {target : Str} {a : ℕ}
      → t < n
      → s.pc t ≡ leaving target a
      → Step n s (unlock_target t target a s)
  unpublish : (target : Str) → Step n s (record s { live = assign s.live target false })

abbrev pub init : (Str → Bool) → System
init live = record {
  locks = λ _. none;
  next = 0;
  refs = λ _. 0;
  unlocked = λ _. false;
  live = live;
  pc = λ _. idle;
}

-- The states that the steps of `n` goroutines lead to.
pub data Run (n : ℕ) (s : System) : System → Type 0 where
  here : Run n s s
  later : {t u : System} → Run n s t → Step n t u → Run n s u

-- ===== src/Driver/Serializing/Facts.antt =====
-- What is true of the table of locks, of the locks and of the goroutines between steps.
use roommate_csi.Prelude.{
  ap, ◌∙◌, arith, ==_iff, ==-refl, ℕ, ◌+◌, ◌<◌, ◌≡◌, ◌==◌, Bool, true, false, Option, none, some,
}
use roommate_csi.Prelude.Bytes.{Str}
use roommate_csi.Driver.Serializing.{
  Pc, idle, missed, waiting, entered, publishing, settled, leaving, System,
}
use roommate_csi.Driver.Serializing.Counting.{bit, count}

-- The target and the lock that a goroutine has taken a reference to.
abbrev pub lock_of : Pc → Option (Str × ℕ)
lock_of idle = none
lock_of (missed x) = none
lock_of (waiting x a) = some (x, a)
lock_of (entered x a) = some (x, a)
lock_of (publishing x a) = some (x, a)
lock_of (settled x a) = some (x, a)
lock_of (leaving x a) = some (x, a)

-- The target and the lock that a goroutine holds.
abbrev pub held_by : Pc → Option (Str × ℕ)
held_by idle = none
held_by (missed x) = none
held_by (waiting x a) = none
held_by (entered x a) = some (x, a)
held_by (publishing x a) = some (x, a)
held_by (settled x a) = some (x, a)
held_by (leaving x a) = none

abbrev pub is_lock : ℕ → Option (Str × ℕ) → Bool
is_lock a none = false
is_lock a (some (x, b)) = b == a

abbrev pub uses : ℕ → Pc → Bool
uses a p = is_lock a (lock_of p)

abbrev pub holds : ℕ → Pc → Bool
holds a p = is_lock a (held_by p)

module _ (n : ℕ) where
  abbrev pub Named : System → ℕ → Pc → Type 0
  Named s t p = (x : Str) (a : ℕ) → lock_of p ≡ some (x, a) → (t < n) × (s.locks x ≡ some a)

  abbrev pub Clear : System → Pc → Type 0
  Clear s p = (x : Str) (a : ℕ) → p ≡ publishing x a → s.live x ≡ false

  pub record Inv (s : System) : Type 0 where
    pub named : (t : ℕ) → Named s t (s.pc t)
    pub counted :
        (x : Str) (a : ℕ) → s.locks x ≡ some a → (a < s.next) × (s.refs a ≡ count (uses a) n s.pc)
    pub apart : (x y : Str) (a : ℕ) → s.locks x ≡ some a → s.locks y ≡ some a → x ≡ y
    pub token : (a : ℕ) → a < s.next → bit (s.unlocked a) + count (holds a) n s.pc ≡ 1
    pub clear : (t : ℕ) → Clear s (s.pc t)

-- Every lock in the table is in use.
abbrev pub Used : System → Type 0
Used s = (x : Str) (a : ℕ) → s.locks x ≡ some a → 0 < s.refs a

pub held_by-lock_of : (p : Pc) (c : Str × ℕ) → held_by p ≡ some c → lock_of p ≡ some c
held_by-lock_of idle c e = ground arith
held_by-lock_of (missed x) c e = ground arith
held_by-lock_of (waiting x a) c e = ground arith
held_by-lock_of (entered x a) c e = e
held_by-lock_of (publishing x a) c e = e
held_by-lock_of (settled x a) c e = e
held_by-lock_of (leaving x a) c e = ground arith

pub is_lock-some :
    (a : ℕ) (o : Option (Str × ℕ)) → is_lock a o ≡ true → (x : Str) × (o ≡ some (x, a))
is_lock-some a none e = ground arith
is_lock-some a (some (x, b)) e = (x, ap (λ k. some (x, k)) ((==_iff b a).0 e))

pub is_lock_refl : (a : ℕ) (x : Str) (o : Option (Str × ℕ)) → o ≡ some (x, a) → is_lock a o ≡ true
is_lock_refl a x o e = ap (is_lock a) e ∙ ==-refl a

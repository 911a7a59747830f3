-- ===== src/Sharing.antt =====
-- The handles of many nodes that change one object under one Lease: what pkg/objectfs/handle.go and
-- pkg/objectfs/commit.go send, beside the requests of pkg/objectfs/lease.go, in any order. A handle
-- that gets the Lease reads the object, unless it has changes that are not saved; a commit passes the
-- fence, and its patch reaches the API server later. A patch may be delivered more than once. Nobody
-- else writes the object.
pub mod Serial
pub mod Late
use roommate_csi.Prelude.{
  ℕ, ◌≡◌, true, false, Bool, Option, none, some, List, [], ◌∷◌, update, ◌⊎◌, if◌then◌else◌,
}
use roommate_csi.Prelude.Bytes.{Bytes, Str, str_eq}
use roommate_csi.Map.{Map, lookup, insert}
use roommate_csi.Lease.Cluster
use roommate_csi.Lease.Cluster.{Cluster, is_healthy, KeepsUp}

-- A write of `by`, over what it knew the key to hold.
pub record Update : Type 0 where
  pub by : ℕ
  pub read : Option Bytes
  pub wrote : Bytes

pub record Sharing : Type 0 where
  pub cluster : Cluster
  pub object : Map Bytes
  -- what a handle found under its key in the cache when it was opened
  pub found : ℕ → Option Bytes
  -- the handle has changes that are not saved
  pub dirty : ℕ → Bool
  -- what the buffer of a handle was made from, since it was locked
  pub known : ℕ → Option (Option Bytes)
  pub sent : List (ℕ × Bytes)
  -- the writes that have reached the API server, newest first
  pub log : List Update

-- The patch is under way.
abbrev pub IsSent : ℕ → Bytes → List (ℕ × Bytes) → Type 0
IsSent i buf [] = ⊥
IsSent i buf ((j, b) ∷ rest) = ((i ≡ j) × (buf ≡ b)) ⊎ IsSent i buf rest

-- What the buffer was made from so far.
abbrev pub source : Option (Option Bytes) → Option Bytes → Option Bytes
source none old = old
source (some v) old = v

-- `offset` is that of the clocks, and `key` is the key that the handle of a manager is open on.
module _ (offset : ℕ → ℕ) (key : ℕ → Str) where
  -- What the buffer is made from once the handle is locked: a dirty handle keeps its buffer.
  abbrev pub taken : Sharing → ℕ → Option Bytes
  taken s i = if s.dirty i then source (s.known i) (s.found i) else lookup (key i) s.object

  abbrev pub pinned : Sharing → ℕ → Sharing
  pinned s i = record s { known = update s.known i (some (taken s i)) }

  abbrev pub opened : Sharing → ℕ → Option Bytes → Sharing
  opened s i v = record s { found = update s.found i v; dirty = update s.dirty i false }

  abbrev pub written : Sharing → ℕ → Sharing
  written s i = record s { dirty = update s.dirty i true }

  abbrev pub cleaned : Sharing → ℕ → Sharing
  cleaned s i = record s { dirty = update s.dirty i false }

  abbrev pub landed : Sharing → ℕ → Bytes → Option Bytes → Sharing
  landed s i buf old = record s {
    object = insert (key i) buf s.object;
    known = update s.known i (some (some buf));
    log = record { by = i; read = old; wrote = buf } ∷ s.log;
  }

  pub data Step (s : Sharing) : Sharing → Type 0 where
    contend : {c : Cluster} → Cluster.Step offset s.cluster c → Step s (record s { cluster = c })
    -- the cache may hold any version of the object
    opens : (i : ℕ) (v : Option Bytes) → s.known i ≡ none → Step s (opened s i v)
    write : (i : ℕ) → Step s (written s i)
    -- `repin`
    pin :
        (i : ℕ)
        → (s.cluster.managers i).held ≡ true
        → s.cluster.released i ≡ false
        → Step s (pinned s i)
    -- `Commit`, up to its request
    send :
        (i : ℕ) (buf : Bytes) {v : Option Bytes}
        → s.dirty i ≡ true
        → s.known i ≡ some v
        → is_healthy (s.cluster.managers i) ≡ true
        → Step s (record s { sent = (i, buf) ∷ s.sent })
    -- the request, at the API server
    land :
        (i : ℕ) (buf : Bytes) {old : Option Bytes}
        → IsSent i buf s.sent
        → s.known i ≡ some old
        → Step s (landed s i buf old)
    -- the end of a commit
    clean : (i : ℕ) {v : Option Bytes} → s.known i ≡ some v → Step s (cleaned s i)

  -- A handle is clean when it is first locked. A patch lands while its sender has not released the
  -- Lease, and its renewals keep up.
  abbrev pub IsOrderly : {s t : Sharing} → Step s t → Type 0
  IsOrderly (contend step) = Unit
  IsOrderly (opens i v fresh) = Unit
  IsOrderly (write i) = Unit
  IsOrderly {s} (pin i holds live) =
      (s.dirty i ≡ false) ⊎ ((v : Option Bytes) × (s.known i ≡ some v))
  IsOrderly (send i buf dirty knows healthy) = Unit
  IsOrderly (clean i knows) = Unit
  IsOrderly {s} (land i buf sent knows) = KeepsUp s.cluster i × (s.cluster.released i ≡ false)

  pub data Run (s : Sharing) : Sharing → Type 0 where
    here : Run s s
    next : {t u : Sharing} → Run s t → Step t u → Run s u

  abbrev pub AllOrderly : {s t : Sharing} → Run s t → Type 0
  AllOrderly here = Unit
  AllOrderly (next run step) = AllOrderly run × IsOrderly step

abbrev pub agrees : Option Bytes → Option Bytes → Bool
agrees none none = true
agrees none (some b) = false
agrees (some a) none = false
agrees (some a) (some b) = str_eq a b

module _ (key : ℕ → Str) where
  -- The same writes, one at a time, each by a writer that has just read the key.
  abbrev pub replay_next : Update → Option (Map Bytes) → Option (Map Bytes)
  replay_next u none = none
  replay_next u (some m) =
      if agrees (lookup (key u.by) m) u.read then some (insert (key u.by) u.wrote m) else none

  unfoldable pub replay : Map Bytes → List Update → Option (Map Bytes)
  unfolding lookup insert
  replay m [] = some m
  replay m (u ∷ older) = replay_next u (replay m older)

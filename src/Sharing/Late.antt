-- ===== src/Sharing/Late.antt =====
-- Why a patch has to land in time: a node that stalls between the fence of its commit and the patch.
-- Why a handle has to be clean when it is first locked.
use roommate_csi.Prelude.{
  ℕ, ◌≡◌, ◌≢◌, true, false, Option, none, some, ◌∷◌, refl, arith, subst, Bool-cases, ==-refl,
  ==-other, inl, inr,
}
use roommate_csi.Prelude.Bytes.{Bytes, Str}
use roommate_csi.Map.{Map, lookup, insert}
use roommate_csi.Map.Laws.{lookup-insert_same}
use roommate_csi.State.{Manager}
use roommate_csi.Lease.Cluster
use roommate_csi.Lease.Cluster.{Cluster, KeepsUp, is_healthy}
use roommate_csi.Lease.Cluster.Facts.{Setup}
use roommate_csi.Lease.Cluster.Stalling.{overtaken}
use roommate_csi.Sharing.{
  Sharing, pinned, landed, written, taken, contend, write, pin, send, land, Run, here, next, agrees,
  replay,
}
use roommate_csi.Sharing.Serial.{Inv}

module _ (p : Setup) (key : ℕ → Str) where
  Run-contend :
      (start at : Sharing) {c d : Cluster}
      → Run p.offset key start (record at { cluster = c })
      → Cluster.Reach p.offset c d
      → Run p.offset key start (record at { cluster = d })
  Run-contend start at run Cluster.here = run
  Run-contend start at run (Cluster.next reach step) =
      next (Run-contend start at run reach) (contend step)

  healthy_held : (m : Manager) → is_healthy m ≡ true → m.held ≡ true
  healthy_held m healthy = ground arith

  -- That the patches land in time is needed: in a state with the invariant, where the writes so far
  -- are as if they took turns, a handle of manager `i` knows what its key holds, its lease counts as
  -- healthy, and its last accepted write was stamped no longer than a lease's duration ago, some run
  -- loses a write. The handle of another manager `j` on the same key, which neither holds its lease
  -- nor has released it, takes the Lease and writes `theirs`, which is not what `i` knows, before the
  -- patch of `i` lands; the writes are then not those of writers that took turns.
  pub lost_update :
      (m : Map Bytes) (s : Sharing) (i j : ℕ) {v : Option Bytes} (ours theirs : Bytes)
      → Inv p key s
      → replay key m s.log ≡ some s.object
      → s.known i ≡ some v
      → KeepsUp s.cluster i
      → is_healthy (s.cluster.managers i) ≡ true
      → i ≢ j
      → key j ≡ key i
      → (s.cluster.managers j).held ≡ false
      → s.cluster.released j ≡ false
      → agrees (some theirs) v ≡ false
      → (t : Sharing) × Run p.offset key s t × (replay key m t.log ≡ none)
  unfolding replay
  lost_update m s i j {v} ours theirs inv done knows fresh healthy other same idle live differs =
      let (c, reach, still, wins, unreleased) =
        overtaken p s.cluster i j inv.cluster fresh healthy other idle live in
      let s0 : Sharing = written p.offset key s i in
      let s1 : Sharing = record s0 { sent = (i, ours) ∷ s.sent } in
      let s2 : Sharing = record s1 { cluster = c } in
      let s3 : Sharing = pinned p.offset key s2 j in
      let s3w : Sharing = written p.offset key s3 j in
      let s4 : Sharing = record s3w { sent = (j, theirs) ∷ s3.sent } in
      let before : Option Bytes = taken p.offset key s2 j in
      let s5 : Sharing = landed p.offset key s4 j theirs before in
      let s6 : Sharing = landed p.offset key s5 i ours v in
      let late : Run p.offset key s s2 =
        Run-contend s s1
          (next (next here (write i)) (send i ours (rw (==-refl i) refl) knows healthy)) reach in
      let knows_j : s3.known j ≡ some before = rw (==-refl j) refl in
      let knows_i : s5.known i ≡ some v = rw (==-other i j other) knows in
      let run : Run p.offset key s s6 =
        next
          (next
            (next (next (next late (pin j (healthy_held (c.managers j) wins) unreleased)) (write j))
              (send j theirs (rw (==-refl j) refl) knows_j wins))
            (land j theirs (inl (refl, refl)) knows_j))
          (land i ours (inr (inl (refl, refl))) knows_i) in
      let stored : lookup (key i) (insert (key j) theirs s.object) ≡ some theirs =
        subst (λ k. lookup k (insert (key j) theirs s.object) ≡ some theirs) same
          (lookup-insert_same (key j) theirs s.object) in
      (
        s6,
        run,
        elim (Bool-cases (agrees (lookup (key j) s.object) before)) [
          | inl current ↦ rw (done, current, stored, differs) refl
          | inr stale ↦ rw (done, stale) refl
        ],
      )

  -- That a handle is clean when it is first locked is needed: where the writes so far are as if they
  -- took turns, a handle whose lease counts as healthy and is not released, which is dirty, is not
  -- locked yet, and was opened on a value that its key no longer holds, loses a write in some run:
  -- the lock leaves its buffer, and its commit overwrites a value that it never read.
  pub dirty_overwrites :
      (m : Map Bytes) (s : Sharing) (i : ℕ) (buf : Bytes)
      → replay key m s.log ≡ some s.object
      → is_healthy (s.cluster.managers i) ≡ true
      → s.cluster.released i ≡ false
      → s.dirty i ≡ true
      → s.known i ≡ none
      → agrees (lookup (key i) s.object) (s.found i) ≡ false
      → (t : Sharing) × Run p.offset key s t
        × (lookup (key i) t.object ≡ some buf)
        × (replay key m t.log ≡ none)
  unfolding replay
  dirty_overwrites m s i buf done healthy live dirty fresh differs =
      let s1 : Sharing = pinned p.offset key s i in
      let s2 : Sharing = record s1 { sent = (i, buf) ∷ s.sent } in
      let s3 : Sharing = landed p.offset key s2 i buf (s.found i) in
      let knows : s1.known i ≡ some (s.found i) = rw (==-refl i, dirty, fresh) refl in
      let run : Run p.offset key s s3 =
        next
          (next (next here (pin i (healthy_held (s.cluster.managers i) healthy) live))
            (send i buf dirty knows healthy))
          (land i buf (inl (refl, refl)) knows) in
      (s3, run, lookup-insert_same (key i) buf s.object, rw (done, differs) refl)

-- ===== src/Lease/Cluster/Leaving.antt =====
-- What happens when a renewal is under way while its manager is released: `Release` takes a conflict
-- for success, and does not look whose write it was.
use roommate_csi.Prelude.{
  ℕ, ◌≡◌, ◌≢◌, true, false, Option, some, refl, arith, ◌∙◌, ap, sym, update, ==-refl,
}
use roommate_csi.Prelude.Bytes.{Str, str_eq_refl}
use roommate_csi.State.{Lease, Manager}
use roommate_csi.Lease.{is_holder}
use roommate_csi.Lease.Cluster.{
  Copy, Cluster, is_healthy, clock, written, renewal, renew_get, renew, release, drop_get, Reach,
  here, next, KeepsUp,
}
use roommate_csi.Lease.Cluster.Facts.{Setup, Inv}

is_holder_own : (m : Manager) (h : Option Str) → h ≡ some m.holder → is_holder m h ≡ true
is_holder_own m h e = ap (is_holder m) e ∙ str_eq_refl m.holder

module _ (p : Setup) where
  -- In a state with the invariant, whenever the lease of a manager counts as healthy, and its last
  -- accepted write was stamped no longer than a lease's duration ago, a run leads to a state in which
  -- the manager is released, the copy of the Lease that its release has read is out of date, and the
  -- Lease still names it: a renewal that was under way was accepted behind that read.
  pub left_behind :
      (s : Cluster) (i : ℕ)
      → Inv p s
      → KeepsUp s i
      → is_healthy (s.managers i) ≡ true
      → (t : Cluster) × (c : Copy) × (l : Lease) × Reach p.offset s t
        × (t.released i ≡ true)
        × (t.drops i ≡ some c)
        × (t.revision ≢ c.0)
        × (t.lease ≡ some l)
        × (l.holder ≡ some (p.id i))
  left_behind s i inv (at, stamped, fresh) healthy =
      let timed = (inv.managers i).1 in
      let (l, stored, held, _) =
        inv.owner i at stamped (omega arith) (ground (arith, inv.dropped i)) in
      let s1 : Cluster = record s { renewals = update s.renewals i (some (s.revision, l)) } in
      let m : Manager = record (s.managers i) { held = false; healthy = false; renewing = false } in
      let s2 : Cluster = record s1 {
        managers = update s1.managers i m;
        released = update s1.released i true;
      } in
      let s3 : Cluster = record s2 { drops = update s2.drops i (some (s.revision, l)) } in
      let named : l.holder ≡ some m.holder = held ∙ ap (λ x. some x) (sym (inv.managers i).0) in
      let own : is_holder (s3.managers i) l.holder ≡ true =
        rw (==-refl i) (is_holder_own m l.holder named) in
      let got : s3.renewals i ≡ some (s.revision, l) = rw (==-refl i) refl in
      (
        written s3 i (record l { renew_time = some (clock p.offset i s.time) }) renewal s.time,
        (s.revision, l),
        record l { renew_time = some (clock p.offset i s.time) },
        next
            (next (next (next here (renew_get i stored)) (release i))
              (drop_get i stored (rw (==-refl i) refl)))
            (renew i s.time got own refl (omega arith)),
        rw (==-refl i) refl,
        rw (==-refl i) refl,
        λ e. omega arith,
        refl,
        held,
      )

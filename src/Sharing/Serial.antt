-- ===== src/Sharing/Serial.antt =====
-- The handles that write under the Lease write as if they took turns.
use roommate_csi.Prelude.{
  some_inj, Bool-cases, inl, inr, ◌⊎◌, ℕ, ◌≡◌, true, false, Option, none, some, [], refl, arith,
  ◌∙◌, update-others,
}
use roommate_csi.Prelude.Bytes.{Bytes, Str, str_eq_refl}
use roommate_csi.Map.{Map, lookup, insert}
use roommate_csi.Map.Laws.{lookup-insert_same}
use roommate_csi.Lease.Cluster.{Cluster, KeepsUp}
use roommate_csi.Lease.Cluster.Facts as Cluster_facts
use roommate_csi.Lease.Cluster.Facts.{Setup}
use roommate_csi.Lease.Cluster.Exclusion as Cluster_exclusion
use roommate_csi.Lease.Cluster.Tenure.{Names, Step-Holds, Step-live}
use roommate_csi.Sharing.{
  Sharing, Step, contend, opens, write, pin, send, land, clean, taken, IsOrderly, AllOrderly, Run,
  here, next, agrees, replay,
}

module _ (p : Setup) (key : ℕ → Str) where
  -- What the handles know is what their keys hold, as long as the Lease names them.
  pub record Inv (s : Sharing) : Type 0 where
    pub cluster : Cluster_facts.Inv p s.cluster
    pub held :
        (i : ℕ) (v : Option Bytes)
        → s.known i ≡ some v
        → s.cluster.released i ≡ false
        → (s.cluster.managers i).held ≡ true
    pub exact :
        (i : ℕ) (v : Option Bytes)
        → s.known i ≡ some v
        → s.cluster.released i ≡ false
        → Names p s.cluster.lease i
        → lookup (key i) s.object ≡ v

  owner-Names :
      (c : Cluster) (i : ℕ)
      → Cluster_facts.Inv p c
      → KeepsUp c i
      → c.released i ≡ false
      → Names p c.lease i
  owner-Names c i inv (at, stamped, fresh) live =
      let (_, timed, _) = inv.managers i in
      let (l, stored, held, _) = inv.owner i at stamped (omega arith) live in (l, stored, held)

  Names-unique : (c : Cluster) (i j : ℕ) → Names p c.lease i → Names p c.lease j → i ≡ j
  Names-unique c i j (l, stored, held) (l', stored', held') = p.id_inj i j (ground arith)

  -- What a handle takes when it is locked in order is what its key holds.
  taken_exact :
      (s : Sharing) (i : ℕ)
      → (s.dirty i ≡ false) ⊎ ((v : Option Bytes) × (s.known i ≡ some v))
      → Inv s
      → s.cluster.released i ≡ false
      → Names p s.cluster.lease i
      → lookup (key i) s.object ≡ taken p.offset key s i
  taken_exact s i (inl unchanged) inv live names = rw unchanged refl
  taken_exact s i (inr (v, knows)) inv live names = elim (Bool-cases (s.dirty i)) [
    | inl dirty ↦ rw (dirty, knows) (inv.exact i v knows live names)
    | inr unchanged ↦ rw unchanged refl
  ]

  Step-Inv :
      {s t : Sharing} (step : Step p.offset key s t) → IsOrderly p.offset key step → Inv s → Inv t
  Step-Inv {s} (contend {c} step) orderly inv = record {
    cluster = Cluster_exclusion.Step-Inv p step inv.cluster;
    held = λ i v knows live.
        let before = Step-live p s.cluster i step live in
        (Step-Holds p s.cluster inv.cluster i (inv.held i v knows before) step live).1;
    exact = λ i v knows live names.
        let before = Step-live p s.cluster i step live in
        inv.exact i v knows before
          ((Step-Holds p s.cluster inv.cluster i (inv.held i v knows before) step live).2 names);
  }
  Step-Inv {s} (opens i v fresh) orderly inv = record {
    cluster = inv.cluster;
    held = inv.held;
    exact = inv.exact;
  }
  Step-Inv {s} (write i) orderly inv = record {
    cluster = inv.cluster;
    held = inv.held;
    exact = inv.exact;
  }
  Step-Inv {s} (clean i knows) orderly inv = record {
    cluster = inv.cluster;
    held = inv.held;
    exact = inv.exact;
  }
  Step-Inv {s} (pin i holds live) orderly inv = record {
    cluster = inv.cluster;
    held =
        update-others s.known i (some (taken p.offset key s i))
          (λ j o.
            (v : Option Bytes)
            → o ≡ some v
            → s.cluster.released j ≡ false
            → (s.cluster.managers j).held ≡ true)
          (λ v e alive. holds) (λ j other. inv.held j);
    exact =
        update-others s.known i (some (taken p.offset key s i))
          (λ j o.
            (v : Option Bytes)
            → o ≡ some v
            → s.cluster.released j ≡ false
            → Names p s.cluster.lease j
            → lookup (key j) s.object ≡ v)
          (λ v e alive names. taken_exact s i orderly inv alive names ∙ some_inj.0 e)
          (λ j other. inv.exact j);
  }
  Step-Inv {s} (send i buf dirty knows healthy) orderly inv = record {
    cluster = inv.cluster;
    held = inv.held;
    exact = inv.exact;
  }
  Step-Inv {s} (land i buf {old} sent knows) (keeps_up, live) inv = record {
    cluster = inv.cluster;
    held =
        update-others s.known i (some (some buf))
          (λ j o.
            (v : Option Bytes)
            → o ≡ some v
            → s.cluster.released j ≡ false
            → (s.cluster.managers j).held ≡ true)
          (λ v e alive. inv.held i old knows live) (λ j other. inv.held j);
    exact =
        update-others s.known i (some (some buf))
          (λ j o.
            (v : Option Bytes)
            → o ≡ some v
            → s.cluster.released j ≡ false
            → Names p s.cluster.lease j
            → lookup (key j) (insert (key i) buf s.object) ≡ v)
          (λ v e alive names. lookup-insert_same (key i) buf s.object ∙ some_inj.0 e)
          (λ j other v e alive names. absurd (
            other (
              Names-unique s.cluster j i names
                (owner-Names s.cluster i inv.cluster keeps_up live))));
  }

  pub agrees_refl : (o : Option Bytes) → agrees o o ≡ true
  agrees_refl none = refl
  agrees_refl (some b) = str_eq_refl b

  Step-replay :
      (m : Map Bytes) {s t : Sharing} (step : Step p.offset key s t)
      → IsOrderly p.offset key step
      → Inv s
      → replay key m s.log ≡ some s.object
      → replay key m t.log ≡ some t.object
  unfolding replay
  Step-replay m (contend step) orderly inv done = done
  Step-replay m (opens i v fresh) orderly inv done = done
  Step-replay m (write i) orderly inv done = done
  Step-replay m (clean i knows) orderly inv done = done
  Step-replay m (pin i holds live) orderly inv done = done
  Step-replay m (send i buf dirty knows healthy) orderly inv done = done
  Step-replay m {s} (land i buf {old} sent knows) (keeps_up, live) inv done =
      let same = inv.exact i old knows live (owner-Names s.cluster i inv.cluster keeps_up live) in
      rw (done, same, agrees_refl old) refl

  pub Run-Inv :
      {s t : Sharing} (run : Run p.offset key s t) → AllOrderly p.offset key run → Inv s → Inv t
  Run-Inv here orderly inv = inv
  Run-Inv (next run step) orderly inv = Step-Inv step orderly.1 (Run-Inv run orderly.0 inv)

  -- Whatever order the handles of many nodes get the Lease, read, commit and release in, the object is
  -- what the same writes leave one at a time, each of them by a writer that has just read the key: no
  -- write is lost, since each is over what its handle read under the Lease, or wrote since. This is so
  -- in every run from a state with the invariant in which nothing has been written, if each handle has
  -- no changes that are not saved when it is first locked, and each patch lands while its handle has
  -- not released the Lease, and the last accepted write of its manager was stamped no longer than a
  -- lease's duration ago.
  pub Run-replay :
      {s t : Sharing}
      → Inv s
      → s.log ≡ []
      → (run : Run p.offset key s t) → AllOrderly p.offset key run
      → replay key s.object t.log ≡ some t.object
  unfolding replay
  Run-replay {s} inv none_yet here orderly = rw none_yet refl
  Run-replay {s} inv none_yet (next run step) orderly =
      Step-replay s.object step orderly.1 (Run-Inv run orderly.0 inv)
        (Run-replay inv none_yet run orderly.0)

-- ===== src/Tests/SharingRuns.antt =====
-- The theorems on the handles that share an object, at concrete runs.
use roommate_csi.Prelude.{true, false, ℕ, ◌≡◌, refl, none, some, [], ◌∷◌, arith, inl}
use roommate_csi.Prelude.Bytes.{Str, str, str_eq}
use roommate_csi.Map.{lookup}
use roommate_csi.Lease.{claimable, new_manager, fresh_lease}
use roommate_csi.Lease.Cluster.Exclusion.{Reach-Inv}
use roommate_csi.Sharing.{
  Sharing, pinned, landed, written, write, pin, send, land, AllOrderly, Run, here, next, replay,
}
use roommate_csi.Sharing.Serial.{Inv, Run-Inv, Run-replay}
use roommate_csi.Sharing.Late.{lost_update, dirty_overwrites}
use roommate_csi.Tests.ClusterRuns.{nodes, quiet-Inv, owned, owns, one-KeepsUp}

-- Every handle is open on the same key.
abbrev shared_key : ℕ → Str
shared_key i = str "a"

-- Manager one holds the Lease of the object, and its handle has read nothing yet.
abbrev fresh : Sharing
fresh = record {
  cluster = owned;
  object = (str "a", str "old") ∷ [];
  found = λ _. some (str "old");
  dirty = λ _. false;
  known = λ _. none;
  sent = [];
  log = [];
}

fresh-Inv : Inv nodes shared_key fresh
fresh-Inv = record {
  cluster = Reach-Inv nodes quiet-Inv owns;
  held = λ i v knows live. absurd (ground arith);
  exact = λ i v knows live names. absurd (ground arith);
}

abbrev pinned_one : Sharing
pinned_one = pinned nodes.offset shared_key fresh 1

abbrev sent_one : Sharing
sent_one = record (written nodes.offset shared_key pinned_one 1) { sent = (1, str "new") ∷ [] }

abbrev landed_one : Sharing
landed_one = landed nodes.offset shared_key sent_one 1 (str "new") (some (str "old"))

pins : Run nodes.offset shared_key fresh pinned_one
unfolding claimable new_manager fresh_lease
pins = next here (pin 1 refl refl)

writes : Run nodes.offset shared_key fresh landed_one
unfolding claimable new_manager fresh_lease lookup str_eq
writes =
    next (next (next pins (write 1)) (send 1 (str "new") refl refl refl))
      (land 1 (str "new") (inl (refl, refl)) refl)

writes-AllOrderly : AllOrderly nodes.offset shared_key writes
unfolding writes pins claimable new_manager fresh_lease
writes-AllOrderly = ((((tt, inl refl), tt), tt), (one-KeepsUp, refl))

Run-replay_example : replay shared_key fresh.object landed_one.log ≡ some landed_one.object
Run-replay_example = Run-replay nodes shared_key fresh-Inv refl writes writes-AllOrderly

pinned_one-Inv : Inv nodes shared_key pinned_one
unfolding pins claimable new_manager fresh_lease
pinned_one-Inv = Run-Inv nodes shared_key pins (tt, inl refl) fresh-Inv

lost_update_example :
    (t : Sharing) × Run nodes.offset shared_key pinned_one t
    × (replay shared_key fresh.object t.log ≡ none)
unfolding claimable new_manager fresh_lease lookup str_eq replay
lost_update_example =
    lost_update nodes shared_key fresh.object pinned_one 1 3 (str "ours") (str "theirs")
      pinned_one-Inv refl refl one-KeepsUp refl (omega arith) refl refl refl refl

-- Its handle was changed before it was locked, and opened on a value that is gone.
abbrev early : Sharing
early = record fresh { found = λ _. some (str "older"); dirty = λ _. true }

dirty_overwrites_example :
    (t : Sharing) × Run nodes.offset shared_key early t
    × (lookup (str "a") t.object ≡ some (str "ours"))
    × (replay shared_key early.object t.log ≡ none)
unfolding claimable new_manager fresh_lease lookup str_eq replay
dirty_overwrites_example =
    dirty_overwrites nodes shared_key early.object early 1 (str "ours") refl refl refl refl refl
      refl

-- ===== src/Tests/SnapshotRuns.antt =====
-- The theorem on the order of iteration, at two maps that are listed in two orders.
use mathlib.Core.Quot
use roommate_csi.Prelude.{◌≡◌, refl, [], ◌∷◌, arith}
use roommate_csi.Prelude.Bytes.{Bytes, Str, str, str_eq, str_eq_iff}
use roommate_csi.Map.{Map, lookup, IsDistinct}
use roommate_csi.Snapshot.{Snapshot, keys, with_changes}
use roommate_csi.Snapshot.Contents.{order_unobservable}

abbrev up : Map Bytes
up = (str "a", str "1") ∷ (str "b", str "2") ∷ []

abbrev down : Map Bytes
down = (str "b", str "2") ∷ (str "a", str "1") ∷ []

abbrev listed : Map Bytes → Snapshot
listed m = record { entries = m; resource_version = str "7"; fetched_at = 0 }

up-IsDistinct : IsDistinct up
unfolding lookup str_eq
up-IsDistinct = (refl, (refl, tt))

down-IsDistinct : IsDistinct down
unfolding lookup str_eq
down-IsDistinct = (refl, (refl, tt))

lookup_same : (k : Str) → lookup k up ≡ lookup k down
unfolding lookup
lookup_same k = ground (arith, str_eq_iff (str "a") k, str_eq_iff (str "b") k)

order_unobservable_example :
    keys (with_changes (listed up) up (str "a" ∷ []))
    ≡ keys (with_changes (listed down) down (str "a" ∷ []))
order_unobservable_example =
    (order_unobservable (listed up) (listed down) up down (str "a" ∷ []) (str "a" ∷ [])
      up-IsDistinct down-IsDistinct up-IsDistinct down-IsDistinct (Quot.sound lookup_same)
      (Quot.sound lookup_same) (λ k. refl)).0

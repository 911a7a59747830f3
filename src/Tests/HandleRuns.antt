-- ===== src/Tests/HandleRuns.antt =====
-- The theorems on open handles and on the files of a mount, at concrete inputs.
use roommate_csi.Prelude.{◌≡◌, ◌≢◌, refl, true, none, some, [], ◌∷◌, get_elem?}
use roommate_csi.Prelude.Bytes.{Str, str, str_eq}
use roommate_csi.Prelude.Int.{pos}
use roommate_csi.Keys.{valid_key}
use roommate_csi.Snapshot.{Snapshot, get, size, with_changes}
use roommate_csi.Volume.{new_lease}
use roommate_csi.State.{ok, err, forbidden, patch_object, Env}
use roommate_csi.Cache.{current, maybe_fresh, cache_bound}
use roommate_csi.Commit
use roommate_csi.Lease
use roommate_csi.Handle.{success, write, commit, unlock, ask, lock}
use roommate_csi.Handle.Buffer.{written, get_elem?-write}
use roommate_csi.Handle.Saving.{commit_saves, commit_forgets}
use roommate_csi.Handle.Ordering.{ThenLease, unlock_order}
use roommate_csi.Handle.Locking.{Pinned, asked, lock-Pinned}
use roommate_csi.Files.{SetAttr, rename, served, truncate_committed}
use roommate_csi.Files.Truncating.{truncate_missing}
use roommate_csi.Stores.{Secret, secret_body}
use roommate_csi.Stores.Merging.{IsPatched}
use roommate_csi.Map.{lookup}
use roommate_csi.Files.Renaming.{rename_moves}
use roommate_csi.Tests.World.{World, env, api, vol, start, stale, snapshot_of, world, open_handle}

get_elem?-write_example :
    get_elem? (write open_handle (str "XY") (pos 5)).0.buf 3 ≡ written 5 (str "XY") (str "old") 3
get_elem?-write_example = (get_elem?-write open_handle (str "XY") 5 3).0

abbrev cut_to_two : SetAttr
cut_to_two = record { mode = none; uid = none; gid = none; size = some 2 }

commit_saves_example :
    (commit env 1 start).1.requests ≡ patch_object ((str "token", some (str "mine")) ∷ []) [] ∷ []
unfolding commit Commit.commit size with_changes str_eq
commit_saves_example = ((commit_saves env 1 start refl).1 refl refl).0

-- Another thread writes while the patch is under way.
abbrev racing : Env World
racing = record env {
  store = record api {
    object_patch = λ set del sh.
        (ok tt, record sh { handles = λ h. record open_handle { buf = str "late"; dirty = true } });
  };
}

commit_forgets_example :
    commit racing 1 (commit racing 1 start).1 ≡ (success, (commit racing 1 start).1)
unfolding commit Commit.commit size with_changes str_eq
commit_forgets_example = (commit_forgets racing 1 start refl refl).2

unlock_order_example : ThenLease (unlock env 1 start).1.requests (commit env 1 start).1.requests
unlock_order_example = (unlock_order env 1 start).1

-- The clean handle is pinned to the object as it is, though other goroutines cache an old one.
lock-Pinned_example :
    Pinned env 0 1
      (asked env vol 5 true 0 start).1
      (snapshot_of world)
      (lock env vol 5 true 0 start)
unfolding ask Lease.acquire Lease.try_acquire new_lease Lease.attempt
lock-Pinned_example = lock-Pinned env vol 5 true 0 start (snapshot_of world) refl refl

abbrev denied : Env World
denied = record env { store = record api { object_get = λ sh. (err forbidden, sh) } }

-- A key that is renamed to itself is gone.
rename_moves_example :
    (view : Snapshot) × (current (rename env vol (str "token") true (str "token") start).1
      ≡ some view)
    × (get view (str "token") ≡ none)
    × (str "token" ≢ str "token" → get view (str "token") ≡ some (str "old"))
    × ((k : Str) → k ≢ str "token" → k ≢ str "token" → get view k ≡ get stale k)
    × ((rename env vol (str "token") true (str "token") start).1.requests
        ≡ patch_object ((str "token", some (str "old")) ∷ []) (str "token" ∷ []) ∷ [])
unfolding valid_key str_eq served maybe_fresh cache_bound get rename Commit.commit with_changes size
rename_moves_example =
    rename_moves env vol (str "token") (str "token") start stale (str "old") refl refl refl stale
      refl refl

-- A truncation of a key that the object does not have.
truncate_missing_example :
    (view : Snapshot) × (current (truncate_committed env vol (str "new") 0 start).1 ≡ some view)
    × (get view (str "new") ≡ some [])
    × ((truncate_committed env vol (str "new") 0 start).1.requests
        ≡ patch_object ((str "new", none) ∷ []) [] ∷ [])
    × ((before after : Secret)
        → IsPatched (secret_body ((str "new", none) ∷ []) []) before.entries after.entries
        → lookup (str "new") after.entries ≡ none)
unfolding str_eq served maybe_fresh cache_bound get truncate_committed Commit.commit with_changes
    size
truncate_missing_example =
    truncate_missing env vol (str "new") start stale refl refl stale refl refl

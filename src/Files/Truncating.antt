-- ===== src/Files/Truncating.antt =====
-- `truncateCommitted` of pkg/objectfs/fs.go, for a key that the object does not have.
use roommate_csi.Prelude.{◌≡◌, refl, ap, ◌∙◌, sym, none, some, [], ◌∷◌, arith}
use roommate_csi.Prelude.Bytes.{Str, str_eq_refl}
use roommate_csi.Map.{Map, lookup, insert, member}
use roommate_csi.Map.Laws.{singleton-IsDistinct}
use roommate_csi.Snapshot.{Snapshot, get}
use roommate_csi.Snapshot.Content.{merged}
use roommate_csi.State.{State, Env, Slice, patch_object}
use roommate_csi.Cache.{current, snap_of}
use roommate_csi.Commit as Commit
use roommate_csi.Commit.Outcome.{requests-commit_ok, commit_reads_own_writes}
use roommate_csi.Stores.{Secret, secret_body, put_all, null_all}
use roommate_csi.Stores.Merging.{IsPatched}
use roommate_csi.Volume.{Volume}
use roommate_csi.Handle.{success}
use roommate_csi.Files.{served, store_resized, resized, errno_of, truncate_committed}
use roommate_csi.Files.Renaming.{errno_of-success}

module _ {W : Type 0} (env : Env W) (vol : Volume) (key : Str) (s : State W) (snap : Snapshot)
    (found : (served env vol s).0 ≡ some snap) (missing : get snap key ≡ none) where
  -- The state when the snapshot has been served, and what the patch sets.
  abbrev pub ready : State W
  ready = (served env vol s).1

  abbrev pub change : Map Slice
  change = (key, none) ∷ []

  truncate_committed-commit : truncate_committed env vol key 0 s ≡ (
    errno_of (Commit.commit env none change [] ready).0,
    (Commit.commit env none change [] ready).1,
  )
  unfolding truncate_committed
  truncate_committed-commit =
      ap (λ o. store_resized env vol key 0 o ready) found
      ∙ ap
          (λ o. (
            errno_of (Commit.commit env none ((key, resized o 0) ∷ []) [] ready).0,
            (Commit.commit env none ((key, resized o 0) ∷ []) [] ready).1,
          ))
          missing

  null_deletes :
      (before after : Secret)
      → IsPatched (secret_body change []) before.entries after.entries
      → lookup key after.entries ≡ none
  unfolding secret_body put_all null_all insert lookup
  null_deletes before after patched = ground (arith, patched key, str_eq_refl key)

  -- A truncation to no bytes of a key that is not in the snapshot served, by its path, that succeeds
  -- has sent one patch, whose value is a nil slice. If a snapshot was cached when the patch
  -- came back, the cached snapshot then holds the key with no bytes, while a Secret that the patch is
  -- merged into does not hold it.
  pub truncate_missing :
      (cur : Snapshot)
      → (truncate_committed env vol key 0 s).0 ≡ success
      → snap_of (env.object_patch change [] ready.shared).1.cur ≡ some cur
      → (view : Snapshot) × (current (truncate_committed env vol key 0 s).1 ≡ some view)
        × (get view key ≡ some [])
        × ((truncate_committed env vol key 0 s).1.requests
            ≡ patch_object change [] ∷ ready.requests)
        × ((before after : Secret)
            → IsPatched (secret_body change []) before.entries after.entries
            → lookup key after.entries ≡ none)
  unfolding merged member lookup
  truncate_missing cur done held =
      let fine =
        errno_of-success (Commit.commit env none change [] ready).0
          (ap (λ r. r.0) (sym truncate_committed-commit) ∙ done) in
      let (view, cached, holds, _) =
        commit_reads_own_writes env ready none change [] cur refl (singleton-IsDistinct key []) fine
          held in
      (
        view,
        ap (λ r. current r.1) truncate_committed-commit ∙ cached,
        holds key ∙ ground (arith, str_eq_refl key),
        ap (λ r. r.1.requests) truncate_committed-commit
            ∙ requests-commit_ok env ready none change [] refl fine,
        null_deletes,
      )

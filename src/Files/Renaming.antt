-- ===== src/Files/Renaming.antt =====
-- `Rename` of pkg/objectfs/fs.go: one patch that copies a key and deletes it.
use roommate_csi.Prelude.{
  ◌≡◌, ◌≢◌, ◌∙◌, refl, sym, ap, true, Option, none, some, [], ◌∷◌, arith, if-true, if◌then◌else◌,
}
use roommate_csi.Prelude.Bytes.{Bytes, Str, str_eq, str_eq_iff, str_eq_refl}
use roommate_csi.Map.{Map, lookup, member}
use roommate_csi.Map.Laws.{singleton-IsDistinct}
use roommate_csi.Keys.{valid_key}
use roommate_csi.Snapshot.{Snapshot, get}
use roommate_csi.Snapshot.Content.{merged}
use roommate_csi.State.{Result, ok, err, Slice, patch_object, State, Env}
use roommate_csi.Cache.{current, snap_of}
use roommate_csi.Commit
use roommate_csi.Commit.Outcome.{requests-commit_ok, commit_reads_own_writes}
use roommate_csi.Volume.{Volume}
use roommate_csi.Handle.{success}
use roommate_csi.Handle.Saving.{errno_for-ne-success}
use roommate_csi.Files.{served, value_in, present, move, errno_of, rename}

pub errno_of-success : (r : Result (Unit {0})) → errno_of r ≡ success → r ≡ ok tt
errno_of-success (ok u) e = refl
errno_of-success (err x) e = absurd (errno_for-ne-success x e)

-- The patch of a rename, over a key that held `old`.
merged_rename :
    (name new_name k : Str) (value : Bytes) (old : Option Bytes)
    → merged ((new_name, value) ∷ []) (name ∷ []) k old
      ≡ (if str_eq name k then none else if str_eq new_name k then some value else old)
unfolding merged member lookup
merged_rename name new_name k value old = ground arith

module _ {W : Type 0} (env : Env W) (vol : Volume) (name new_name : Str) (s : State W)
    (snap : Snapshot) (value : Bytes) (valid : valid_key new_name ≡ true)
    (found : (served env vol s).0 ≡ some snap) (has : get snap name ≡ some value) where
  -- The state when the snapshot has been served, and what the patch sets.
  abbrev pub ready : State W
  ready = (served env vol s).1

  abbrev pub change : Map Slice
  change = (new_name, some value) ∷ []

  rename-commit : rename env vol name true new_name s ≡ (
    errno_of (Commit.commit env none change (name ∷ []) ready).0,
    (Commit.commit env none change (name ∷ []) ready).1,
  )
  unfolding rename
  rename-commit =
      if-true (valid_key new_name) _ _ valid
      ∙ ap (λ o. move env vol name new_name (value_in name o) ready) found
      ∙ ap (λ o. move env vol name new_name (present o) ready) has

  -- A rename within the directory that succeeds has sent one patch. Over the snapshot `cur` that
  -- was cached when the patch came back, the new name has the value then, every other key but the
  -- old name what it had, and the old name nothing: so a rename of a key to itself deletes it.
  pub rename_moves :
      (cur : Snapshot)
      → (rename env vol name true new_name s).0 ≡ success
      → snap_of (env.object_patch change (name ∷ []) ready.shared).1.cur ≡ some cur
      → (view : Snapshot) × (current (rename env vol name true new_name s).1 ≡ some view)
        × (get view name ≡ none)
        × (name ≢ new_name → get view new_name ≡ some value)
        × ((k : Str) → k ≢ name → k ≢ new_name → get view k ≡ get cur k)
        × ((rename env vol name true new_name s).1.requests
            ≡ patch_object change (name ∷ []) ∷ ready.requests)
  rename_moves cur done held =
      let fine =
        errno_of-success (Commit.commit env none change (name ∷ []) ready).0
          (ap (λ r. r.0) (sym rename-commit) ∙ done) in
      let (view, cached, holds, _) =
        commit_reads_own_writes env ready none change (name ∷ []) cur refl
          (singleton-IsDistinct new_name value) fine held in
      (
        view,
        ap (λ r. current r.1) rename-commit ∙ cached,
        holds name
            ∙ ground
                (arith, merged_rename name new_name name value (get cur name), str_eq_refl name),
        λ other.
            holds new_name
            ∙ ground (
              arith,
              merged_rename name new_name new_name value (get cur new_name),
              str_eq_refl new_name,
              str_eq_iff name new_name,
            ),
        λ k a b.
            holds k
            ∙ ground (
              arith,
              merged_rename name new_name k value (get cur k),
              str_eq_iff name k,
              str_eq_iff new_name k,
            ),
        ap (λ r. r.1.requests) rename-commit
            ∙ requests-commit_ok env ready none change (name ∷ []) refl fine,
      )

-- ===== src/Handle/Saving.antt =====
-- `commit`, `unlock` and `Release` of pkg/objectfs/handle.go: when a buffer is sent, what a failure
-- leaves, and in which order the write and the lease go.
use roommate_csi.Prelude.{
  ℕ, ◌≡◌, ◌≢◌, ◌⊎◌, ◌∙◌, inl, inr, refl, ap, true, false, some, List, [], ◌∷◌, sym, arith, ==-refl,
  Bool-cases, if-true, if-false,
}
use roommate_csi.State.{Result, ok, err, Error, Handle, Request, patch_object, Shared, State, Env}
use roommate_csi.Commit
use roommate_csi.Commit.Outcome.{requests-commit_ok, handles-commit, handles-commit_ok}
use roommate_csi.State.Action.{set_handle}
use roommate_csi.Handle.{success, errno_for, handle, saved, commit}

pub errno_for-ne-success : (e : Error) → errno_for e ≢ success
unfolding errno_for
errno_for-ne-success e h = ground arith

pub Result-cases : (r : Result (Unit {0})) → (r ≡ ok tt) ⊎ ((e : Error) × (r ≡ err e))
Result-cases (ok u) = inl refl
Result-cases (err e) = inr (e, refl)

module _ {W : Type 0} (env : Env W) (h : ℕ) where
  clean_again : (t : State W) → (handle h t).dirty ≡ false → commit env h t ≡ (success, t)
  unfolding commit
  clean_again t clean = if-false (handle h t).dirty _ _ clean

module _ {W : Type 0} (env : Env W) (h : ℕ) (s : State W) where
  -- The state when the answer to the patch of the buffer has come.
  abbrev pub patched : Shared W
  patched = (env.object_patch (((handle h s).key, some (handle h s).buf) ∷ []) [] s.shared).1

  abbrev pub sends : List Request
  sends = patch_object (((handle h s).key, some (handle h s).buf) ∷ []) [] ∷ s.requests

  -- What the commit of a dirty handle returns and leaves, before `dirty` is cleared.
  abbrev pub outcome : Result (Unit {0}) × State W
  outcome =
      Commit.commit env (handle h s).lease (((handle h s).key, some (handle h s).buf) ∷ []) [] s

  commit_dirty : (handle h s).dirty ≡ true → commit env h s ≡ saved env h outcome.0 outcome.1
  unfolding commit
  commit_dirty dirty = if-true (handle h s).dirty _ _ dirty

  commit_dirty_ok :
      (handle h s).dirty ≡ true
      → (commit env h s).0 ≡ success
      → (outcome.0 ≡ ok tt) × (commit env h s ≡ saved env h (ok tt) outcome.1)
  commit_dirty_ok dirty done = elim (Result-cases outcome.0) [
    | inl e ↦ (e, commit_dirty dirty ∙ ap (λ r. saved env h r outcome.1) e)
    | inr (e, p) ↦ absurd (
        errno_for-ne-success e (
          ap (λ r. (saved env h r outcome.1).0) (sym p)
          ∙ ap (λ r. r.0) (sym (commit_dirty dirty))
          ∙ done))
  ]

  commit_dirty_err :
      (handle h s).dirty ≡ true → (commit env h s).0 ≢ success → (commit env h s).1 ≡ outcome.1
  commit_dirty_err dirty failed = elim (Result-cases outcome.0) [
    | inl e ↦
        absurd
          (failed (ap (λ r. r.0) (commit_dirty dirty) ∙ ap (λ r. (saved env h r outcome.1).0) e))
    | inr (e, p) ↦ ap (λ r. r.1) (commit_dirty dirty) ∙ ap (λ r. (saved env h r outcome.1).1) p
  ]

  pub requests_saved :
      (handle h s).dirty ≡ true → (commit env h s).0 ≡ success → (commit env h s).1.requests ≡ sends
  unfolding set_handle
  requests_saved dirty done =
      let (fine, e) = commit_dirty_ok dirty done in
      ap (λ r. r.1.requests) e
      ∙ requests-commit_ok env s (handle h s).lease (((handle h s).key, some (handle h s).buf) ∷ [])
          [] refl fine

  handle-saved :
      (t : State W) → handle h (saved env h (ok tt) t).1 ≡ record (handle h t) { dirty = false }
  unfolding set_handle
  handle-saved t = ground (arith, ==-refl h)

  handle_cleaned :
      (handle h s).dirty ≡ true
      → (commit env h s).0 ≡ success
      → handle h (commit env h s).1 ≡ record (patched.handles h) { dirty = false }
  handle_cleaned dirty done =
      let (fine, e) = commit_dirty_ok dirty done in
      let kept =
        handles-commit_ok env s (handle h s).lease (((handle h s).key, some (handle h s).buf) ∷ [])
          [] refl fine in
      ap (λ r. handle h r.1) e
      ∙ handle-saved outcome.1
      ∙ ap {B = Handle} (λ f. record (f h) { dirty = false }) kept

  handle_unsaved :
      patched.handles h ≡ handle h s
      → (commit env h s).0 ≢ success
      → handle h (commit env h s).1 ≡ handle h s
  handle_unsaved alone failed = elim (Bool-cases (handle h s).dirty) [
    | inl dirty ↦
        ap (handle h) (commit_dirty_err dirty failed)
        ∙ elim (handles-commit env s (handle h s).lease
            (((handle h s).key, some (handle h s).buf) ∷ []) []) [
              | inl e ↦ ap (λ f. f h) e
              | inr e ↦ ap (λ f. f h) e ∙ alone
            ]
    | inr clean ↦ absurd (failed (ap (λ r. r.0) (clean_again env h s clean)))
  ]

  -- Suppose that nobody else touches the handle while its patch is under way. A handle with nothing
  -- to save sends nothing. Otherwise success means that one patch of exactly the key and the buffer
  -- was sent and accepted, and the handle is clean with the same buffer; and failure leaves the
  -- handle as it was, so the next close tries again.
  pub commit_saves :
      patched.handles h ≡ handle h s
      → ((handle h s).dirty ≡ false → commit env h s ≡ (success, s))
        × ((handle h s).dirty ≡ true
            → (commit env h s).0 ≡ success
            → ((commit env h s).1.requests ≡ sends)
              × (handle h (commit env h s).1 ≡ record (handle h s) { dirty = false }))
        × ((commit env h s).0 ≢ success → handle h (commit env h s).1 ≡ handle h s)
  commit_saves alone = (
    clean_again env h s,
    λ dirty done. (
      requests_saved dirty done,
      handle_cleaned dirty done ∙ ap {B = Handle} (λ v. record v { dirty = false }) alone,
    ),
    handle_unsaved alone,
  )

  -- If the patch of a dirty handle succeeds, the handle becomes clean with whatever buffer it has by
  -- then. So a write by another thread that lands while the patch is under way is not sent: the patch
  -- carried the buffer of before, and the next commit has nothing to send.
  pub commit_forgets :
      (handle h s).dirty ≡ true
      → (commit env h s).0 ≡ success
      → ((commit env h s).1.requests ≡ sends)
        × ((handle h (commit env h s).1).buf ≡ (patched.handles h).buf)
        × (commit env h (commit env h s).1 ≡ (success, (commit env h s).1))
  commit_forgets dirty done = (
    requests_saved dirty done,
    ap (λ v. v.buf) (handle_cleaned dirty done),
    clean_again env h (commit env h s).1 (ap (λ v. v.dirty) (handle_cleaned dirty done)),
  )

-- ===== src/Mounts/Closing.antt =====
-- `Shutdown` of pkg/mounts/registry.go: every live mount is unmounted, whatever fails before.
use roommate_csi.Prelude.{
  some_inj, ℕ, ◌≡◌, sym, subst, ◌∙◌, some, [], ◌∷◌, Bool-cases, inl, inr, arith, if-true, if-false,
}
use roommate_csi.Prelude.Bytes.{Str, str_eq}
use roommate_csi.Map.{Map, lookup}
use roommate_csi.Mounts.{Node, Disk, Kernel, get_live, cancelled, stop, stop_all, shutdown}
use roommate_csi.Mounts.Stability.{IsStable, cancelled_keeps, stop_keeps, stop_all_keeps}

module _ {W : Type 0} (disk : Disk W) (kernel : Kernel W) (server : ℕ) (Asked : Node W → Type 0)
    (asks : (n : Node W) → Asked (kernel.unmount_server server n).1) (kept : IsStable kernel Asked)
    (p : ℕ) (served : IsStable kernel (λ n. (n.lives p).unmount ≡ some server)) where
  stop-asks : (n : Node W) → (n.lives p).unmount ≡ some server → Asked (stop disk kernel p n).1
  stop-asks n mounted =
      let n' = cancelled disk kernel (n.lives p).cancel n in
      let still : (n'.lives p).unmount ≡ some server =
        cancelled_keeps disk kernel (λ t. (t.lives p).unmount ≡ some server) served
          (n.lives p).cancel n mounted in
      rw still (asks n')

  stop_all-asks :
      (target : Str) (live : Map ℕ) (n : Node W)
      → lookup target live ≡ some p
      → (n.lives p).unmount ≡ some server
      → Asked (stop_all disk kernel live n)
  unfolding lookup
  stop_all-asks target [] n found mounted = absurd (ground arith)
  stop_all-asks target ((k, q) ∷ rest) n found mounted = elim (Bool-cases (str_eq k target)) [
    | inl same ↦
        let this : q ≡ p = some_inj.0 (sym (if-true _ _ _ same) ∙ found) in
        let asked = subst (λ x. Asked (stop disk kernel x n).1) (sym this) (stop-asks n mounted) in
        stop_all_keeps disk kernel Asked kept rest (stop disk kernel q n).1 asked
    | inr other ↦
        stop_all-asks target rest (stop disk kernel q n).1 (sym (if-false _ _ _ other) ∙ found)
          (stop_keeps disk kernel (λ t. (t.lives p).unmount ≡ some server) served q n mounted)
  ]

  -- Suppose that a server has been asked to unmount once it was, and that nobody else takes the
  -- server of the live mount from it meanwhile. Then a shutdown asks it for every target that had a
  -- live mount, also if the servers before it cannot be unmounted.
  pub shutdown-asks :
      (target : Str) (n : Node W)
      → get_live target n ≡ some p
      → (n.lives p).unmount ≡ some server
      → Asked (shutdown disk kernel n)
  unfolding shutdown get_live
  shutdown-asks target n found mounted =
      stop_all-asks target n.live (kernel.others n) found (served.others n mounted)

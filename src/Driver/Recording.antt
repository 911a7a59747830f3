-- ===== src/Driver/Recording.antt =====
-- The end of `publish`, and `NodeUnpublishVolume`, of pkg/driver/node.go: what the registry holds when
-- they fail, and what a restart finds.
use roommate_csi.Prelude.{
  ℕ, ◌≡◌, refl, sym, subst, ◌∙◌, ap, Option, none, some, true, false, update, if-false, ◌||◌, [],
  arith,
}
use roommate_csi.Prelude.Bytes.{Bytes, Str, str_eq}
use roommate_csi.Map.{Map, lookup, insert}
use roommate_csi.Map.Laws.{lookup-insert_same}
use roommate_csi.Volume.{Config}
use roommate_csi.Mounts.{
  Node, Live, Mount, Disk, Kernel, Fault, was_published, new_registry, get_live, put, remove,
}
use roommate_csi.Mounts.Persistence.{persist-Persists}
use roommate_csi.Mounts.Removal.{IsQuiet, IsForgotten, IsGone, remove-IsForgotten, remove-IsGone}
use roommate_csi.Driver.{
  Request, Calls, done, recorded, record_mount, unpublished, node_publish_volume,
  node_unpublish_volume,
}
use roommate_csi.Driver.Republishing.{is_complete, republish_swaps}

module _ {W : Type 0} (disk : Disk W) (kernel : Kernel W) (calls : Calls W) (target : Str) where
  -- Nobody else replaces or removes the live mount of the target meanwhile.
  pub record IsAlone : Type 0 where
    pub others : (n : Node W) → get_live target (kernel.others n) ≡ get_live target n
    pub cancel_watch :
        (i : ℕ) (n : Node W) → get_live target (kernel.cancel_watch i n) ≡ get_live target n
    pub unmount_server :
        (i : ℕ) (n : Node W) → get_live target (kernel.unmount_server i n).1 ≡ get_live target n

  module _ (alone : IsAlone) where
    recorded-get_live :
        (watch server : ℕ) (e : Option Fault) (n : Node W)
        → get_live target (recorded disk kernel calls watch server e n).1 ≡ get_live target n
    recorded-get_live watch server none n = refl
    recorded-get_live watch server (some e) n =
        alone.unmount_server server (kernel.cancel_watch watch n) ∙ alone.cancel_watch watch n

    put-get_live :
        (p : ℕ) (m : Mount) (n : Node W) → get_live target (put disk kernel target p m n).1 ≡ some p
    unfolding put get_live
    put-get_live p m n =
        let t = record n { live = insert target p n.live; records = insert target m n.records } in
        ap (lookup target) (persist-Persists disk (kernel.others t)).1.0
        ∙ alone.others t
        ∙ lookup-insert_same target p n.live

    -- Suppose that nobody else touches the live mount of the target meanwhile. Then the target has
    -- the new live mount once `Put` was called, also if its state file could not be written and
    -- the publish fails with the server unmounted. So the next publish of the target succeeds, and
    -- attempts no mount.
    pub record_mount-get_live :
        (p watch server : ℕ) (cfg : Config) (n : Node W)
        → let t = (record_mount disk kernel calls target p watch server cfg n).1 in
          (get_live target t ≡ some p)
          × ((req : Request)
              → is_complete req ≡ true
              → req.target_path ≡ target
              → ((node_publish_volume disk kernel calls req t).0 ≡ done tt)
                × ((node_publish_volume disk kernel calls req t).1.publish_attempts
                    ≡ t.publish_attempts))
    unfolding record_mount
    record_mount-get_live p watch server cfg n =
        let l : Live = record (n.lives p) { cancel = some watch; unmount = some server } in
        let m : Mount = record {
          target_path = target;
          object_kind = cfg.object_kind;
          object_name = cfg.object_name;
          namespace = cfg.namespace;
        } in
        let placed = record n { lives = update n.lives p l } in
        let saved = put disk kernel target p m placed in
        let live = recorded-get_live watch server saved.0 saved.1 ∙ put-get_live p m placed in
        (
          live,
          λ req complete same.
              let swapped =
                republish_swaps disk kernel calls req
                  (recorded disk kernel calls watch server saved.0 saved.1).1 p complete
                  (ap (λ x. get_live x (recorded disk kernel calls watch server saved.0 saved.1).1)
                      same
                    ∙ live) in
              (swapped.0, swapped.1.1),
        )

module _ {W : Type 0} (disk : Disk W) (kernel : Kernel W) (calls : Calls W) where
  unpublished-IsForgotten :
      (target : Str) (e : Option Fault) (n : Node W)
      → ((t : Node W) → IsForgotten target t → IsForgotten target (calls.remove_target target t))
      → IsForgotten target n
      → IsForgotten target (unpublished disk kernel calls target e n).1
  unpublished-IsForgotten target none n removal gone = removal n gone
  unpublished-IsForgotten target (some e) n removal gone = gone

  node_unpublish_volume_complete :
      (req : Request) (n : Node W)
      → is_complete req ≡ true
      → node_unpublish_volume disk kernel calls req n
        ≡ unpublished disk kernel calls req.target_path
            (remove disk kernel req.target_path n).0
            (remove disk kernel req.target_path n).1
  unfolding node_unpublish_volume
  node_unpublish_volume_complete req n complete =
      if-false (str_eq req.volume_id [] || str_eq req.target_path []) _ _ (ground arith)

  unpublished-IsGone :
      (target : Str) (e : Option Fault) (n : Node W)
      → ((t : Node W) → IsGone disk target t → IsGone disk target (calls.remove_target target t))
      → (e ≡ none → IsGone disk target n)
      → (unpublished disk kernel calls target e n).0 ≡ done tt
      → IsGone disk target (unpublished disk kernel calls target e n).1
  unpublished-IsGone target none n removal gone fine = removal n (gone refl)
  unpublished-IsGone target (some e) n removal gone fine = absurd (ground arith)

  gone_unpublished :
      (target : Str) (n : Node W)
      → IsForgotten target n
      → IsGone disk target n
      → was_published target (new_registry disk n) ≡ false
  unfolding was_published new_registry lookup
  gone_unpublished target n forgotten gone = rw gone refl

  -- Suppose that nobody publishes the target again while it is unpublished, or puts a record of it
  -- into the state file while its directory is removed, and that records that are encoded without one
  -- of the target can be decoded, to records without one. Then a complete request leaves the
  -- target, in memory, with neither a live mount nor a record, whether or not it is answered with an
  -- error; and if it is not, a process that is started then does not find the target as published.
  pub unpublish_forgets :
      (req : Request) (n : Node W) (quiet : IsQuiet disk kernel req.target_path)
      → ((m : Map Mount) (bytes : Bytes)
          → disk.marshal m ≡ some bytes
          → lookup req.target_path m ≡ none
          → (read : Map Mount) × (disk.unmarshal bytes ≡ some (some read))
            × (lookup req.target_path read ≡ none))
      → ((t : Node W)
          → IsForgotten req.target_path t
          → IsForgotten req.target_path (calls.remove_target req.target_path t))
      → ((t : Node W)
          → IsGone disk req.target_path t
          → IsGone disk req.target_path (calls.remove_target req.target_path t))
      → is_complete req ≡ true
      → IsForgotten req.target_path (node_unpublish_volume disk kernel calls req n).1
        × ((node_unpublish_volume disk kernel calls req n).0 ≡ done tt
            → was_published req.target_path
                (new_registry disk (node_unpublish_volume disk kernel calls req n).1)
              ≡ false)
  unpublish_forgets req n quiet codec removal removal_file complete =
      let r = remove disk kernel req.target_path n in
      let same = sym (node_unpublish_volume_complete req n complete) in
      let forgotten =
        unpublished-IsForgotten req.target_path r.0 r.1 removal
          (remove-IsForgotten disk kernel req.target_path quiet n) in
      subst
        (λ x.
          IsForgotten req.target_path x.1
          × (x.0 ≡ done tt → was_published req.target_path (new_registry disk x.1) ≡ false))
        same
        (
          forgotten,
          λ fine. gone_unpublished req.target_path _ forgotten (
              unpublished-IsGone req.target_path r.0 r.1 removal_file
                (remove-IsGone disk kernel req.target_path quiet codec n) fine),
        )

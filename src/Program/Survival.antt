-- ===== src/Program/Survival.antt =====
-- What outlives a process of cmd/node/main.go: a target that was published stays known.
use roommate_csi.Prelude.{
  ℕ, ◌+◌, ◌≡◌, refl, Bool, true, ◌&&◌, some, List, [], ◌∷◌, Bool-cases, inl, inr, arith,
}
use roommate_csi.Prelude.Bytes.{Bytes, Str, str_eq}
use roommate_csi.Map.{Map}
use roommate_csi.Mounts.{Mount, Node, Disk, Kernel, new_registry}
use roommate_csi.Mounts.Recorded.{InMap, HasRecord, new_registry-HasRecord}
use roommate_csi.Mounts.Stability.{shutdown_keeps}
use roommate_csi.Driver.{Calls, done, publish}
use roommate_csi.Driver.Tracking.{IsUndisturbed}
use roommate_csi.Driver.Success.{publish-HasRecord}
use roommate_csi.Driver.Service.{
  Identity, Call, Net, Served, Session, Ending, closed, interrupted, killed, answer_all, serve,
}
use roommate_csi.Program.{Flags, Run, disk_at, opened, selected, exits, main, processes}
use roommate_csi.Driver.Service.Answering.{
  refusals, all_spare, refusals_unanswered, IsUntouched, answer_all-AnswersAll, serve-Serves,
}

abbrev pub total_refusals : Str → List Session → List Run → ℕ
total_refusals target [] runs = 0
total_refusals target (session ∷ sessions) [] = 0
total_refusals target (session ∷ sessions) (run ∷ runs) =
    refusals target session.incoming run.replies + total_refusals target sessions runs

abbrev pub sessions_spare : Str → List Session → Bool
sessions_spare target [] = true
sessions_spare target (session ∷ rest) =
    all_spare target session.incoming && sessions_spare target rest

-- The state file stands where the flag says.
module _ {W : Type 0} (disk : Disk W) (kernel : Kernel W) (calls : Calls W) (net : Net W)
    (read_fails : Str → W → Bool × W) (version : Str) (flags : Flags) (target : Str)
    (codec : (m : Map Mount) (bytes : Bytes)
      → disk.marshal m ≡ some bytes
      → InMap target m
      → (read : Map Mount) × (disk.unmarshal bytes ≡ some (some read)) × InMap target read) where
  abbrev pub state_disk : Disk W
  state_disk = disk_at disk kernel calls net read_fails version flags.state_path

  module _ (undisturbed : IsUndisturbed kernel calls (HasRecord state_disk target))
      (untouched : IsUntouched state_disk net target) where
    -- What a process leaves.
    abbrev Lives : Session → Run × Node W → Type 0
    Lives session (run, n) =
        HasRecord state_disk target n × (refusals target session.incoming run.replies ≡ 0)

    selected-Lives :
        (session : Session) (ending : Ending) (served : Served) (n : Node W)
        → HasRecord state_disk target n
        → refusals target session.incoming served.replies ≡ 0
        → Lives session
            (selected disk kernel calls net read_fails version flags.state_path ending served n)
    selected-Lives session (closed fine) served n known none_refused = (known, none_refused)
    selected-Lives session interrupted served n known none_refused = (
      shutdown_keeps state_disk kernel (HasRecord state_disk target) undisturbed.kernel_calls n
          known,
      none_refused,
    )
    selected-Lives session killed served n known none_refused = (known, none_refused)

    exits-Lives :
        (session : Session) (n : Node W)
        → HasRecord state_disk target n
        → Lives session (exits disk kernel calls net read_fails version n)
    exits-Lives session n known = (known, refusals_unanswered target session.incoming)

    opened-Lives :
        (session : Session) (n : Node W)
        → all_spare target session.incoming ≡ true
        → HasRecord state_disk target n
        → Lives session (opened disk kernel calls net read_fails version flags session true n)
    opened-Lives session n spared known =
        let id : Identity = record {
          name = flags.driver_name;
          version = version;
          node_id = flags.node_id;
        } in
        let fresh : Node W = record n { publish_attempts = 0 } in
        let served = serve state_disk kernel calls net flags.endpoint id session fresh in
        let (kept, fine) =
          serve-Serves state_disk kernel calls net target codec undisturbed untouched flags.endpoint
            id session fresh spared known in
        selected-Lives session session.ending served.0 served.1 kept fine

    main-Lives :
        (session : Session) (n : Node W)
        → all_spare target session.incoming ≡ true
        → HasRecord state_disk target n
        → Lives session (main disk kernel calls net read_fails version flags session n)
    unfolding main
    main-Lives session n spared known =
        let (fails, w) = read_fails flags.state_path n.world in
        let read : Node W = record n { world = w } in
        elim (Bool-cases (str_eq flags.node_id [])) [
          | inl nameless ↦ rw nameless (exits-Lives session n known)
          | inr named ↦ elim (Bool-cases fails) [
            | inl unread ↦ rw (named, unread) (exits-Lives session read known)
            | inr opens ↦
                rw (named, opens)
                  (opened-Lives session (new_registry state_disk read) spared
                    (new_registry-HasRecord state_disk target read known))
          ]
        ]

    -- However many processes follow one another.
    processes-Survives :
        (sessions : List Session) (n : Node W)
        → sessions_spare target sessions ≡ true
        → HasRecord state_disk target n
        → total_refusals target sessions
            (processes disk kernel calls net read_fails version flags sessions n).0
          ≡ 0
    unfolding processes
    processes-Survives [] n spared known = refl
    processes-Survives (session ∷ later) n spared known =
        let (kept, fine) = main-Lives session n (ground arith) known in
        rw
          (
            fine,
            processes-Survives later
                (main disk kernel calls net read_fails version flags session n).1 (ground arith)
                kept,
          )
          refl

    -- Suppose that records that are encoded with one of the target can be decoded, to records with one
    -- of the target, and that nobody else touches the records of the target, in memory or in the state
    -- file, while a call of the system is under way. Once a
    -- publish of the target has succeeded, no complete publish request for it is answered with an
    -- error until it is unpublished: neither by the same process nor by those that follow it on the
    -- node, whichever calls these get, and whether they cannot start, end in an error, take a
    -- signal, or are killed between two calls.
    pub published_survives :
        (id : Identity) (vc : Map Str) (n : Node W)
        → ((t : Node W) → InMap target t.records → InMap target (kernel.others t).records)
        → (publish state_disk kernel calls target vc n).0 ≡ done tt
        → (incoming : List Call) (sessions : List Session) → all_spare target incoming ≡ true
        → sessions_spare target sessions ≡ true
        → let r =
            answer_all state_disk kernel calls net id incoming
              (publish state_disk kernel calls target vc n).1 in
          (refusals target incoming r.0 ≡ 0)
          × (total_refusals target sessions
                (processes disk kernel calls net read_fails version flags sessions r.1).0
              ≡ 0)
    published_survives id vc n alone fine incoming sessions spared all_spared =
        let known = publish-HasRecord state_disk kernel calls target codec alone vc n fine in
        let (kept, none_refused) =
          answer_all-AnswersAll state_disk kernel calls net target codec undisturbed id incoming
            (publish state_disk kernel calls target vc n).1 spared known in
        (none_refused, processes-Survives sessions _ all_spared kept)

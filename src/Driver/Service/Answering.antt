-- ===== src/Driver/Service/Answering.antt =====
-- How the calls and `Serve` of pkg/driver treat a target that has a record.
use roommate_csi.Prelude.{
  ℕ, ◌+◌, ◌≡◌, refl, sym, subst, Bool, true, false, not, ◌&&◌, some, List, [], ◌∷◌, Bool-cases, inl,
  inr, arith, if◌then◌else◌,
}
use roommate_csi.Prelude.Bytes.{Bytes, Str, str_eq, str_eq_iff}
use roommate_csi.Map.{Map}
use roommate_csi.Mounts.{Mount, Node, Disk, Kernel, was_published}
use roommate_csi.Mounts.Recorded.{InMap, HasRecord, put-HasRecord, remove-HasRecord}
use roommate_csi.Driver.{Request, Calls}
use roommate_csi.Driver.Republishing.{is_complete, known_target_succeeds}
use roommate_csi.Driver.Tracking.{
  IsUndisturbed, node_publish_volume-Keeps, node_unpublish_volume_keeps,
}
use roommate_csi.Driver.Service.{
  Identity, Call, publish_volume, unpublish_volume, get_plugin_info, get_plugin_capabilities, probe,
  node_get_capabilities, node_get_info, Reply, refused, Net, Removal, removed, absent, in_place,
  Served, ServeFault, bad_endpoint, remove_failed, listen_failed, failing, listening, unlinked,
  trim_prefix, scheme, Session, answer, answer_all, serve,
}

-- A complete publish request for the target.
abbrev pub publishes : Str → Call → Bool
publishes target (publish_volume req) = is_complete req && str_eq req.target_path target
publishes target (unpublish_volume req) = false
publishes target get_plugin_info = false
publishes target get_plugin_capabilities = false
publishes target probe = false
publishes target node_get_capabilities = false
publishes target node_get_info = false

abbrev pub is_refused : Reply → Bool
is_refused (refused c) = true
is_refused (Reply.plugin_info name version) = false
is_refused Reply.no_capabilities = false
is_refused (Reply.is_ready ready) = false
is_refused (Reply.node_info id) = false
is_refused Reply.empty_response = false

-- How many of the complete publish requests for the target were answered with an error.
abbrev pub refusals : Str → List Call → List Reply → ℕ
refusals target [] replies = 0
refusals target (call ∷ rest) [] = 0
refusals target (call ∷ rest) (r ∷ replies) =
    (if publishes target call && is_refused r then 1 else 0) + refusals target rest replies

pub refusals_unanswered : (target : Str) (incoming : List Call) → refusals target incoming [] ≡ 0
refusals_unanswered target [] = refl
refusals_unanswered target (call ∷ rest) = refl

-- The call does not unpublish the target.
abbrev pub spares : Str → Call → Bool
spares target (unpublish_volume req) = not (str_eq req.target_path target)
spares target (publish_volume req) = true
spares target get_plugin_info = true
spares target get_plugin_capabilities = true
spares target probe = true
spares target node_get_capabilities = true
spares target node_get_info = true

abbrev pub all_spare : Str → List Call → Bool
all_spare target [] = true
all_spare target (call ∷ rest) = spares target call && all_spare target rest

InMap-was_published :
    {W : Type 0} (target : Str) (n : Node W)
    → InMap target n.records
    → was_published target n ≡ true
unfolding was_published
InMap-was_published target n has = ground arith

module _ {W : Type 0} (disk : Disk W) (net : Net W) (target : Str) where
  -- Nobody touches the records of the target while `Serve` opens its socket.
  pub record IsUntouched : Type 0 where
    pub remove_socket :
        (path : Str) (n : Node W)
        → HasRecord disk target n
        → HasRecord disk target (net.remove_socket path n).1
    pub listen :
        (path : Str) (n : Node W)
        → HasRecord disk target n
        → HasRecord disk target (net.listen path n).1

module _ {W : Type 0} (disk : Disk W) (kernel : Kernel W) (calls : Calls W) (net : Net W)
    (target : Str)
    (codec : (m : Map Mount) (bytes : Bytes)
      → disk.marshal m ≡ some bytes
      → InMap target m
      → (read : Map Mount) × (disk.unmarshal bytes ≡ some (some read)) × InMap target read)
    (undisturbed : IsUndisturbed kernel calls (HasRecord disk target)) where
  -- What a call leaves.
  abbrev pub Answers : Call → Reply × Node W → Type 0
  Answers call (r, n) = HasRecord disk target n × ((publishes target call && is_refused r) ≡ false)

  publish-Answers :
      (id : Identity) (req : Request) (n : Node W)
      → HasRecord disk target n
      → Answers (publish_volume req) (answer disk kernel calls net id (publish_volume req) n)
  publish-Answers id req n known = (
    node_publish_volume-Keeps disk kernel calls (HasRecord disk target) undisturbed
        (λ m lives next attempts kept. kept)
        (put-HasRecord disk target codec kernel undisturbed.kernel_calls) req n known,
    elim (Bool-cases (is_complete req && str_eq req.target_path target)) [
      | inl concerned ↦
          let same : req.target_path ≡ target =
            (str_eq_iff req.target_path target).0 (ground arith) in
          let waited : HasRecord disk target (calls.wait_for req.target_path n) =
            undisturbed.wait_for req.target_path n known in
          rw
            (known_target_succeeds disk kernel calls req n (ground arith) (
              InMap-was_published req.target_path (calls.wait_for req.target_path n) (
                subst (λ k. InMap k (calls.wait_for req.target_path n).records) (sym same)
                  waited.0)))
            (ground arith)
      | inr other ↦ rw other refl
    ],
  )

  answer-Answers :
      (id : Identity) (call : Call) (n : Node W)
      → spares target call ≡ true
      → HasRecord disk target n
      → Answers call (answer disk kernel calls net id call n)
  answer-Answers id (publish_volume req) n spared known = publish-Answers id req n known
  answer-Answers id (unpublish_volume req) n spared known = (
    node_unpublish_volume_keeps disk kernel calls (HasRecord disk target) undisturbed
        (λ m lives next attempts kept. kept)
        (put-HasRecord disk target codec kernel undisturbed.kernel_calls) req n known
        (remove-HasRecord disk target codec kernel undisturbed.kernel_calls req.target_path n
          (ground arith) known),
    refl,
  )
  answer-Answers id get_plugin_info n spared known = (known, refl)
  answer-Answers id get_plugin_capabilities n spared known = (known, refl)
  answer-Answers id probe n spared known = (known, refl)
  answer-Answers id node_get_capabilities n spared known = (known, refl)
  answer-Answers id node_get_info n spared known = (known, refl)

  -- What a sequence of calls leaves.
  abbrev pub AnswersAll : List Call → List Reply × Node W → Type 0
  AnswersAll incoming (replies, n) =
      HasRecord disk target n × (refusals target incoming replies ≡ 0)

  pub answer_all-AnswersAll :
      (id : Identity) (incoming : List Call) (n : Node W)
      → all_spare target incoming ≡ true
      → HasRecord disk target n
      → AnswersAll incoming (answer_all disk kernel calls net id incoming n)
  unfolding answer_all
  answer_all-AnswersAll id [] n spared known = (known, refl)
  answer_all-AnswersAll id (call ∷ rest) n spared known =
      let (kept, fine) = answer-Answers id call n (ground arith) known in
      let (kept', fine') =
        answer_all-AnswersAll id rest (answer disk kernel calls net id call n).1 (ground arith)
          kept in
      (kept', rw (fine, fine') refl)

  module _ (untouched : IsUntouched disk net target) where
    -- What `Serve` leaves.
    abbrev pub Serves : Session → Served × Node W → Type 0
    Serves session (served, n) =
        HasRecord disk target n × (refusals target session.incoming served.replies ≡ 0)

    failing-Serves :
        (session : Session) (e : ServeFault) (n : Node W)
        → HasRecord disk target n
        → Serves session (failing disk kernel calls net e n)
    failing-Serves session e n known = (known, refusals_unanswered target session.incoming)

    listening-Serves :
        (id : Identity) (session : Session) (fine : Bool) (n : Node W)
        → all_spare target session.incoming ≡ true
        → HasRecord disk target n
        → Serves session (listening disk kernel calls net id session fine n)
    listening-Serves id session true n spared known =
        answer_all-AnswersAll id session.incoming n spared known
    listening-Serves id session false n spared known = failing-Serves session listen_failed n known

    unlinked-Serves :
        (id : Identity) (session : Session) (path : Str) (r : Removal) (n : Node W)
        → all_spare target session.incoming ≡ true
        → HasRecord disk target n
        → Serves session (unlinked disk kernel calls net id session path r n)
    unlinked-Serves id session path in_place n spared known =
        failing-Serves session remove_failed n known
    unlinked-Serves id session path removed n spared known =
        listening-Serves id session (net.listen path n).0 (net.listen path n).1 spared
          (untouched.listen path n known)
    unlinked-Serves id session path absent n spared known =
        listening-Serves id session (net.listen path n).0 (net.listen path n).1 spared
          (untouched.listen path n known)

    pub serve-Serves :
        (endpoint : Str) (id : Identity) (session : Session) (n : Node W)
        → all_spare target session.incoming ≡ true
        → HasRecord disk target n
        → Serves session (serve disk kernel calls net endpoint id session n)
    unfolding serve
    serve-Serves endpoint id session n spared known =
        let path = trim_prefix endpoint scheme in
        elim (Bool-cases (str_eq path endpoint)) [
          | inl bare ↦ rw bare (failing-Serves session bad_endpoint n known)
          | inr prefixed ↦ rw prefixed (
              unlinked-Serves id session path (net.remove_socket path n).0
                (net.remove_socket path n).1 spared (untouched.remove_socket path n known))
        ]

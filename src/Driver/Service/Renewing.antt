-- ===== src/Driver/Service/Renewing.antt =====
-- Kubelet's republishes of one target, one after another, through pkg/driver/node.go.
use roommate_csi.Prelude.{
  ℕ, ◌≡◌, refl, sym, ◌∙◌, ap, Bool, true, ◌&&◌, Option, none, some, List, [], ◌∷◌, arith, ==-refl,
  subst,
}
use roommate_csi.Prelude.Bytes.{Str, str_eq, str_eq_iff}
use roommate_csi.Map.{lookup}
use roommate_csi.Token.{extract}
use roommate_csi.Mounts.{Node, Disk, Kernel, get_live}
use roommate_csi.Driver.{Request, Calls, Outcome, done, set_token, swap_token, node_publish_volume}
use roommate_csi.Driver.Republishing.{is_complete, republish-swap_token}
use roommate_csi.Driver.Service.{
  Identity, Call, publish_volume, Reply, empty_response, reply_of, Net, answer_all,
}

-- The requests are complete and for the target.
abbrev pub all_for : Str → List Request → Bool
all_for target [] = true
all_for target (req ∷ rest) =
    (is_complete req && str_eq req.target_path target) && all_for target rest

abbrev pub published : List Request → List Call
published [] = []
published (req ∷ rest) = publish_volume req ∷ published rest

abbrev pub accepted_all : List Request → List Reply
accepted_all [] = []
accepted_all (req ∷ rest) = empty_response ∷ accepted_all rest

abbrev pub newer : Option Str → Option Str → Option Str
newer none old = old
newer (some token) old = some token

module _ {W : Type 0} (disk : Disk W) (kernel : Kernel W) (calls : Calls W) (net : Net W) where
  -- The token of the last request that carries a usable one.
  abbrev pub latest : List Request → Option Str → Option Str
  latest [] old = old
  latest (req ∷ rest) old =
      latest rest (newer (extract calls.unmarshal_tokens req.volume_context) old)

  -- What a new token leaves.
  abbrev Renewed : ℕ → Option Str → Node W → Node W → Type 0
  Renewed p found n t =
      (t.live ≡ n.live)
      × (t.publish_attempts ≡ n.publish_attempts)
      × ((t.lives p).token ≡ newer found (n.lives p).token)

  set_token-Renewed :
      (p : ℕ) (found : Option Str) (n : Node W) → Renewed p found n (set_token found p n)
  set_token-Renewed p none n = (refl, refl, refl)
  set_token-Renewed p (some token) n = (refl, refl, rw (==-refl p) refl)

  answer_all-publish_volume :
      (id : Identity) (req : Request) (rest : List Call) (n n' : Node W)
      → node_publish_volume disk kernel calls req n ≡ (done tt, n')
      → answer_all disk kernel calls net id (publish_volume req ∷ rest) n ≡ (
        empty_response ∷ (answer_all disk kernel calls net id rest n').0,
        (answer_all disk kernel calls net id rest n').1,
      )
  unfolding answer_all
  answer_all-publish_volume id req rest n n' e =
      ap
        (λ (q : Outcome (Unit {0}) × Node W).
          let r = answer_all disk kernel calls net id rest q.1 in (reply_of q.0 ∷ r.0, r.1))
        e

  -- What a series of republishes leaves.
  abbrev Ends : ℕ → List Request → Node W → List Reply × Node W → Type 0
  Ends p reqs n (replies, t) =
      (replies ≡ accepted_all reqs)
      × (t.publish_attempts ≡ n.publish_attempts)
      × (t.live ≡ n.live)
      × ((t.lives p).token ≡ latest reqs (n.lives p).token)

  -- Whatever tokens kubelet's republishes of a target with a live mount carry, all of them are
  -- accepted, no publish is attempted, the registry's live mounts stay, and in the end the client of
  -- the mount has the token of the last request that carried a usable one, or the one it had if none
  -- did.
  pub republishes_renew :
      (id : Identity) (target : Str) (p : ℕ) (reqs : List Request) (n : Node W)
      → all_for target reqs ≡ true
      → get_live target n ≡ some p
      → let r = answer_all disk kernel calls net id (published reqs) n in
        (r.0 ≡ accepted_all reqs)
        × (r.1.publish_attempts ≡ n.publish_attempts)
        × (r.1.live ≡ n.live)
        × ((r.1.lives p).token ≡ latest reqs (n.lives p).token)
  unfolding answer_all swap_token get_live
  republishes_renew id target p [] n every found = (refl, refl, refl, refl)
  republishes_renew id target p (req ∷ rest) n every found =
      let here : req.target_path ≡ target = (str_eq_iff req.target_path target).0 (ground arith) in
      let token = extract calls.unmarshal_tokens req.volume_context in
      let n' = set_token token p n in
      let (live, attempts, renewed) = set_token-Renewed p token n in
      let (replies, attempts', live', renewed') =
        republishes_renew id target p rest n' (ground arith) (ap (lookup target) live ∙ found) in
      let step : node_publish_volume disk kernel calls req n ≡ (done tt, n') =
        republish-swap_token disk kernel calls req n p (ground arith)
          (ap (λ k. get_live k n) here ∙ found) in
      subst (Ends p (req ∷ rest) n)
        (sym (answer_all-publish_volume id req (published rest) n n' step))
        (
          ap (λ l. empty_response ∷ l) replies,
          attempts' ∙ attempts,
          live' ∙ live,
          renewed' ∙ ap (latest rest) renewed,
        )

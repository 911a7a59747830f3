-- ===== src/Tests/StoreRuns.antt =====
-- The theorems on snapshots, keys, the cache, commits and attributes, at concrete inputs.
use roommate_csi.Prelude.{
  List, ◌*◌, ◌<◌, ◌≤◌, ◌≡◌, ◌≢◌, ◌↔◌, refl, true, none, some, [], ◌∷◌, arith,
}
use roommate_csi.Prelude.Bytes.{Str, str, str_eq}
use roommate_csi.Prelude.Int.{ℤ, pos, int64}
use roommate_csi.Map.{Map, lookup}
use roommate_csi.Map.Laws.{singleton-IsDistinct}
use roommate_csi.Number.{parse_uint, atoi}
use roommate_csi.Snapshot.{Snapshot, get, size, with_changes, max_object_bytes}
use roommate_csi.Snapshot.Content.{merged}
use roommate_csi.Keys.{valid_key}
use roommate_csi.Keys.Names.{IsKey, valid_key_iff}
use roommate_csi.State.{patch_object, State, Slice, contents}
use roommate_csi.Cache.{second, current, set_from_watch}
use roommate_csi.Commit.{commit, fenced}
use roommate_csi.Commit.Outcome.{commit_succeeds, commit_reads_own_writes, commit-set_from_watch}
use roommate_csi.Volume.{
  Config, good, parse_config, parse_mode, parse_uint32, parse_seconds, attribute,
}
use roommate_csi.Volume.Attributes.{IsSound, parse_config-IsSound, parse_seconds_wraps, nanoseconds}
use roommate_csi.Driver.RbacHint.{Rule, role_rules}
use roommate_csi.Driver.RbacHint.Granting.{
  permits, access_of, object_access, lease_access, IsOwn, role_rules-permits,
}
use roommate_csi.State.{get_lease}
use roommate_csi.Map.{member}
use roommate_csi.Tests.World.{World, env, cfg, start, stale}

abbrev fixed : Map Slice
fixed = (str "token", some (str "fixed")) ∷ []

abbrev pair : Snapshot
pair = record stale { entries = (str "b", str "2") ∷ (str "a", str "1") ∷ [] }

valid_key_iff_example : (valid_key (str "oauth.json") ≡ true) ↔ IsKey (str "oauth.json")
valid_key_iff_example = valid_key_iff (str "oauth.json")

-- Manager 5 holds a lease whose renewal succeeds.
abbrev firm : State World
firm = record start {
  shared = record start.shared {
    managers = λ i. record (start.managers i) { held = true; healthy = true };
  };
}

commit_succeeds_example :
    (commit env (some 5) fixed [] firm).1.requests ≡ patch_object fixed [] ∷ []
unfolding commit with_changes size str_eq fenced
commit_succeeds_example = (commit_succeeds env firm (some 5) fixed [] refl).1 refl

commit_reads_own_writes_example :
    (view : Snapshot) × (current (commit env none fixed [] start).1 ≡ some view)
    × ((k : Str) → get view k ≡ merged (contents fixed) [] k (get stale k))
    × (current start ≡ some stale → size view ≤ max_object_bytes)
unfolding commit with_changes size str_eq
commit_reads_own_writes_example =
    commit_reads_own_writes env start none fixed [] stale refl
      (singleton-IsDistinct (str "token") (str "fixed")) refl refl

-- An event of before the commit replaces what the commit left.
commit-set_from_watch_example :
    current (set_from_watch env (some stale) (commit env none fixed [] start).1) ≡ some stale
unfolding commit with_changes size str_eq
commit-set_from_watch_example =
    commit-set_from_watch env start none fixed [] stale stale refl refl refl

abbrev attributes : Map Str
attributes =
    (str "objectKind", str "Secret")
    ∷ (str "objectName", str "creds")
    ∷ (str "leaseDurationSeconds", str "9223372037")
    ∷ (str "fileMode", str "0640")
    ∷ []

abbrev accepted : Config
accepted = record cfg { file_mode = 0o640; lease_duration = int64 (9223372037 * second) }

accepts : parse_config (λ name. true) attributes (str "app") ≡ good accepted
unfolding parse_config attribute parse_uint parse_seconds atoi str_eq parse_mode parse_uint32
accepts = refl

parse_config-IsSound_example : IsSound (λ name. true) attributes (str "app") accepted
parse_config-IsSound_example =
    parse_config-IsSound (λ name. true) attributes (str "app") accepted accepts

parse_seconds_wraps_example :
    (d : ℤ) × (parse_seconds attributes (str "leaseDurationSeconds") (pos 0) ≡ good d)
    × (9223372037 ≤ 9223372036 → d ≡ pos (9223372037 * second))
    × (9223372036 < 9223372037 → nanoseconds d ≢ some (9223372037 * second))
unfolding attribute lookup str_eq atoi
parse_seconds_wraps_example =
    parse_seconds_wraps attributes (str "leaseDurationSeconds") (pos 0) 9223372036
      (λ e. ground arith) refl

abbrev granted : List Rule
granted = role_rules (str "Secret") (str "creds") (str "roommate-creds")

role_rules-permits_example :
    (permits granted (access_of accepted get_lease) ≡ true)
    × (permits granted (object_access accepted (str "watch")) ≡ true)
    × IsOwn accepted (lease_access none (str "create"))
unfolding permits role_rules member str_eq
role_rules-permits_example =
    role_rules-permits (λ name. true) attributes (str "app") accepted accepts get_lease
      (lease_access none (str "create")) refl

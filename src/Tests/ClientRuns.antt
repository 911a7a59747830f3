-- ===== src/Tests/ClientRuns.antt =====
-- The theorem on the pod's client, for a configuration with the driver's own credentials.
use roommate_csi.Prelude.{◌≡◌, ◌≢◌, ◌++◌, none, some, [], ◌∷◌, arith, ap}
use roommate_csi.Prelude.Bytes.{Str, str}
use roommate_csi.Map.{Map, lookup}
use roommate_csi.Token.Client.{
  RoundTripper, RestConfig, IsAnonymous, wrapped, client_for, client_for-authorize,
}

abbrev Sent : Type 0
Sent = Map Str

abbrev Config : Type 0
Config = RestConfig Sent Str Str Str

abbrev base : RoundTripper Sent
base token headers = headers

-- The driver's own token, when the configuration has one, goes into the header.
abbrev own_header : Str → Map Str → Map Str
own_header [] headers = headers
own_header (b ∷ token) headers = (str "Authorization", str "Bearer " ++ (b ∷ token)) ∷ headers

abbrev send : Config → RoundTripper Sent
send c token headers = own_header c.bearer_token (wrapped c.wraps base token headers)

abbrev in_cluster : Config
in_cluster = record {
  bearer_token = str "driver";
  bearer_token_file = str "/var/run/secrets/token";
  username = [];
  password = [];
  cert_file = [];
  key_file = [];
  cert_data = [];
  key_data = [];
  auth_provider = none;
  exec_provider = none;
  wraps = [];
  others = str "https://10.0.0.1";
}

send_plain : (c : Config) → IsAnonymous c → send c ≡ wrapped c.wraps base
send_plain c anonymous =
    ap (λ own token headers. own_header own (wrapped c.wraps base token headers))
      anonymous.no_token.0

some_token : str "pod" ≢ []
some_token e = ground arith

client_for-authorize_example :
    (c : Config) × (sent : Map Str) × (client_for (some in_cluster) ≡ some c)
    × (c.others ≡ in_cluster.others)
    × (send c (some (str "pod")) [] ≡ wrapped in_cluster.wraps base (some (str "pod")) sent)
    × (lookup (str "Authorization") sent ≡ some (str "Bearer " ++ str "pod"))
    × ((k : Str) → k ≢ str "Authorization" → lookup k sent ≡ lookup k [])
client_for-authorize_example =
    client_for-authorize send base send_plain in_cluster (str "pod") [] some_token

-- ===== src/Token/Client.antt =====
-- pkg/podtoken/token.go: ClientFor, clearCredentials and wrapTokenAuth. Of client-go's `rest.Config`
-- the fields that the code writes are fields here, and `others` is the rest of it: the address of the
-- API server and its CA. A round tripper gets the token that the holder has when the request is sent,
-- and the headers of the request.
use roommate_csi.Prelude.{◌≡◌, ◌≢◌, ◌++◌, Option, none, some, List, [], ◌∷◌, refl, arith, ap, ◌∙◌}
use roommate_csi.Prelude.Bytes.{Bytes, Str, str, str_eq_iff}
use roommate_csi.Map.{Map, lookup}
use roommate_csi.Map.Laws.{lookup-insert, lookup-insert_same}
use roommate_csi.Token.{authorize}

abbrev pub RoundTripper : Type 0 → Type 0
RoundTripper A = Option Str → Map Str → A

-- `P` and `E` are the types of the plugins' configurations, `R` is that of all other fields.
pub record RestConfig (A P E R : Type 0) : Type 0 where
  pub bearer_token : Str
  pub bearer_token_file : Str
  pub username : Str
  pub password : Str
  pub cert_file : Str
  pub key_file : Str
  pub cert_data : Bytes
  pub key_data : Bytes
  pub auth_provider : Option P
  pub exec_provider : Option E
  -- the middleware that `Wrap` was called with, in order
  pub wraps : List (RoundTripper A → RoundTripper A)
  pub others : R

-- `RoundTrip`
abbrev pub token_round_tripper : {A : Type 0} → RoundTripper A → RoundTripper A
token_round_tripper next token headers = next token (authorize token headers)

module _ {A : Type 0} where
  -- Each middleware around those before it.
  abbrev pub wrapped : List (RoundTripper A → RoundTripper A) → RoundTripper A → RoundTripper A
  wrapped [] base = base
  wrapped (f ∷ fs) base = wrapped fs (f base)

  wrapped_last :
      (fs : List (RoundTripper A → RoundTripper A)) (f : RoundTripper A → RoundTripper A)
      (base : RoundTripper A)
      → wrapped (fs ++ (f ∷ [])) base ≡ f (wrapped fs base)
  wrapped_last [] f base = refl
  wrapped_last (g ∷ fs) f base = wrapped_last fs f (g base)

authorize_lem :
    (token : Str) (headers : Map Str)
    → token ≢ []
    → lookup (str "Authorization") (authorize (some token) headers) ≡ some (str "Bearer " ++ token)
unfolding authorize
authorize_lem token headers present = ground (
  arith,
  str_eq_iff token [],
  lookup-insert_same (str "Authorization") (str "Bearer " ++ token) headers,
)

authorize_others :
    (token : Str) (headers : Map Str) (k : Str)
    → k ≢ str "Authorization"
    → lookup k (authorize (some token) headers) ≡ lookup k headers
unfolding authorize
authorize_others token headers k other = ground (
  arith,
  str_eq_iff (str "Authorization") k,
  lookup-insert k (str "Authorization") (str "Bearer " ++ token) headers,
)

module _ {A P E R : Type 0} where
  unfoldable pub clear_credentials : RestConfig A P E R → RestConfig A P E R
  clear_credentials cfg = record cfg {
    bearer_token = [];
    bearer_token_file = [];
    username = [];
    password = [];
    cert_file = [];
    key_file = [];
    cert_data = [];
    key_data = [];
    auth_provider = none;
    exec_provider = none;
  }

  unfoldable pub wrap_token_auth : RestConfig A P E R → RestConfig A P E R
  wrap_token_auth cfg = record cfg { wraps = cfg.wraps ++ (token_round_tripper ∷ []) }

  -- `ClientFor`, from what `InClusterConfig` returns to what `NewForConfig` is given.
  unfoldable pub client_for : Option (RestConfig A P E R) → Option (RestConfig A P E R)
  unfolding clear_credentials wrap_token_auth
  client_for none = none
  client_for (some cfg) = some (wrap_token_auth (clear_credentials cfg))

  -- A configuration without credentials.
  pub record IsAnonymous (cfg : RestConfig A P E R) : Type 0 where
    pub no_token : (cfg.bearer_token ≡ []) × (cfg.bearer_token_file ≡ [])
    pub no_user : (cfg.username ≡ []) × (cfg.password ≡ [])
    pub no_cert_file : (cfg.cert_file ≡ []) × (cfg.key_file ≡ [])
    pub no_cert_data : (cfg.cert_data ≡ []) × (cfg.key_data ≡ [])
    pub no_plugin : (cfg.auth_provider ≡ none) × (cfg.exec_provider ≡ none)

  anonymous_lem : (cfg : RestConfig A P E R) → IsAnonymous (wrap_token_auth (clear_credentials cfg))
  unfolding wrap_token_auth clear_credentials
  anonymous_lem cfg = record {
    no_token = (refl, refl);
    no_user = (refl, refl);
    no_cert_file = (refl, refl);
    no_cert_data = (refl, refl);
    no_plugin = (refl, refl);
  }

  -- Suppose that client-go sends the requests of a client whose configuration has no credentials
  -- through its middleware, the last one outermost, and leaves the headers alone itself. Then
  -- ClientFor succeeds if there is a configuration of the cluster, whatever credentials that has, and
  -- the client keeps the rest of that configuration. Each of its requests, under a token that is not
  -- empty by the time it is sent, enters the cluster's own middleware with just that token to
  -- authenticate it, and with all other headers that it had.
  pub client_for-authorize :
      (send : RestConfig A P E R → RoundTripper A) (base : RoundTripper A)
      → ((c : RestConfig A P E R) → IsAnonymous c → send c ≡ wrapped c.wraps base)
      → (cfg : RestConfig A P E R) (token : Str) (headers : Map Str) → token ≢ []
      → (c : RestConfig A P E R) × (sent : Map Str) × (client_for (some cfg) ≡ some c)
        × (c.others ≡ cfg.others)
        × (send c (some token) headers ≡ wrapped cfg.wraps base (some token) sent)
        × (lookup (str "Authorization") sent ≡ some (str "Bearer " ++ token))
        × ((k : Str) → k ≢ str "Authorization" → lookup k sent ≡ lookup k headers)
  unfolding client_for
  client_for-authorize send base plain cfg token headers present =
      let c = wrap_token_auth (clear_credentials cfg) in
      let through = plain c (anonymous_lem cfg) ∙ wrapped_last cfg.wraps token_round_tripper base in
      (
        c,
        authorize (some token) headers,
        refl,
        refl,
        ap (λ f. f (some token) headers) through,
        authorize_lem token headers present,
        authorize_others token headers,
      )

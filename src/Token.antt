-- ===== src/Token.antt =====
-- pkg/podtoken/token.go: the pod's identity and its bearer token. The JSON decoder of the token
-- payload is the parameter `unmarshal`; JSON's null is the empty map.
pub mod Client
use roommate_csi.Prelude.{◌||◌, Option, none, some, [], ◌∷◌, ◌++◌, if◌then◌else◌}
use roommate_csi.Prelude.Bytes.{Str, str, str_eq}
use roommate_csi.Map.{Map, lookup, insert}
use roommate_csi.Volume.{attribute}

abbrev pub key_tokens : Str
key_tokens = str "csi.storage.k8s.io/serviceAccount.tokens"

abbrev pub key_pod_namespace : Str
key_pod_namespace = str "csi.storage.k8s.io/pod.namespace"

abbrev pub key_pod_uid : Str
key_pod_uid = str "csi.storage.k8s.io/pod.uid"

abbrev pub key_pod_service_acct : Str
key_pod_service_acct = str "csi.storage.k8s.io/serviceAccount.name"

pub record TokenEntry : Type 0 where
  pub token : Str
  pub expiration_timestamp : Str

pub record Identity : Type 0 where
  pub namespace : Str
  pub service_account : Str
  pub uid : Str

-- A token that is not empty.
abbrev pub usable : Str → Option Str
usable token = if str_eq token [] then none else some token

abbrev pub sole_entry : Map TokenEntry → Option Str
sole_entry [] = none
sole_entry ((audience, e) ∷ []) = usable e.token
sole_entry ((audience, e) ∷ (f ∷ rest)) = none

-- The default audience first.
abbrev pub pick : Option TokenEntry → Map TokenEntry → Option Str
pick none entries = sole_entry entries
pick (some e) entries = if str_eq e.token [] then sole_entry entries else some e.token

abbrev pub decoded : Option (Map TokenEntry) → Option Str
decoded none = none
decoded (some entries) = pick (lookup [] entries) entries

unfoldable pub extract : (Str → Option (Map TokenEntry)) → Map Str → Option Str
unfolding attribute
extract unmarshal vc =
    let raw = attribute vc key_tokens in if str_eq raw [] then none else decoded (unmarshal raw)

unfoldable pub pod_identity : Map Str → Option Identity
unfolding attribute
pod_identity vc =
    let namespace = attribute vc key_pod_namespace in
    let service_account = attribute vc key_pod_service_acct in
    let uid = attribute vc key_pod_uid in
    if str_eq namespace [] || str_eq service_account [] || str_eq uid []
    then none
    else some (record { namespace = namespace; service_account = service_account; uid = uid })

-- The headers that `RoundTrip` sends, under the token that the holder has by then.
unfoldable pub authorize : Option Str → Map Str → Map Str
unfolding insert
authorize none headers = headers
authorize (some token) headers =
    if str_eq token []
    then headers
    else insert (str "Authorization") (str "Bearer " ++ token) headers

-- ===== src/Driver/RbacHint/Granting.antt =====
-- What the role of the hint grants, under the documented meaning of RBAC: a request is permitted if a
-- rule names its group, its resource, its verb and, if the rule names objects, its object.
use roommate_csi.Prelude.{
  ◌≡◌, ◌⊎◌, ◌↔◌, Bool, true, false, ◌&&◌, ◌||◌, Option, none, some, List, [], ◌∷◌, refl, arith,
  if◌then◌else◌, inl, inr,
}
use roommate_csi.Prelude.Bytes.{Str, str, str_eq, str_eq_iff, str_eq_refl}
use roommate_csi.Map.{Map, member}
use roommate_csi.State.{Request, get_object, patch_object, get_lease, create_lease, update_lease}
use roommate_csi.Volume.{Config, parse_config, good, kind_secret}
use roommate_csi.Volume.Attributes.{parse_config-IsSound}
use roommate_csi.Driver.RbacHint.{Rule, role_rules, resource_of, coordination}

-- What a request asks of the API server; a creation names no object.
pub record Access : Type 0 where
  pub group : Str
  pub resource : Str
  pub name : Option Str
  pub verb : Str

abbrev pub named : List Str → Option Str → Bool
named [] name = true
named (s ∷ rest) none = false
named (s ∷ rest) (some name) = member name (s ∷ rest)

abbrev pub allows : Rule → Access → Bool
allows r a =
    member a.group r.api_groups
    && member a.resource r.resources
    && named r.resource_names a.name
    && member a.verb r.verbs

unfoldable pub permits : List Rule → Access → Bool
unfolding member
permits [] a = false
permits (r ∷ rest) a = allows r a || permits rest a

-- The object of the store that `NewVolume` makes.
abbrev pub object_access : Config → Str → Access
object_access cfg verb = record {
  group = [];
  resource = if str_eq cfg.object_kind kind_secret then str "secrets" else str "configmaps";
  name = some cfg.object_name;
  verb = verb;
}

abbrev pub lease_access : Option Str → Str → Access
lease_access name verb = record {
  group = coordination;
  resource = str "leases";
  name = name;
  verb = verb;
}

abbrev pub access_of : Config → Request → Access
access_of cfg get_object = object_access cfg (str "get")
access_of cfg (patch_object set del) = object_access cfg (str "patch")
access_of cfg get_lease = lease_access (some cfg.lease_name) (str "get")
access_of cfg (create_lease l) = lease_access none (str "create")
access_of cfg (update_lease l) = lease_access (some cfg.lease_name) (str "update")

abbrev pub IsOwn : Config → Access → Type 0
IsOwn cfg a =
    ((a.group ≡ []) × (a.name ≡ some cfg.object_name) × (a.resource ≡ resource_of cfg.object_kind))
    ⊎ ((a.group ≡ coordination)
        × (a.resource ≡ str "leases")
        × ((a.name ≡ some cfg.lease_name) ⊎ (a.verb ≡ str "create")))

named_iff : (s : Str) (name : Option Str) → (named (s ∷ []) name ≡ true) ↔ (name ≡ some s)
unfolding member
named_iff s none = (λ e. ground arith, λ e. ground arith)
named_iff s (some name) = ground (arith, str_eq_iff s name)

module _ (valid_subdomain : Str → Bool) (attr : Map Str) (namespace : Str) (cfg : Config)
    (accepted : parse_config valid_subdomain attr namespace ≡ good cfg) where
  abbrev pub rules : List Rule
  rules = role_rules cfg.object_kind cfg.object_name cfg.lease_name

  store_resource :
      (if str_eq cfg.object_kind kind_secret then str "secrets" else str "configmaps")
      ≡ resource_of cfg.object_kind
  unfolding resource_of str_eq
  store_resource =
      let sound = parse_config-IsSound valid_subdomain attr namespace cfg accepted in
      elim sound.kind [ inl secret ↦ rw secret refl | inr config_map ↦ rw config_map refl ]

  permits_object :
      (verb : Str)
      → member verb (str "get" ∷ str "watch" ∷ str "patch" ∷ []) ≡ true
      → permits rules (object_access cfg verb) ≡ true
  unfolding permits role_rules str_eq
  permits_object verb known =
      rw (store_resource, str_eq_refl (resource_of cfg.object_kind), str_eq_refl cfg.object_name)
        (ground arith)

  permits_request : (r : Request) → permits rules (access_of cfg r) ≡ true
  unfolding permits role_rules str_eq
  permits_request get_object = permits_object (str "get") refl
  permits_request (patch_object set del) = permits_object (str "patch") refl
  permits_request get_lease = rw (str_eq_refl cfg.lease_name) refl
  permits_request (create_lease l) = refl
  permits_request (update_lease l) = rw (str_eq_refl cfg.lease_name) refl

  permits-IsOwn : (a : Access) → permits rules a ≡ true → IsOwn cfg a
  unfolding permits role_rules
  permits-IsOwn a e = ground (
    arith,
    str_eq_iff [] a.group,
    str_eq_iff coordination a.group,
    str_eq_iff (resource_of cfg.object_kind) a.resource,
    str_eq_iff (str "leases") a.resource,
    str_eq_iff (str "create") a.verb,
    named_iff cfg.object_name a.name,
    named_iff cfg.lease_name a.name,
  )

  -- If the configuration was accepted, the role of the hint permits each request that the program
  -- sends for the volume, and the watch of the object; and whatever it permits concerns that object,
  -- that lease, or the creation of a lease.
  pub role_rules-permits :
      (r : Request) (a : Access)
      → permits rules a ≡ true
      → (permits rules (access_of cfg r) ≡ true)
        × (permits rules (object_access cfg (str "watch")) ≡ true)
        × IsOwn cfg a
  unfolding member str_eq
  role_rules-permits r a permitted =
      (permits_request r, permits_object (str "watch") refl, permits-IsOwn a permitted)

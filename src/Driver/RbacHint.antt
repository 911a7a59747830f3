-- ===== src/Driver/RbacHint.antt =====
-- pkg/driver/rbachint.go: the Role and RoleBinding that the error of a denied mount tells the user to
-- apply. The rules of the role are data, which the text prints. What a rule allows is the documented
-- meaning of RBAC. `%q` is printed for names without quotes, backslashes and control characters, as
-- those of Kubernetes objects are.
pub mod Granting
use roommate_csi.Prelude.{
  Bool, true, false, ◌&&◌, ◌+◌, ◌==◌, ℕ, List, [], ◌∷◌, ◌++◌, leb, if◌then◌else◌,
}
use roommate_csi.Prelude.Bytes.{Str, str}
use roommate_csi.Volume.{kind_config_map}

pub record Rule : Type 0 where
  pub api_groups : List Str
  pub resources : List Str
  -- no names are all names
  pub resource_names : List Str
  pub verbs : List Str

abbrev pub lower : ℕ → ℕ
lower c = if leb 65 c && leb c 90 then c + 32 else c

-- `strings.EqualFold`; no letter of the kinds folds with one outside ASCII.
unfoldable pub equal_fold : Str → Str → Bool
equal_fold [] [] = true
equal_fold [] (d ∷ t) = false
equal_fold (c ∷ s) [] = false
equal_fold (c ∷ s) (d ∷ t) = let rest = equal_fold s t in lower c == lower d && rest

unfoldable pub resource_of : Str → Str
unfolding equal_fold
resource_of kind = if equal_fold kind kind_config_map then str "configmaps" else str "secrets"

abbrev pub coordination : Str
coordination = str "coordination.k8s.io"

unfoldable pub role_rules : Str → Str → Str → List Rule
unfolding resource_of
role_rules kind object lease =
    record {
      api_groups = [] ∷ [];
      resources = resource_of kind ∷ [];
      resource_names = object ∷ [];
      verbs = str "get" ∷ str "watch" ∷ str "patch" ∷ [];
    }
    ∷ record {
      api_groups = coordination ∷ [];
      resources = str "leases" ∷ [];
      resource_names = lease ∷ [];
      verbs = str "get" ∷ str "update" ∷ [];
    }
    ∷ record {
      api_groups = coordination ∷ [];
      resources = str "leases" ∷ [];
      resource_names = [];
      verbs = str "create" ∷ [];
    }
    ∷ []

abbrev pub quoted : Str → Str
quoted s = b'"' ∷ (s ++ (b'"' ∷ []))

unfoldable pub joined : Str → List Str → Str
joined sep [] = []
joined sep (s ∷ []) = s
joined sep (s ∷ t ∷ rest) = s ++ sep ++ joined sep (t ∷ rest)

unfoldable pub quoted_all : List Str → List Str
quoted_all [] = []
quoted_all (s ∷ rest) = quoted s ∷ quoted_all rest

abbrev pub listed : List Str → Str
listed names = str "[" ++ joined (str ", ") (quoted_all names) ++ str "]"

abbrev pub names_line : List Str → List Str
names_line [] = []
names_line (s ∷ rest) = (str "    resourceNames: " ++ listed (s ∷ rest)) ∷ []

unfoldable pub rule_lines : List Rule → List Str
rule_lines [] = []
rule_lines (r ∷ rest) =
    (str "  - apiGroups: " ++ listed r.api_groups)
    ∷ (str "    resources: " ++ listed r.resources)
    ∷ (names_line r.resource_names ++ ((str "    verbs: " ++ listed r.verbs) ∷ rule_lines rest))

-- `RBACHint`
unfoldable pub rbac_hint : Str → Str → Str → Str → Str → Str
unfolding joined quoted_all rule_lines role_rules
rbac_hint namespace account kind object lease = joined (10 ∷ []) (
    (str "serviceaccount "
      ++ namespace
      ++ str "/"
      ++ account
      ++ str " is not permitted to use "
      ++ resource_of kind
      ++ str "/"
      ++ object
      ++ str ".")
    ∷ []
    ∷ (str "Apply this in namespace " ++ namespace ++ str ":")
    ∷ []
    ∷ str "---"
    ∷ str "apiVersion: rbac.authorization.k8s.io/v1"
    ∷ str "kind: Role"
    ∷ str "metadata:"
    ∷ (str "  namespace: " ++ namespace)
    ∷ (str "  name: roommate-" ++ object)
    ∷ str "rules:"
    ∷ (rule_lines (role_rules kind object lease)
        ++ (str "---"
            ∷ str "# Named per-ServiceAccount, not just per-object: a RoleBinding's subjects"
            ∷ str "# list is replaced wholesale on apply, not merged with what's already"
            ∷ str "# there. If another ServiceAccount already has a working binding for"
            ∷ (str "# "
                ++ kind
                ++ str "/"
                ++ object
                ++ str ", add a subject to that one instead of applying this "
                ++ (226 ∷ 128 ∷ 148 ∷ [])
                ++ str " applying")
            ∷ (str "# this alongside one named just "
                ++ quoted (str "roommate-" ++ object)
                ++ str " would silently drop the")
            ∷ str "# other ServiceAccount's subject and 403 its next API call."
            ∷ str "apiVersion: rbac.authorization.k8s.io/v1"
            ∷ str "kind: RoleBinding"
            ∷ str "metadata:"
            ∷ (str "  namespace: " ++ namespace)
            ∷ (str "  name: roommate-" ++ object ++ str "-" ++ account)
            ∷ str "roleRef:"
            ∷ str "  apiGroup: rbac.authorization.k8s.io"
            ∷ str "  kind: Role"
            ∷ (str "  name: roommate-" ++ object)
            ∷ str "subjects:"
            ∷ str "  - kind: ServiceAccount"
            ∷ (str "    name: " ++ account)
            ∷ (str "    namespace: " ++ namespace)
            ∷ [])))

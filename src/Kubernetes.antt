-- ===== src/Kubernetes.antt =====
-- The object metadata of the Kubernetes API, with the fields that the modelled code reads or writes.
use ssp_operator.Base.{String, Eq, string_eq, arith}
use ssp_operator.Base.Dict.{Dict}

pub record ObjectMeta : Type 0 where
  pub name : String
  pub namespace : String
  pub labels : Dict String String
  pub annotations : Dict String String

-- `types.NamespacedName`, which is `client.ObjectKey` too.
pub record NamespacedName : Type 0 where
  pub namespace : String
  pub name : String

NamespacedName-discrete : Discrete NamespacedName
NamespacedName-discrete a b = elim (string_eq.dec a.namespace b.namespace) [
  | no n ↦ no (λ p. ground arith)
  | yes p ↦ elim (string_eq.dec a.name b.name) [
    | no n ↦ no (λ p. ground arith)
    | yes q ↦ yes (ground (arith, p, q))
  ]
]

instance unfoldable pub namespaced_name_eq : Eq NamespacedName
unfolding NamespacedName-discrete
namespaced_name_eq = record { dec = NamespacedName-discrete }

-- `client.ObjectKeyFromObject`
abbrev pub object_key : ObjectMeta → NamespacedName
object_key metadata = record { namespace = metadata.namespace; name = metadata.name }

-- ===== src/Resources.antt =====
-- internal/common: the objects that the operator keeps in the cluster, their labels (labels.go) and their
-- owners (owner.go, resource.go). `S` is what an object holds besides its metadata, and `Ref` an owner
-- reference.
pub mod VersionCache
pub mod Cleanup
pub mod Reconcile
pub mod Owned
pub mod Reconciled
mod Tests
use Prim.Native.Nat.{ℕ}
use ssp_operator.Base.{
  String, ◌<>◌, Bool, true, false, ◌&&◌, Option, none, some, List, [], ◌∷◌, ◌⊎◌, inl, inr, Eq, ◌≡◌,
  refl, ◌==◌, string_eq, if◌then◌else◌,
}
use ssp_operator.Base.Dict.{Dict, lookup, lookup_or, insert, delete}

pub record Object (S Ref : Type 0) : Type 0 where
  -- the kind that the scheme knows for the type of the object, or ""
  pub kind : String
  pub name : String
  pub namespace : String
  pub uid : String
  pub resource_version : String
  -- never negative
  pub generation : ℕ
  pub labels : Dict String String
  pub annotations : Dict String String
  pub owner_references : List Ref
  -- whether the deletion timestamp is set
  pub deleting : Bool
  pub content : S

-- The answer of the API server to a request to read.
pub data Get (A : Type 0) : Type 0 where
  found : A → Get A
  not_found : Get A
  failed : String → Get A

pub Get-cases :
    {A : Type 0} (g : Get A)
    → ((a : A) × (g ≡ found a)) ⊎ ((g ≡ not_found) ⊎ ((e : String) × (g ≡ failed e)))
Get-cases (found a) = inl (a, refl)
Get-cases not_found = inr (inl refl)
Get-cases (failed e) = inr (inr (e, refl))

-- The annotations of operator-lib's handler.
abbrev pub type_annotation : String
type_annotation = "operator-sdk/primary-resource-type"

abbrev pub namespaced_name_annotation : String
namespaced_name_annotation = "operator-sdk/primary-resource"

unfoldable pub copy_label : Dict String String → Dict String String → String → Dict String String
copy_label from to key = insert key (lookup_or "" key from) to

-- `none` is an SSP object whose map of labels is nil.
unfoldable pub add_instance_labels :
    Option (Dict String String) → Dict String String → Dict String String
unfolding copy_label
add_instance_labels none to = to
add_instance_labels (some from) to =
    copy_label from (copy_label from to "app.kubernetes.io/part-of") "app.kubernetes.io/version"

unfoldable pub add_common_labels :
    Dict String String → Option (Dict String String) → String → String → Dict String String
unfolding add_instance_labels
add_common_labels labels instance_labels name component =
    insert "app.kubernetes.io/managed-by" "ssp-operator" (
      insert "app.kubernetes.io/component" component
        (insert "app.kubernetes.io/name" name (add_instance_labels instance_labels labels)))

unfoldable pub add_app_labels :
    {S Ref : Type 0} → Option (Dict String String) → String → String → Object S Ref → Object S Ref
unfolding add_common_labels
add_app_labels instance_labels name component obj = record obj {
  labels = add_common_labels obj.labels instance_labels name component;
}

-- Whether the annotations of an object name the owner, of the group and kind and the namespaced name given.
unfoldable pub check_owner_annotation : {S Ref : Type 0} → Object S Ref → String → String → Bool
check_owner_annotation obj group_kind namespaced_name =
    elim (lookup type_annotation obj.annotations) [
      | none ↦ false
      | some type_val ↦
          if type_val == group_kind
          then elim (lookup namespaced_name_annotation obj.annotations) [
            | none ↦ false
            | some namespaced_name_val ↦ namespaced_name_val == namespaced_name
          ]
          else false
    ]

-- What the code asks of operator-lib and controller-runtime to mark an owner: it fails or returns the
-- marked object.
pub record Owners (S Ref : Type 0) : Type 0 where
  pub instance_namespace : String
  pub set_owner_annotations : Object S Ref → String ⊎ Object S Ref
  pub set_controller_reference : Object S Ref → String ⊎ Object S Ref

unfoldable pub set_owner :
    {S Ref : Type 0} → Owners S Ref → Object S Ref → Bool → String ⊎ Object S Ref
set_owner owners resource true =
    owners.set_owner_annotations (record resource { owner_references = [] })
set_owner owners resource false = owners.set_controller_reference (record resource {
  annotations = delete type_annotation (delete namespaced_name_annotation resource.annotations);
})

-- ===== src/CommonTemplates/Updated.antt =====
-- What the reconcile builder and the update functions of the operand make of a template that they find.
use ssp_operator.Base.{
  String, ◌≡◌, refl, arith, Bool, false, ◌&&◌, ◌||◌, not, Option, none, some, [], ◌∷◌, ◌==◌,
  string_eq, if◌then◌else◌,
}
use ssp_operator.Base.Dict.{Dict, lookup, lookup-insert}
use ssp_operator.Base.Text.{has_prefix}
use ssp_operator.CommonTemplates.{ClusterTemplate}
use ssp_operator.CommonTemplates.Operand.{TemplatesRequest, template_builder}
use ssp_operator.CommonTemplates.Updates.{
  is_predefined_key, has_key, sync_predefined, sync_predefined_annotations_and_labels,
  update_template, without_searchable_labels, deprecated,
}
use ssp_operator.Resources.Reconcile.{update_map, mutate_fn}
use ssp_operator.Resources.Reconciled.{IsMap, lookup-update_map}
use ssp_operator.Resources.VersionCache.{VersionCache, version_cache_contains}

-- A map without the keys that a test holds of.
without_keys : (String → Bool) → Dict String String → Dict String String
without_keys test [] = []
without_keys test ((key, value) ∷ d) =
    let rest = without_keys test d in if test key then rest else (key, value) ∷ rest

lookup-without_keys :
    (test : String → Bool) (d : Dict String String) (key : String)
    → lookup key (without_keys test d) ≡ (if test key then none else lookup key d)
unfolding without_keys lookup
lookup-without_keys test [] key = ground arith
lookup-without_keys test ((other, value) ∷ d) key = ground (arith, lookup-without_keys test d key)

sync_predefined_keys :
    (new found : Dict String String)
    → sync_predefined new found
      ≡ without_keys (λ key. is_predefined_key key && not (has_key key new)) found
unfolding sync_predefined without_keys
sync_predefined_keys new [] = refl
sync_predefined_keys new ((key, value) ∷ found) = rw (sync_predefined_keys new found) refl

-- Whether a label makes a template visible in a search.
abbrev pub is_searchable : String → Bool
is_searchable key =
    has_prefix key "os.template.kubevirt.io/"
    || has_prefix key "flavor.template.kubevirt.io/"
    || has_prefix key "workload.template.kubevirt.io/"

without_searchable_labels_keys :
    (labels : Dict String String)
    → without_searchable_labels labels ≡ without_keys is_searchable labels
unfolding without_searchable_labels without_keys
without_searchable_labels_keys [] = refl
without_searchable_labels_keys ((key, value) ∷ labels) =
    rw (without_searchable_labels_keys labels) refl

lookup-sync_predefined :
    (new found : Dict String String) (key : String)
    → lookup key (sync_predefined new found)
      ≡ (if is_predefined_key key && not (has_key key new) then none else lookup key found)
lookup-sync_predefined new found key =
    rw (sync_predefined_keys new found)
      (lookup-without_keys (λ k. is_predefined_key k && not (has_key k new)) found key)

lookup-without_searchable_labels :
    (labels : Dict String String) (key : String)
    → lookup key (without_searchable_labels labels)
      ≡ (if is_searchable key then none else lookup key labels)
lookup-without_searchable_labels labels key =
    rw (without_searchable_labels_keys labels) (lookup-without_keys is_searchable labels key)

-- The value of a key after an update: the expected one, or, where none is expected, the value found, which is
-- dropped for a key of the templates.
abbrev pub updated_value : (expected found : Dict String String) → String → Option String
updated_value expected found key = elim (lookup key expected) [
  | some value ↦ some value
  | none ↦ if is_predefined_key key then none else lookup key found
]

lookup-sync-update_map :
    (expected found : Dict String String) (key : String)
    → IsMap expected
    → lookup key (sync_predefined expected (update_map expected found))
      ≡ updated_value expected found key
lookup-sync-update_map expected found key m = ground (
  arith,
  lookup-sync_predefined expected (update_map expected found) key,
  lookup-update_map expected found key m,
)

module _ {P Raw Ref V : Type 0} (request : TemplatesRequest P Raw Ref V)
    (template : ClusterTemplate Raw Ref) where
  -- A template of the bundle is reconciled with one that is found, not being deleted and not cached. Then its
  -- objects and parameters are those of the bundle. So is every label and annotation that the bundle has; any
  -- other one is kept, unless its key is one of those that are reserved for templates.
  pub mutate_fn-update_template :
      (cache : VersionCache) (resource found : ClusterTemplate Raw Ref)
      → IsMap resource.labels
      → IsMap resource.annotations
      → found.deleting ≡ false
      → version_cache_contains cache found ≡ false
      → let r =
          mutate_fn
            (template_builder request template update_template)
            request.client
            cache
            resource
            found in
        (r.content ≡ resource.content)
        × ((key : String) → lookup key r.labels ≡ updated_value resource.labels found.labels key)
        × ((key : String)
            → lookup key r.annotations ≡ updated_value resource.annotations found.annotations key)
  unfolding mutate_fn update_template sync_predefined_annotations_and_labels version_cache_contains
  mutate_fn-update_template cache resource found ml ma d c = (
    ground (arith, d, c),
    λ key. ground (arith, d, c, lookup-sync-update_map resource.labels found.labels key ml),
    λ key.
        ground (arith, d, c, lookup-sync-update_map resource.annotations found.annotations key ma),
  )

  -- A template to deprecate is reconciled with one that is found, not being deleted and not cached. Then
  -- it keeps its objects and parameters, it is labelled and annotated as deprecated, no label shows it in a
  -- search any more, and every other label is the expected one, or, where none is expected, the one found.
  pub mutate_fn-deprecated :
      (cache : VersionCache) (resource found : ClusterTemplate Raw Ref)
      → IsMap resource.labels
      → found.deleting ≡ false
      → version_cache_contains cache found ≡ false
      → let r =
          mutate_fn
            (template_builder request template deprecated)
            request.client
            cache
            resource
            found in
        (r.content ≡ found.content)
        × (lookup "template.kubevirt.io/deprecated" r.annotations ≡ some "true")
        × (lookup "template.kubevirt.io/deprecated" r.labels ≡ some "true")
        × ((key : String)
            → (key == "template.kubevirt.io/deprecated") ≡ false
            → lookup key r.labels ≡ (
                if is_searchable key then none else elim (lookup key resource.labels) [
                  | some value ↦ some value
                  | none ↦ lookup key found.labels
                ]))
  unfolding mutate_fn deprecated version_cache_contains
  mutate_fn-deprecated cache resource found ml d c =
      let labels = update_map resource.labels found.labels in
      let annotations = update_map resource.annotations found.annotations in
      let key : String = "template.kubevirt.io/deprecated" in
      (
        ground (arith, d, c),
        ground (arith, d, c, lookup-insert key key "true" annotations),
        ground (arith, d, c, lookup-insert key key "true" (without_searchable_labels labels)),
        λ other n. ground (
          arith,
          d,
          c,
          n,
          lookup-insert other key "true" (without_searchable_labels labels),
          lookup-without_searchable_labels labels other,
          lookup-update_map resource.labels found.labels other ml,
        ),
      )

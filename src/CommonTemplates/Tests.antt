-- ===== src/CommonTemplates/Tests.antt =====
-- A bundle of one template, an older version of it and a template of another architecture.
use ssp_operator.Architecture.{
  amd64, s390x, to_arch, to_archs, arch_eq, concat_without_repetitions, see_slices, see_slice, see,
}
use ssp_operator.Resources.VersionCache.{version_cache_contains}
use ssp_operator.Base.{
  String, ◌≡◌, ◌↔◌, refl, true, false, ◌&&◌, none, some, List, [], ◌∷◌, inl, inr, ◌==◌, string_eq,
  if◌then◌else◌, Among,
}
use ssp_operator.Base.Dict.{lookup, insert, delete, add}
use ssp_operator.CommonTemplates.{
  ClusterTemplate, TemplateContent, TemplatesByArch, new_common_templates, get_templates_for_archs,
  add_arch_suffix_to_parameters,
}
use ssp_operator.CommonTemplates.Bundled.{
  deployed_templates, get_templates_for_archs-new_common_templates,
}
use ssp_operator.CommonTemplates.Decided.{
  Decision, IsCandidate, IsUnsupported, IsOutdated, deprecate_or_delete_old_templates_lem,
}
use ssp_operator.CommonTemplates.Old.{
  Requirement, Semver, delete_template, deprecate_template, deprecate_or_delete_old_templates,
  get_old_templates_label_selector,
}
use ssp_operator.CommonTemplates.Operand.{TemplatesRequest, template_builder}
use ssp_operator.CommonTemplates.Sources.{find_data_source_name-suffix}
use ssp_operator.CommonTemplates.Updated.{updated_value, mutate_fn-update_template}
use ssp_operator.CommonTemplates.Updates.{update_template}
use ssp_operator.DataSources.{DataSourceInfo}
use ssp_operator.DataSources.Infos.{get_data_source_infos_multi_arch, has_name}
use ssp_operator.DataSources.Tests.{empty_cluster, two_archs, fedora as fedora_collection}
use ssp_operator.Resources.{Get, found}
use ssp_operator.Resources.Owned.{OwnerName, owned_items}
use ssp_operator.Resources.Reconcile.{Client, mutate_fn}
use ssp_operator.TemplateBundle.{find_data_source_name, get_template_arch, template_source}
use ssp_operator.TemplateBundle.Tests.{machines, bundle, fedora, bundle-AreValid, collected}

abbrev TestTemplate : Type 0
TestTemplate = ClusterTemplate String String

abbrev template : String → String → String → TestTemplate
template name version arch = record {
  kind = "Template";
  name = name;
  namespace = "openshift";
  uid = "1";
  resource_version = "7";
  generation = 0;
  labels =
      ("template.kubevirt.io/type", "base")
      ∷ ("template.kubevirt.io/version", version)
      ∷ ("template.kubevirt.io/architecture", arch)
      ∷ ("os.template.kubevirt.io/fedora", "true")
      ∷ [];
  annotations = [];
  owner_references = [];
  deleting = false;
  content = record {
    objects = version ∷ [];
    parameters = record { name = "DATA_SOURCE_NAME"; value = "fedora" } ∷ [];
  };
}

abbrev latest_template : TestTemplate
latest_template = template "fedora" "v0.35.0" "amd64"

abbrev test_semver : Semver String
test_semver = record {
  parse_tolerant = λ s. if s == "" then none else some s;
  is_newer = λ a b. a == "v0.35.0" && b == "v0.34.0";
}

-- The older template by its label, and no template that is owned.
abbrev test_list : List Requirement → String → Get (List TestTemplate)
test_list [] namespace = found []
test_list (requirement ∷ requirements) namespace =
    found (template "old" "v0.34.0" "amd64" ∷ template "other" "v0.34.0" "s390x" ∷ [])

abbrev test_owner : OwnerName
test_owner = record { group_kind = "SSP.ssp.kubevirt.io"; namespaced_name = "kubevirt/ssp" }

test_decided :
    deprecate_or_delete_old_templates test_semver test_list test_owner "openshift"
      (latest_template ∷ [])
      (amd64 ∷ [])
    ≡ inr (
        (deprecate_template, template "old" "v0.34.0" "amd64")
        ∷ (delete_template, template "other" "v0.34.0" "s390x")
        ∷ [])
unfolding deprecate_or_delete_old_templates string_eq delete insert get_template_arch lookup to_arch
    arch_eq
test_decided = refl

deprecate_or_delete_old_templates_lem_example :
    let old = template "old" "v0.34.0" "amd64" ∷ template "other" "v0.34.0" "s390x" ∷ [] in
    let owned = owned_items test_owner [] in
    (actions : List (Decision String String)) × (deprecate_or_delete_old_templates test_semver
        test_list test_owner "openshift"
        (latest_template ∷ [])
        (amd64 ∷ [])
      ≡ inr actions)
    × ((t : TestTemplate)
        → Among {A = Decision String String} (delete_template, t) actions ↔ (
            IsCandidate old owned (latest_template ∷ []) t
            × (t.deleting ≡ false)
            × IsUnsupported test_semver "v0.35.0" (amd64 ∷ []) t))
    × ((t : TestTemplate)
        → Among {A = Decision String String} (deprecate_template, t) actions ↔ (
            IsCandidate old owned (latest_template ∷ []) t
            × (t.deleting ≡ false)
            × IsOutdated test_semver "v0.35.0" (amd64 ∷ []) t))
unfolding get_old_templates_label_selector string_eq
deprecate_or_delete_old_templates_lem_example =
    deprecate_or_delete_old_templates_lem test_semver test_list test_owner "openshift"
      (latest_template ∷ []) (amd64 ∷ [])
      (template "old" "v0.34.0" "amd64" ∷ template "other" "v0.34.0" "s390x" ∷ []) [] "v0.35.0" refl
      refl refl

abbrev test_client : Client (TemplateContent String) String
test_client = record {
  get = λ k. found (template "fedora" "v0.34.0" "amd64");
  create = λ k. inr k;
  update = λ k. inr k;
  delete = λ k. none;
}

abbrev test_request : TemplatesRequest Unit String String String
test_request = record {
  client = test_client;
  delete = λ t. found tt;
  list = test_list;
  owners = record {
    instance_namespace = "kubevirt";
    set_owner_annotations = λ o. inr o;
    set_controller_reference = λ o. inr o;
  };
  owner_name = test_owner;
  instance_labels = none;
  instance_changed = false;
  spec = two_archs;
  observed_version = "v1";
  operator_version = "v1";
  semver = test_semver;
  semantic_equal = λ a b. false;
  empty = template "" "" "";
  go_arch = "amd64";
}

mutate_fn-update_template_example :
    let found_template = template "fedora" "v0.34.0" "amd64" in
    let r =
      mutate_fn
        (template_builder test_request latest_template update_template)
        test_client
        []
        latest_template
        found_template in
    (r.content ≡ latest_template.content)
    × ((key : String)
        → lookup key r.labels ≡ updated_value latest_template.labels found_template.labels key)
    × ((key : String)
        → lookup key r.annotations
          ≡ updated_value latest_template.annotations found_template.annotations key)
unfolding lookup string_eq version_cache_contains
mutate_fn-update_template_example =
    mutate_fn-update_template test_request latest_template [] latest_template
      (template "fedora" "v0.34.0" "amd64") (refl, (refl, (refl, (refl, tt)))) tt refl refl

abbrev test_by_arch : TemplatesByArch String String
test_by_arch = (amd64, latest_template ∷ []) ∷ []

get_templates_for_archs-new_common_templates_example :
    get_templates_for_archs test_by_arch (amd64 ∷ s390x ∷ []) two_archs
    ≡ deployed_templates (latest_template ∷ []) (amd64 ∷ s390x ∷ []) two_archs
unfolding new_common_templates get_template_arch lookup to_arch insert
get_templates_for_archs-new_common_templates_example =
    get_templates_for_archs-new_common_templates (latest_template ∷ []) test_by_arch
      (amd64 ∷ s390x ∷ []) two_archs refl

abbrev fedora_infos : List DataSourceInfo
fedora_infos = elim (get_data_source_infos_multi_arch empty_cluster [] fedora_collection) [
  | inl err ↦ []
  | inr infos ↦ infos
]

find_data_source_name-suffix_example :
    (source : String) × (find_data_source_name
        (add_arch_suffix_to_parameters s390x (fedora "s390x").parameters)
      ≡ some source)
    × (has_name source fedora_infos ≡ true)
unfolding get_data_source_infos_multi_arch concat_without_repetitions see_slices see_slice see add
    to_archs to_arch lookup template_source
find_data_source_name-suffix_example =
    find_data_source_name-suffix machines empty_cluster [] bundle fedora_collection fedora_infos
      (amd64 ∷ s390x ∷ []) (fedora "s390x") "fedora" s390x bundle-AreValid collected refl refl
      (inr (inl refl)) refl refl refl

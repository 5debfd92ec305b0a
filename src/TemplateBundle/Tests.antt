-- ===== src/TemplateBundle/Tests.antt =====
-- A bundle of two templates of one data source, with a decoder that reads nothing.
use ssp_operator.Architecture.{Arch, amd64, s390x, to_arch}
use ssp_operator.Base.{String, ◌≡◌, refl, true, false, some, List, [], ◌∷◌, inr, string_eq}
use ssp_operator.Base.Dict.{lookup, insert}
use ssp_operator.TemplateBundle.{
  Template, Unstructured, DataSourceCollection, collection_contains, collect_data_sources,
  collect_from, template_source, named_source, get_template_arch, vm_template_uses_source_ref,
  any_source_ref, find_data_source_name, find_data_source_namespace, find_parameter_value,
  add_name_and_arch,
}
use ssp_operator.TemplateBundle.Collected.{
  AreValid, IsCollection, any_provides, collect_data_sources_lem,
}

-- A virtual machine with one volume template, which has a `sourceRef`.
abbrev pub machines : Unstructured Unit Unit
machines = record {
  decode = λ raw. some tt;
  api_version = λ vm. "kubevirt.io/v1";
  kind = λ vm. "VirtualMachine";
  nested_slice = λ vm fields. some (some (tt ∷ []));
  nested_field = λ volume fields. some (some tt);
  is_map = λ volume. true;
  is_nil = λ val. false;
}

abbrev pub fedora : String → Template Unit
fedora arch = record {
  metadata = record {
    name = "fedora";
    namespace = "";
    labels = ("template.kubevirt.io/architecture", arch) ∷ [];
    annotations = [];
  };
  objects = tt ∷ [];
  parameters = record { name = "DATA_SOURCE_NAME"; value = "fedora" } ∷ [];
}

abbrev pub bundle : List (Template Unit)
bundle = fedora "" ∷ fedora "s390x" ∷ fedora "amd64" ∷ []

pub collected : collect_data_sources machines bundle ≡ inr (("fedora", amd64 ∷ s390x ∷ []) ∷ [])
unfolding collect_data_sources collect_from template_source named_source get_template_arch
    vm_template_uses_source_ref any_source_ref find_data_source_name find_data_source_namespace
    find_parameter_value add_name_and_arch lookup insert string_eq to_arch
collected = refl

pub bundle-AreValid : AreValid machines bundle
unfolding template_source named_source get_template_arch vm_template_uses_source_ref any_source_ref
    find_data_source_name find_data_source_namespace find_parameter_value lookup string_eq to_arch
bundle-AreValid = (
  (some ("fedora", amd64), refl),
  ((some ("fedora", s390x), refl), ((some ("fedora", amd64), refl), tt)),
)

collect_data_sources_lem_example :
    (d : DataSourceCollection) × (collect_data_sources machines bundle ≡ inr d)
    × IsCollection d
    × ((n : String) (a : Arch) → collection_contains d n a ≡ any_provides machines bundle n a)
collect_data_sources_lem_example = collect_data_sources_lem machines bundle bundle-AreValid

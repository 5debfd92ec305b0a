-- ===== src/TemplateValidator/VmCache/Tests.antt =====
-- Runs of the cache, and its theorems at concrete data.
use ssp_operator.Base.{String, ◌≡◌, refl, true, none, some, List, [], ◌∷◌, contains, string_eq}
use ssp_operator.Base.Dict.{lookup}
use ssp_operator.Kubernetes.{ObjectMeta}
use ssp_operator.TemplateValidator.Labels.{get_template_keys, get, to_string}
use ssp_operator.TemplateValidator.VmCache.{
  vm_cache_key, new_vm_cache_value, new_vm_cache, vm_cache_add, vm_cache_replace, get_by_key,
  vm_needs_template, get_vms_for_template,
}
use ssp_operator.TemplateValidator.VmCache.Replace.{listed, latest, vm_cache_replace_lem}
use ssp_operator.TemplateValidator.VmCache.Tracks.{
  Event, added, modified, handle_all, history, empty_world, uses, AllFit,
  get_vms_for_template-handle_all,
}

abbrev vm_of : String → String → ObjectMeta
vm_of name template = record {
  name = name;
  namespace = "ns";
  labels = [];
  annotations =
      ("vm.kubevirt.io/template", template) ∷ ("vm.kubevirt.io/template-namespace", "os") ∷ [];
}

abbrev events : List Event
events = added (vm_of "a" "t") ∷ added (vm_of "b" "t") ∷ modified (vm_of "a" "u") ∷ []

events_fit : AllFit events empty_world
unfolding vm_cache_key string_eq
events_fit = (refl, (refl, (tt, tt)))

get_vms_for_template-handle_all_example :
    contains
      (get_vms_for_template (handle_all events (new_vm_cache vm_needs_template)) "os/t")
      "ns/b"
    ≡ uses vm_needs_template "os/t" (history events empty_world "ns/b")
get_vms_for_template-handle_all_example =
    get_vms_for_template-handle_all vm_needs_template events "os/t" "ns/b" events_fit

-- A virtual machine with rules of its own is no reason to keep a template: `Add` skips it.
abbrev own_rules : ObjectMeta
own_rules = record {
  name = "c";
  namespace = "ns";
  labels = [];
  annotations =
      ("vm.kubevirt.io/template", "t")
      ∷ ("vm.kubevirt.io/template-namespace", "os")
      ∷ ("vm.kubevirt.io/validations", "[]")
      ∷ [];
}

skipped_by_add :
    get_by_key (vm_cache_add (new_vm_cache vm_needs_template) (some own_rules)).0 "ns/c" ≡ none
unfolding vm_cache_add new_vm_cache vm_needs_template get_by_key lookup string_eq
skipped_by_add = refl

-- `Replace` lists it.
vm_cache_replace_lem_example :
    let r = vm_cache_replace (new_vm_cache vm_needs_template) (some own_rules ∷ []) in
    (r.1 ≡ true)
    × (r.0.has_synced ≡ true)
    × (get_by_key r.0 "ns/c" ≡ latest "ns/c" (own_rules ∷ []) none)
    × (contains (get_vms_for_template r.0 "os/t") "ns/c" ≡ listed "os/t" "ns/c" (own_rules ∷ []))
vm_cache_replace_lem_example =
    vm_cache_replace_lem (new_vm_cache vm_needs_template) (own_rules ∷ []) "os/t" "ns/c"

listed_by_replace : listed "os/t" "ns/c" (own_rules ∷ []) ≡ true
unfolding new_vm_cache_value vm_cache_key get_template_keys get to_string lookup string_eq
listed_by_replace = refl

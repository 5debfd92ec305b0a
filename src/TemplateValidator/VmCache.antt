-- ===== src/TemplateValidator/VmCache.antt =====
-- internal/template-validator/virtinformers/vmcache.go and the filter of informers.go: the store of
-- virtual machines behind the deletion check of templates, with its index by template.
-- An `obj interface{}` is what `meta.Accessor` gives for it: `none` where that fails.
pub mod Index
pub mod Replace
pub mod Tracks
mod Tests
use ssp_operator.Base.{
  String, ◌<>◌, Bool, true, false, not, Option, none, some, List, [], ◌∷◌, ◌==◌, string_eq,
  if◌then◌else◌,
}
use ssp_operator.Base.Dict.{Dict, lookup, insert, delete, add, remove}
use ssp_operator.Kubernetes.{ObjectMeta}
use ssp_operator.TemplateValidator.Labels.{
  get_template_keys, get, to_string, keys_are_valid, vm_validation_annotation_key,
}

pub record VmCacheValue : Type 0 where
  pub vm : String
  pub template : String

-- `types.NamespacedName.String`
unfoldable pub vm_cache_key : ObjectMeta → String
vm_cache_key obj = obj.namespace <> ("/" <> obj.name)

unfoldable pub new_vm_cache_value : ObjectMeta → VmCacheValue
new_vm_cache_value obj = record {
  vm = vm_cache_key obj;
  template = to_string (get (get_template_keys obj));
}

abbrev pub NameSet : Type 0
NameSet = List String

abbrev pub TemplateMap : Type 0
TemplateMap = Dict String NameSet

unfoldable pub template_map_add : String → String → TemplateMap → TemplateMap
template_map_add template vm t = elim (lookup template t) [
  | none ↦ insert template (add vm []) t
  | some vm_name_set ↦ insert template (add vm vm_name_set) t
]

unfoldable pub template_map_delete : String → String → TemplateMap → TemplateMap
template_map_delete template vm t = elim (lookup template t) [
  | none ↦ t
  | some vm_name_set ↦ elim (remove vm vm_name_set) [
    | [] ↦ delete template t
    | name ∷ rest ↦ insert template (name ∷ rest) t
  ]
]

unfoldable pub template_map_list : String → TemplateMap → List String
template_map_list template t = elim (lookup template t) [ none ↦ [] | some names ↦ names ]

pub record VmCache : Type 0 where
  pub store : Dict String VmCacheValue
  pub vms_for_template : TemplateMap
  pub has_synced : Bool
  pub filter : ObjectMeta → Bool

unfoldable pub new_vm_cache : (ObjectMeta → Bool) → VmCache
new_vm_cache filter = record {
  store = [];
  vms_for_template = [];
  has_synced = false;
  filter = filter;
}

-- The cache after an operation, and whether the operation returned a nil error.
abbrev pub Outcome : Type 0
Outcome = VmCache × Bool

unfoldable pub vm_cache_add : VmCache → Option ObjectMeta → Outcome
vm_cache_add v none = (v, false)
vm_cache_add v (some obj) =
    let val = new_vm_cache_value obj in
    if not (v.filter obj) then (v, true) else (
      record v {
        store = insert (vm_cache_key obj) val v.store;
        vms_for_template = template_map_add val.template val.vm v.vms_for_template;
      },
      true,
    )

unfoldable pub vm_cache_delete : VmCache → Option ObjectMeta → Outcome
vm_cache_delete v none = (v, false)
vm_cache_delete v (some obj) =
    let key = vm_cache_key obj in
    elim (lookup key v.store) [
      | none ↦ (v, true)
      | some val ↦ (
        record v {
          store = delete key v.store;
          vms_for_template = template_map_delete val.template val.vm v.vms_for_template;
        },
        true,
      )
    ]

-- `reflect.DeepEqual(oldVal, newVal)` of a `VmCacheValue` and a `*VmCacheValue`: values of distinct
-- types are never deeply equal.
abbrev deep_equal_to_pointer : VmCacheValue → VmCacheValue → Bool
deep_equal_to_pointer old_val new_val = false

unfoldable pub vm_cache_update : VmCache → Option ObjectMeta → Outcome
vm_cache_update v none = (v, false)
vm_cache_update v (some obj) =
    let key = vm_cache_key obj in
    let new_val = new_vm_cache_value obj in
    if not (v.filter obj) then vm_cache_delete v (some obj) else elim (lookup key v.store) [
      | none ↦ (
        record v {
          store = insert key new_val v.store;
          vms_for_template = template_map_add new_val.template new_val.vm v.vms_for_template;
        },
        true,
      )
      | some old_val ↦ if deep_equal_to_pointer old_val new_val then (v, true) else (
        record v {
          store = insert key new_val v.store;
          vms_for_template =
              template_map_add new_val.template new_val.vm
                (template_map_delete old_val.template old_val.vm v.vms_for_template);
        },
        true,
      )
    ]

-- The loop of `Replace` over the objects, from the maps that it fills. `none` is the early return.
unfoldable pub replace_loop :
    Dict String VmCacheValue
    → TemplateMap
    → List (Option ObjectMeta)
    → Option (Dict String VmCacheValue × TemplateMap)
replace_loop new_store new_vms [] = some (new_store, new_vms)
replace_loop new_store new_vms (none ∷ list) = none
replace_loop new_store new_vms (some obj ∷ list) =
    let val = new_vm_cache_value obj in
    replace_loop (insert (vm_cache_key obj) val new_store)
      (template_map_add val.template val.vm new_vms) list

unfoldable pub vm_cache_replace : VmCache → List (Option ObjectMeta) → Outcome
vm_cache_replace v list = elim (replace_loop [] [] list) [
  | none ↦ (v, false)
  | some (new_store, new_vms) ↦
      (record v { store = new_store; vms_for_template = new_vms; has_synced = true }, true)
]

unfoldable pub get_by_key : VmCache → String → Option VmCacheValue
get_by_key v key = lookup key v.store

unfoldable pub get_vms_for_template : VmCache → String → List String
get_vms_for_template v template = template_map_list template v.vms_for_template

unfoldable pub vm_needs_template : ObjectMeta → Bool
vm_needs_template vm = elim (lookup vm_validation_annotation_key vm.annotations) [
  | some value ↦ false
  | none ↦ keys_are_valid (get_template_keys vm)
]

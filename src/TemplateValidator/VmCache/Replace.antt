-- ===== src/TemplateValidator/VmCache/Replace.antt =====
-- `Replace`, which fills the cache from a listing of the cluster.
use mathlib.Core.List.{map}
use ssp_operator.Base.{
  String, ◌≡◌, refl, Bool, true, false, ◌&&◌, ◌||◌, Option, none, some, List, [], ◌∷◌, arith, ◌==◌,
  contains, string_eq, if◌then◌else◌,
}
use ssp_operator.Base.Dict.{Dict, lookup, insert, lookup-insert}
use ssp_operator.Kubernetes.{ObjectMeta}
use ssp_operator.TemplateValidator.VmCache.{
  VmCacheValue, TemplateMap, VmCache, template_map_add, template_map_list, vm_cache_key,
  new_vm_cache_value, vm_cache_replace, replace_loop, get_vms_for_template, get_by_key,
}
use ssp_operator.TemplateValidator.VmCache.Index.{contains-list-add}

-- Whether some object of a listing has the key and refers to the template.
abbrev pub listed : String → String → List ObjectMeta → Bool
listed template vm [] = false
listed template vm (m ∷ ms) =
    (template == (new_vm_cache_value m).template && vm == vm_cache_key m) || listed template vm ms

-- The value of the last object of a listing that has the key, and the given one where there is none.
abbrev pub latest : String → List ObjectMeta → Option VmCacheValue → Option VmCacheValue
latest vm [] o = o
latest vm (m ∷ ms) o =
    latest vm ms (if vm == vm_cache_key m then some (new_vm_cache_value m) else o)

record IsFilled (store : Dict String VmCacheValue) (vms : TemplateMap) (ms : List ObjectMeta)
    (r : Option (Dict String VmCacheValue × TemplateMap)) : Type 0 where
  new_store : Dict String VmCacheValue
  new_vms : TemplateMap
  result : r ≡ some (new_store, new_vms)
  stored : (k : String) → lookup k new_store ≡ latest k ms (lookup k store)
  indexed :
      (t v : String)
      → contains (template_map_list t new_vms) v
        ≡ (contains (template_map_list t vms) v || listed t v ms)

replace_loop-IsFilled :
    (ms : List ObjectMeta) (store : Dict String VmCacheValue) (vms : TemplateMap)
    → IsFilled store vms ms (replace_loop store vms (map some ms))
unfolding replace_loop new_vm_cache_value
replace_loop-IsFilled [] store vms = record {
  new_store = store;
  new_vms = vms;
  result = refl;
  stored = λ k. refl;
  indexed = λ t v. ground arith;
}
replace_loop-IsFilled (m ∷ ms) store vms =
    let val = new_vm_cache_value m in
    let store' = insert (vm_cache_key m) val store in
    let vms' = template_map_add val.template val.vm vms in
    let rest : IsFilled store' vms' ms (replace_loop store' vms' (map some ms)) =
      replace_loop-IsFilled ms store' vms' in
    record {
      new_store = rest.new_store;
      new_vms = rest.new_vms;
      result = rest.result;
      stored = λ k. rw (← lookup-insert k (vm_cache_key m) val store) (rest.stored k);
      indexed =
          λ t v. ground (arith, rest.indexed t v, contains-list-add val.template val.vm t v vms);
    }

-- `Replace` with a listing of objects succeeds and marks the cache as synced. Afterwards a key holds
-- the value of the last object listed under it, and a template lists the keys of all objects that
-- refer to it, those that the filter of the cache rejects included.
pub vm_cache_replace_lem :
    (c : VmCache) (ms : List ObjectMeta) (template vm : String)
    → let r = vm_cache_replace c (map some ms) in
      (r.1 ≡ true)
      × (r.0.has_synced ≡ true)
      × (get_by_key r.0 vm ≡ latest vm ms none)
      × (contains (get_vms_for_template r.0 template) vm ≡ listed template vm ms)
unfolding vm_cache_replace get_by_key get_vms_for_template template_map_list lookup
vm_cache_replace_lem c ms template vm =
    let f = replace_loop-IsFilled ms [] [] in
    (
      ground (arith, f.result),
      ground (arith, f.result),
      ground (arith, f.result, f.stored vm),
      ground (arith, f.result, f.indexed template vm),
    )

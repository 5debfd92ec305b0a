-- ===== src/TemplateValidator/VmCache/Index.antt =====
-- The index by template agrees with the store.
use ssp_operator.Base.{
  String, ◌≡◌, ◌≢◌, Bool, true, false, ◌&&◌, Option, none, some, [], arith, ◌==◌, contains,
  string_eq, if◌then◌else◌,
}
use ssp_operator.Base.Dict.{
  lookup, lookup-insert, lookup-delete, add, remove, contains-add, contains-remove, add-ne-nil,
}
use ssp_operator.Kubernetes.{ObjectMeta}
use ssp_operator.TemplateValidator.VmCache.{
  VmCacheValue, TemplateMap, VmCache, template_map_add, template_map_delete, template_map_list,
  vm_cache_key, new_vm_cache_value, new_vm_cache, vm_cache_add, vm_cache_update, vm_cache_delete,
}

pub contains-list-add :
    (template vm t v : String) (m : TemplateMap)
    → contains (template_map_list t (template_map_add template vm m)) v
      ≡ (if (t == template) && (v == vm) then true else contains (template_map_list t m) v)
unfolding template_map_list template_map_add
contains-list-add template vm t v m = ground (
  arith,
  lookup-insert t template (add vm []) m,
  lookup-insert t template (add vm (template_map_list template m)) m,
  contains-add v vm [],
  contains-add v vm (template_map_list template m),
)

contains-list-delete :
    (template vm t v : String) (m : TemplateMap)
    → contains (template_map_list t (template_map_delete template vm m)) v
      ≡ (if (t == template) && (v == vm) then false else contains (template_map_list t m) v)
unfolding template_map_list template_map_delete
contains-list-delete template vm t v m = ground (
  arith,
  lookup-delete t template m,
  lookup-insert t template (remove vm (template_map_list template m)) m,
  contains-remove v vm (template_map_list template m),
)

-- Whether a value of the store belongs to a template.
abbrev pub belongs : String → Option VmCacheValue → Bool
belongs t none = false
belongs t (some val) = t == val.template

pub record IsIndexed (c : VmCache) : Type 0 where
  -- A virtual machine is listed under a template exactly if its value in the store names it.
  pub agrees :
      (t v : String)
      → contains (template_map_list t c.vms_for_template) v ≡ belongs t (lookup v c.store)
  -- A value stands under the key of its own virtual machine.
  pub keyed : (k : String) (val : VmCacheValue) → lookup k c.store ≡ some val → val.vm ≡ k
  -- No template is listed with no virtual machine.
  pub no_empty : (t : String) → lookup t c.vms_for_template ≢ some []

no_empty-add :
    (template vm t : String) (m : TemplateMap)
    → lookup t m ≢ some []
    → lookup t (template_map_add template vm m) ≢ some []
unfolding template_map_add template_map_list
no_empty-add template vm t m h = ground (
  arith,
  lookup-insert t template (add vm []) m,
  lookup-insert t template (add vm (template_map_list template m)) m,
  add-ne-nil vm [],
  add-ne-nil vm (template_map_list template m),
)

no_empty-delete :
    (template vm t : String) (m : TemplateMap)
    → lookup t m ≢ some []
    → lookup t (template_map_delete template vm m) ≢ some []
unfolding template_map_delete template_map_list
no_empty-delete template vm t m h = ground (
  arith,
  lookup-delete t template m,
  lookup-insert t template (remove vm (template_map_list template m)) m,
)

pub new_vm_cache-IsIndexed : (filter : ObjectMeta → Bool) → IsIndexed (new_vm_cache filter)
unfolding new_vm_cache template_map_list lookup
new_vm_cache-IsIndexed filter = record {
  agrees = λ t v. ground arith;
  keyed = λ k val h. ground arith;
  no_empty = λ t h. ground arith;
}

-- The value that a lookup finds.
abbrev found : Option VmCacheValue → VmCacheValue
found none = record { vm = ""; template = "" }
found (some val) = val

-- `Add` keeps the index, for an object that the store does not hold yet.
pub vm_cache_add-IsIndexed :
    (c : VmCache) (obj : ObjectMeta)
    → lookup (vm_cache_key obj) c.store ≡ none
    → IsIndexed c
    → IsIndexed (vm_cache_add c (some obj)).0
unfolding vm_cache_add new_vm_cache_value
vm_cache_add-IsIndexed c obj fresh i = record {
  agrees = λ t v. ground (
    arith,
    contains-list-add (new_vm_cache_value obj).template (vm_cache_key obj) t v c.vms_for_template,
    lookup-insert v (vm_cache_key obj) (new_vm_cache_value obj) c.store,
    i.agrees t v,
  );
  keyed = λ k val h.
      ground
        (arith, lookup-insert k (vm_cache_key obj) (new_vm_cache_value obj) c.store, i.keyed k val);
  no_empty = λ t h. ground (
    arith,
    no_empty-add (new_vm_cache_value obj).template (vm_cache_key obj) t c.vms_for_template,
    i.no_empty t,
  );
}

-- `Delete` keeps the index.
pub vm_cache_delete-IsIndexed :
    (c : VmCache) (obj : ObjectMeta) → IsIndexed c → IsIndexed (vm_cache_delete c (some obj)).0
unfolding vm_cache_delete
vm_cache_delete-IsIndexed c obj i =
    let val = found (lookup (vm_cache_key obj) c.store) in
    record {
      agrees = λ t v. ground (
        arith,
        contains-list-delete val.template val.vm t v c.vms_for_template,
        lookup-delete v (vm_cache_key obj) c.store,
        i.keyed (vm_cache_key obj) val,
        i.agrees t v,
      );
      keyed = λ k w h. ground (arith, lookup-delete k (vm_cache_key obj) c.store, i.keyed k w);
      no_empty = λ t h.
          ground (arith, no_empty-delete val.template val.vm t c.vms_for_template, i.no_empty t);
    }

-- `Update` keeps the index.
pub vm_cache_update-IsIndexed :
    (c : VmCache) (obj : ObjectMeta) → IsIndexed c → IsIndexed (vm_cache_update c (some obj)).0
unfolding vm_cache_update new_vm_cache_value
vm_cache_update-IsIndexed c obj i =
    let key = vm_cache_key obj in
    let val = found (lookup key c.store) in
    let new_val = new_vm_cache_value obj in
    let shrunk = template_map_delete val.template val.vm c.vms_for_template in
    let deleted = vm_cache_delete-IsIndexed c obj i in
    record {
      agrees = λ t v. ground (
        arith,
        contains-list-delete val.template val.vm t v c.vms_for_template,
        contains-list-add new_val.template key t v c.vms_for_template,
        contains-list-add new_val.template key t v shrunk,
        lookup-insert v key new_val c.store,
        i.keyed key val,
        i.agrees t v,
        deleted.agrees t v,
      );
      keyed = λ k w h.
          ground (arith, lookup-insert k key new_val c.store, i.keyed k w, deleted.keyed k w);
      no_empty = λ t h. ground (
        arith,
        no_empty-delete val.template val.vm t c.vms_for_template,
        no_empty-add new_val.template key t c.vms_for_template,
        no_empty-add new_val.template key t shrunk,
        i.no_empty t,
        deleted.no_empty t,
      );
    }

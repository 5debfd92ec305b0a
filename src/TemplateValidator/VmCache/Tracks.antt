-- ===== src/TemplateValidator/VmCache/Tracks.antt =====
-- The cache against the virtual machines of the cluster, as the reflector reports them.
use ssp_operator.Base.{
  String, ◌≡◌, refl, ◌∙◌, ap, subst, Bool, false, ◌&&◌, Option, none, some, List, [], ◌∷◌, arith,
  ◌==◌, contains, string_eq, if◌then◌else◌,
}
use ssp_operator.Base.Dict.{lookup, lookup-insert, lookup-delete}
use ssp_operator.Kubernetes.{ObjectMeta}
use ssp_operator.TemplateValidator.VmCache.{
  VmCacheValue, VmCache, vm_cache_key, new_vm_cache_value, new_vm_cache, vm_cache_add,
  vm_cache_update, vm_cache_delete, get_vms_for_template,
}
use ssp_operator.TemplateValidator.VmCache.Index.{
  IsIndexed, new_vm_cache-IsIndexed, vm_cache_add-IsIndexed, vm_cache_update-IsIndexed,
  vm_cache_delete-IsIndexed,
}

-- A watch event of the API server, with the object that it carries.
pub data Event : Type 0 where
  added modified deleted : ObjectMeta → Event

-- The virtual machines of the cluster, by `vmCacheKey`.
abbrev pub World : Type 0
World = String → Option ObjectMeta

abbrev put : String → Option ObjectMeta → World → World
put key o w k = if k == key then o else w k

abbrev pub happen : Event → World → World
happen (added m) = put (vm_cache_key m) (some m)
happen (modified m) = put (vm_cache_key m) (some m)
happen (deleted m) = put (vm_cache_key m) none

-- An object is only reported as added while there is none under its key.
abbrev Fits : Event → World → Type 0
Fits (added m) w = w (vm_cache_key m) ≡ none
Fits _ w = Unit

unfoldable pub handle : Event → VmCache → VmCache
handle (added m) c = (vm_cache_add c (some m)).0
handle (modified m) c = (vm_cache_update c (some m)).0
handle (deleted m) c = (vm_cache_delete c (some m)).0

-- What the cache should hold for an object.
abbrev expected : (ObjectMeta → Bool) → Option ObjectMeta → Option VmCacheValue
expected filter none = none
expected filter (some m) = if filter m then some (new_vm_cache_value m) else none

record Tracks (w : World) (c : VmCache) (filter : ObjectMeta → Bool) : Type 0 where
  held : (k : String) → lookup k c.store ≡ expected filter (w k)
  same_filter : c.filter ≡ filter
  indexed : IsIndexed c

handle-held :
    (w : World) (c : VmCache) (e : Event) (k : String)
    → lookup k c.store ≡ expected c.filter (w k)
    → Fits e w
    → lookup k (handle e c).store ≡ expected c.filter (happen e w k)
unfolding handle vm_cache_add vm_cache_update vm_cache_delete
handle-held w c (added m) k h fits =
    ground (arith, lookup-insert k (vm_cache_key m) (new_vm_cache_value m) c.store)
handle-held w c (modified m) k h fits = ground (
  arith,
  lookup-insert k (vm_cache_key m) (new_vm_cache_value m) c.store,
  lookup-delete k (vm_cache_key m) c.store,
)
handle-held w c (deleted m) k h fits = ground (arith, lookup-delete k (vm_cache_key m) c.store)

filter-handle : (e : Event) (c : VmCache) → (handle e c).filter ≡ c.filter
unfolding handle vm_cache_add vm_cache_update vm_cache_delete
filter-handle (added m) c = ground arith
filter-handle (modified m) c = ground arith
filter-handle (deleted m) c = ground arith

absent :
    (w : World) (c : VmCache) (k : String)
    → lookup k c.store ≡ expected c.filter (w k)
    → w k ≡ none
    → lookup k c.store ≡ none
absent w c k h e = h ∙ ap (expected c.filter) e

handle-IsIndexed :
    (w : World) (c : VmCache) (e : Event)
    → ((k : String) → lookup k c.store ≡ expected c.filter (w k))
    → Fits e w
    → IsIndexed c
    → IsIndexed (handle e c)
unfolding handle
handle-IsIndexed w c (added m) held fits i =
    vm_cache_add-IsIndexed c m (absent w c (vm_cache_key m) (held (vm_cache_key m)) fits) i
handle-IsIndexed w c (modified m) held fits i = vm_cache_update-IsIndexed c m i
handle-IsIndexed w c (deleted m) held fits i = vm_cache_delete-IsIndexed c m i

-- The cluster and the cache after a history of events, and the contract of each event in turn.
abbrev pub history : List Event → World → World
history [] w = w
history (e ∷ es) w = history es (happen e w)

unfoldable pub handle_all : List Event → VmCache → VmCache
handle_all [] c = c
handle_all (e ∷ es) c = handle_all es (handle e c)

abbrev pub AllFit : List Event → World → Type 0
AllFit [] w = Unit
AllFit (e ∷ es) w = Fits e w × AllFit es (happen e w)

handle_all-Tracks :
    (es : List Event) (w : World) (c : VmCache)
    → ((k : String) → lookup k c.store ≡ expected c.filter (w k))
    → IsIndexed c
    → AllFit es w
    → Tracks (history es w) (handle_all es c) c.filter
unfolding handle_all
handle_all-Tracks [] w c held i fits = record { held = held; same_filter = refl; indexed = i }
handle_all-Tracks (e ∷ es) w c held i (now, later) =
    subst (λ f. Tracks (history es (happen e w)) (handle_all es (handle e c)) f) (filter-handle e c)
      (handle_all-Tracks es (happen e w) (handle e c)
        (λ k. rw filter-handle (handle-held w c e k (held k) now))
        (handle-IsIndexed w c e held now i) later)

abbrev pub empty_world : World
empty_world k = none

-- Whether an object is one that the cache has to list under a template.
abbrev pub uses : (ObjectMeta → Bool) → String → Option ObjectMeta → Bool
uses filter template none = false
uses filter template (some m) = filter m && template == (new_vm_cache_value m).template

-- After any history of watch events from an empty cluster, in which an object is only reported as
-- added while there is none under its key, `GetVmsForTemplate` lists a key exactly if the cluster
-- holds a virtual machine under it that passes the filter and refers to the template.
pub get_vms_for_template-handle_all :
    (filter : ObjectMeta → Bool) (es : List Event) (template vm : String)
    → AllFit es empty_world
    → contains (get_vms_for_template (handle_all es (new_vm_cache filter)) template) vm
      ≡ uses filter template (history es empty_world vm)
unfolding get_vms_for_template new_vm_cache lookup
get_vms_for_template-handle_all filter es template vm fits =
    let t : Tracks (history es empty_world) (handle_all es (new_vm_cache filter)) filter =
      handle_all-Tracks es empty_world (new_vm_cache filter) (λ k. refl)
        (new_vm_cache-IsIndexed filter) fits in
    ground (arith, t.indexed.agrees template vm, t.held vm)

-- ===== src/CrdWatch.antt =====
-- internal/crd-watch/crd-watch.go: which of the required custom resource definitions exist. A call of
-- a handler is a value that the operation returns. The locks are not modelled: every operation runs as
-- a whole under the lock.
pub mod Handlers
pub mod Sync
mod Tests
use Prim.Native.Nat.{zero, suc}
use ssp_operator.Base.{
  String, Bool, true, false, ◌&&◌, ◌||◌, not, Option, none, some, List, [], ◌∷◌, ◌++◌, length,
  contains, string_eq, if◌then◌else◌,
}
use ssp_operator.Base.Dict.{add, remove}

pub record CrdWatch : Type 0 where
  -- whether the two handlers are set
  pub all_crds_added_handler : Bool
  pub some_crd_removed_handler : Bool
  pub required_crds : List String
  pub existing_crds : List String
  pub missing_crds : List String
  pub initialized : Bool

pub data Call : Type 0 where
  all_crds_added some_crd_removed : Call

-- The map that holds the given names.
unfoldable pub set_of : List String → List String
set_of [] = []
set_of (name ∷ names) = add name (set_of names)

unfoldable pub new_crd_watch : Bool → Bool → List String → CrdWatch
unfolding set_of
new_crd_watch all_added some_removed required = record {
  all_crds_added_handler = all_added;
  some_crd_removed_handler = some_removed;
  required_crds = set_of required;
  existing_crds = [];
  missing_crds = set_of required;
  initialized = false;
}

-- `missingCountOld == 1 && len(c.missingCrds) == 0`
abbrev last_found : List String → List String → Bool
last_found (name ∷ []) [] = true
last_found old new = false

unfoldable pub crd_added : CrdWatch → String → CrdWatch × List Call
crd_added c crd_name =
    let missing = remove crd_name c.missing_crds in
    let c' = record c { existing_crds = add crd_name c.existing_crds; missing_crds = missing } in
    if not c.initialized || not c.all_crds_added_handler
    then (c', [])
    else if last_found c.missing_crds missing
    then (c', all_crds_added ∷ [])
    else (c', [])

unfoldable pub crd_deleted : CrdWatch → String → CrdWatch × List Call
crd_deleted c crd_name =
    let existing = remove crd_name c.existing_crds in
    let c' = record c { existing_crds = existing; missing_crds = add crd_name c.missing_crds } in
    if not (contains c.required_crds crd_name)
    then (record c { existing_crds = existing }, [])
    else if not c.initialized || not c.some_crd_removed_handler
    then (c', [])
    else elim c.missing_crds [ [] ↦ (c', some_crd_removed ∷ []) | name ∷ names ↦ (c', []) ]

-- A loop over names, with the calls in order.
unfoldable pub each :
    (CrdWatch → String → CrdWatch × List Call) → CrdWatch → List String → CrdWatch × List Call
each step c [] = (c, [])
each step c (name ∷ names) =
    let (c', calls) = step c name in let (c'', more) = each step c' names in (c'', calls ++ more)

-- The names of the first list that the second has not.
unfoldable pub difference : List String → List String → List String
difference [] other = []
difference (name ∷ names) other =
    let rest = difference names other in if contains other name then rest else name ∷ rest

-- From the names of the CRDs that the cluster lists, or `none` where the listing fails.
unfoldable pub sync : CrdWatch → Option (List String) → Option (CrdWatch × List Call)
unfolding set_of difference each
sync c none = none
sync c (some items) =
    let new_crds = set_of items in
    let added_crds = difference new_crds c.existing_crds in
    let deleted_crds = difference c.existing_crds new_crds in
    let (c', calls) = each crd_added c added_crds in
    let (c'', more) = each crd_deleted c' deleted_crds in some (c'', calls ++ more)

unfoldable pub init : CrdWatch → Option (List String) → Option (CrdWatch × List Call)
unfolding sync
init c listing = elim (sync c listing) [
  | none ↦ none
  | some (c', calls) ↦ some (record c' { initialized = true }, calls)
]

-- `none` is the panic of a watch that is not initialised.
unfoldable pub crd_exists : CrdWatch → String → Option Bool
crd_exists c crd_name = if not c.initialized then none else some (contains c.existing_crds crd_name)

unfoldable pub missing_crds_of : CrdWatch → Option (List String)
missing_crds_of c = if not c.initialized then none else some c.missing_crds

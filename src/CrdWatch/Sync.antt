-- ===== src/CrdWatch/Sync.antt =====
-- `sync` and `Init`: after them the watch holds what the cluster lists.
use ssp_operator.Base.{
  String, ◌≡◌, refl, ◌∙◌, ap, Bool, true, false, ◌&&◌, ◌||◌, not, some, List, [], ◌∷◌, ◌++◌, arith,
  ◌==◌, contains, string_eq,
}
use ssp_operator.Base.Dict.{contains-add, contains-remove}
use ssp_operator.CrdWatch.{
  CrdWatch, Call, set_of, new_crd_watch, crd_added, crd_deleted, each, difference, sync, init,
  crd_exists,
}
use ssp_operator.CrdWatch.Handlers.{
  IsConsistent, contains-set_of, set_of-Distinct, crd_added-IsConsistent, crd_deleted-IsConsistent,
}

contains-difference :
    (names other : List String) (n : String)
    → contains (difference names other) n ≡ (contains names n && not (contains other n))
unfolding difference
contains-difference [] other n = refl
contains-difference (name ∷ names) other n = ground (arith, contains-difference names other n)

existing-crd_added :
    (c : CrdWatch) (name n : String)
    → contains (crd_added c name).0.existing_crds n ≡ (n == name || contains c.existing_crds n)
unfolding crd_added
existing-crd_added c name n = ground (arith, contains-add n name c.existing_crds)

existing-crd_deleted :
    (c : CrdWatch) (name n : String)
    → contains (crd_deleted c name).0.existing_crds n
      ≡ (not (n == name) && contains c.existing_crds n)
unfolding crd_deleted
existing-crd_deleted c name n = ground (arith, contains-remove n name c.existing_crds)

same-crd_added :
    (c : CrdWatch) (name : String)
    → ((crd_added c name).0.required_crds ≡ c.required_crds)
      × ((crd_added c name).0.initialized ≡ c.initialized)
unfolding crd_added
same-crd_added c name = (ground arith, ground arith)

same-crd_deleted :
    (c : CrdWatch) (name : String)
    → ((crd_deleted c name).0.required_crds ≡ c.required_crds)
      × ((crd_deleted c name).0.initialized ≡ c.initialized)
unfolding crd_deleted
same-crd_deleted c name = (ground arith, ground arith)

each-added :
    (names : List String) (c : CrdWatch) (n : String)
    → contains (each crd_added c names).0.existing_crds n
      ≡ (contains names n || contains c.existing_crds n)
unfolding each
each-added [] c n = refl
each-added (name ∷ names) c n =
    ground (arith, each-added names (crd_added c name).0 n, existing-crd_added c name n)

each-deleted :
    (names : List String) (c : CrdWatch) (n : String)
    → contains (each crd_deleted c names).0.existing_crds n
      ≡ (not (contains names n) && contains c.existing_crds n)
unfolding each
each-deleted [] c n = refl
each-deleted (name ∷ names) c n =
    ground (arith, each-deleted names (crd_deleted c name).0 n, existing-crd_deleted c name n)

-- Any property of the watch that a step keeps is kept by the loop.
module _ (P : CrdWatch → Type 0) (step : CrdWatch → String → CrdWatch × List Call)
    (keeps : (c : CrdWatch) (name : String) → P c → P (step c name).0) where
  each_induction : (names : List String) (c : CrdWatch) → P c → P (each step c names).0
  unfolding each
  each_induction [] c p = p
  each_induction (name ∷ names) c p = each_induction names (step c name).0 (keeps c name p)

-- The fields that no step changes.
abbrev Same : CrdWatch → CrdWatch → Type 0
Same c c' = (c'.required_crds ≡ c.required_crds) × (c'.initialized ≡ c.initialized)

record IsSynced (c : CrdWatch) (items : List String) (c' : CrdWatch) : Type 0 where
  existing : (n : String) → contains c'.existing_crds n ≡ contains items n
  consistent : IsConsistent c'
  same : Same c c'

-- The state that `sync` leaves.
abbrev synced : CrdWatch → List String → CrdWatch
synced c items =
    let new_crds = set_of items in
    (each crd_deleted (each crd_added c (difference new_crds c.existing_crds)).0
      (difference c.existing_crds new_crds)).0

synced-IsSynced :
    (c : CrdWatch) (items : List String) → IsConsistent c → IsSynced c items (synced c items)
synced-IsSynced c items i =
    let new_crds = set_of items in
    let added = difference new_crds c.existing_crds in
    let deleted = difference c.existing_crds new_crds in
    let c' = (each crd_added c added).0 in
    record {
      existing = λ n. ground (
        arith,
        each-added added c n,
        each-deleted deleted c' n,
        contains-difference new_crds c.existing_crds n,
        contains-difference c.existing_crds new_crds n,
        contains-set_of items n,
      );
      consistent =
          each_induction IsConsistent crd_deleted crd_deleted-IsConsistent deleted c'
            (each_induction IsConsistent crd_added crd_added-IsConsistent added c i);
      same =
          each_induction (Same c) crd_deleted
            (λ d name s. ((same-crd_deleted d name).0 ∙ s.0, (same-crd_deleted d name).1 ∙ s.1))
            deleted c'
            (each_induction (Same c) crd_added
              (λ d name s. ((same-crd_added d name).0 ∙ s.0, (same-crd_added d name).1 ∙ s.1)) added
              c (refl, refl));
    }

quiet-crd_added : (c : CrdWatch) (name : String) → c.initialized ≡ false → (crd_added c name).1 ≡ []
unfolding crd_added
quiet-crd_added c name h = ground arith

quiet-crd_deleted :
    (c : CrdWatch) (name : String) → c.initialized ≡ false → (crd_deleted c name).1 ≡ []
unfolding crd_deleted
quiet-crd_deleted c name h = ground arith

quiet-each_added :
    (names : List String) (c : CrdWatch) → c.initialized ≡ false → (each crd_added c names).1 ≡ []
unfolding each
quiet-each_added [] c h = refl
quiet-each_added (name ∷ names) c h = ground (
  arith,
  quiet-crd_added c name,
  (same-crd_added c name).1,
  quiet-each_added names (crd_added c name).0,
)

quiet-each_deleted :
    (names : List String) (c : CrdWatch) → c.initialized ≡ false → (each crd_deleted c names).1 ≡ []
unfolding each
quiet-each_deleted [] c h = refl
quiet-each_deleted (name ∷ names) c h = ground (
  arith,
  quiet-crd_deleted c name,
  (same-crd_deleted c name).1,
  quiet-each_deleted names (crd_deleted c name).0,
)

abbrev sync_calls : CrdWatch → List String → List Call
sync_calls c items =
    let new_crds = set_of items in
    let (c', calls) = each crd_added c (difference new_crds c.existing_crds) in
    calls ++ (each crd_deleted c' (difference c.existing_crds new_crds)).1

sync_state :
    (c : CrdWatch) (items : List String)
    → sync c (some items) ≡ some (synced c items, sync_calls c items)
unfolding sync
sync_state c items = refl

-- `sync` with a listing of the cluster succeeds in every consistent watch. Afterwards the watch is
-- consistent and exactly the listed definitions exist for it, whatever existed before; what is
-- required stays so.
pub sync_lem :
    (c : CrdWatch) (items : List String) (n : String)
    → IsConsistent c
    → (c' : CrdWatch) × (calls : List Call) × (sync c (some items) ≡ some (c', calls))
      × IsConsistent c'
      × (contains c'.existing_crds n ≡ contains items n)
      × (contains c'.missing_crds n ≡ (contains c.required_crds n && not (contains items n)))
sync_lem c items n i =
    let s = synced-IsSynced c items i in
    (
      synced c items,
      sync_calls c items,
      sync_state c items,
      s.consistent,
      s.existing n,
      s.consistent.missing n ∙ cc (s.same.0, s.existing n),
    )

new_crd_watch-IsConsistent :
    (all_added some_removed : Bool) (required : List String)
    → IsConsistent (new_crd_watch all_added some_removed required)
unfolding new_crd_watch
new_crd_watch-IsConsistent all_added some_removed required = record {
  missing = λ n. ground arith;
  distinct = set_of-Distinct required;
}

init_state :
    (c : CrdWatch) (items : List String)
    → c.initialized ≡ false
    → init c (some items) ≡ some (record (synced c items) { initialized = true }, [])
unfolding init
init_state c items h =
    let new_crds = set_of items in
    let added = difference new_crds c.existing_crds in
    let c' = (each crd_added c added).0 in
    let same =
      each_induction (Same c) crd_added
        (λ d name s. ((same-crd_added d name).0 ∙ s.0, (same-crd_added d name).1 ∙ s.1)) added c
        (refl, refl) in
    cc (
      quiet-each_added added c h,
      quiet-each_deleted (difference c.existing_crds new_crds) c' (same.1 ∙ h),
    )

-- A new watch that is initialised from a listing of the cluster calls no handler. Afterwards exactly
-- the listed definitions exist for it, and exactly the required ones among the others are missing.
pub init-new_crd_watch :
    (all_added some_removed : Bool) (required items : List String) (n : String)
    → (c : CrdWatch) × (init (new_crd_watch all_added some_removed required) (some items)
        ≡ some (c, []))
      × (crd_exists c n ≡ some (contains items n))
      × (contains c.missing_crds n ≡ (contains required n && not (contains items n)))
unfolding new_crd_watch crd_exists
init-new_crd_watch all_added some_removed required items n =
    let c = new_crd_watch all_added some_removed required in
    let s = synced-IsSynced c items (new_crd_watch-IsConsistent all_added some_removed required) in
    (
      record (synced c items) { initialized = true },
      init_state c items refl,
      ap some (s.existing n),
      s.consistent.missing n ∙ cc (s.same.0, s.existing n, contains-set_of required n),
    )

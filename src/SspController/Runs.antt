-- ===== src/SspController/Runs.antt =====
-- A server that stores one SSP object and fails no request, with one operand whose resources exist or not, and
-- runs of `Reconcile` on it.
use ssp_operator.Base.{
  String, ◌↔◌, ◌||◌, ◌==◌, not, Among, ◌≡◌, refl, ℕ, Bool, true, false, ◌&&◌, Option, none, some,
  List, [], ◌∷◌, inl, inr, contains, string_eq, if◌then◌else◌, arith,
}
use ssp_operator.Base.Equality.{nat_eq}
use ssp_operator.Base.Dict.{Dict, lookup, insert}
use ssp_operator.SspController.{update_status, messages_of, condition_for, is_empty}
use ssp_operator.SspController.Instance.{
  SspObject, without_finalizer, not_ready, is_paused, parse_bool,
}
use ssp_operator.SspController.Reconcile.{
  Server, Operands, Controller, World, reconcile_operands, not_found,
}
use ssp_operator.SspController.Loop.{Environment, reconcile_ssp}
use ssp_operator.SspController.Servers.{IsServer, AreCleaned, created}
use ssp_operator.SspController.Paused.{reconcile_ssp-paused}
use ssp_operator.SspController.Answering.{IsAnswering, AreSettling}
use ssp_operator.SspController.Deployed.{reconcile_ssp-deployed}
use ssp_operator.SspController.Watched.{all_types, last_type, any_full, watch_resources_lem}
use ssp_operator.SspController.Watches.{Watching, WatchType, Watch, watch_resources}
use ssp_operator.SspController.Reached.{IsSafe, reconciles, changes, here, next, Reach-IsSafe}
use ssp_operator.SspController.Tests.{dictionary, initial, any_number}

abbrev TestObject : Type 0
TestObject = SspObject (Dict String String) ℕ

abbrev test_server : Server (Dict String String) ℕ (Option TestObject)
test_server = record {
  get = λ o. elim o [ none ↦ inl not_found | some s ↦ inr s ];
  update = λ o s. elim o [
    | none ↦ (inl not_found, none)
    | some cur ↦
        let s' = record s { deleting = cur.deleting; status = cur.status } in
        (inr s', if cur.deleting && is_empty s.finalizers then none else some s')
  ];
  update_status = λ o s. elim o [
    | none ↦ (inl not_found, none)
    | some cur ↦ let s' = record cur { status = s.status } in (inr s', some s')
  ];
}

abbrev same : Option TestObject → Option TestObject
same o = o

test_server_updated :
    (o o' : Option TestObject) (s s' : TestObject)
    → test_server.update o s ≡ (inr s', o')
    → (cur : TestObject) × (o ≡ some cur)
      × (s'.finalizers ≡ s.finalizers)
      × (s'.deleting ≡ cur.deleting)
      × (s'.status ≡ cur.status)
      × (o' ≡ (if s'.deleting && is_empty s'.finalizers then none else some s'))
test_server_updated none o' s s' p = absurd (ground arith)
test_server_updated (some cur) o' s s' p =
    (cur, refl, ground arith, ground arith, ground arith, ground arith)

test_server_status_updated :
    (o o' : Option TestObject) (s s' : TestObject)
    → test_server.update_status o s ≡ (inr s', o')
    → (cur : TestObject) × (o ≡ some cur) × (s' ≡ record cur { status = s.status }) × (o' ≡ some s')
test_server_status_updated none o' s s' p = absurd (ground arith)
test_server_status_updated (some cur) o' s s' p = (cur, refl, ground arith, ground arith)

test_server-IsServer : IsServer test_server same
test_server-IsServer = record {
  get_found = λ o s. elim o [ none ↦ λ p. ground arith | some cur ↦ λ p. ground arith ];
  update_failed = λ o o' s e. elim o [ none ↦ λ p. ground arith | some cur ↦ λ p. ground arith ];
  updated = test_server_updated;
  status_failed = λ o o' s e. elim o [ none ↦ λ p. ground arith | some cur ↦ λ p. ground arith ];
  status_updated = test_server_status_updated;
}

-- One operand: reconciliation creates its resources, cleanup removes them.
abbrev test_operands : Operands (Dict String String) ℕ Unit Unit String Bool
test_operands = record {
  reconcile_operand = λ i request r. (inr [], true, request.version_cache);
  cleanup_operand = λ i request r. (inr [], false);
}

abbrev Removed : String → Bool → Type 0
Removed i r = r ≡ false

test_operands-AreCleaned : AreCleaned test_operands Removed
test_operands-AreCleaned = record { cleaned = λ i request r r' results p q. ground arith }

abbrev test_env : Environment (Dict String String) ℕ
test_env = record {
  conditions = dictionary;
  show = any_number;
  error_text = λ e. "failed";
  operator_version = "v1";
  empty_spec = 0;
  missing_crds = [];
}

abbrev TestWorld : Type 0
TestWorld = World ℕ (Option TestObject) String Bool

abbrev new_object : TestObject
new_object = record {
  generation = 1;
  deleting = false;
  finalizers = [];
  annotations = [];
  spec = 3;
  status = record initial { phase = ""; observed_generation = 0 };
}

abbrev world_with : Option TestObject → TestWorld
world_with o = record {
  controller = record { last_ssp_spec = 0; subresource_cache = []; are_crds_missing = false };
  server = o;
  managed = ("common-templates", false) ∷ [];
}

abbrev after_reconcile : TestWorld → TestWorld
after_reconcile w = (reconcile_ssp test_env test_server test_operands w).1

abbrev phase_of : TestWorld → Option String
phase_of w = elim w.server [ none ↦ none | some s ↦ some s.status.phase ]

abbrev finalizers_of : TestWorld → Option (List String)
finalizers_of w = elim w.server [ none ↦ none | some s ↦ some s.finalizers ]

abbrev request_deletion : TestWorld → TestWorld
request_deletion w = record w {
  server = elim w.server [ none ↦ none | some s ↦ some (record s { deleting = true }) ];
}

-- An object is created and reconciled twice: it is deployed, with a finalizer and the resources. When it is to
-- be deleted, the next reconciliation removes the resources and the object.
deployed :
    let w = after_reconcile (after_reconcile (world_with (some new_object))) in
    (phase_of w ≡ some "Deployed")
    × (finalizers_of w ≡ some ("ssp.kubevirt.io/finalizer" ∷ []))
    × (w.managed ≡ ("common-templates", true) ∷ [])
unfolding reconcile_ssp update_status condition_for messages_of insert without_finalizer parse_bool
    not_ready string_eq reconcile_operands nat_eq lookup
deployed = (refl, refl, refl)

removed :
    let w = after_reconcile (after_reconcile (world_with (some new_object))) in
    let w' = after_reconcile (request_deletion w) in
    (w'.server ≡ none) × (w'.managed ≡ ("common-templates", false) ∷ [])
unfolding reconcile_ssp update_status condition_for messages_of insert without_finalizer parse_bool
    not_ready string_eq reconcile_operands nat_eq lookup
removed = (refl, refl)

Reach-IsSafe_example :
    IsSafe same Removed (after_reconcile (after_reconcile (world_with (some new_object))))
Reach-IsSafe_example =
    Reach-IsSafe test_server test_operands same Removed test_server-IsServer
      test_operands-AreCleaned (world_with none)
      (after_reconcile (after_reconcile (world_with (some new_object)))) refl (refl, tt)
      (next
        (next (next here (changes (created new_object refl) (λ a. a))) (reconciles test_env refl))
        (reconciles test_env refl))

-- A controller with a definition missing.
abbrev blocked : Controller ℕ
blocked = record { last_ssp_spec = 0; subresource_cache = []; are_crds_missing = true }

reconcile_ssp-paused_example :
    (after_reconcile (record (world_with (some new_object)) { controller = blocked })).managed
    ≡ ("common-templates", false) ∷ []
reconcile_ssp-paused_example =
    reconcile_ssp-paused test_env test_server test_operands
      (record (world_with (some new_object)) { controller = blocked }) new_object refl refl
      (inr refl)

test_server_updates :
    (o : Option TestObject) (t cur : TestObject)
    → o ≡ some cur
    → (s' : TestObject) × (o' : Option TestObject) × (test_server.update o t ≡ (inr s', o'))
      × (s'.annotations ≡ t.annotations)
test_server_updates none t cur p = absurd (ground arith)
test_server_updates (some s) t cur p = (
  record t { deleting = s.deleting; status = s.status },
  (test_server.update (some s) t).1,
  refl,
  refl,
)

test_server_updates_status :
    (o : Option TestObject) (t cur : TestObject)
    → o ≡ some cur
    → (s' : TestObject) × (o' : Option TestObject) × (test_server.update_status o t ≡ (inr s', o'))
test_server_updates_status none t cur p = absurd (ground arith)
test_server_updates_status (some s) t cur p =
    (record s { status = t.status }, some (record s { status = t.status }), refl)

test_server-IsAnswering : IsAnswering test_server same
test_server-IsAnswering = record {
  get_stored = λ o s. elim o [ none ↦ λ p. ground arith | some cur ↦ λ p. ground arith ];
  updates = test_server_updates;
  updates_status = test_server_updates_status;
}

abbrev AnyState : String → Bool → Type 0
AnyState i r = Unit {0}

test_operands-AreSettling : AreSettling test_operands AnyState
test_operands-AreSettling = record {
  succeeds = λ i request r h. ([], true, request.version_cache, refl, refl, tt);
}

-- An object with the old finalizer, whose status was never set.
abbrev old_object : TestObject
old_object = record new_object { finalizers = "finalize.ssp.kubevirt.io" ∷ [] }

reconcile_ssp-deployed_example :
    (s' : TestObject) × ((after_reconcile
        (after_reconcile (after_reconcile (world_with (some old_object))))).server
      ≡ some s')
    × (s'.status.phase ≡ "Deployed")
    × (contains s'.finalizers "finalize.ssp.kubevirt.io" ≡ false)
unfolding is_paused lookup
reconcile_ssp-deployed_example =
    reconcile_ssp-deployed test_env test_server test_operands same AnyState test_server-IsServer
      test_server-IsAnswering test_operands-AreSettling (world_with (some old_object)) old_object
      (record {
        stored_as = refl;
        not_deleting = refl;
        unpaused = refl;
        no_crds_missing = refl;
        settled = (tt, tt);
      })

-- Two operands that watch the same type, of which one asks for the full object.
abbrev watching : List (Watching ℕ)
watching =
    record {
      watch_types = record { object_type = 1; crd = ""; watch_full_object = true } ∷ [];
      watch_cluster_types = [];
    }
    ∷ record {
      watch_types = record { object_type = 1; crd = "templates"; watch_full_object = false } ∷ [];
      watch_cluster_types = [];
    }
    ∷ []

watch_resources_lem_example :
    let w : Watch ℕ = record { watched_type = 1; only_relevant_changes = false } in
    let types = all_types (λ o. o.watch_types) watching in
    Among w (watch_resources (λ crd. true) watching (λ o. o.watch_types)) ↔ (
      (t : WatchType ℕ) × (last_type 1 types ≡ some t)
      × ((t.crd == "" || true) ≡ true)
      × (w.only_relevant_changes ≡ not (any_full 1 types)))
watch_resources_lem_example =
    watch_resources_lem (λ crd. true) watching (λ o. o.watch_types)
      (record { watched_type = 1; only_relevant_changes = false })

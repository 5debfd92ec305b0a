-- ===== src/SspController/Watches.antt =====
-- internal/controllers/ssp_controller.go and internal/operands/operand.go: the definitions that the operands require,
-- and which kinds of object the controller watches. `K` stands for the type of an object.
use ssp_operator.Base.{
  String, Bool, ◌&&◌, ◌||◌, not, none, some, List, [], ◌∷◌, ◌++◌, Eq, ◌==◌, string_eq,
  if◌then◌else◌,
}
use ssp_operator.Base.Dict.{Dict, lookup, insert}

pub record WatchType (K : Type 0) : Type 0 where
  pub object_type : K
  pub crd : String
  pub watch_full_object : Bool

-- The lists of an operand.
pub record Watching (K : Type 0) : Type 0 where
  pub watch_types : List (WatchType K)
  pub watch_cluster_types : List (WatchType K)

-- A call of `ctrlBuilder.Watches`: without predicates, or with `relevantChangesPredicate`.
pub record Watch (K : Type 0) : Type 0 where
  pub watched_type : K
  pub only_relevant_changes : Bool

module _ {K : Type 0} where
  unfoldable pub crds_of : List (WatchType K) → List String
  crds_of [] = []
  crds_of (t ∷ types) = let rest = crds_of types in if not (t.crd == "") then t.crd ∷ rest else rest

  unfoldable pub get_required_crds : Watching K → List String
  unfolding crds_of
  get_required_crds operand = crds_of operand.watch_types ++ crds_of operand.watch_cluster_types

  unfoldable pub required_crds : List (Watching K) → List String
  unfolding get_required_crds
  required_crds [] = []
  required_crds (operand ∷ operands) = get_required_crds operand ++ required_crds operands

module _ {K : Type 0} ⦃e : Eq K⦄ where
  -- The body of the inner loop of `watchResources`.
  unfoldable pub add_watch_type : Dict K (WatchType K) → WatchType K → Dict K (WatchType K)
  add_watch_type watched t = elim (lookup t.object_type watched) [
    | none ↦ insert t.object_type t watched
    | some wt ↦
        insert t.object_type
          (record t { watch_full_object = t.watch_full_object || wt.watch_full_object }) watched
  ]

  unfoldable pub add_watch_types : Dict K (WatchType K) → List (WatchType K) → Dict K (WatchType K)
  unfolding add_watch_type
  add_watch_types watched [] = watched
  add_watch_types watched (t ∷ types) = add_watch_types (add_watch_type watched t) types

  -- `watchTypesFunc` picks one of the lists of an operand.
  unfoldable pub watched_types :
      (Watching K → List (WatchType K))
      → Dict K (WatchType K)
      → List (Watching K)
      → Dict K (WatchType K)
  unfolding add_watch_types
  watched_types watch_types_func watched [] = watched
  watched_types watch_types_func watched (operand ∷ operands) =
      watched_types watch_types_func (add_watch_types watched (watch_types_func operand)) operands

  -- The second loop; `crd_exists` is the answer of the CRD watch.
  unfoldable pub watches_of : (String → Bool) → Dict K (WatchType K) → List (Watch K)
  watches_of crd_exists [] = []
  watches_of crd_exists ((key, t) ∷ watched) =
      let rest = watches_of crd_exists watched in
      if not (t.crd == "") && not (crd_exists t.crd)
      then rest
      else record { watched_type = t.object_type; only_relevant_changes = not t.watch_full_object }
        ∷ rest

  unfoldable pub watch_resources :
      (String → Bool) → List (Watching K) → (Watching K → List (WatchType K)) → List (Watch K)
  unfolding watched_types watches_of
  watch_resources crd_exists operands watch_types_func =
      watches_of crd_exists (watched_types watch_types_func [] operands)

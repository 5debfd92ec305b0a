-- ===== src/Resources/Cleanup.antt =====
-- internal/common/resource.go: `Cleanup`, `isResourceOwned` and `DeleteAll`. The answers of the API server
-- are parameters; the deletions that are requested are a result.
use ssp_operator.Base.{
  String, ◌≡◌, arith, Bool, true, false, ◌&&◌, Option, none, some, List, [], ◌∷◌, ◌++◌, ◌⊎◌, inl,
  inr, Eq, ◌==◌, string_eq, if◌then◌else◌, All, Bool-cases, Sum-cases, append-All, equal-All,
}
use ssp_operator.Base.Dict.{lookup_or}
use ssp_operator.Resources.{
  Object, Get, Get-cases, found, not_found, failed, Owners, type_annotation,
  namespaced_name_annotation,
}

pub data CleanupError : Type 0 where
  get_failed owner_failed delete_failed : String → CleanupError
  -- the panic of `expectedObj.GetOwnerReferences()[0]`
  index_out_of_range : CleanupError

pub record CleanupResult (S Ref : Type 0) : Type 0 where
  pub resource : Object S Ref
  pub deleted : Bool

-- The loop over the owner references of the found object. `none` is the panic of an index out of range.
unfoldable pub references_own : {Ref : Type 0} ⦃e : Eq Ref⦄ → List Ref → List Ref → Option Bool
references_own [] expected = some false
references_own (reference ∷ references) [] = none
references_own (reference ∷ references) (owner ∷ owners) =
    let rest = references_own references (owner ∷ owners) in
    if reference == owner then some true else rest

module _ {S Ref : Type 0} ⦃e : Eq Ref⦄ where
  unfoldable pub annotations_own : Object S Ref → Object S Ref → Bool
  annotations_own expected found_obj = elim found_obj.annotations [
    | [] ↦ false
    | entry ∷ entries ↦
        lookup_or "" type_annotation (entry ∷ entries)
          == lookup_or "" type_annotation expected.annotations
        && lookup_or "" namespaced_name_annotation (entry ∷ entries)
          == lookup_or "" namespaced_name_annotation expected.annotations
  ]

  -- The expected object with its owner marked.
  unfoldable pub marked : Owners S Ref → Object S Ref → String ⊎ Object S Ref
  marked owners expected =
      if expected.namespace == owners.instance_namespace
      then elim (owners.set_controller_reference (record expected { owner_references = [] })) [
        | inl err ↦ inl err
        | inr obj ↦ owners.set_owner_annotations obj
      ]
      else owners.set_owner_annotations expected

  unfoldable pub is_resource_owned :
      Owners S Ref → Object S Ref → Object S Ref → CleanupError ⊎ Bool
  unfolding marked references_own annotations_own
  is_resource_owned owners expected found_obj = elim (marked owners expected) [
    | inl err ↦ inl (owner_failed err)
    | inr obj ↦ elim (references_own found_obj.owner_references obj.owner_references) [
      | none ↦ inl index_out_of_range
      | some true ↦ inr true
      | some false ↦ inr (annotations_own obj found_obj)
    ]
  ]

  -- `get` and `delete` are the answers of the API server; the list holds the objects whose deletion is
  -- requested.
  module _ (owners : Owners S Ref) (get : Object S Ref → Get (Object S Ref))
      (delete : Object S Ref → Get Unit) where
    unfoldable pub cleanup_found :
        Object S Ref → Object S Ref → (CleanupError ⊎ CleanupResult S Ref) × List (Object S Ref)
    unfolding is_resource_owned
    cleanup_found resource found_obj = elim (is_resource_owned owners resource found_obj) [
      | inl err ↦ (inl err, [])
      | inr false ↦ (inr (record { resource = resource; deleted = true }), [])
      | inr true ↦
          if found_obj.deleting
          then (inr (record { resource = resource; deleted = false }), [])
          else elim (delete found_obj) [
            | found ok ↦ (inr (record { resource = resource; deleted = false }), found_obj ∷ [])
            | not_found ↦ (inr (record { resource = resource; deleted = true }), found_obj ∷ [])
            | failed err ↦ (inl (delete_failed err), found_obj ∷ [])
          ]
    ]

    -- The result holds the resource as it was passed, without the owner reference or the annotations
    -- that `isResourceOwned` sets on it.
    unfoldable pub cleanup :
        Object S Ref → (CleanupError ⊎ CleanupResult S Ref) × List (Object S Ref)
    unfolding cleanup_found
    cleanup resource = elim (get resource) [
      | not_found ↦ (inr (record { resource = resource; deleted = true }), [])
      | failed err ↦ (inl (get_failed err), [])
      | found found_obj ↦ cleanup_found resource found_obj
    ]

    unfoldable pub delete_all :
        List (Object S Ref) → (CleanupError ⊎ List (CleanupResult S Ref)) × List (Object S Ref)
    unfolding cleanup
    delete_all [] = (inr [], [])
    delete_all (obj ∷ resources) =
        let (rest, more) = delete_all resources in
        let (one, calls) = cleanup obj in
        elim one [
          | inl err ↦ (inl err, calls)
          | inr result ↦ elim rest [
            | inl err ↦ (inl err, calls ++ more)
            | inr results ↦ (inr (result ∷ results), calls ++ more)
          ]
        ]

    -- An object whose deletion may be requested: it was found for a resource, is owned and is not being
    -- deleted.
    abbrev pub MayDelete : Object S Ref → Type 0
    MayDelete obj =
        (resource : Object S Ref) × (get resource ≡ found obj)
        × (is_resource_owned owners resource obj ≡ inr true)
        × (obj.deleting ≡ false)

    cleanup-MayDelete : (resource : Object S Ref) → All MayDelete (cleanup resource).1
    unfolding cleanup cleanup_found
    cleanup-MayDelete resource =
        let calls : (ys : List (Object S Ref))
            → (cleanup resource).1 ≡ ys
            → All MayDelete ys
            → All MayDelete (cleanup resource).1 =
          λ ys. equal-All MayDelete ys in
        elim (Get-cases (get resource)) [
          | inr (inl g) ↦ calls [] (ground arith) tt
          | inr (inr (err, g)) ↦ calls [] (ground arith) tt
          | inl (f, g) ↦ elim (Sum-cases (is_resource_owned owners resource f)) [
            | inl (err, o) ↦ calls [] (ground arith) tt
            | inr (false, o) ↦ calls [] (ground arith) tt
            | inr (true, o) ↦ elim (Bool-cases f.deleting) [
              | inl d ↦ calls [] (ground arith) tt
              | inr d ↦
                  let m : MayDelete f = (resource, g, o, d) in
                  elim (Get-cases (delete f)) [
                    | inl (ok, q) ↦ calls (f ∷ []) (ground arith) (m, tt)
                    | inr (inl q) ↦ calls (f ∷ []) (ground arith) (m, tt)
                    | inr (inr (err, q)) ↦ calls (f ∷ []) (ground arith) (m, tt)
                  ]
            ]
          ]
        ]

    -- `DeleteAll` requests the deletion only of objects that were found for one of the resources, that the
    -- SSP object owns and that are not being deleted already.
    pub delete_all-MayDelete :
        (resources : List (Object S Ref)) → All MayDelete (delete_all resources).1
    unfolding delete_all
    delete_all-MayDelete [] = tt
    delete_all-MayDelete (obj ∷ resources) =
        let one = cleanup-MayDelete obj in
        let more = delete_all-MayDelete resources in
        elim (Sum-cases (cleanup obj).0) [
          | inl (err, p) ↦ equal-All MayDelete (cleanup obj).1 (ground (arith, p)) one
          | inr (result, p) ↦ elim (Sum-cases (delete_all resources).0) [
            | inl (err, q) ↦
                equal-All MayDelete ((cleanup obj).1 ++ (delete_all resources).1)
                  (ground (arith, p, q))
                  (append-All MayDelete (cleanup obj).1 (delete_all resources).1 one more)
            | inr (results, q) ↦
                equal-All MayDelete ((cleanup obj).1 ++ (delete_all resources).1)
                  (ground (arith, p, q))
                  (append-All MayDelete (cleanup obj).1 (delete_all resources).1 one more)
          ]
        ]

    -- A resource is reported as deleted only if it is not found, if the object found is not owned by the
    -- SSP object, or if the request to delete it finds it gone.
    pub cleanup_deleted :
        (resource : Object S Ref) (result : CleanupResult S Ref)
        → (cleanup resource).0 ≡ inr result
        → result.deleted ≡ true
        → (get resource ≡ not_found)
          ⊎ ((f : Object S Ref) × (get resource ≡ found f)
              × ((is_resource_owned owners resource f ≡ inr false) ⊎ (delete f ≡ not_found)))
    unfolding cleanup cleanup_found
    cleanup_deleted resource result h d = elim (Get-cases (get resource)) [
      | inr (inl g) ↦ inl g
      | inr (inr (err, g)) ↦ ground arith
      | inl (f, g) ↦ elim (Sum-cases (is_resource_owned owners resource f)) [
        | inl (err, o) ↦ ground arith
        | inr (false, o) ↦ inr (f, g, inl o)
        | inr (true, o) ↦ elim (Get-cases (delete f)) [
          | inl (ok, q) ↦ ground arith
          | inr (inl q) ↦ inr (f, g, inr q)
          | inr (inr (err, q)) ↦ ground arith
        ]
      ]
    ]

    -- Cleaning up a resource outside of the namespace of the SSP object panics where the resource has no
    -- owner reference and the object found has one, provided that the owner annotations are set without an
    -- error and leave the owner references alone.
    pub cleanup_panics :
        (resource obj f : Object S Ref) (reference : Ref) (references : List Ref)
        → (resource.namespace == owners.instance_namespace) ≡ false
        → owners.set_owner_annotations resource ≡ inr obj
        → obj.owner_references ≡ []
        → get resource ≡ found f
        → f.owner_references ≡ reference ∷ references
        → cleanup resource ≡ (inl index_out_of_range, [])
    unfolding cleanup cleanup_found is_resource_owned marked references_own
    cleanup_panics resource obj f reference references h1 h2 h3 h4 h5 = ground arith

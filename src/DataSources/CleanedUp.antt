-- ===== src/DataSources/CleanedUp.antt =====
-- internal/operands/data-sources/reconcile.go: `Cleanup` of the operand, which waits for the import crons.
use ssp_operator.Base.{
  ◌≡◌, ◌≢◌, arith, Bool, true, false, not, List, [], ◌∷◌, ◌++◌, ◌⊎◌, inl, inr, Eq, string_eq,
  if◌then◌else◌, Bool-cases, Sum-cases, Among,
}
use ssp_operator.DataSources.Writes.{
  Content, ManagedObject, WritesRequest, WritesError, list_failed, cleanup_failed,
}
use ssp_operator.Resources.{found, not_found}
use ssp_operator.Resources.Cleanup.{
  CleanupError, CleanupResult, cleanup, delete_all, is_resource_owned, cleanup_deleted,
}
use ssp_operator.Resources.Owned.{list_owned_resources}

module _ {S Ref : Type 0} where
  -- `allDataImportCronsDeleted`
  unfoldable pub all_deleted : List (CleanupResult S Ref) → Bool
  all_deleted [] = true
  all_deleted (result ∷ results) =
      let rest = all_deleted results in if result.deleted then rest else false

module _ {Raw Ref : Type 0} ⦃e : Eq Ref⦄ (request : WritesRequest Raw Ref) where
  abbrev CleanupOutcome : Type 0
  CleanupOutcome =
      (WritesError ⊎ List (CleanupResult (Content Raw) Ref)) × List (ManagedObject Raw Ref)

  abbrev delete_objects :
      List (ManagedObject Raw Ref)
      → (CleanupError ⊎ List (CleanupResult (Content Raw) Ref)) × List (ManagedObject Raw Ref)
  delete_objects objects = delete_all request.owners request.client.get request.delete objects

  -- From the data sources on.
  unfoldable pub cleanup_rest : CleanupOutcome
  unfolding list_owned_resources delete_all
  cleanup_rest =
      let delete_with : List (ManagedObject Raw Ref) → CleanupOutcome = λ owned.
        let (outcome, calls) =
          delete_objects (owned ++ (request.namespace_and_roles ++ request.network_policies)) in
        elim outcome [
          | inl err ↦ (inl (cleanup_failed err), calls)
          | inr results ↦ (inr results, calls)
        ] in
      if request.crd_exists "datasources.cdi.kubevirt.io"
      then elim (list_owned_resources request.owner_name request.list_data_sources) [
        | inl err ↦ (inl (list_failed err), [])
        | inr owned ↦ delete_with owned
      ]
      else delete_with []

  unfoldable pub cleanup_ds_operand : CleanupOutcome
  unfolding list_owned_resources delete_all all_deleted cleanup_rest
  cleanup_ds_operand =
      if request.crd_exists "dataimportcrons.cdi.kubevirt.io"
      then elim (list_owned_resources request.owner_name request.list_data_import_crons) [
        | inl err ↦ (inl (list_failed err), [])
        | inr crons ↦
            let (outcome, calls) = delete_objects crons in
            elim outcome [
              | inl err ↦ (inl (cleanup_failed err), calls)
              | inr results ↦
                  if not (all_deleted results)
                  then (inr results, calls)
                  else (let (rest, more) = cleanup_rest in (rest, calls ++ more))
            ]
      ]
      else cleanup_rest

  -- An import cron that is found, owned, and not gone when its deletion is requested.
  abbrev pub Remains : ManagedObject Raw Ref → Type 0
  Remains cron =
      (f : ManagedObject Raw Ref) × (request.client.get cron ≡ found f)
      × (is_resource_owned request.owners cron f ≡ inr true)
      × (request.delete f ≢ not_found)

  remaining_deleted :
      (cron : ManagedObject Raw Ref) (result : CleanupResult (Content Raw) Ref)
      → Remains cron
      → (cleanup request.owners request.client.get request.delete cron).0 ≡ inr result
      → result.deleted ≡ false
  remaining_deleted cron result (f, g, o, n) p = elim (Bool-cases result.deleted) [
    | inr d ↦ d
    | inl d ↦
        elim (cleanup_deleted request.owners request.client.get request.delete cron result p d) [
          | inl missing ↦ absurd (ground arith)
          | inr (f', g', inl o') ↦ absurd (let same : f ≡ f' = ground arith in ground arith)
          | inr (f', g', inr m) ↦ absurd (let same : f ≡ f' = ground arith in n (ground arith))
        ]
  ]

  remaining-all_deleted :
      (cron : ManagedObject Raw Ref) (crons : List (ManagedObject Raw Ref))
      (results : List (CleanupResult (Content Raw) Ref))
      → Remains cron
      → Among cron crons
      → (delete_objects crons).0 ≡ inr results
      → all_deleted results ≡ false
  unfolding delete_all all_deleted
  remaining-all_deleted cron [] results h m p = absurd m
  remaining-all_deleted cron (c ∷ crons) results h m p =
      elim (Sum-cases (cleanup request.owners request.client.get request.delete c).0) [
        | inl (err, q) ↦ absurd (ground (arith, p, q))
        | inr (result, q) ↦ elim (Sum-cases (delete_objects crons).0) [
          | inl (err, r) ↦ absurd (ground (arith, p, q, r))
          | inr (more, r) ↦ elim m [
            | inl e ↦
                let q' : (cleanup request.owners request.client.get request.delete cron).0
                    ≡ inr result =
                  ground (arith, e, q) in
                ground (arith, p, q, r, remaining_deleted cron result h q')
            | inr m' ↦ ground (arith, p, q, r, remaining-all_deleted cron crons more h m' r)
          ]
        ]
      ]

  -- While an owned import cron remains, cleanup requests the deletion of import crons alone: its requests are
  -- those of deleting the owned crons, and whatever else the operand has in the cluster is left alone. The
  -- definition of import crons exists, and the owned ones were listed.
  pub cleanup_ds_operand-waits :
      (crons : List (ManagedObject Raw Ref)) (cron : ManagedObject Raw Ref)
      → request.crd_exists "dataimportcrons.cdi.kubevirt.io" ≡ true
      → list_owned_resources request.owner_name request.list_data_import_crons ≡ inr crons
      → Among cron crons
      → Remains cron
      → cleanup_ds_operand.1 ≡ (delete_all request.owners request.client.get request.delete crons).1
  unfolding cleanup_ds_operand
  cleanup_ds_operand-waits crons cron c l m h = elim (Sum-cases (delete_objects crons).0) [
    | inl (err, p) ↦ ground (arith, c, l, p)
    | inr (results, p) ↦ ground (arith, c, l, p, remaining-all_deleted cron crons results h m p)
  ]

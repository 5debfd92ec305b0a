-- ===== src/DataSources/Defaults.antt =====
-- The decisions on one data source: whether a cron updates it, and what its default object is.
use ssp_operator.Api.{DataImportCron}
use ssp_operator.Architecture.{Arch, arch_eq}
use ssp_operator.Base.{
  String, ◌≡◌, ◌≢◌, refl, arith, ap, Bool, true, false, not, Option, none, some, List, [], ◌∷◌,
  ◌++◌, ◌⊎◌, inl, inr, ◌==◌, contains, string_eq, Option-cases, All, Bool-cases,
}
use ssp_operator.Base.Dict.{Dict, lookup}
use ssp_operator.DataSources.{
  DataSource, DataSourceCondition, client_error, Get, found, not_found, failed, Request,
  get_default_data_source_arch, check_if_pvc_exists, auto_update_unless_pvc, same_pointer,
  existing_auto_update, data_source_auto_update_enabled, with_pvc_name, existing_default,
  handle_default_data_source, get_data_source_ready_condition,
}
use ssp_operator.Kubernetes.{NamespacedName, namespaced_name_eq, object_key}

-- The default architecture is the first one of the cluster that the data source has; there is none where
-- the two lists have no architecture in common.
pub get_default_data_source_arch_lem :
    (cluster_archs ds_archs : List Arch)
    → ((arch : Arch) × (before after : List Arch) × (get_default_data_source_arch cluster_archs
            ds_archs
          ≡ some arch)
        × (cluster_archs ≡ before ++ (arch ∷ after))
        × (contains ds_archs arch ≡ true)
        × All (λ a. contains ds_archs a ≡ false) before)
      ⊎ ((get_default_data_source_arch cluster_archs ds_archs ≡ none)
          × All (λ a. contains ds_archs a ≡ false) cluster_archs)
unfolding get_default_data_source_arch
get_default_data_source_arch_lem [] ds_archs = inr (refl, tt)
get_default_data_source_arch_lem (a ∷ rest) ds_archs = elim (Bool-cases (contains ds_archs a)) [
  | inl e ↦ inl (a, [], rest, ground arith, refl, e, tt)
  | inr e ↦ elim (get_default_data_source_arch_lem rest ds_archs) [
    | inl (arch, before, after, p, q, r, h) ↦
        inl (arch, a ∷ before, after, ground (arith, p), ap (λ l. a ∷ l) q, r, (e, h))
    | inr (p, h) ↦ inr (ground (arith, p), (e, h))
  ]
]

-- Neither kind of object fails to be read.
pub record Answers {P : Type 0} (request : Request P) : Type 0 where
  pub data_source : (k : NamespacedName) (e : String) → request.get_data_source k ≢ failed e
  pub pvc : (k : NamespacedName) (e : String) → request.get_pvc k ≢ failed e

pub Get-cases :
    {A : Type 0} (g : Get A)
    → ((a : A) × (g ≡ found a)) ⊎ ((g ≡ not_found) ⊎ ((e : String) × (g ≡ failed e)))
Get-cases (found a) = inl (a, refl)
Get-cases not_found = inr (inl refl)
Get-cases (failed e) = inr (inr (e, refl))

module _ {P : Type 0} (request : Request P) where
  auto_update_unless_pvc_total :
      (ds : DataSource) → Answers request → (b : Bool) × (auto_update_unless_pvc request ds ≡ inr b)
  unfolding auto_update_unless_pvc check_if_pvc_exists
  auto_update_unless_pvc_total ds ans = elim (Option-cases ds.source.pvc) [
    | inl e ↦ (true, ground arith)
    | inr (pvc, e) ↦ elim (Get-cases (request.get_pvc pvc)) [
      | inl (claim, g) ↦ (false, ground arith)
      | inr (inl g) ↦ (true, ground arith)
      | inr (inr (err, g)) ↦ absurd (ans.pvc pvc err g)
    ]
  ]

  existing_auto_update_total :
      (ds : DataSource) (g : Get DataSource)
      → Answers request
      → ((e : String) → g ≢ failed e)
      → (b : Bool) × (existing_auto_update request ds g ≡ inr b)
  unfolding existing_auto_update
  existing_auto_update_total ds not_found ans h = auto_update_unless_pvc_total ds ans
  existing_auto_update_total ds (failed e) ans h = absurd (h e refl)
  existing_auto_update_total ds (found f) ans h =
      elim (Option-cases (lookup "cdi.kubevirt.io/dataImportCron" f.metadata.labels)) [
        | inr (label, e) ↦ (true, ground arith)
        | inl e ↦ elim (Option-cases (get_data_source_ready_condition f.conditions)) [
          | inl c ↦ let (b, p) = auto_update_unless_pvc_total ds ans in (b, ground (arith, p))
          | inr (condition, c) ↦
              elim (Bool-cases (same_pointer request f.source.pvc ds.source.pvc)) [
                | inl s ↦ (not (condition.status == "True"), ground arith)
                | inr s ↦ let (b, p) = auto_update_unless_pvc_total ds ans in (b, ground (arith, p))
              ]
        ]
      ]

  -- Automatic updates are decided, and enabled only for a data source with a cron.
  pub data_source_auto_update_enabled_total :
      (ds : DataSource) (crons : Dict NamespacedName DataImportCron)
      → Answers request
      → (b : Bool) × (data_source_auto_update_enabled request ds crons ≡ inr b)
        × (b ≡ true → (cron : DataImportCron) × (lookup (object_key ds.metadata) crons ≡ some cron))
  unfolding data_source_auto_update_enabled
  data_source_auto_update_enabled_total ds crons ans =
      elim (Option-cases (lookup (object_key ds.metadata) crons)) [
        | inl e ↦ (false, ground arith, λ h. ground arith)
        | inr (cron, e) ↦
            let key = object_key ds.metadata in
            let (b, p) =
              existing_auto_update_total ds (request.get_data_source key) ans
                (ans.data_source key) in
            (b, ground (arith, p), λ h. (cron, e))
      ]

  -- A data source that exists and has the label of a cron is updated automatically. Without the label
  -- it is updated exactly where its persistent volume claim does not exist. Its ready condition does not
  -- matter, since the pointers of the two objects to their claims are never equal.
  pub existing_auto_update-found :
      (ds f : DataSource) (pvc : NamespacedName)
      → ds.source.pvc ≡ some pvc
      → existing_auto_update request ds (found f)
        ≡ elim (lookup "cdi.kubevirt.io/dataImportCron" f.metadata.labels) [
          | some label ↦ inr true
          | none ↦ elim (request.get_pvc pvc) [
            | found claim ↦ inr false
            | not_found ↦ inr true
            | failed err ↦ inl (client_error err)
          ]
        ]
  unfolding existing_auto_update auto_update_unless_pvc check_if_pvc_exists same_pointer
  existing_auto_update-found ds f pvc h = elim (Get-cases (request.get_pvc pvc)) [
    | inl (claim, g) ↦ ground arith
    | inr (inl g) ↦ ground arith
    | inr (inr (err, g)) ↦ ground arith
  ]

  metadata-with_pvc_name :
      (ds : DataSource) (name : String) → (with_pvc_name request ds name).metadata ≡ ds.metadata
  unfolding with_pvc_name
  metadata-with_pvc_name ds name = ground arith

  -- What `handleDefaultDataSource` may do with a data source and its automatic updates.
  abbrev pub IsHandled : DataSource → Bool → DataSource × Bool → Type 0
  IsHandled ds b (ds', b') = (ds'.metadata ≡ ds.metadata) × (b' ≡ true → b ≡ true)

  existing_default-IsHandled :
      (ds : DataSource) (b : Bool) (name : String) (f : DataSource) (c : Option DataSourceCondition)
      → IsHandled ds b (existing_default request ds b name f c)
  unfolding existing_default
  existing_default-IsHandled ds b name f none = (refl, λ h. ground arith)
  existing_default-IsHandled ds b name f (some c) =
      (ground (arith, metadata-with_pvc_name ds name), λ h. ground arith)

  pub handle_default_data_source_total :
      (ds : DataSource) (b : Bool) (name : String) (pvc : NamespacedName)
      → Answers request
      → ds.source.pvc ≡ some pvc
      → (r : DataSource × Bool) × (handle_default_data_source request ds b name ≡ inr r)
        × IsHandled ds b r
  unfolding handle_default_data_source
  handle_default_data_source_total ds b name pvc ans h =
      let k : NamespacedName = record { namespace = pvc.namespace; name = name } in
      elim (Get-cases (request.get_data_source (object_key ds.metadata))) [
        | inr (inr (err, g)) ↦ absurd (ans.data_source (object_key ds.metadata) err g)
        | inr (inl g) ↦ elim (Get-cases (request.get_pvc k)) [
          | inl (claim, q) ↦ (
            (with_pvc_name request ds name, false),
            ground arith,
            (metadata-with_pvc_name ds name, λ e. ground arith),
          )
          | inr (inl q) ↦ ((ds, b), ground arith, (refl, λ e. e))
          | inr (inr (err, q)) ↦ absurd (ans.pvc k err q)
        ]
        | inl (f, g) ↦
            elim (Option-cases (lookup "cdi.kubevirt.io/dataImportCron" f.metadata.labels)) [
              | inr (label, e) ↦ ((ds, b), ground arith, (refl, λ e'. e'))
              | inl e ↦
                  let c = get_data_source_ready_condition f.conditions in
                  (
                    existing_default request ds b name f c,
                    ground arith,
                    existing_default-IsHandled ds b name f c,
                  )
            ]
      ]

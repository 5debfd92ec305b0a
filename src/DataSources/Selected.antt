-- ===== src/DataSources/Selected.antt =====
-- `getDataSourcesAndCrons`: the data sources, and the crons without those of a data source that is not
-- updated automatically.
use ssp_operator.Api.{DataImportCron}
use ssp_operator.Architecture.{Arch, deref, get_ssp_archs}
use ssp_operator.Base.{
  ◌≡◌, refl, arith, Bool, true, false, ◌||◌, ◌&&◌, not, none, some, List, [], ◌∷◌, ◌⊎◌, inl, inr,
  ◌==◌, if◌then◌else◌, All, Bool-cases,
}
use ssp_operator.Base.Dict.{lookup, delete, lookup-delete}
use ssp_operator.DataSources.{DataSourceInfo, DsError, Request, arch_error}
use ssp_operator.DataSources.Crons.{
  CronMap, get_crons_by_data_source, get_crons_by_data_source_multi_arch, add_crons_multi_arch,
}
use ssp_operator.DataSources.Defaults.{Answers}
use ssp_operator.DataSources.Updated.{
  HasCron, get_data_source_infos-HasCron, get_data_source_infos_multi_arch-HasCron,
  add_references-HasCron,
}
use ssp_operator.DataSources.Infos.{
  get_data_source_infos, get_data_source_infos_multi_arch, add_data_source_reference_for_crons,
}
use ssp_operator.Kubernetes.{NamespacedName, namespaced_name_eq, object_key}
use ssp_operator.TemplateBundle.{DataSourceCollection}

pub record DataSourcesAndCrons : Type 0 where
  pub data_source_infos : List DataSourceInfo
  -- the map whose values are the crons
  pub cron_by_data_source : CronMap

unfoldable pub drop_unused_crons : List DataSourceInfo → CronMap → CronMap
unfolding namespaced_name_eq
drop_unused_crons [] crons = crons
drop_unused_crons (info ∷ infos) crons =
    let keep = drop_unused_crons infos crons in
    if info.auto_update_enabled
    then keep
    else drop_unused_crons infos (delete (object_key info.data_source.metadata) crons)

module _ {P : Type 0} (request : Request P) (source_collection : DataSourceCollection) where
  abbrev pub finish : List DataSourceInfo → CronMap → DsError ⊎ DataSourcesAndCrons
  finish infos crons =
      inr
        (record { data_source_infos = infos; cron_by_data_source = drop_unused_crons infos crons })

  unfoldable pub multi_arch : DsError ⊎ DataSourcesAndCrons
  unfolding get_crons_by_data_source_multi_arch get_data_source_infos_multi_arch get_ssp_archs
      add_data_source_reference_for_crons drop_unused_crons
  multi_arch =
      elim (get_crons_by_data_source_multi_arch request.go_arch request.spec source_collection) [
        | inl err ↦ inl err
        | inr crons ↦ elim (get_data_source_infos_multi_arch request crons source_collection) [
          | inl err ↦ inl err
          | inr infos ↦ elim (get_ssp_archs request.go_arch request.spec) [
            | inl err ↦ inl (arch_error err)
            | inr cluster_archs ↦
                finish
                  (add_data_source_reference_for_crons infos
                    request.spec.common_templates.data_import_cron_templates cluster_archs)
                  crons
          ]
        ]
      ]

  unfoldable pub single_arch : DsError ⊎ DataSourcesAndCrons
  unfolding get_crons_by_data_source get_data_source_infos drop_unused_crons
  single_arch =
      let crons = get_crons_by_data_source request.spec in
      elim (get_data_source_infos request crons source_collection) [
        | inl err ↦ inl err
        | inr infos ↦ finish infos crons
      ]

  unfoldable pub get_data_sources_and_crons : DsError ⊎ DataSourcesAndCrons
  unfolding multi_arch single_arch
  get_data_sources_and_crons =
      if deref request.spec.enable_multiple_architectures then multi_arch else single_arch

-- Whether a data source of the key is not updated automatically.
abbrev pub any_disabled : List DataSourceInfo → NamespacedName → Bool
any_disabled [] key = false
any_disabled (info ∷ infos) key =
    (not info.auto_update_enabled && key == object_key info.data_source.metadata)
    || any_disabled infos key

lookup-drop_unused_crons :
    (infos : List DataSourceInfo) (crons : CronMap) (key : NamespacedName)
    → lookup key (drop_unused_crons infos crons)
      ≡ (if any_disabled infos key then none else lookup key crons)
unfolding drop_unused_crons
lookup-drop_unused_crons [] crons key = refl
lookup-drop_unused_crons (info ∷ infos) crons key = ground (
  arith,
  lookup-drop_unused_crons infos crons key,
  lookup-drop_unused_crons infos (delete (object_key info.data_source.metadata) crons) key,
  lookup-delete key (object_key info.data_source.metadata) crons,
)

-- What holds of the data sources and the crons together.
pub record IsConsistent (r : DataSourcesAndCrons) : Type 0 where
  -- no cron for a data source that is not updated automatically
  pub dropped :
      (key : NamespacedName)
      → any_disabled r.data_source_infos key ≡ true
      → lookup key r.cron_by_data_source ≡ none
  -- a cron, of the recorded name, for one that is updated automatically
  pub kept :
      All
        (λ i.
          i.auto_update_enabled ≡ true
          → any_disabled r.data_source_infos (object_key i.data_source.metadata) ≡ false
          → (cron : DataImportCron) × (lookup
                (object_key i.data_source.metadata)
                r.cron_by_data_source
              ≡ some cron)
            × (i.data_import_cron_name ≡ cron.metadata.name))
        r.data_source_infos

finished : List DataSourceInfo → CronMap → DataSourcesAndCrons
finished infos crons = record {
  data_source_infos = infos;
  cron_by_data_source = drop_unused_crons infos crons;
}

kept-All :
    (all infos : List DataSourceInfo) (crons : CronMap)
    → All (HasCron crons) infos
    → All
        (λ i.
          i.auto_update_enabled ≡ true
          → any_disabled all (object_key i.data_source.metadata) ≡ false
          → (cron : DataImportCron) × (lookup
                (object_key i.data_source.metadata)
                (drop_unused_crons all crons)
              ≡ some cron)
            × (i.data_import_cron_name ≡ cron.metadata.name))
        infos
kept-All all [] crons h = tt
kept-All all (i ∷ infos) crons (c, h) = (
  λ e d.
      let (cron, p, q) = c e in
      (
        cron,
        ground (arith, lookup-drop_unused_crons all crons (object_key i.data_source.metadata), p),
        q,
      ),
  kept-All all infos crons h,
)

finished-IsConsistent :
    (infos : List DataSourceInfo) (crons : CronMap)
    → All (HasCron crons) infos
    → IsConsistent (finished infos crons)
unfolding finished
finished-IsConsistent infos crons h = record {
  dropped = λ key e. ground (arith, lookup-drop_unused_crons infos crons key);
  kept = kept-All infos infos crons h;
}

-- Where the architectures of the specification are known and neither data sources nor persistent volume
-- claims fail to be read, the data sources and the crons are computed. No cron is left for a data source
-- that is not updated automatically. A data source that is updated automatically, and that shares its
-- namespace and name with none that is not, is recorded with the name of a cron that is left for it.
pub get_data_sources_and_crons-IsConsistent :
    {P : Type 0} (request : Request P) (source_collection : DataSourceCollection) (arch : Arch)
    (archs : List Arch)
    → Answers request
    → get_ssp_archs request.go_arch request.spec ≡ inr (arch ∷ archs)
    → (r : DataSourcesAndCrons) × (get_data_sources_and_crons request source_collection ≡ inr r)
      × IsConsistent r
unfolding get_data_sources_and_crons multi_arch single_arch get_crons_by_data_source_multi_arch
    finished
get_data_sources_and_crons-IsConsistent request source_collection arch archs ans h =
    elim (Bool-cases (deref request.spec.enable_multiple_architectures)) [
      | inr m ↦
          let crons = get_crons_by_data_source request.spec in
          let (infos, p, q) =
            get_data_source_infos-HasCron request crons ans source_collection arch archs m h in
          (finished infos crons, ground (arith, p), finished-IsConsistent infos crons q)
      | inl m ↦
          let templates = request.spec.common_templates.data_import_cron_templates in
          let crons = add_crons_multi_arch [] source_collection (arch ∷ archs) templates in
          let (infos, p, q) =
            get_data_source_infos_multi_arch-HasCron request crons ans source_collection
              (arch ∷ archs) m h in
          let all = add_data_source_reference_for_crons infos templates (arch ∷ archs) in
          (
            finished all crons,
            ground (arith, p),
            finished-IsConsistent all crons
                (add_references-HasCron crons infos templates (arch ∷ archs) q),
          )
    ]

-- ===== src/DataSources/Updated.antt =====
-- Which of the data sources that are created are updated automatically: those that have a cron, where
-- neither kind of object fails to be read.
use ssp_operator.Api.{DataImportCron, DataImportCronTemplate, as_data_import_cron}
use ssp_operator.Architecture.{Arch, deref, get_ssp_archs, arch_eq, arch_string}
use ssp_operator.Base.{
  String, ◌≡◌, refl, arith, Bool, true, false, some, List, [], ◌∷◌, ◌++◌, inl, inr, ◌<>◌, ◌==◌,
  contains, string_eq, Option-cases, Bool-cases, All, append-All,
}
use ssp_operator.Base.Dict.{lookup, lookup_or}
use ssp_operator.DataSources.{
  DataSource, DataSourceInfo, Request, new_data_source, get_default_data_source_arch,
}
use ssp_operator.DataSources.Crons.{CronMap, archs_annotation, parse_archs_annotation}
use ssp_operator.DataSources.Defaults.{
  Answers, data_source_auto_update_enabled_total, handle_default_data_source_total,
}
use ssp_operator.DataSources.Infos.{
  cron_name, info, reference_info, arch_data_source, infos_of, get_data_source_infos, arch_info,
  arch_infos, name_infos, infos_multi_arch, get_data_source_infos_multi_arch, has_name,
  add_reference, add_data_source_reference_for_crons,
}
use ssp_operator.Kubernetes.{NamespacedName, namespaced_name_eq, object_key}
use ssp_operator.TemplateBundle.{DataSourceCollection, collection_contains}

-- A data source that is updated automatically has a cron, and the name of that cron is recorded.
abbrev pub HasCron : CronMap → DataSourceInfo → Type 0
HasCron crons i =
    i.auto_update_enabled ≡ true
    → (cron : DataImportCron) × (lookup (object_key i.data_source.metadata) crons ≡ some cron)
      × (i.data_import_cron_name ≡ cron.metadata.name)

module _ {P : Type 0} (request : Request P) (crons : CronMap) (ans : Answers request) where
  info-HasCron :
      (ds : DataSource) (b : Bool)
      → (b ≡ true → (cron : DataImportCron) × (lookup (object_key ds.metadata) crons ≡ some cron))
      → HasCron crons (info ds b crons)
  unfolding cron_name
  info-HasCron ds b h e = let (cron, p) = h e in (cron, p, ground arith)

  infos_of-HasCron :
      (arch : Arch) (source_collection names : DataSourceCollection)
      → (infos : List DataSourceInfo) × (infos_of request crons arch source_collection names
          ≡ inr infos)
        × All (HasCron crons) infos
  unfolding infos_of
  infos_of-HasCron arch source_collection [] = ([], refl, tt)
  infos_of-HasCron arch source_collection ((name, archs) ∷ names) =
      let (infos, p, q) = infos_of-HasCron arch source_collection names in
      let ds = new_data_source name in
      let (b, e, h) = data_source_auto_update_enabled_total request ds crons ans in
      elim (Bool-cases (collection_contains source_collection name arch)) [
        | inl c ↦ (info ds b crons ∷ infos, ground (arith, p, e), (info-HasCron ds b h, q))
        | inr c ↦ (infos, ground (arith, p), q)
      ]

  pub get_data_source_infos-HasCron :
      (source_collection : DataSourceCollection) (arch : Arch) (archs : List Arch)
      → deref request.spec.enable_multiple_architectures ≡ false
      → get_ssp_archs request.go_arch request.spec ≡ inr (arch ∷ archs)
      → (infos : List DataSourceInfo) × (get_data_source_infos request crons source_collection
          ≡ inr infos)
        × All (HasCron crons) infos
  unfolding get_data_source_infos
  get_data_source_infos-HasCron source_collection arch archs m h =
      let (infos, p, q) = infos_of-HasCron arch source_collection source_collection in
      (infos, ground (arith, p), q)

  arch_info-HasCron :
      (name : String) (default_arch arch : Arch)
      → (i : DataSourceInfo) × (arch_info request crons name default_arch arch ≡ inr i)
        × HasCron crons i
  unfolding arch_info arch_data_source new_data_source
  arch_info-HasCron name default_arch arch =
      let ds = arch_data_source name arch in
      let (b, e, h) = data_source_auto_update_enabled_total request ds crons ans in
      let pvc : NamespacedName = record {
        namespace = "kubevirt-os-images";
        name = name <> ("-" <> arch_string arch);
      } in
      elim (Bool-cases (arch == default_arch)) [
        | inr c ↦ (info ds b crons, ground (arith, e), info-HasCron ds b h)
        | inl c ↦
            let ((ds', b'), p, (m, k)) =
              handle_default_data_source_total request ds b name pvc ans refl in
            (info ds' b' crons, ground (arith, e, p), info-HasCron ds' b' (λ t. rw m (h (k t))))
      ]

  arch_infos-HasCron :
      (name : String) (default_arch : Arch) (cluster_archs archs : List Arch)
      → (infos : List DataSourceInfo) × (arch_infos request crons name default_arch cluster_archs
            archs
          ≡ inr infos)
        × All (HasCron crons) infos
  unfolding arch_infos
  arch_infos-HasCron name default_arch cluster_archs [] = ([], refl, tt)
  arch_infos-HasCron name default_arch cluster_archs (arch ∷ archs) =
      let (infos, p, q) = arch_infos-HasCron name default_arch cluster_archs archs in
      let (i, e, h) = arch_info-HasCron name default_arch arch in
      elim (Bool-cases (contains cluster_archs arch)) [
        | inl c ↦ (i ∷ infos, ground (arith, p, e), (h, q))
        | inr c ↦ (infos, ground (arith, p), q)
      ]

  name_infos-HasCron :
      (cluster_archs : List Arch) (name : String) (ds_archs : List Arch)
      → (infos : List DataSourceInfo) × (name_infos request crons cluster_archs name ds_archs
          ≡ inr infos)
        × All (HasCron crons) infos
  unfolding name_infos
  name_infos-HasCron cluster_archs name ds_archs =
      elim (Option-cases (get_default_data_source_arch cluster_archs ds_archs)) [
        | inl e ↦ ([], ground arith, tt)
        | inr (arch, e) ↦
            let (infos, p, q) = arch_infos-HasCron name arch cluster_archs ds_archs in
            (reference_info name arch ∷ infos, ground (arith, p), ((λ h. ground arith), q))
      ]

  infos_multi_arch-HasCron :
      (cluster_archs : List Arch) (names : DataSourceCollection)
      → (infos : List DataSourceInfo) × (infos_multi_arch request crons cluster_archs names
          ≡ inr infos)
        × All (HasCron crons) infos
  unfolding infos_multi_arch
  infos_multi_arch-HasCron cluster_archs [] = ([], refl, tt)
  infos_multi_arch-HasCron cluster_archs ((name, ds_archs) ∷ names) =
      let (infos, p, q) = name_infos-HasCron cluster_archs name ds_archs in
      let (more, r, s) = infos_multi_arch-HasCron cluster_archs names in
      (infos ++ more, ground (arith, p, r), append-All (HasCron crons) infos more q s)

  pub get_data_source_infos_multi_arch-HasCron :
      (source_collection : DataSourceCollection) (cluster_archs : List Arch)
      → deref request.spec.enable_multiple_architectures ≡ true
      → get_ssp_archs request.go_arch request.spec ≡ inr cluster_archs
      → (infos : List DataSourceInfo) × (get_data_source_infos_multi_arch request crons
            source_collection
          ≡ inr infos)
        × All (HasCron crons) infos
  unfolding get_data_source_infos_multi_arch
  get_data_source_infos_multi_arch-HasCron source_collection cluster_archs m h =
      let (infos, p, q) = infos_multi_arch-HasCron cluster_archs source_collection in
      (infos, ground (arith, p), q)

module _ (crons : CronMap) where
  add_reference-HasCron :
      (infos : List DataSourceInfo) (template : DataImportCronTemplate) (cluster_archs : List Arch)
      → All (HasCron crons) infos
      → All (HasCron crons) (add_reference infos template cluster_archs)
  unfolding add_reference as_data_import_cron
  add_reference-HasCron infos template cluster_archs h =
      let ds_name = template.spec.managed_data_source in
      let value = lookup_or "" archs_annotation template.metadata.annotations in
      elim (Bool-cases (has_name ds_name infos)) [
        | inl e ↦ rw e h
        | inr e ↦ elim (Bool-cases (value == "")) [
          | inl v ↦ rw (e, v) h
          | inr v ↦
              rw (e, v)
                (elim (Option-cases
                  (get_default_data_source_arch cluster_archs (parse_archs_annotation value))) [
                    | inl d ↦ rw d h
                    | inr (arch, d) ↦ rw d (
                        append-All (HasCron crons) infos (reference_info ds_name arch ∷ []) h
                          ((λ t. ground arith), tt))
                  ])
        ]
      ]

  pub add_references-HasCron :
      (infos : List DataSourceInfo) (templates : List DataImportCronTemplate)
      (cluster_archs : List Arch)
      → All (HasCron crons) infos
      → All (HasCron crons) (add_data_source_reference_for_crons infos templates cluster_archs)
  unfolding add_data_source_reference_for_crons
  add_references-HasCron infos [] cluster_archs h = h
  add_references-HasCron infos (template ∷ templates) cluster_archs h =
      add_references-HasCron (add_reference infos template cluster_archs) templates cluster_archs
        (add_reference-HasCron infos template cluster_archs h)

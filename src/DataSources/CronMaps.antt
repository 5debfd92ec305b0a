-- ===== src/DataSources/CronMaps.antt =====
-- What holds of every cron in the maps of `getCronsByDataSource` and its multi-architecture version.
use mathlib.Core.Bool.{false≢true}
use text.Mathlib.TextEquality.{eq_iff}
use ssp_operator.Api.{SspSpec, DataImportCron, DataImportCronTemplate, as_data_import_cron}
use ssp_operator.Architecture.{Arch, arch_eq, deref, get_ssp_archs}
use ssp_operator.Base.{
  String, ◌≡◌, ◌≢◌, refl, arith, true, none, List, [], ◌∷◌, inl, inr, ◌==◌, contains, string_eq,
  Bool-cases, All,
}
use ssp_operator.Base.Dict.{lookup, lookup_or, insert, lookup-delete}
use ssp_operator.DataSources.{golden_images_namespace}
use ssp_operator.DataSources.Crons.{
  CronMap, cron_key, archs_annotation, parse_archs_annotation, add_to_cron_map, prepared_cron,
  add_crons, get_crons_by_data_source, set_data_import_cron_arch_fields, arch_cron, add_arch_crons,
  default_cron, add_multi_arch, add_crons_multi_arch, get_crons_by_data_source_multi_arch,
}
use ssp_operator.Kubernetes.{namespaced_name_eq}
use ssp_operator.TemplateBundle.{DataSourceCollection}

-- A cron that may be created: it has a namespace and not the annotation of its template.
abbrev pub IsCreatable : DataImportCron → Type 0
IsCreatable cron =
    (cron.metadata.namespace ≢ "") × (lookup archs_annotation cron.metadata.annotations ≡ none)

-- Every cron stands under its own data source, and may be created.
abbrev pub IsCronMap : CronMap → Type 0
IsCronMap = All (λ (key, cron). (key ≡ cron_key cron) × IsCreatable cron)

insert-IsCronMap :
    (cron : DataImportCron) (m : CronMap)
    → IsCreatable cron
    → IsCronMap m
    → IsCronMap (insert (cron_key cron) cron m)
unfolding insert
insert-IsCronMap cron [] c h = ((refl, c), tt)
insert-IsCronMap cron ((key, old) ∷ m) c (k, h) = elim (Bool-cases (cron_key cron == key)) [
  | inl e ↦ rw e ((refl, c), h)
  | inr e ↦ rw e (k, insert-IsCronMap cron m c h)
]

golden_images_namespace-ne-nil : golden_images_namespace ≢ ""
golden_images_namespace-ne-nil p = false≢true ((eq_iff golden_images_namespace "").1 p)

prepared_cron-IsCreatable : (t : DataImportCronTemplate) → IsCreatable (prepared_cron t)
unfolding prepared_cron as_data_import_cron
prepared_cron-IsCreatable t = (
  λ h. ground (arith, golden_images_namespace-ne-nil),
  ground (arith, lookup-delete archs_annotation archs_annotation t.metadata.annotations),
)

add_crons-IsCronMap :
    (m : CronMap) (ts : List DataImportCronTemplate) → IsCronMap m → IsCronMap (add_crons m ts)
unfolding add_crons add_to_cron_map
add_crons-IsCronMap m [] h = h
add_crons-IsCronMap m (t ∷ ts) h =
    add_crons-IsCronMap (insert (cron_key (prepared_cron t)) (prepared_cron t) m) ts
      (insert-IsCronMap (prepared_cron t) m (prepared_cron-IsCreatable t) h)

arch_cron-IsCreatable :
    (cron : DataImportCron) (arch : Arch) → IsCreatable cron → IsCreatable (arch_cron cron arch)
unfolding arch_cron set_data_import_cron_arch_fields
arch_cron-IsCreatable cron arch h = h

add_arch_crons-IsCronMap :
    (m : CronMap) (cron : DataImportCron) (cluster_archs archs : List Arch)
    → IsCreatable cron
    → IsCronMap m
    → IsCronMap (add_arch_crons m cron cluster_archs archs)
unfolding add_arch_crons add_to_cron_map
add_arch_crons-IsCronMap m cron cluster_archs [] c h = h
add_arch_crons-IsCronMap m cron cluster_archs (arch ∷ archs) c h =
    elim (Bool-cases (contains cluster_archs arch)) [
      | inl e ↦ rw e (
          add_arch_crons-IsCronMap (insert (cron_key (arch_cron cron arch)) (arch_cron cron arch) m)
            cron cluster_archs archs c
            (insert-IsCronMap (arch_cron cron arch) m (arch_cron-IsCreatable cron arch c) h))
      | inr e ↦ rw e (add_arch_crons-IsCronMap m cron cluster_archs archs c h)
    ]

metadata-default_cron :
    (d : DataSourceCollection) (cluster_archs : List Arch) (cron : DataImportCron)
    → (default_cron d cluster_archs cron).metadata ≡ cron.metadata
unfolding default_cron
metadata-default_cron d cluster_archs cron = ground arith

default_cron-IsCreatable :
    (d : DataSourceCollection) (cluster_archs : List Arch) (cron : DataImportCron)
    → IsCreatable cron
    → IsCreatable (default_cron d cluster_archs cron)
default_cron-IsCreatable d cluster_archs cron h = rw (metadata-default_cron d cluster_archs cron) h

add_multi_arch-IsCronMap :
    (m : CronMap) (d : DataSourceCollection) (cluster_archs : List Arch)
    (t : DataImportCronTemplate)
    → IsCronMap m
    → IsCronMap (add_multi_arch m d cluster_archs t)
unfolding add_multi_arch add_to_cron_map
add_multi_arch-IsCronMap m d cluster_archs t h =
    let value = lookup_or "" archs_annotation t.metadata.annotations in
    let cron = prepared_cron t in
    let c = prepared_cron-IsCreatable t in
    elim (Bool-cases (value == "")) [
      | inl e ↦ rw e (
          insert-IsCronMap (default_cron d cluster_archs cron) m
            (default_cron-IsCreatable d cluster_archs cron c) h)
      | inr e ↦
          rw e (add_arch_crons-IsCronMap m cron cluster_archs (parse_archs_annotation value) c h)
    ]

add_crons_multi_arch-IsCronMap :
    (m : CronMap) (d : DataSourceCollection) (cluster_archs : List Arch)
    (ts : List DataImportCronTemplate)
    → IsCronMap m
    → IsCronMap (add_crons_multi_arch m d cluster_archs ts)
unfolding add_crons_multi_arch
add_crons_multi_arch-IsCronMap m d cluster_archs [] h = h
add_crons_multi_arch-IsCronMap m d cluster_archs (t ∷ ts) h =
    add_crons_multi_arch-IsCronMap (add_multi_arch m d cluster_archs t) d cluster_archs ts
      (add_multi_arch-IsCronMap m d cluster_archs t h)

-- Every cron of the map stands under the data source that it manages, has a namespace, and has not the
-- annotation of architectures of its template.
pub get_crons_by_data_source-IsCronMap :
    {P : Type 0} (spec : SspSpec P) → IsCronMap (get_crons_by_data_source spec)
unfolding get_crons_by_data_source
get_crons_by_data_source-IsCronMap spec =
    add_crons-IsCronMap [] spec.common_templates.data_import_cron_templates tt

-- With multiple architectures enabled and known, the map of crons is computed. Every cron in it stands
-- under the data source that it manages, has a namespace, and has not the annotation of architectures
-- of its template.
pub get_crons_by_data_source_multi_arch-IsCronMap :
    {P : Type 0} (go_arch : String) (spec : SspSpec P) (d : DataSourceCollection)
    (archs : List Arch)
    → deref spec.enable_multiple_architectures ≡ true
    → get_ssp_archs go_arch spec ≡ inr archs
    → (m : CronMap) × (get_crons_by_data_source_multi_arch go_arch spec d ≡ inr m) × IsCronMap m
unfolding get_crons_by_data_source_multi_arch
get_crons_by_data_source_multi_arch-IsCronMap go_arch spec d archs e h =
    let ts = spec.common_templates.data_import_cron_templates in
    (
      add_crons_multi_arch [] d archs ts,
      ground arith,
      add_crons_multi_arch-IsCronMap [] d archs ts tt,
    )

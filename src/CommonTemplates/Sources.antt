-- ===== src/CommonTemplates/Sources.antt =====
-- The data source that a deployed template refers to, against the data sources that are created.
use ssp_operator.Architecture.{Arch, arch_string, arch_eq, deref, get_ssp_archs}
use ssp_operator.Base.{
  String, ◌<>◌, ◌≡◌, refl, sym, ◌∙◌, ap, subst, arith, Bool, true, false, ◌||◌, Option, none, some,
  List, [], ◌∷◌, ◌++◌, inl, inr, ◌==◌, contains, string_eq, Bool-cases, Option-cases, Sum-cases,
  Among,
}
use ssp_operator.Base.Dict.{lookup}
use ssp_operator.CommonTemplates.{add_arch_suffix_to_parameters}
use ssp_operator.DataSources.{
  DataSource, DataSourceInfo, DataSourceCondition, Request, existing_default, with_pvc_name,
  handle_default_data_source, get_default_data_source_arch, get_data_source_ready_condition,
  data_source_auto_update_enabled,
}
use ssp_operator.Kubernetes.{object_key}
use ssp_operator.DataSources.Defaults.{Get-cases}
use ssp_operator.DataSources.Crons.{CronMap}
use ssp_operator.DataSources.Infos.{
  arch_data_source, arch_info, arch_infos, name_infos, infos_multi_arch,
  get_data_source_infos_multi_arch, has_name, reference_info,
}
use ssp_operator.TemplateBundle.{
  Parameter, DataSourceCollection, Template, Unstructured, collection_contains,
  find_parameter_value, find_data_source_name, template_source, collect_data_sources,
}
use ssp_operator.TemplateBundle.Collected.{AreValid, any_provides, collect_data_sources_lem}

find_parameter_value-suffix :
    (arch : Arch) (parameters : List Parameter) (name : String)
    → find_parameter_value "DATA_SOURCE_NAME" parameters ≡ some name
    → find_parameter_value "DATA_SOURCE_NAME" (add_arch_suffix_to_parameters arch parameters)
      ≡ some (name <> ("-" <> arch_string arch))
unfolding find_parameter_value add_arch_suffix_to_parameters
find_parameter_value-suffix arch [] name p = absurd (ground arith)
find_parameter_value-suffix arch (param ∷ parameters) name p =
    elim (Bool-cases (param.name == "DATA_SOURCE_NAME")) [
      | inl e ↦ ground (arith, e, p)
      | inr e ↦
          ground
            (arith, e, p, find_parameter_value-suffix arch parameters name (ground (arith, e, p)))
    ]

has_name-append :
    (name : String) (xs ys : List DataSourceInfo)
    → has_name name (xs ++ ys) ≡ (has_name name xs || has_name name ys)
has_name-append name [] ys = refl
has_name-append name (x ∷ xs) ys = ground (arith, has_name-append name xs ys)

has_name-head :
    (name : String) (i : DataSourceInfo) (infos : List DataSourceInfo)
    → i.data_source.metadata.name ≡ name
    → has_name name (i ∷ infos) ≡ true
has_name-head name i infos p = ground (arith, p)

has_name-tail :
    (name : String) (i : DataSourceInfo) (infos : List DataSourceInfo)
    → has_name name infos ≡ true
    → has_name name (i ∷ infos) ≡ true
has_name-tail name i infos p = ground (arith, p)

or-true : (a b : Bool) → b ≡ true → (a || b) ≡ true
or-true true b p = refl
or-true false b p = p

common_arch :
    (cluster_archs ds_archs : List Arch) (arch : Arch)
    → contains cluster_archs arch ≡ true
    → contains ds_archs arch ≡ true
    → (default_arch : Arch) × (get_default_data_source_arch cluster_archs ds_archs
        ≡ some default_arch)
unfolding get_default_data_source_arch
common_arch [] ds_archs arch p q = absurd (ground arith)
common_arch (a ∷ cluster_archs) ds_archs arch p q = elim (Bool-cases (contains ds_archs a)) [
  | inl e ↦ (a, ground (arith, e))
  | inr e ↦
      let (d, r) = common_arch cluster_archs ds_archs arch (ground (arith, p, q, e)) q in
      (d, ground (arith, e, r))
]

module _ {P : Type 0} (request : Request P) (crons : CronMap) where
  existing_default_metadata :
      (ds : DataSource) (auto_update : Bool) (name : String) (f : DataSource)
      (c : Option DataSourceCondition)
      → (existing_default request ds auto_update name f c).0.metadata ≡ ds.metadata
  unfolding existing_default with_pvc_name
  existing_default_metadata ds auto_update name f none = ground arith
  existing_default_metadata ds auto_update name f (some c) = ground arith

  handle_default_data_source_metadata :
      (ds ds' : DataSource) (auto_update enabled : Bool) (name : String)
      → handle_default_data_source request ds auto_update name ≡ inr (ds', enabled)
      → ds'.metadata ≡ ds.metadata
  unfolding handle_default_data_source with_pvc_name
  handle_default_data_source_metadata ds ds' auto_update enabled name p =
      elim (Get-cases (request.get_data_source (object_key ds.metadata))) [
        | inr (inr (err, g)) ↦ absurd (ground (arith, p, g))
        | inr (inl g) ↦ ground (arith, p, g)
        | inl (f, g) ↦
            elim (Option-cases (lookup "cdi.kubevirt.io/dataImportCron" f.metadata.labels)) [
              | inr (label, l) ↦ ground (arith, p, g, l)
              | inl l ↦
                  let c = get_data_source_ready_condition f.conditions in
                  ground (arith, p, g, l, existing_default_metadata ds auto_update name f c)
            ]
      ]

  arch_info_name :
      (name : String) (default_arch arch : Arch) (i : DataSourceInfo)
      → arch_info request crons name default_arch arch ≡ inr i
      → i.data_source.metadata.name ≡ name <> ("-" <> arch_string arch)
  unfolding arch_info arch_data_source
  arch_info_name name default_arch arch i p =
      let ds = arch_data_source name arch in
      elim (Sum-cases (data_source_auto_update_enabled request ds crons)) [
        | inl (err, e) ↦ absurd (ground (arith, p, e))
        | inr (auto_update, e) ↦ elim (Bool-cases (arch == default_arch)) [
          | inr d ↦ ground (arith, p, e, d)
          | inl d ↦ elim (Sum-cases (handle_default_data_source request ds auto_update name)) [
            | inl (err, h) ↦ absurd (ground (arith, p, e, d, h))
            | inr ((ds', enabled), h) ↦ ground (
              arith,
              p,
              e,
              d,
              h,
              handle_default_data_source_metadata ds ds' auto_update enabled name h,
            )
          ]
        ]
      ]

  arch_infos_named :
      (name : String) (default_arch arch : Arch) (cluster_archs archs : List Arch)
      (infos : List DataSourceInfo)
      → arch_infos request crons name default_arch cluster_archs archs ≡ inr infos
      → contains cluster_archs arch ≡ true
      → contains archs arch ≡ true
      → has_name (name <> ("-" <> arch_string arch)) infos ≡ true
  unfolding arch_infos
  arch_infos_named name default_arch arch cluster_archs [] infos p q r = absurd (ground arith)
  arch_infos_named name default_arch arch cluster_archs (a ∷ archs) infos p q r =
      let rest = arch_infos request crons name default_arch cluster_archs archs in
      elim (Bool-cases (contains cluster_archs a)) [
        | inr c ↦
            arch_infos_named name default_arch arch cluster_archs archs infos (ground (arith, p, c))
              q (ground (arith, q, r, c))
        | inl c ↦ elim (Sum-cases (arch_info request crons name default_arch a)) [
          | inl (err, e) ↦ absurd (ground (arith, p, c, e))
          | inr (i, e) ↦ elim (Sum-cases rest) [
            | inl (err, f) ↦ absurd (ground (arith, p, c, e, f))
            | inr (more, f) ↦
                let made : infos ≡ i ∷ more = ground (arith, p, c, e, f) in
                elim (Bool-cases (arch == a)) [
                  | inl s ↦
                      let same : arch ≡ a = ground (arith, s) in
                      rw made (
                        has_name-head (name <> ("-" <> arch_string arch)) i more (
                          arch_info_name name default_arch a i e
                          ∙ ap (λ x. name <> ("-" <> arch_string x)) (sym same)))
                  | inr s ↦ rw made (
                      has_name-tail (name <> ("-" <> arch_string arch)) i more (
                        arch_infos_named name default_arch arch cluster_archs archs more f q
                          (ground (arith, r, s))))
                ]
          ]
        ]
      ]

  name_infos_named :
      (name : String) (arch : Arch) (cluster_archs archs : List Arch) (infos : List DataSourceInfo)
      → name_infos request crons cluster_archs name archs ≡ inr infos
      → contains cluster_archs arch ≡ true
      → contains archs arch ≡ true
      → has_name (name <> ("-" <> arch_string arch)) infos ≡ true
  unfolding name_infos
  name_infos_named name arch cluster_archs archs infos p q r =
      let (default_arch, d) = common_arch cluster_archs archs arch q r in
      elim (Sum-cases (arch_infos request crons name default_arch cluster_archs archs)) [
        | inl (err, e) ↦ absurd (ground (arith, p, d, e))
        | inr (more, e) ↦
            let made : infos ≡ reference_info name default_arch ∷ more = ground (arith, p, d, e) in
            rw made (
              has_name-tail (name <> ("-" <> arch_string arch)) (reference_info name default_arch)
                more (arch_infos_named name default_arch arch cluster_archs archs more e q r))
      ]

  infos_multi_arch_named :
      (name : String) (arch : Arch) (cluster_archs : List Arch) (collection : DataSourceCollection)
      (infos : List DataSourceInfo)
      → infos_multi_arch request crons cluster_archs collection ≡ inr infos
      → contains cluster_archs arch ≡ true
      → collection_contains collection name arch ≡ true
      → has_name (name <> ("-" <> arch_string arch)) infos ≡ true
  unfolding infos_multi_arch collection_contains lookup
  infos_multi_arch_named name arch cluster_archs [] infos p q r = absurd (ground arith)
  infos_multi_arch_named name arch cluster_archs ((other, archs) ∷ collection) infos p q r =
      let expected = name <> ("-" <> arch_string arch) in
      elim (Sum-cases (name_infos request crons cluster_archs other archs)) [
        | inl (err, e) ↦ absurd (ground (arith, p, e))
        | inr (first, e) ↦
            elim (Sum-cases (infos_multi_arch request crons cluster_archs collection)) [
              | inl (err, f) ↦ absurd (ground (arith, p, e, f))
              | inr (more, f) ↦
                  let made : infos ≡ first ++ more = ground (arith, p, e, f) in
                  let either = has_name-append expected first more in
                  elim (Bool-cases (name == other)) [
                    | inl s ↦
                        let same : name ≡ other = ground (arith, s) in
                        let has : contains archs arch ≡ true = ground (arith, r, s) in
                        let named : has_name expected first ≡ true =
                          subst (λ x. has_name (x <> ("-" <> arch_string arch)) first ≡ true)
                            (sym same)
                            (name_infos_named other arch cluster_archs archs first e q has) in
                        rw made (either ∙ ap (λ b. b || has_name expected more) named)
                    | inr s ↦
                        let has : collection_contains collection name arch ≡ true =
                          ground (arith, r, s) in
                        let named =
                          infos_multi_arch_named name arch cluster_archs collection more f q has in
                        rw made (
                          either ∙ or-true (has_name expected first) (has_name expected more) named)
                  ]
            ]
      ]

module _ {Raw U : Type 0} (unstructured : Unstructured Raw U) where
  Among-any_provides :
      (t : Template Raw) (templates : List (Template Raw)) (name : String) (arch : Arch)
      → Among t templates
      → template_source unstructured t ≡ inr (some (name, arch))
      → any_provides unstructured templates name arch ≡ true
  Among-any_provides t [] name arch m p = absurd m
  Among-any_provides t (u ∷ templates) name arch (inl e) p = ground (arith, e, p)
  Among-any_provides t (u ∷ templates) name arch (inr m) p =
      ground (arith, Among-any_provides t templates name arch m p)

  -- Let the data sources be collected from a bundle of valid templates, and the objects to create be computed
  -- from them for several architectures. For every template of the bundle that refers to a data source by its
  -- parameter DATA_SOURCE_NAME, and whose architecture is one of the cluster's, the deployed template refers
  -- to a data source that is among those objects.
  pub find_data_source_name-suffix :
      {P : Type 0} (request : Request P) (crons : CronMap) (templates : List (Template Raw))
      (collection : DataSourceCollection) (infos : List DataSourceInfo) (cluster_archs : List Arch)
      (t : Template Raw) (name : String) (arch : Arch)
      → AreValid unstructured templates
      → collect_data_sources unstructured templates ≡ inr collection
      → get_ssp_archs request.go_arch request.spec ≡ inr cluster_archs
      → get_data_source_infos_multi_arch request crons collection ≡ inr infos
      → Among t templates
      → template_source unstructured t ≡ inr (some (name, arch))
      → find_parameter_value "DATA_SOURCE_NAME" t.parameters ≡ some name
      → contains cluster_archs arch ≡ true
      → (source : String) × (find_data_source_name (add_arch_suffix_to_parameters arch t.parameters)
          ≡ some source)
        × (has_name source infos ≡ true)
  unfolding find_data_source_name get_data_source_infos_multi_arch
  find_data_source_name-suffix request crons templates collection infos cluster_archs t name arch v
        c a g m s p h =
      let (d, e, u, r) = collect_data_sources_lem unstructured templates v in
      let same : d ≡ collection = ground (arith, c, e) in
      let provided = r name arch ∙ Among-any_provides t templates name arch m s in
      let held : collection_contains collection name arch ≡ true =
        subst (λ x. collection_contains x name arch ≡ true) same provided in
      let infos_of : infos_multi_arch request crons cluster_archs collection ≡ inr infos =
        elim (Bool-cases (deref request.spec.enable_multiple_architectures)) [
          | inl b ↦ ground (arith, a, g, b)
          | inr b ↦ absurd (ground (arith, a, g, b))
        ] in
      (
        name <> ("-" <> arch_string arch),
        ground (arith, find_parameter_value-suffix arch t.parameters name p),
        infos_multi_arch_named request crons name arch cluster_archs collection infos infos_of h
            held,
      )

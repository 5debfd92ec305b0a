-- ===== src/CommonTemplates/Bundled.antt =====
-- The templates that the operand deploys, against the bundle that it was made from.
use ssp_operator.Api.{SspSpec}
use ssp_operator.Architecture.{Arch, arch_eq}
use ssp_operator.Base.{
  ◌≡◌, refl, arith, none, some, List, [], ◌∷◌, ◌++◌, inl, inr, ◌==◌, string_eq, if◌then◌else◌,
  Sum-cases,
}
use ssp_operator.Base.Dict.{lookup, lookup_or, insert, lookup-insert}
use ssp_operator.CommonTemplates.{
  ClusterTemplate, TemplatesByArch, arch_of, add_templates, new_common_templates, suffixed,
  get_templates_for_archs,
}

module _ {Raw Ref : Type 0} where
  -- The templates of an architecture, in the order of the bundle.
  abbrev pub templates_of : Arch → List (ClusterTemplate Raw Ref) → List (ClusterTemplate Raw Ref)
  templates_of arch [] = []
  templates_of arch (t ∷ ts) = elim (arch_of t) [
    | inl err ↦ templates_of arch ts
    | inr a ↦ if arch == a then t ∷ templates_of arch ts else templates_of arch ts
  ]

  -- For each architecture in turn its templates; with several architectures, of the data source of it.
  abbrev pub deployed_templates :
      {P : Type 0}
      → List (ClusterTemplate Raw Ref)
      → List Arch
      → SspSpec P
      → List (ClusterTemplate Raw Ref)
  deployed_templates templates [] spec = []
  deployed_templates templates (arch ∷ archs) spec =
      let rest = deployed_templates templates archs spec in
      elim spec.enable_multiple_architectures [
        | none ↦ templates_of arch templates ++ rest
        | some multiple ↦
            if multiple
            then suffixed arch (templates_of arch templates) ++ rest
            else templates_of arch templates ++ rest
      ]

  snoc-append :
      (xs ys : List (ClusterTemplate Raw Ref)) (t : ClusterTemplate Raw Ref)
      → (xs ++ (t ∷ [])) ++ ys ≡ xs ++ (t ∷ ys)
  snoc-append [] ys t = refl
  snoc-append (x ∷ xs) ys t = ground (arith, snoc-append xs ys t)

  append-nil : (xs : List (ClusterTemplate Raw Ref)) → xs ++ [] ≡ xs
  append-nil [] = refl
  append-nil (x ∷ xs) = ground (arith, append-nil xs)

  lookup-add_templates :
      (templates : List (ClusterTemplate Raw Ref)) (by_arch d : TemplatesByArch Raw Ref)
      (arch : Arch)
      → add_templates by_arch templates ≡ inr d
      → lookup_or [] arch d ≡ lookup_or [] arch by_arch ++ templates_of arch templates
  unfolding add_templates
  lookup-add_templates [] by_arch d arch p =
      ground (arith, append-nil (lookup_or [] arch by_arch), p)
  lookup-add_templates (t ∷ ts) by_arch d arch p = elim (Sum-cases (arch_of t)) [
    | inl (err, q) ↦ absurd (ground (arith, p, q))
    | inr (a, q) ↦
        let next = insert a (lookup_or [] a by_arch ++ (t ∷ [])) by_arch in
        ground (
          arith,
          q,
          lookup-add_templates ts next d arch (ground (arith, p, q)),
          lookup-insert arch a (lookup_or [] a by_arch ++ (t ∷ [])) by_arch,
          snoc-append (lookup_or [] a by_arch) (templates_of arch ts) t,
        )
  ]

  lookup-new_common_templates :
      (templates : List (ClusterTemplate Raw Ref)) (by_arch : TemplatesByArch Raw Ref) (arch : Arch)
      → new_common_templates templates ≡ inr by_arch
      → lookup_or [] arch by_arch ≡ templates_of arch templates
  unfolding new_common_templates lookup
  lookup-new_common_templates templates by_arch arch p =
      lookup-add_templates templates [] by_arch arch p

  -- An operand that was made from a bundle deploys, for each architecture of the cluster in turn, the
  -- templates of the bundle with that architecture, in their order: as they are, or, with several
  -- architectures enabled, with the architecture added to the name of the data source.
  pub get_templates_for_archs-new_common_templates :
      {P : Type 0} (templates : List (ClusterTemplate Raw Ref)) (by_arch : TemplatesByArch Raw Ref)
      (archs : List Arch) (spec : SspSpec P)
      → new_common_templates templates ≡ inr by_arch
      → get_templates_for_archs by_arch archs spec ≡ deployed_templates templates archs spec
  unfolding get_templates_for_archs
  get_templates_for_archs-new_common_templates templates by_arch [] spec p = refl
  get_templates_for_archs-new_common_templates templates by_arch (arch ∷ archs) spec p = ground (
    arith,
    lookup-new_common_templates templates by_arch arch p,
    get_templates_for_archs-new_common_templates templates by_arch archs spec p,
  )

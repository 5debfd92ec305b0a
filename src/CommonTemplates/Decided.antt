-- ===== src/CommonTemplates/Decided.antt =====
-- Which old templates are deleted and which are deprecated.
use ssp_operator.Architecture.{Arch, ArchError, arch_eq}
use ssp_operator.Base.{
  String, ◌≡◌, ◌≢◌, ◌↔◌, refl, subst, arith, true, false, none, some, List, [], ◌∷◌, ◌++◌, ◌⊎◌, inl,
  inr, ◌==◌, contains, string_eq, Among, Bool-cases, Option-cases, Sum-cases,
}
use ssp_operator.Base.Dict.{Dict, lookup, lookup_or}
use ssp_operator.CommonTemplates.{ClusterTemplate, arch_of}
use ssp_operator.CommonTemplates.Old.{
  Requirement, Semver, Action, keep, delete_template, deprecate_template, non_deployed_templates,
  action_for, old_template_funcs, deprecate_or_delete_old_templates,
  get_old_templates_label_selector, common_templates_version,
}
use ssp_operator.Resources.{Get, found}
use ssp_operator.Resources.Owned.{OwnerName, owned_items, list_owned_resources}
use ssp_operator.CommonTemplates.NonDeployed.{
  NameKeyed, last_named, is_deployed, non_deployed_templates-Keyed, lookup-non_deployed_templates,
}

Action-cases : (a : Action) → (a ≡ keep) ⊎ ((a ≡ delete_template) ⊎ (a ≡ deprecate_template))
Action-cases keep = inl refl
Action-cases delete_template = inr (inl refl)
Action-cases deprecate_template = inr (inr refl)

abbrev pub Decision : (Raw Ref : Type 0) → Type 0
Decision Raw Ref = Action × ClusterTemplate Raw Ref

module _ {Raw Ref : Type 0} where
  -- The request lists a template that is deployed no more: it is the last of its name in both answers.
  abbrev pub IsCandidate :
      (old owned deployed : List (ClusterTemplate Raw Ref)) → ClusterTemplate Raw Ref → Type 0
  IsCandidate old owned deployed t =
      (is_deployed t.name deployed ≡ false) × (last_named t.name (old ++ owned) ≡ some t)

  module _ {V : Type 0} (semver : Semver V) (latest : V) (archs : List Arch) where
    Among-old_template_funcs :
        (a : Action) (t : ClusterTemplate Raw Ref) (d : Dict String (ClusterTemplate Raw Ref))
        → NameKeyed d
        → Among (a, t) (old_template_funcs semver latest archs d)
        → (lookup t.name d ≡ some t) × (action_for semver latest archs t ≡ a)
    unfolding old_template_funcs lookup
    Among-old_template_funcs a t [] k h = absurd h
    Among-old_template_funcs a t ((name, u) ∷ d) (p, n, k) h =
        let action = action_for semver latest archs u in
        let later : Among (a, t) (old_template_funcs semver latest archs d)
            → (lookup t.name ((name, u) ∷ d) ≡ some t) × (action_for semver latest archs t ≡ a) =
          λ m. let (l, q) = Among-old_template_funcs a t d k m in (ground (arith, n, l), q) in
        let here : (b : Action)
            → action ≡ b
            → ◌≡◌ {A = Decision Raw Ref} (a, t) (b, u)
            → (lookup t.name ((name, u) ∷ d) ≡ some t) × (action_for semver latest archs t ≡ a) =
          λ b c e. (ground (arith, p, e), ground (arith, c, e)) in
        elim (Action-cases action) [
          | inl c ↦ later (subst (Among (a, t)) (ground (arith, c)) h)
          | inr (inl c) ↦
              elim (subst (Among {A = Decision Raw Ref} (a, t))
                {y = (delete_template, u) ∷ old_template_funcs semver latest archs d}
                (ground (arith, c)) h) [ inl e ↦ here delete_template c e | inr m ↦ later m ]
          | inr (inr c) ↦
              elim (subst (Among {A = Decision Raw Ref} (a, t))
                {y = (deprecate_template, u) ∷ old_template_funcs semver latest archs d}
                (ground (arith, c)) h) [ inl e ↦ here deprecate_template c e | inr m ↦ later m ]
        ]

    old_template_funcs-Among :
        (name : String) (t : ClusterTemplate Raw Ref) (d : Dict String (ClusterTemplate Raw Ref))
        (a : Action)
        → lookup name d ≡ some t
        → action_for semver latest archs t ≡ a
        → a ≢ keep
        → Among (a, t) (old_template_funcs semver latest archs d)
    unfolding old_template_funcs lookup
    old_template_funcs-Among name t [] a p q n = absurd (ground arith)
    old_template_funcs-Among name t ((other, u) ∷ d) a p q n =
        let rest = old_template_funcs semver latest archs d in
        elim (Bool-cases (name == other)) [
          | inl e ↦
              subst (Among {A = Decision Raw Ref} (a, t)) {x = (a, t) ∷ rest}
                (ground (arith, p, q, n, e)) (inl refl)
          | inr e ↦
              let m = old_template_funcs-Among name t d a (ground (arith, p, e)) q n in
              elim (Action-cases (action_for semver latest archs u)) [
                | inl c ↦ subst (Among (a, t)) (ground (arith, c)) m
                | inr (inl c) ↦
                    subst (Among (a, t)) {x = (delete_template, u) ∷ rest} (ground (arith, c))
                      (inr m)
                | inr (inr c) ↦
                    subst (Among (a, t)) {x = (deprecate_template, u) ∷ rest} (ground (arith, c))
                      (inr m)
              ]
        ]

    -- The architecture of the template is unknown or none of the cluster's.
    abbrev pub IsUnsupported : ClusterTemplate Raw Ref → Type 0
    IsUnsupported t =
        ((e : ArchError) × (arch_of t ≡ inl e))
        ⊎ ((arch : Arch) × (arch_of t ≡ inr arch) × (contains archs arch ≡ false))

    -- The architecture is one of the cluster's, and the version is missing, no version or less than the latest.
    abbrev pub IsOutdated : ClusterTemplate Raw Ref → Type 0
    IsOutdated t =
        let version = lookup_or "" "template.kubevirt.io/version" t.labels in
        (arch : Arch) × (arch_of t ≡ inr arch)
        × (contains archs arch ≡ true)
        × ((version ≡ "")
            ⊎ ((semver.parse_tolerant version ≡ none)
                ⊎ ((v : V) × (semver.parse_tolerant version ≡ some v)
                    × (semver.is_newer latest v ≡ true))))

    action_for_delete :
        (t : ClusterTemplate Raw Ref)
        → (action_for semver latest archs t ≡ delete_template)
          ↔ ((t.deleting ≡ false) × IsUnsupported t)
    unfolding action_for
    action_for_delete t =
        let version = lookup_or "" "template.kubevirt.io/version" t.labels in
        elim (Sum-cases (arch_of t)) [
          | inl (e, p) ↦ (λ q. (ground (arith, p, q), inl (e, p)), λ (d, u). ground (arith, p, d))
          | inr (arch, p) ↦ (
            λ q. (ground (arith, p, q), inr (arch, p, ground (arith, p, q))),
            λ (d, u). elim u [
              | inl (e, r) ↦ absurd (ground arith)
              | inr (arch', r, c) ↦ ground (arith, p, r, c, d)
            ],
          )
        ]

    action_for_deprecate :
        (t : ClusterTemplate Raw Ref)
        → (action_for semver latest archs t ≡ deprecate_template)
          ↔ ((t.deleting ≡ false) × IsOutdated t)
    unfolding action_for
    action_for_deprecate t =
        let version = lookup_or "" "template.kubevirt.io/version" t.labels in
        elim (Sum-cases (arch_of t)) [
          | inl (e, p) ↦ (
            λ q. absurd (ground (arith, p, q)),
            λ (d, (arch, r, c, o)). absurd (ground (arith, p, r)),
          )
          | inr (arch, p) ↦ (
            λ q.
                let c : contains archs arch ≡ true = ground (arith, p, q) in
                let d : t.deleting ≡ false = ground (arith, p, q) in
                elim (Bool-cases (version == "")) [
                  | inl e ↦ (d, (arch, p, c, inl (ground (arith, e))))
                  | inr e ↦ elim (Option-cases (semver.parse_tolerant version)) [
                    | inl n ↦ (d, (arch, p, c, inr (inl n)))
                    | inr (v, n) ↦
                        (d, (arch, p, c, inr (inr (v, n, ground (arith, p, q, c, d, e, n)))))
                  ]
                ],
            λ (d, (arch', r, c, o)). elim o [
              | inl e ↦ ground (arith, p, r, c, d, e)
              | inr (inl n) ↦ ground (arith, p, r, c, d, n)
              | inr (inr (v, n, w)) ↦ ground (arith, p, r, c, d, n, w)
            ],
          )
        ]

    decided :
        (old owned deployed : List (ClusterTemplate Raw Ref)) (a : Action)
        (t : ClusterTemplate Raw Ref)
        → a ≢ keep
        → Among {A = Decision Raw Ref}
            (a, t)
            (old_template_funcs semver latest archs (non_deployed_templates old owned deployed))
          ↔ (IsCandidate old owned deployed t × (action_for semver latest archs t ≡ a))
    decided old owned deployed a t n =
        let d = non_deployed_templates old owned deployed in
        let l = lookup-non_deployed_templates t.name old owned deployed in
        (
          λ m.
              let (p, q) =
                Among-old_template_funcs a t d (non_deployed_templates-Keyed old owned deployed)
                  m in
              ((ground (arith, l, p), ground (arith, l, p)), q),
          λ ((u, v), q). old_template_funcs-Among t.name t d a (ground (arith, l, u, v)) q n,
        )

  module _ {V : Type 0} (semver : Semver V) where
    -- If both requests to list are answered, by the old templates and by templates of which some are owned,
    -- and the operator's version is one, then the templates to delete are exactly those listed, not deployed
    -- and not being deleted whose architecture is unknown or none of the cluster's; and the templates to
    -- deprecate are exactly those listed, not deployed and not being deleted whose architecture is one of the
    -- cluster's and whose version is missing, no version or less than the operator's.
    pub deprecate_or_delete_old_templates_lem :
        (list : List Requirement → String → Get (List (ClusterTemplate Raw Ref)))
        (owner : OwnerName) (namespace : String) (deployed : List (ClusterTemplate Raw Ref))
        (archs : List Arch) (old items : List (ClusterTemplate Raw Ref)) (latest : V)
        → list get_old_templates_label_selector namespace ≡ found old
        → list [] namespace ≡ found items
        → semver.parse_tolerant common_templates_version ≡ some latest
        → let owned = owned_items owner items in
          (actions : List (Decision Raw Ref)) × (deprecate_or_delete_old_templates semver list owner
              namespace deployed archs
            ≡ inr actions)
          × ((t : ClusterTemplate Raw Ref)
              → Among {A = Decision Raw Ref} (delete_template, t) actions ↔ (
                  IsCandidate old owned deployed t
                  × (t.deleting ≡ false)
                  × IsUnsupported semver latest archs t))
          × ((t : ClusterTemplate Raw Ref)
              → Among {A = Decision Raw Ref} (deprecate_template, t) actions ↔ (
                  IsCandidate old owned deployed t
                  × (t.deleting ≡ false)
                  × IsOutdated semver latest archs t))
    unfolding deprecate_or_delete_old_templates list_owned_resources
    deprecate_or_delete_old_templates_lem list owner namespace deployed archs old items latest p q
          v =
        let owned = owned_items owner items in
        (
          old_template_funcs semver latest archs (non_deployed_templates old owned deployed),
          ground (arith, p, q, v),
          λ t.
              let (f, g) =
                decided semver latest archs old owned deployed delete_template t
                  (λ e. ground arith) in
              let (h, k) = action_for_delete semver latest archs t in
              (λ m. let (c, a) = f m in (c, (h a).0, (h a).1), λ (c, d, a). g (c, k (d, a))),
          λ t.
              let (f, g) =
                decided semver latest archs old owned deployed deprecate_template t
                  (λ e. ground arith) in
              let (h, k) = action_for_deprecate semver latest archs t in
              (λ m. let (c, a) = f m in (c, (h a).0, (h a).1), λ (c, d, a). g (c, k (d, a))),
        )

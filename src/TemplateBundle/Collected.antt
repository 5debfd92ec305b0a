-- ===== src/TemplateBundle/Collected.antt =====
-- `CollectDataSources`: which pairs of a data source and an architecture it collects.
use ssp_operator.Architecture.{Arch, arch_eq}
use ssp_operator.Base.{
  String, ◌≡◌, ◌∙◌, refl, arith, Bool, false, ◌&&◌, ◌||◌, Option, none, some, List, [], ◌∷◌, ◌++◌,
  inl, inr, ◌==◌, contains, string_eq, if◌then◌else◌, Bool-cases, All,
}
use ssp_operator.Base.Dict.{lookup, lookup_or, insert, lookup-insert}
use ssp_operator.TemplateBundle.{
  Template, Unstructured, DataSourceCollection, add_name_and_arch, collection_contains,
  template_source, collect_from, collect_data_sources,
}

contains-snoc :
    (archs : List Arch) (a b : Arch) → contains (archs ++ (a ∷ [])) b ≡ (b == a || contains archs b)
contains-snoc [] a b = ground arith
contains-snoc (arch ∷ archs) a b = ground (arith, contains-snoc archs a b)

contains-add_name_and_arch :
    (name : String) (arch : Arch) (d : DataSourceCollection) (n : String) (a : Arch)
    → collection_contains (add_name_and_arch name arch d) n a
      ≡ ((n == name && a == arch) || collection_contains d n a)
unfolding collection_contains add_name_and_arch
contains-add_name_and_arch name arch d n a =
    let archs = lookup_or [] name d in
    ground (arith, lookup-insert n name (archs ++ (arch ∷ [])) d, contains-snoc archs arch a)

abbrev pub AreDistinct : List Arch → Type 0
AreDistinct [] = Unit
AreDistinct (arch ∷ archs) = (contains archs arch ≡ false) × AreDistinct archs

snoc-AreDistinct :
    (archs : List Arch) (a : Arch)
    → AreDistinct archs
    → contains archs a ≡ false
    → AreDistinct (archs ++ (a ∷ []))
snoc-AreDistinct [] a d h = (refl, tt)
snoc-AreDistinct (arch ∷ archs) a (p, d) h =
    (ground (arith, contains-snoc archs a arch), snoc-AreDistinct archs a d (ground arith))

-- No name has an architecture twice.
abbrev pub IsCollection : DataSourceCollection → Type 0
IsCollection d = (name : String) → AreDistinct (lookup_or [] name d)

lookup_or-insert :
    (j k : String) (v : List Arch) (d : DataSourceCollection)
    → lookup_or [] j (insert k v d) ≡ (if j == k then v else lookup_or [] j d)
lookup_or-insert j k v d = ground (arith, lookup-insert j k v d)

contains-nil : (name : String) (arch : Arch) → collection_contains [] name arch ≡ false
unfolding collection_contains lookup
contains-nil name arch = refl

nil-IsCollection : IsCollection []
unfolding lookup
nil-IsCollection name = tt

add_name_and_arch-IsCollection :
    (name : String) (arch : Arch) (d : DataSourceCollection)
    → IsCollection d
    → IsCollection (add_name_and_arch name arch d)
unfolding add_name_and_arch
add_name_and_arch-IsCollection name arch d h n =
    let archs = lookup_or [] name d in
    elim (Bool-cases (contains archs arch)) [
      | inl e ↦ rw e (h n)
      | inr e ↦
          rw (e, lookup_or-insert n name (archs ++ (arch ∷ [])) d)
            (elim (Bool-cases (n == name)) [
              | inl q ↦ rw q (snoc-AreDistinct archs arch (h name) e)
              | inr q ↦ rw q (h n)
            ])
    ]

module _ {Raw U : Type 0} (unstructured : Unstructured Raw U) where
  -- Whether a template refers to the data source and is of the architecture.
  abbrev pub provides : Template Raw → String → Arch → Bool
  provides template n a = elim (template_source unstructured template) [
    | inl err ↦ false
    | inr none ↦ false
    | inr (some (name, arch)) ↦ n == name && a == arch
  ]

  abbrev pub any_provides : List (Template Raw) → String → Arch → Bool
  any_provides [] n a = false
  any_provides (template ∷ templates) n a = provides template n a || any_provides templates n a

  abbrev pub AreValid : List (Template Raw) → Type 0
  AreValid = All (λ template.
      (source : Option (String × Arch)) × (template_source unstructured template ≡ inr source))

  collect_from_lem :
      (templates : List (Template Raw)) (result : DataSourceCollection)
      → IsCollection result
      → AreValid templates
      → (d : DataSourceCollection) × (collect_from unstructured result templates ≡ inr d)
        × IsCollection d
        × ((n : String) (a : Arch)
            → collection_contains d n a
              ≡ (any_provides templates n a || collection_contains result n a))
  unfolding collect_from
  collect_from_lem [] result c v = (result, refl, c, λ n a. refl)
  collect_from_lem (template ∷ templates) result c ((none, e), v) =
      let (d, p, q, r) = collect_from_lem templates result c v in
      (d, ground arith, q, λ n a. ground (arith, r n a))
  collect_from_lem (template ∷ templates) result c ((some (name, arch), e), v) =
      let (d, p, q, r) =
        collect_from_lem templates (add_name_and_arch name arch result)
          (add_name_and_arch-IsCollection name arch result c) v in
      (
        d,
        ground arith,
        q,
        λ n a. ground (arith, r n a, contains-add_name_and_arch name arch result n a),
      )

  -- From templates that are all valid, `CollectDataSources` collects exactly the pairs of a data source
  -- that a template refers to and the architecture of that template, and under no name an architecture
  -- twice.
  pub collect_data_sources_lem :
      (templates : List (Template Raw))
      → AreValid templates
      → (d : DataSourceCollection) × (collect_data_sources unstructured templates ≡ inr d)
        × IsCollection d
        × ((n : String) (a : Arch) → collection_contains d n a ≡ any_provides templates n a)
  unfolding collect_data_sources
  collect_data_sources_lem templates v =
      let (d, p, q, r) = collect_from_lem templates [] (nil-IsCollection) v in
      (d, p, q, λ n a. r n a ∙ ground (arith, contains-nil n a))

-- ===== src/CommonTemplates/NonDeployed.antt =====
-- The templates that are listed but not deployed, as a map of their names.
use ssp_operator.Architecture.{arch_eq}
use ssp_operator.Base.{
  String, ◌≡◌, refl, arith, Bool, false, ◌||◌, Option, none, some, List, [], ◌∷◌, ◌++◌, ◌==◌,
  string_eq, if◌then◌else◌,
}
use ssp_operator.Base.Dict.{Dict, lookup, insert, delete, lookup-insert, lookup-delete}
use ssp_operator.Base.Keyed.{Keyed, insert-Keyed, delete-Keyed}
use ssp_operator.CommonTemplates.{ClusterTemplate}
use ssp_operator.CommonTemplates.Old.{insert_all, delete_names, non_deployed_templates}

module _ {Raw Ref : Type 0} where
  abbrev pub NameKeyed : Dict String (ClusterTemplate Raw Ref) → Type 0
  NameKeyed = Keyed (λ t. t.name)

  insert_all-Keyed :
      (ts : List (ClusterTemplate Raw Ref)) (d : Dict String (ClusterTemplate Raw Ref))
      → NameKeyed d
      → NameKeyed (insert_all ts d)
  unfolding insert_all
  insert_all-Keyed [] d k = k
  insert_all-Keyed (t ∷ ts) d k =
      insert_all-Keyed ts (insert t.name t d) (insert-Keyed (λ u. u.name) t d k)

  delete_names-Keyed :
      (ts : List (ClusterTemplate Raw Ref)) (d : Dict String (ClusterTemplate Raw Ref))
      → NameKeyed d
      → NameKeyed (delete_names ts d)
  unfolding delete_names
  delete_names-Keyed [] d k = k
  delete_names-Keyed (t ∷ ts) d k =
      delete_names-Keyed ts (delete t.name d) (delete-Keyed (λ u. u.name) t.name d k)

  pub non_deployed_templates-Keyed :
      (old owned deployed : List (ClusterTemplate Raw Ref))
      → NameKeyed (non_deployed_templates old owned deployed)
  unfolding non_deployed_templates
  non_deployed_templates-Keyed old owned deployed =
      delete_names-Keyed deployed (insert_all owned (insert_all old []))
        (insert_all-Keyed owned (insert_all old []) (insert_all-Keyed old [] tt))

  -- The last template of a name.
  abbrev pub last_named : String → List (ClusterTemplate Raw Ref) → Option (ClusterTemplate Raw Ref)
  last_named name [] = none
  last_named name (t ∷ ts) = elim (last_named name ts) [
    | some u ↦ some u
    | none ↦ if name == t.name then some t else none
  ]

  abbrev pub is_deployed : String → List (ClusterTemplate Raw Ref) → Bool
  is_deployed name [] = false
  is_deployed name (t ∷ ts) = name == t.name || is_deployed name ts

  lookup-insert_all :
      (name : String) (ts : List (ClusterTemplate Raw Ref))
      (d : Dict String (ClusterTemplate Raw Ref))
      → lookup name (insert_all ts d)
        ≡ elim (last_named name ts) [ none ↦ lookup name d | some t ↦ some t ]
  unfolding insert_all
  lookup-insert_all name [] d = refl
  lookup-insert_all name (t ∷ ts) d =
      ground (arith, lookup-insert_all name ts (insert t.name t d), lookup-insert name t.name t d)

  lookup-delete_names :
      (name : String) (ts : List (ClusterTemplate Raw Ref))
      (d : Dict String (ClusterTemplate Raw Ref))
      → lookup name (delete_names ts d) ≡ (if is_deployed name ts then none else lookup name d)
  unfolding delete_names
  lookup-delete_names name [] d = refl
  lookup-delete_names name (t ∷ ts) d =
      ground (arith, lookup-delete_names name ts (delete t.name d), lookup-delete name t.name d)

  last_named-append :
      (name : String) (ts us : List (ClusterTemplate Raw Ref))
      → last_named name (ts ++ us)
        ≡ elim (last_named name us) [ none ↦ last_named name ts | some t ↦ some t ]
  last_named-append name [] us = ground arith
  last_named-append name (t ∷ ts) us = ground (arith, last_named-append name ts us)

  pub lookup-non_deployed_templates :
      (name : String) (old owned deployed : List (ClusterTemplate Raw Ref))
      → lookup name (non_deployed_templates old owned deployed)
        ≡ (if is_deployed name deployed then none else last_named name (old ++ owned))
  unfolding non_deployed_templates lookup
  lookup-non_deployed_templates name old owned deployed = ground (
    arith,
    lookup-delete_names name deployed (insert_all owned (insert_all old [])),
    lookup-insert_all name owned (insert_all old []),
    lookup-insert_all name old [],
    last_named-append name old owned,
  )

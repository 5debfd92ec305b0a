-- ===== src/Resources/Reconciled.antt =====
-- What `Reconcile` leaves behind: an object that is up to date, which the next `Reconcile` does not change.
use ssp_operator.Base.{
  String, ◌≡◌, refl, arith, true, false, ◌||◌, not, none, some, [], ◌∷◌, inl, inr, ◌==◌, string_eq,
  All, ℕ, Bool-cases, Option-cases,
}
use ssp_operator.Base.Dict.{Dict, lookup, insert, lookup-insert}
use ssp_operator.Resources.{Object, found, Owners, set_owner}
use ssp_operator.Resources.Reconcile.{
  Client, ReconcileBuilder, unchanged, update_string_map, update_map, resource_deleted_result,
  mutate_fn, same_key, mutate, write_existing, create_or_update_with_immutable_spec, finish,
  labelled, reconcile,
}
use ssp_operator.Resources.VersionCache.{
  VersionCache, version_cache_contains, version_cache_add, version_cache_remove,
}

-- No key twice, as in every map.
abbrev pub IsMap : Dict String String → Type 0
IsMap [] = Unit
IsMap ((key, val) ∷ d) = (lookup key d ≡ none) × IsMap d

abbrev Holds : Dict String String → Dict String String → Type 0
Holds expected d = All (λ (key, val). lookup key d ≡ some val) expected

insert_same :
    (key val : String) (d : Dict String String) → lookup key d ≡ some val → insert key val d ≡ d
unfolding insert lookup
insert_same key val [] h = ground arith
insert_same key val ((j, w) ∷ d) h = ground (arith, insert_same key val d)

update_string_map_same :
    (expected d : Dict String String) → Holds expected d → update_string_map expected d ≡ d
unfolding update_string_map
update_string_map_same [] d h = refl
update_string_map_same ((key, val) ∷ expected) d (p, h) =
    rw (insert_same key val d p) (update_string_map_same expected d h)

lookup-update_string_map :
    (expected d : Dict String String) (j : String)
    → lookup j expected ≡ none
    → lookup j (update_string_map expected d) ≡ lookup j d
unfolding update_string_map lookup
lookup-update_string_map [] d j h = refl
lookup-update_string_map ((key, val) ∷ expected) d j h =
    ground
      (arith, lookup-update_string_map expected (insert key val d) j, lookup-insert j key val d)

update_string_map-Holds :
    (expected d : Dict String String)
    → IsMap expected
    → Holds expected (update_string_map expected d)
unfolding update_string_map
update_string_map-Holds [] d m = tt
update_string_map-Holds ((key, val) ∷ expected) d (n, m) = (
  ground (
    arith,
    lookup-update_string_map expected (insert key val d) key n,
    lookup-insert key key val d,
  ),
  update_string_map-Holds expected (insert key val d) m,
)

Holds-cons :
    (key val : String) (expected d : Dict String String)
    → lookup key expected ≡ none
    → Holds expected d
    → Holds expected ((key, val) ∷ d)
unfolding lookup
Holds-cons key val [] d n h = tt
Holds-cons key val ((j, w) ∷ expected) d n (p, h) =
    (ground (arith, p), Holds-cons key val expected d (ground arith) h)

IsMap-Holds : (d : Dict String String) → IsMap d → Holds d d
unfolding lookup
IsMap-Holds [] m = tt
IsMap-Holds ((key, val) ∷ d) (n, m) = (ground arith, Holds-cons key val d d n (IsMap-Holds d m))

held :
    (key val : String) (expected d : Dict String String)
    → lookup key expected ≡ some val
    → Holds expected d
    → lookup key d ≡ some val
unfolding lookup
held key val [] d p h = absurd (ground arith)
held key val ((other, w) ∷ expected) d p (q, h) = elim (Bool-cases (key == other)) [
  | inl e ↦ ground (arith, p, q, e)
  | inr e ↦ held key val expected d (ground (arith, p, e)) h
]

update_map-Holds :
    (expected d : Dict String String) → IsMap expected → Holds expected (update_map expected d)
unfolding update_map
update_map-Holds expected [] m = IsMap-Holds expected m
update_map-Holds expected (entry ∷ d) m = update_string_map-Holds expected (entry ∷ d) m

update_map_same : (expected d : Dict String String) → Holds expected d → update_map expected d ≡ d
unfolding update_map lookup
update_map_same [] [] h = refl
update_map_same (entry ∷ expected) [] (p, h) = ground (arith, p)
update_map_same expected (entry ∷ d) h = update_string_map_same expected (entry ∷ d) h

-- Where the expected map has a key, its value is taken.
pub lookup-update_map :
    (expected d : Dict String String) (key : String)
    → IsMap expected
    → lookup key (update_map expected d)
      ≡ elim (lookup key expected) [ none ↦ lookup key d | some val ↦ some val ]
unfolding update_map lookup
lookup-update_map expected [] key m = ground arith
lookup-update_map expected (entry ∷ d) key m = elim (Option-cases (lookup key expected)) [
  | inl n ↦ ground (arith, n, lookup-update_string_map expected (entry ∷ d) key n)
  | inr (val, p) ↦ ground (
    arith,
    p,
    held key val expected (update_map expected (entry ∷ d)) p
        (update_map-Holds expected (entry ∷ d) m),
  )
]

update_map_twice :
    (expected d : Dict String String)
    → IsMap expected
    → update_map expected (update_map expected d) ≡ update_map expected d
update_map_twice expected d m =
    update_map_same expected (update_map expected d) (update_map-Holds expected d m)

module _ {S Ref : Type 0} (b : ReconcileBuilder S Ref) (client : Client S Ref) where
  -- The object as the server stores it: with an identity and a version of its own.
  abbrev pub stored : Object S Ref → String → String → ℕ → Object S Ref
  stored obj uid resource_version generation = record obj {
    uid = uid;
    resource_version = resource_version;
    generation = generation;
  }

  -- An update function that only replaces the content, and twice as well as once.
  pub record IsContentUpdate : Type 0 where
    pub content_update : S → S → S
    pub only_content :
        (e o : Object S Ref)
        → b.update_func e o ≡ record o { content = content_update e.content o.content }
    pub twice : (s t : S) → content_update s (content_update s t) ≡ content_update s t

  -- The expected labels, annotations and owner, with the updated content.
  abbrev up_to_date : IsContentUpdate → Object S Ref → Object S Ref → Object S Ref
  up_to_date u resource f = record f {
    owner_references = resource.owner_references;
    labels = update_map resource.labels f.labels;
    annotations = update_map resource.annotations f.annotations;
    content = u.content_update resource.content f.content;
  }

  mutate_fn-up_to_date :
      (cache : VersionCache) (resource f : Object S Ref) (u : IsContentUpdate)
      → f.deleting ≡ false
      → (b.always_call_update_func || not (version_cache_contains cache f)) ≡ true
      → mutate_fn b client cache resource f ≡ up_to_date u resource f
  unfolding mutate_fn version_cache_contains
  mutate_fn-up_to_date cache resource f u d c =
      let changed = record f {
        owner_references = resource.owner_references;
        labels = update_map resource.labels f.labels;
        annotations = update_map resource.annotations f.annotations;
      } in
      ground (arith, u.only_content resource changed)

  mutate_fn_same :
      (cache : VersionCache) (resource g : Object S Ref) (u : IsContentUpdate)
      → update_map resource.labels g.labels ≡ g.labels
      → update_map resource.annotations g.annotations ≡ g.annotations
      → g.owner_references ≡ resource.owner_references
      → u.content_update resource.content g.content ≡ g.content
      → mutate_fn b client cache resource g ≡ g
  unfolding mutate_fn
  mutate_fn_same cache resource g u l a o c = ground (arith, u.only_content resource g)

  -- Let `g` be the object that an earlier `Reconcile` made of an object `f` that was not being deleted,
  -- having called the update function, as the server has stored it. Where `g` is found again, `Reconcile`
  -- succeeds, reports it as unchanged, adds it to the version cache and sends no request that changes the
  -- cluster, whatever the cache holds. The update function only replaces the content, and twice as well as
  -- once; the expected labels and annotations are maps; and `g` is semantically equal to itself.
  pub reconcile_twice :
      (owners : Owners S Ref) (cache cache' : VersionCache) (resource f : Object S Ref)
      (uid rv : String) (generation : ℕ)
      → IsContentUpdate
      → set_owner owners (labelled b client b.resource) b.is_cluster_resource ≡ inr resource
      → IsMap resource.labels
      → IsMap resource.annotations
      → f.deleting ≡ false
      → (b.always_call_update_func || not (version_cache_contains cache f)) ≡ true
      → let g = stored (mutate_fn b client cache resource f) uid rv generation in
        client.get (record b.empty { name = resource.name; namespace = resource.namespace })
          ≡ found g
        → b.semantic_equal g g ≡ true
        → reconcile b client owners cache' ≡ (
          inr (record {
            status = b.status_func g;
            initial_resource = some g;
            resource = resource;
            operation_result = unchanged;
          }),
          version_cache_add cache' g,
          [],
        )
  unfolding reconcile create_or_update_with_immutable_spec mutate same_key write_existing finish
  reconcile_twice owners cache cache' resource f uid rv generation u o ml ma d c h s =
      let obj = mutate_fn b client cache resource f in
      let g = stored obj uid rv generation in
      let e = mutate_fn-up_to_date cache resource f u d c in
      let again =
        mutate_fn_same cache' resource g u (rw e (update_map_twice resource.labels f.labels ml))
          (rw e (update_map_twice resource.annotations f.annotations ma)) (rw e refl)
          (rw e (u.twice resource.content f.content)) in
      let kept : obj.deleting ≡ false = rw e d in ground (arith, o, again, kept, h, s)

  -- An object that is found while it is being deleted: `Reconcile` succeeds, reports that it is being
  -- deleted, takes it out of the version cache and sends no request that changes the cluster. It is
  -- semantically equal to itself.
  pub reconcile_deleting :
      (owners : Owners S Ref) (cache : VersionCache) (resource f : Object S Ref)
      → set_owner owners (labelled b client b.resource) b.is_cluster_resource ≡ inr resource
      → client.get (record b.empty { name = resource.name; namespace = resource.namespace })
        ≡ found f
      → f.deleting ≡ true
      → b.semantic_equal f f ≡ true
      → reconcile b client owners cache
        ≡ (inr (resource_deleted_result resource unchanged), version_cache_remove cache f, [])
  unfolding reconcile create_or_update_with_immutable_spec mutate mutate_fn same_key write_existing
      finish
  reconcile_deleting owners cache resource f o h d s = ground (arith, o, h, s)

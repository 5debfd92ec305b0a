-- ===== src/Resources/VersionCache.antt =====
-- internal/common/cache.go: the versions of the objects that the operator has reconciled.
use Prim.Native.Nat.{ℕ}
use ssp_operator.Base.{
  String, ◌≡◌, arith, Bool, false, ◌&&◌, not, none, some, Eq, ◌==◌, string_eq, if◌then◌else◌,
}
use ssp_operator.Base.Dict.{Dict, lookup, insert, delete, lookup-insert, lookup-delete}
use ssp_operator.Base.Equality.{nat_eq}
use ssp_operator.Resources.{Object}

pub record CacheKey : Type 0 where
  pub kind : String
  pub name : String
  pub namespace : String

pub record CacheValue : Type 0 where
  pub uid : String
  pub resource_version : String
  pub generation : ℕ

CacheKey-discrete : Discrete CacheKey
CacheKey-discrete a b = elim (string_eq.dec a.kind b.kind) [
  | no n ↦ no (λ p. ground arith)
  | yes p ↦ elim (string_eq.dec a.name b.name) [
    | no n ↦ no (λ p'. ground arith)
    | yes q ↦ elim (string_eq.dec a.namespace b.namespace) [
      | no n ↦ no (λ p'. ground arith)
      | yes r ↦ yes (ground (arith, p, q, r))
    ]
  ]
]

instance unfoldable pub cache_key_eq : Eq CacheKey
unfolding CacheKey-discrete
cache_key_eq = record { dec = CacheKey-discrete }

abbrev pub VersionCache : Type 0
VersionCache = Dict CacheKey CacheValue

abbrev pub cache_key_from_obj : {S Ref : Type 0} → Object S Ref → CacheKey
cache_key_from_obj obj = record { kind = obj.kind; name = obj.name; namespace = obj.namespace }

module _ {S Ref : Type 0} where
  unfoldable pub version_cache_contains : VersionCache → Object S Ref → Bool
  version_cache_contains v obj = elim (lookup (cache_key_from_obj obj) v) [
    | none ↦ false
    | some cached ↦
        if not (obj.uid == cached.uid)
        then false
        else if obj.generation == 0
        then not (obj.resource_version == "") && obj.resource_version == cached.resource_version
        else cached.generation == obj.generation
  ]

  unfoldable pub version_cache_add : VersionCache → Object S Ref → VersionCache
  version_cache_add v obj =
      if obj.kind == ""
      then v
      else insert (cache_key_from_obj obj)
          (record {
            uid = obj.uid;
            resource_version = obj.resource_version;
            generation = obj.generation;
          })
          v

  unfoldable pub version_cache_remove : VersionCache → Object S Ref → VersionCache
  version_cache_remove v obj = delete (cache_key_from_obj obj) v

  -- Whether an object is at the version of another one of the same key: by the generation, or by the
  -- resource version where there is no generation.
  abbrev pub is_same_version : Object S Ref → Object S Ref → Bool
  is_same_version obj cached =
      obj.uid == cached.uid
      && (if obj.generation == 0
          then not (obj.resource_version == "") && obj.resource_version == cached.resource_version
          else cached.generation == obj.generation)

  -- After an object of a known kind is added, the cache contains exactly the objects of its key that
  -- are at its version, and, of the others, those that it contained before.
  pub version_cache_contains-add :
      (v : VersionCache) (cached obj : Object S Ref)
      → (cached.kind == "") ≡ false
      → version_cache_contains (version_cache_add v cached) obj ≡ (
          if cache_key_from_obj obj == cache_key_from_obj cached
          then is_same_version obj cached
          else version_cache_contains v obj)
  unfolding version_cache_contains version_cache_add
  version_cache_contains-add v cached obj h =
      let value : CacheValue = record {
        uid = cached.uid;
        resource_version = cached.resource_version;
        generation = cached.generation;
      } in
      ground (arith, lookup-insert (cache_key_from_obj obj) (cache_key_from_obj cached) value v)

  pub version_cache_contains-remove :
      (v : VersionCache) (removed obj : Object S Ref)
      → version_cache_contains (version_cache_remove v removed) obj ≡ (
          if cache_key_from_obj obj == cache_key_from_obj removed
          then false
          else version_cache_contains v obj)
  unfolding version_cache_contains version_cache_remove
  version_cache_contains-remove v removed obj =
      ground (arith, lookup-delete (cache_key_from_obj obj) (cache_key_from_obj removed) v)

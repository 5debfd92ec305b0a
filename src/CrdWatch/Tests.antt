-- ===== src/CrdWatch/Tests.antt =====
-- Runs of a watch, and its theorems at concrete data.
use mathlib.Core.Bool.{false≢true}
use text.Mathlib.TextEquality.{eq_iff}
use ssp_operator.Base.{
  String, ◌≡◌, ◌≢◌, arith, refl, true, ◌&&◌, not, some, List, [], ◌∷◌, contains, string_eq,
  if◌then◌else◌,
}
use ssp_operator.Base.Dict.{remove}
use ssp_operator.CrdWatch.{
  CrdWatch, Call, all_crds_added, some_crd_removed, new_crd_watch, crd_added, crd_deleted, sync,
  init, crd_exists,
}
use ssp_operator.CrdWatch.Handlers.{IsConsistent, is_empty, crd_added_lem, crd_deleted_lem}
use ssp_operator.CrdWatch.Sync.{sync_lem, init-new_crd_watch}

-- One of two required definitions exists.
abbrev half : CrdWatch
half = record {
  all_crds_added_handler = true;
  some_crd_removed_handler = true;
  required_crds = "a" ∷ "b" ∷ [];
  existing_crds = "a" ∷ [];
  missing_crds = "b" ∷ [];
  initialized = true;
}

names_differ : ◌≢◌ {A = String} "a" "b"
names_differ p = false≢true ((eq_iff "a" "b").1 p)

half-IsConsistent : IsConsistent half
half-IsConsistent = record { missing = λ n. ground (arith, names_differ); distinct = (refl, tt) }

called : (crd_added half "b").1 ≡ all_crds_added ∷ []
unfolding crd_added remove string_eq
called = refl

crd_added_lem_example :
    let (c', calls) = crd_added half "b" in
    IsConsistent c'
    × (calls ≡ (
        if not (is_empty half.missing_crds) && is_empty c'.missing_crds
        then all_crds_added ∷ []
        else []))
crd_added_lem_example = crd_added_lem half "b" half-IsConsistent refl refl

crd_deleted_lem_example :
    let (c', calls) = crd_deleted half "a" in
    IsConsistent c'
    × (calls ≡ (
        if is_empty half.missing_crds && not (is_empty c'.missing_crds)
        then some_crd_removed ∷ []
        else []))
crd_deleted_lem_example = crd_deleted_lem half "a" half-IsConsistent refl refl

sync_lem_example :
    (c' : CrdWatch) × (calls : List Call) × (sync half (some ("b" ∷ [])) ≡ some (c', calls))
    × IsConsistent c'
    × (contains c'.existing_crds "b" ≡ contains {A = String} ("b" ∷ []) "b")
    × (contains c'.missing_crds "b"
        ≡ (contains half.required_crds "b" && not (contains {A = String} ("b" ∷ []) "b")))
sync_lem_example = sync_lem half ("b" ∷ []) "b" half-IsConsistent

init-new_crd_watch_example :
    (c : CrdWatch) × (init (new_crd_watch true true ("a" ∷ "b" ∷ [])) (some ("b" ∷ "z" ∷ []))
      ≡ some (c, []))
    × (crd_exists c "a" ≡ some (contains {A = String} ("b" ∷ "z" ∷ []) "a"))
    × (contains c.missing_crds "a" ≡ (
        contains {A = String} ("a" ∷ "b" ∷ []) "a"
        && not (contains {A = String} ("b" ∷ "z" ∷ []) "a")))
init-new_crd_watch_example = init-new_crd_watch true true ("a" ∷ "b" ∷ []) ("b" ∷ "z" ∷ []) "a"

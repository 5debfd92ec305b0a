-- ===== src/Base/Dict.antt =====
-- Go maps as association lists, and `map[K]struct{}` as lists without repetition. The order of a
-- list stands for the order in which a `range` over the map happens to run. A nil map is the empty
-- one: both read alike, and the code makes a map before it writes to a nil one.
use mathlib.Core.Bool.{true, false}
use mathlib.Core.List.{List, [], ◌∷◌, map}
use mathlib.Core.Logic.{◌≢◌}
use mathlib.Core.Option.{Option, none, some}
use mathlib.Core.Path.{◌≡◌, refl}
use native.Mathlib.Omega.{arith}
use ssp_operator.Base.Equality.{Eq, ◌==◌, contains, if◌then◌else◌}

abbrev pub Dict {ℓ κ} : Type ℓ → Type κ → Type (ℓ ⊔ κ)
Dict K V = List (K × V)

unfoldable pub keys {ℓ κ} : {K : Type ℓ} {V : Type κ} → Dict K V → List K
keys = map (λ (k, _). k)

module _ {ℓ κ} {K : Type ℓ} {V : Type κ} ⦃e : Eq K⦄ where
  -- `v, ok := d[k]`
  unfoldable pub lookup : K → Dict K V → Option V
  lookup k [] = none
  lookup k ((j, v) ∷ d) = let rest = lookup k d in if k == j then some v else rest

  -- `d[k]`, which is the zero value of the type where the key is missing
  abbrev pub lookup_or : V → K → Dict K V → V
  lookup_or zero k d = elim (lookup k d) [ none ↦ zero | some v ↦ v ]

  -- `d[k] = v`
  unfoldable pub insert : K → V → Dict K V → Dict K V
  insert k v [] = (k, v) ∷ []
  insert k v ((j, w) ∷ d) = let rest = insert k v d in if k == j then (k, v) ∷ d else (j, w) ∷ rest

  -- `delete(d, k)`
  unfoldable pub delete : K → Dict K V → Dict K V
  delete k [] = []
  delete k ((j, w) ∷ d) = let rest = delete k d in if k == j then rest else (j, w) ∷ rest

  pub lookup-nil : (k : K) → lookup k [] ≡ none
  unfolding lookup
  lookup-nil k = refl

  pub lookup-insert :
      (j k : K) (v : V) (d : Dict K V)
      → lookup j (insert k v d) ≡ (if j == k then some v else lookup j d)
  unfolding insert lookup
  lookup-insert j k v [] = ground arith
  lookup-insert j k v (_ ∷ d) = ground (arith, lookup-insert j k v d)

  pub lookup-delete :
      (j k : K) (d : Dict K V) → lookup j (delete k d) ≡ (if j == k then none else lookup j d)
  unfolding delete lookup
  lookup-delete j k [] = ground arith
  lookup-delete j k (_ ∷ d) = ground (arith, lookup-delete j k d)

module _ {ℓ} {A : Type ℓ} ⦃e : Eq A⦄ where
  -- `s[a] = struct{}{}`
  unfoldable pub add : A → List A → List A
  add a [] = a ∷ []
  add a (x ∷ s) = let rest = add a s in if a == x then x ∷ s else x ∷ rest

  -- `delete(s, a)`
  unfoldable pub remove : A → List A → List A
  remove a [] = []
  remove a (x ∷ s) = let rest = remove a s in if a == x then rest else x ∷ rest

  pub contains-add :
      (b a : A) (s : List A) → contains (add a s) b ≡ (if b == a then true else contains s b)
  unfolding add
  contains-add b a [] = ground arith
  contains-add b a (_ ∷ s) = ground (arith, contains-add b a s)

  pub contains-remove :
      (b a : A) (s : List A) → contains (remove a s) b ≡ (if b == a then false else contains s b)
  unfolding remove
  contains-remove b a [] = ground arith
  contains-remove b a (_ ∷ s) = ground (arith, contains-remove b a s)

  pub add-ne-nil : (a : A) (s : List A) → add a s ≢ []
  unfolding add
  add-ne-nil a [] h = ground arith
  add-ne-nil a (_ ∷ s) h = ground arith

-- ===== src/Base/Keyed.antt =====
-- Maps whose values name their keys.
use mathlib.Core.List.{[], ◌∷◌}
use mathlib.Core.Logic.{inl, inr}
use mathlib.Core.Option.{none}
use mathlib.Core.Path.{◌≡◌, refl}
use native.Mathlib.Omega.{arith}
use ssp_operator.Base.Cases.{Bool-cases}
use ssp_operator.Base.Dict.{Dict, lookup, insert, delete, lookup-insert, lookup-delete}
use ssp_operator.Base.Equality.{Eq, ◌==◌}

module _ {K V : Type 0} ⦃e : Eq K⦄ (key_of : V → K) where
  -- Every key once, with a value of that key.
  abbrev pub Keyed : Dict K V → Type 0
  Keyed [] = Unit
  Keyed ((key, v) ∷ d) = (key_of v ≡ key) × (lookup key d ≡ none) × Keyed d

  pub insert-Keyed : (v : V) (d : Dict K V) → Keyed d → Keyed (insert (key_of v) v d)
  unfolding insert lookup
  insert-Keyed v [] k = (refl, refl, tt)
  insert-Keyed v ((key, u) ∷ d) (p, n, k) = elim (Bool-cases (key_of v == key)) [
    | inl e ↦ rw e (refl, ground (arith, e, n), k)
    | inr e ↦ rw e (p, ground (arith, e, n, lookup-insert key (key_of v) v d), insert-Keyed v d k)
  ]

  pub delete-Keyed : (key : K) (d : Dict K V) → Keyed d → Keyed (delete key d)
  unfolding delete
  delete-Keyed key [] k = tt
  delete-Keyed key ((other, u) ∷ d) (p, n, k) = elim (Bool-cases (key == other)) [
    | inl e ↦ rw e (delete-Keyed key d k)
    | inr e ↦ rw e (p, ground (arith, n, lookup-delete other key d), delete-Keyed key d k)
  ]

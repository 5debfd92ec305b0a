-- ===== src/Architecture/Distinct.antt =====
-- The loop of `concatWithoutRepetitions` against the list of first occurrences.
use ssp_operator.Architecture.{Seen, see, see_slice, see_slices, concat_without_repetitions}
use ssp_operator.Base.{
  ◌≡◌, refl, sym, ◌∙◌, ap, true, List, [], ◌∷◌, ◌++◌, arith, Eq, contains, if◌then◌else◌,
}
use ssp_operator.Base.Dict.{add, remove, contains-add}

module _ {ℓ} {T : Type ℓ} ⦃e : Eq T⦄ where
  -- The elements of a list, each where it stands first.
  unfoldable pub first_occurrences : List T → List T
  first_occurrences [] = []
  first_occurrences (x ∷ xs) = x ∷ remove x (first_occurrences xs)

  abbrev pub concat : List (List T) → List T
  concat [] = []
  concat (xs ∷ xss) = xs ++ concat xss

  without : List T → List T → List T
  without set [] = []
  without set (x ∷ xs) = let rest = without set xs in if contains set x then rest else x ∷ rest

  without-nil : (xs : List T) → without [] xs ≡ xs
  unfolding without
  without-nil [] = refl
  without-nil (x ∷ xs) = ground (arith, without-nil xs)

  without-add :
      (set : List T) (x : T) (xs : List T) → without (add x set) xs ≡ without set (remove x xs)
  unfolding without remove
  without-add set x [] = refl
  without-add set x (y ∷ xs) = ground (arith, without-add set x xs, contains-add y x set)

  without-remove :
      (set : List T) (x : T) (xs : List T)
      → contains set x ≡ true
      → without set (remove x xs) ≡ without set xs
  unfolding without remove
  without-remove set x [] h = refl
  without-remove set x (y ∷ xs) h = ground (arith, without-remove set x xs h)

  append_assoc : (xs ys zs : List T) → (xs ++ ys) ++ zs ≡ xs ++ (ys ++ zs)
  append_assoc [] ys zs = refl
  append_assoc (x ∷ xs) ys zs = ap (λ l. x ∷ l) (append_assoc xs ys zs)

  pub app-nil : (xs : List T) → xs ++ [] ≡ xs
  app-nil [] = refl
  app-nil (x ∷ xs) = ap (λ l. x ∷ l) (app-nil xs)

  result-see_slice :
      (s : Seen T) (vals : List T)
      → (see_slice s vals).result ≡ s.result ++ without s.set (first_occurrences vals)
  unfolding see_slice see first_occurrences without
  result-see_slice s [] = sym (app-nil s.result)
  result-see_slice s (val ∷ vals) = ground (
    arith,
    result-see_slice (see s val) vals,
    without-add s.set val (first_occurrences vals),
    without-remove s.set val (first_occurrences vals),
    append_assoc s.result (val ∷ []) (without s.set (remove val (first_occurrences vals))),
  )

  see_slice-append :
      (s : Seen T) (xs ys : List T) → see_slice s (xs ++ ys) ≡ see_slice (see_slice s xs) ys
  unfolding see_slice
  see_slice-append s [] ys = refl
  see_slice-append s (x ∷ xs) ys = see_slice-append (see s x) xs ys

  see_slices-concat :
      (s : Seen T) (slices : List (List T)) → see_slices s slices ≡ see_slice s (concat slices)
  unfolding see_slices see_slice
  see_slices-concat s [] = refl
  see_slices-concat s (slice ∷ slices) =
      see_slices-concat (see_slice s slice) slices ∙ sym (see_slice-append s slice (concat slices))

  -- The loop with a set yields the elements of all slices in order, each where it stands first.
  pub concat_without_repetitions-first_occurrences :
      (slices : List (List T))
      → concat_without_repetitions slices ≡ first_occurrences (concat slices)
  unfolding concat_without_repetitions
  concat_without_repetitions-first_occurrences slices = ground (
    arith,
    see_slices-concat (record { result = []; set = [] }) slices,
    result-see_slice (record { result = []; set = [] }) (concat slices),
    without-nil (first_occurrences (concat slices)),
  )

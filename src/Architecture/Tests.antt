-- ===== src/Architecture/Tests.antt =====
-- Two lists of architectures with a name in both.
use ssp_operator.Architecture.{concat_without_repetitions}
use ssp_operator.Architecture.Distinct.{
  first_occurrences, concat, concat_without_repetitions-first_occurrences,
}
use ssp_operator.Base.{String, ◌≡◌, [], ◌∷◌, string_eq}

concat_without_repetitions-first_occurrences_example :
    concat_without_repetitions {T = String}
      (("amd64" ∷ "arm64" ∷ []) ∷ ("arm64" ∷ "s390x" ∷ []) ∷ [])
    ≡ first_occurrences (concat (("amd64" ∷ "arm64" ∷ []) ∷ ("arm64" ∷ "s390x" ∷ []) ∷ []))
concat_without_repetitions-first_occurrences_example =
    concat_without_repetitions-first_occurrences
      (("amd64" ∷ "arm64" ∷ []) ∷ ("arm64" ∷ "s390x" ∷ []) ∷ [])

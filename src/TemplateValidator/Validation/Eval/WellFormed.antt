-- ===== src/TemplateValidator/Validation/Eval/WellFormed.antt =====
-- Malformed rules fail the evaluation.
use ssp_operator.Base.{
  String, ◌≡◌, refl, true, false, none, List, [], ◌∷◌, map, arith, contains, string_eq, Bool-cases,
  inl, inr,
}
use ssp_operator.Base.Dict.{add, contains-add}
use ssp_operator.TemplateValidator.Validation.Path.{Error, Library, duplicate_rule_name}
use ssp_operator.TemplateValidator.Validation.Rules.{Rule}
use ssp_operator.TemplateValidator.Validation.Eval.{
  Result, empty_result, fail, skip, applied, succeeded, validate_rule, evaluate_rule, evaluate_loop,
  evaluate,
}

-- No two rules have one name, and each has a known type and a message.
abbrev pub AreWellFormed : List Rule → Type 0
AreWellFormed [] = Unit
AreWellFormed (r ∷ rules) =
    (contains (map (λ s. s.name) rules) r.name ≡ false)
    × (validate_rule r ≡ none)
    × AreWellFormed rules

-- The names are new when the loop comes to them.
abbrev AreNew : List String → List Rule → Type 0
AreNew names [] = Unit
AreNew names (r ∷ rules) =
    (contains names r.name ≡ false) × (validate_rule r ≡ none) × AreNew (add r.name names) rules

absent_of_new :
    (rules : List Rule) (names : List String) (n : String)
    → AreNew names rules
    → contains names n ≡ true
    → contains (map (λ s. s.name) rules) n ≡ false
absent_of_new [] names n new m = refl
absent_of_new (r ∷ rules) names n new m =
    ground (arith, contains-add n r.name names, absent_of_new rules (add r.name names) n new.2)

AreNew-AreWellFormed :
    (rules : List Rule) (names : List String) → AreNew names rules → AreWellFormed rules
AreNew-AreWellFormed [] names new = tt
AreNew-AreWellFormed (r ∷ rules) names new = (
  absent_of_new rules (add r.name names) r.name new.2 (rw contains-add (ground arith)),
  new.1,
  AreNew-AreWellFormed rules (add r.name names) new.2,
)

failed-fail : (result : Result) (r : Rule) (e : Error) → (fail result r e).failed ≡ true
unfolding fail
failed-fail result r e = refl

module _ {V : Type 0} (lib : Library V) (vm ref_vm : V) where
  -- A failure is never taken back.
  evaluate_rule-failed :
      (result : Result) (r : Rule)
      → (evaluate_rule lib vm ref_vm result r).failed ≡ false
      → (result.failed ≡ false) × (validate_rule r ≡ none)
  unfolding evaluate_rule fail skip applied
  evaluate_rule-failed result r h = (ground arith, ground arith)

  evaluate_loop-AreNew :
      (rules : List Rule) (names : List String) (result : Result)
      → (evaluate_loop lib vm ref_vm names result rules).failed ≡ false
      → (result.failed ≡ false) × AreNew names rules
  unfolding evaluate_loop
  evaluate_loop-AreNew [] names result h = (h, tt)
  evaluate_loop-AreNew (r ∷ rules) names result h = elim (Bool-cases (contains names r.name)) [
    | inl seen ↦
        let rest =
          evaluate_loop-AreNew rules names (fail result r duplicate_rule_name)
            (rw (seen, evaluate_loop) at h) in
        cc (rest.0, failed-fail result r duplicate_rule_name)
    | inr new ↦
        let rest =
          evaluate_loop-AreNew rules (add r.name names) (evaluate_rule lib vm ref_vm result r)
            (rw (new, evaluate_loop) at h) in
        let one = evaluate_rule-failed result r rest.0 in (one.0, (new, one.1, rest.1))
  ]

  -- If the evaluation of rules succeeds, then the rules have distinct names, known types and messages.
  pub evaluate-AreWellFormed :
      (rules : List Rule) → succeeded (evaluate lib vm ref_vm rules) ≡ true → AreWellFormed rules
  unfolding evaluate succeeded
  evaluate-AreWellFormed rules h =
      AreNew-AreWellFormed rules [] (evaluate_loop-AreNew rules [] empty_result (ground arith)).1

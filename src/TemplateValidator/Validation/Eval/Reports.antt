-- ===== src/TemplateValidator/Validation/Eval/Reports.antt =====
-- What the reports of `Evaluate` say: one for each rule, the outcome, and the causes.
use mathlib.Core.List.{append_assoc, append-nil}
use ssp_operator.Base.{
  String, ◌<>◌, ◌≡◌, ◌≢◌, ◌↔◌, refl, sym, ap, ◌∙◌, Bool-cases, Option-cases, inl, inr, Bool, true,
  false, ◌&&◌, ◌||◌, not, none, some, List, [], ◌∷◌, ◌++◌, map, arith, contains, string_eq,
  if◌then◌else◌,
}
use ssp_operator.Base.Dict.{add}
use ssp_operator.TemplateValidator.Validation.Path.{
  Error, Library, Fallible-cases, duplicate_rule_name,
}
use ssp_operator.TemplateValidator.Validation.Rules.{Rule, is_appliable_on}
use ssp_operator.TemplateValidator.Validation.Specialized.{specialize, apply}
use ssp_operator.TemplateValidator.Validation.Messages.{applier_string}
use ssp_operator.TemplateValidator.Validation.Eval.{
  ValidationReport, StatusCause, Result, validate_rule, empty_result, fail, skip, applied,
  succeeded, needs_cause, causes_of, to_status_causes, evaluate_rule, evaluate_loop, evaluate,
}

-- A report stands in the way: an internal error, or an unsatisfied rule that is not a mere warning.
abbrev pub blocks : ValidationReport → Bool
blocks rr = elim rr.error [
  | some e ↦ true
  | none ↦ not rr.skipped && not rr.satisfied && not rr.ref.just_warning
]

abbrev pub any_blocks : List ValidationReport → Bool
any_blocks [] = false
any_blocks (rr ∷ status) = blocks rr || any_blocks status

any_blocks-append :
    (xs : List ValidationReport) (rr : ValidationReport)
    → any_blocks (xs ++ rr ∷ []) ≡ (any_blocks xs || blocks rr)
any_blocks-append [] rr = ground arith
any_blocks-append (x ∷ xs) rr = ground (arith, any_blocks-append xs rr)

-- What one rule adds to the result.
record IsReported (before after : Result) (r : Rule) : Type 0 where
  report : ValidationReport
  status : after.status ≡ before.status ++ report ∷ []
  about : report.ref ≡ r
  outcome : after.failed ≡ (before.failed || blocks report)

fail-IsReported : (result : Result) (r : Rule) (e : Error) → IsReported result (fail result r e) r
unfolding fail
fail-IsReported result r e = record {
  report = record { ref = r; skipped = false; satisfied = false; message = ""; error = some e };
  status = refl;
  about = refl;
  outcome = ground arith;
}

skip-IsReported : (result : Result) (r : Rule) → IsReported result (skip result r) r
unfolding skip
skip-IsReported result r = record {
  report = record { ref = r; skipped = true; satisfied = false; message = ""; error = none };
  status = refl;
  about = refl;
  outcome = ground arith;
}

applied-IsReported :
    (result : Result) (r : Rule) (satisfied : Bool) (message : String)
    → IsReported result (applied result r satisfied message) r
unfolding applied
applied-IsReported result r satisfied message = record {
  report = record {
    ref = r;
    skipped = false;
    satisfied = satisfied;
    message = message;
    error = none;
  };
  status = refl;
  about = refl;
  outcome = ground arith;
}

module _ {V : Type 0} (lib : Library V) (vm ref_vm : V) where
  evaluate_rule-IsReported :
      (result : Result) (r : Rule) → IsReported result (evaluate_rule lib vm ref_vm result r) r
  unfolding evaluate_rule
  evaluate_rule-IsReported result r = elim (Option-cases (validate_rule r)) [
    | inr (e, invalid) ↦ rw (invalid, evaluate_rule) (fail-IsReported result r e)
    | inl valid ↦
        rw (valid, evaluate_rule)
          (elim (Bool-cases (is_appliable_on lib r vm)) [
            | inr skipped ↦ rw skipped (skip-IsReported result r)
            | inl applies ↦ rw applies (elim (Fallible-cases (specialize lib r vm ref_vm)) [
              | inr (e, failed) ↦ rw failed (fail-IsReported result r e)
              | inl (ra, special) ↦ rw special (elim (Fallible-cases (apply lib ra vm ref_vm)) [
                | inr (e, failed) ↦ rw failed (fail-IsReported result r e)
                | inl ((ra', satisfied), done) ↦
                    rw done (applied-IsReported result r satisfied (applier_string lib ra'))
              ])
            ])
          ])
  ]

  -- The loop appends one report for each rule, in order, and fails if it had failed or one blocks.
  record IsRun (before after : Result) (rules : List Rule) : Type 0 where
    reports : List ValidationReport
    appended : after.status ≡ before.status ++ reports
    about_rules : map (λ rr. rr.ref) reports ≡ rules
    loop_outcome : after.failed ≡ (before.failed || any_blocks reports)

  evaluate_loop-IsRun :
      (rules : List Rule) (names : List String) (result : Result)
      → IsRun result (evaluate_loop lib vm ref_vm names result rules) rules
  unfolding evaluate_loop
  evaluate_loop-IsRun [] names result = record {
    reports = [];
    appended = sym (append-nil result.status);
    about_rules = refl;
    loop_outcome = ground arith;
  }
  evaluate_loop-IsRun (r ∷ rules) names result =
      let seen = contains names r.name in
      let next =
        if seen then fail result r duplicate_rule_name else evaluate_rule lib vm ref_vm result r in
      let names' = if seen then names else add r.name names in
      let one : IsReported result next r = elim (Bool-cases seen) [
        | inl e ↦ rw e (fail-IsReported result r duplicate_rule_name)
        | inr e ↦ rw e (evaluate_rule-IsReported result r)
      ] in
      let rest : IsRun next (evaluate_loop lib vm ref_vm names' next rules) rules =
        evaluate_loop-IsRun rules names' next in
      record {
        reports = one.report ∷ rest.reports;
        appended =
            rest.appended
            ∙ ap (λ l. l ++ rest.reports) one.status
            ∙ append_assoc result.status (one.report ∷ []) rest.reports;
        about_rules = cc (one.about, rest.about_rules);
        loop_outcome = ground (arith, one.outcome, rest.loop_outcome);
      }

  -- `Evaluate` reports on every rule once, in the order of the rules, and succeeds exactly if no report
  -- blocks: none has an internal error, and each that was applied is satisfied or a mere warning.
  pub evaluate-any_blocks :
      (rules : List Rule)
      → let result = evaluate lib vm ref_vm rules in
        (map (λ rr. rr.ref) result.status ≡ rules)
        × (succeeded result ≡ not (any_blocks result.status))
  unfolding evaluate succeeded
  evaluate-any_blocks rules =
      let run = evaluate_loop-IsRun rules [] empty_result in
      (ap (map (λ rr. rr.ref)) run.appended ∙ run.about_rules, cc (run.loop_outcome, run.appended))

-- A report that blocks needs a cause.
causes_of-ne-nil :
    (error_message : Error → String) (status : List ValidationReport)
    → any_blocks status ≡ true
    → causes_of error_message status ≢ []
unfolding causes_of needs_cause
causes_of-ne-nil error_message [] h = ground arith
causes_of-ne-nil error_message (rr ∷ status) h =
    ground (arith, causes_of-ne-nil error_message status)

-- A report has something to tell: an internal error, or a rule that was applied and is not satisfied.
abbrev pub is_told : ValidationReport → Bool
is_told rr = elim rr.error [ some e ↦ true | none ↦ not (rr.skipped || rr.satisfied) ]

-- The cause of a report: the path of its rule, the rule's message, and the error or the report's message.
abbrev pub cause_of : (Error → String) → ValidationReport → StatusCause
cause_of error_message rr = record {
  field = rr.ref.path.expr;
  message =
      rr.ref.message <> (": " <> (elim rr.error [ some e ↦ error_message e | none ↦ rr.message ]));
}

abbrev pub told : List ValidationReport → List ValidationReport
told [] = []
told (rr ∷ status) = if is_told rr then rr ∷ told status else told status

causes_of_lem :
    (error_message : Error → String) (status : List ValidationReport)
    → causes_of error_message status ≡ map (cause_of error_message) (told status)
unfolding causes_of needs_cause
causes_of_lem error_message [] = refl
causes_of_lem error_message (rr ∷ status) =
    let rest = causes_of_lem error_message status in
    elim (Option-cases rr.error) [
      | inr (e, p) ↦ ground (arith, rest, p)
      | inl p ↦ ground (arith, rest, p)
    ]

-- The reports that block, of a list.
abbrev pub blocking : List ValidationReport → List ValidationReport
blocking [] = []
blocking (rr ∷ status) = if blocks rr then rr ∷ blocking status else blocking status

blocks-is_told : (rr : ValidationReport) → blocks rr ≡ true → is_told rr ≡ true
blocks-is_told rr h = elim (Option-cases rr.error) [
  | inr (e, p) ↦ ground (arith, p)
  | inl p ↦ ground (arith, p)
]

blocking-told : (status : List ValidationReport) → blocking (told status) ≡ blocking status
blocking-told [] = refl
blocking-told (rr ∷ status) =
    let rest = blocking-told status in
    elim (Bool-cases (blocks rr)) [
      | inl b ↦ ground (arith, b, blocks-is_told rr b, rest)
      | inr b ↦ elim (Bool-cases (is_told rr)) [
        | inl t ↦ ground (arith, b, t, rest)
        | inr t ↦ ground (arith, b, t, rest)
      ]
    ]

-- The evaluation of rules gives no status causes exactly if it succeeds. If it fails, then the causes
-- are those of all the reports with an internal error or of an applied rule that is not satisfied, in
-- the order of the rules: each has the path of its rule, and the rule's message with the error or the
-- report's message. The reports that block are all among these.
pub to_status_causes-evaluate :
    {V : Type 0} (lib : Library V) (vm ref_vm : V) (error_message : Error → String)
    (rules : List Rule)
    → let result = evaluate lib vm ref_vm rules in
      let causes = to_status_causes error_message result in
      ((causes ≡ []) ↔ (succeeded result ≡ true))
      × (causes
          ≡ (if succeeded result then [] else map (cause_of error_message) (told result.status)))
      × (blocking (told result.status) ≡ blocking result.status)
unfolding to_status_causes
to_status_causes-evaluate lib vm ref_vm error_message rules =
    let e = evaluate-any_blocks lib vm ref_vm rules in
    let result = evaluate lib vm ref_vm rules in
    let causes = causes_of-ne-nil error_message result.status in
    (
      (
        λ h. unfold succeeded in ground (arith, e.1, causes),
        λ h. unfold succeeded in ground (arith),
      ),
      unfold succeeded in ground (arith, causes_of_lem error_message result.status),
      blocking-told result.status,
    )

-- ===== src/TemplateValidator/Validation/Eval/Kinds.antt =====
-- What integer and enum rules mean, through the whole of `Evaluate`.
use mathlib.Core.Bool.{false≢true}
use text.Mathlib.TextEquality.{eq_iff}
use ssp_operator.Base.{
  String, ◌≡◌, ◌≢◌, ◌↔◌, refl, sym, ◌∙◌, map, true, false, none, some, List, [], ◌∷◌, arith, All,
  contains, string_eq,
}
use ssp_operator.Base.Int.{ℤ, ◌≤ℤ◌}
use ssp_operator.TemplateValidator.Validation.Path.{
  Library, ok, int, find, as_int64, as_string, Results, str,
}
use ssp_operator.TemplateValidator.Validation.Rules.{
  Rule, rule_type_is_valid, is_appliable_on, integer_rule_type, enum_rule_type, string_rule_type,
}
use ssp_operator.TemplateValidator.Validation.Decode.{
  includes, decode_range, decode_int, decode_ints, find_path_on_vm_or_ref, decode_string,
  decode_strings,
}
use ssp_operator.TemplateValidator.Validation.Specialized.{
  includes_all, contains_only, specialize, new_int_rule, apply, apply_int, apply_enum,
  new_enum_rule, decode_values,
}
use ssp_operator.TemplateValidator.Validation.Eval.{
  evaluate, evaluate_loop, evaluate_rule, validate_rule, applied, succeeded,
}

abbrev pub Between : ℤ → ℤ → ℤ → Type 0
Between lo hi v = (lo ≤ℤ v) × (v ≤ℤ hi)

All-Between :
    (lo hi : ℤ) (vals : List ℤ)
    → (includes_all (record { min_set = true; min = lo; max_set = true; max = hi }) vals ≡ true)
      ↔ All (Between lo hi) vals
unfolding includes_all includes
All-Between lo hi [] = (λ h. tt, λ h. refl)
All-Between lo hi (v ∷ vals) = (
  λ h. (ground arith, (All-Between lo hi vals).0 (ground arith)),
  λ h. ground (arith, h.0, (All-Between lo hi vals).1 h.1),
)

contains_only_iff :
    (vals expected : List String)
    → (contains_only vals expected ≡ true) ↔ All (λ v. contains expected v ≡ true) vals
unfolding contains_only
contains_only_iff [] expected = (λ h. tt, λ h. refl)
contains_only_iff (v ∷ vals) expected = (
  λ h. (ground arith, (contains_only_iff vals expected).0 (ground arith)),
  λ h. ground (arith, h.0, (contains_only_iff vals expected).1 h.1),
)

enum-ne-integer : enum_rule_type ≢ integer_rule_type
enum-ne-integer p = false≢true ((eq_iff "enum" "integer").1 p)

enum-ne-string : enum_rule_type ≢ string_rule_type
enum-ne-string p = false≢true ((eq_iff "enum" "string").1 p)

module _ {V : Type 0} (lib : Library V) (vm ref_vm : V) where
  apply_integer :
      (r : Rule) (lo hi v : ℤ) (vals : List ℤ) (results : Results)
      → r.rule ≡ integer_rule_type
      → r.message ≢ ""
      → r.valid ≡ none
      → r.just_warning ≡ false
      → r.min ≡ some (int lo)
      → r.max ≡ some (int hi)
      → find lib r.path vm ≡ ok results
      → as_int64 results ≡ ok (v ∷ vals)
      → succeeded (evaluate lib vm ref_vm (r ∷ []))
        ≡ includes_all (record { min_set = true; min = lo; max_set = true; max = hi }) (v ∷ vals)
  unfolding evaluate evaluate_loop evaluate_rule validate_rule rule_type_is_valid is_appliable_on
      specialize new_int_rule decode_range decode_int apply apply_int decode_ints
      find_path_on_vm_or_ref applied succeeded
  apply_integer r lo hi v vals results h1 h2 h3 h4 h5 h6 h7 h8 = ground arith

  -- A rule of type integer, with a message, no `valid` path and bounds that are numbers, that is no
  -- mere warning and whose path finds at least one number in the object: the evaluation succeeds
  -- exactly if all the numbers lie between the bounds, both included.
  pub evaluate_integer_rule :
      (r : Rule) (lo hi v : ℤ) (vals : List ℤ) (results : Results)
      → r.rule ≡ integer_rule_type
      → r.message ≢ ""
      → r.valid ≡ none
      → r.just_warning ≡ false
      → r.min ≡ some (int lo)
      → r.max ≡ some (int hi)
      → find lib r.path vm ≡ ok results
      → as_int64 results ≡ ok (v ∷ vals)
      → (succeeded (evaluate lib vm ref_vm (r ∷ [])) ≡ true) ↔ All (Between lo hi) (v ∷ vals)
  evaluate_integer_rule r lo hi v vals results h1 h2 h3 h4 h5 h6 h7 h8 =
      let e = apply_integer r lo hi v vals results h1 h2 h3 h4 h5 h6 h7 h8 in
      let a = All-Between lo hi (v ∷ vals) in (λ h. a.0 (sym e ∙ h), λ h. e ∙ a.1 h)

  decode_values-str :
      (values : List String) → decode_values lib (map str values) vm ref_vm ≡ ok values
  unfolding decode_values decode_string
  decode_values-str [] = refl
  decode_values-str (s ∷ values) = ground (arith, decode_values-str values)

  apply_enum_values :
      (r : Rule) (values : List String) (v : String) (vals : List String) (results : Results)
      → r.rule ≡ enum_rule_type
      → r.message ≢ ""
      → r.valid ≡ none
      → r.just_warning ≡ false
      → r.values ≡ map str values
      → find lib r.path vm ≡ ok results
      → as_string results ≡ ok (v ∷ vals)
      → succeeded (evaluate lib vm ref_vm (r ∷ [])) ≡ contains_only (v ∷ vals) values
  unfolding evaluate evaluate_loop evaluate_rule validate_rule rule_type_is_valid is_appliable_on
      specialize new_enum_rule apply apply_enum decode_strings find_path_on_vm_or_ref applied
      succeeded
  apply_enum_values r values v vals results h1 h2 h3 h4 h5 h6 h7 =
      ground (arith, decode_values-str values, enum-ne-integer, enum-ne-string)

  -- A rule of type enum, with a message, no `valid` path and values that are texts, that is no mere
  -- warning and whose path finds at least one text in the object: the evaluation succeeds exactly if
  -- all the texts are among the values.
  pub evaluate_enum_rule :
      (r : Rule) (values : List String) (v : String) (vals : List String) (results : Results)
      → r.rule ≡ enum_rule_type
      → r.message ≢ ""
      → r.valid ≡ none
      → r.just_warning ≡ false
      → r.values ≡ map str values
      → find lib r.path vm ≡ ok results
      → as_string results ≡ ok (v ∷ vals)
      → (succeeded (evaluate lib vm ref_vm (r ∷ [])) ≡ true)
        ↔ All (λ s. contains values s ≡ true) (v ∷ vals)
  evaluate_enum_rule r values v vals results h1 h2 h3 h4 h5 h6 h7 =
      let e = apply_enum_values r values v vals results h1 h2 h3 h4 h5 h6 h7 in
      let a = contains_only_iff (v ∷ vals) values in (λ h. a.0 (sym e ∙ h), λ h. e ∙ a.1 h)

-- ===== src/TemplateValidator/Validation/Eval/Lengths.antt =====
-- What string rules mean, through the whole of `Evaluate`.
use Prim.Native.String.{len as byte_length}
use mathlib.Core.Bool.{false≢true}
use text.Mathlib.TextEquality.{eq_iff}
use ssp_operator.Base.{
  String, ◌≡◌, ◌≢◌, ◌↔◌, refl, sym, ◌∙◌, Option, true, false, none, some, List, [], ◌∷◌, arith, All,
  string_eq,
}
use ssp_operator.Base.Int.{ℤ, pos, ◌≤ℤ◌}
use ssp_operator.TemplateValidator.Validation.Path.{
  Library, ok, IntOrPath, int, find, as_string, Results,
}
use ssp_operator.TemplateValidator.Validation.Rules.{
  Rule, rule_type_is_valid, is_appliable_on, integer_rule_type, string_rule_type,
}
use ssp_operator.TemplateValidator.Validation.Decode.{
  Range, empty_range, includes, decode_range, decode_int, find_path_on_vm_or_ref, decode_strings,
}
use ssp_operator.TemplateValidator.Validation.Specialized.{
  includes_lengths, specialize, new_string_rule, apply, apply_string,
}
use ssp_operator.TemplateValidator.Validation.Eval.{
  evaluate, evaluate_loop, evaluate_rule, validate_rule, applied, succeeded,
}

-- A bound of a rule that is a number, if it is set.
abbrev pub number : Option ℤ → Option IntOrPath
number none = none
number (some n) = some (int n)

-- A number lies between two bounds, both included, each where it is set.
abbrev pub Within : Option ℤ → Option ℤ → ℤ → Type 0
Within none none n = Unit
Within (some lo) none n = lo ≤ℤ n
Within none (some hi) n = n ≤ℤ hi
Within (some lo) (some hi) n = (lo ≤ℤ n) × (n ≤ℤ hi)

abbrev range_of : Option ℤ → Option ℤ → Range
range_of none none = empty_range
range_of (some lo) none = record empty_range { min_set = true; min = lo }
range_of none (some hi) = record empty_range { max_set = true; max = hi }
range_of (some lo) (some hi) = record { min_set = true; min = lo; max_set = true; max = hi }

includes-Within : (lo hi : Option ℤ) (n : ℤ) → (includes (range_of lo hi) n ≡ true) ↔ Within lo hi n
unfolding includes
includes-Within none none n = (λ h. tt, λ h. refl)
includes-Within (some lo) none n = (λ h. ground arith, λ h. ground arith)
includes-Within none (some hi) n = (λ h. ground arith, λ h. ground arith)
includes-Within (some lo) (some hi) n = (λ h. ground arith, λ h. ground (arith, h.0, h.1))

includes_lengths-Within :
    (lo hi : Option ℤ) (vals : List String)
    → (includes_lengths (range_of lo hi) vals ≡ true)
      ↔ All (λ s. Within lo hi (pos (byte_length s))) vals
unfolding includes_lengths
includes_lengths-Within lo hi [] = (λ h. tt, λ h. refl)
includes_lengths-Within lo hi (v ∷ vals) =
    let one = includes-Within lo hi (pos (byte_length v)) in
    let rest = includes_lengths-Within lo hi vals in
    (λ h. (one.0 (ground arith), rest.0 (ground arith)), λ h. ground (arith, one.1 h.0, rest.1 h.1))

string-ne-integer : string_rule_type ≢ integer_rule_type
string-ne-integer p = false≢true ((eq_iff "string" "integer").1 p)

module _ {V : Type 0} (lib : Library V) (vm ref_vm : V) where
  decode_range-number :
      (lo hi : Option ℤ)
      → decode_range lib empty_range (number lo) (number hi) vm ref_vm ≡ ok (range_of lo hi)
  unfolding decode_range decode_int
  decode_range-number none none = refl
  decode_range-number (some lo) none = refl
  decode_range-number none (some hi) = refl
  decode_range-number (some lo) (some hi) = refl

  evaluate-includes_lengths :
      (r : Rule) (lo hi : Option ℤ) (v : String) (vals : List String) (results : Results)
      → r.rule ≡ string_rule_type
      → r.message ≢ ""
      → r.valid ≡ none
      → r.just_warning ≡ false
      → r.min_length ≡ number lo
      → r.max_length ≡ number hi
      → find lib r.path vm ≡ ok results
      → as_string results ≡ ok (v ∷ vals)
      → succeeded (evaluate lib vm ref_vm (r ∷ [])) ≡ includes_lengths (range_of lo hi) (v ∷ vals)
  unfolding evaluate evaluate_loop evaluate_rule validate_rule rule_type_is_valid is_appliable_on
      specialize new_string_rule apply apply_string decode_strings find_path_on_vm_or_ref applied
      succeeded
  evaluate-includes_lengths r lo hi v vals results h1 h2 h3 h4 h5 h6 h7 h8 =
      ground (arith, decode_range-number lo hi, string-ne-integer)

  -- A rule of type string, with a message, no `valid` path and each bound of the length a number or not
  -- set, that is no mere warning and whose path finds at least one text in the object: the evaluation
  -- succeeds exactly if the length in bytes of each text is at least the lower bound and at most the
  -- upper one, where these are set.
  pub evaluate_string_rule :
      (r : Rule) (lo hi : Option ℤ) (v : String) (vals : List String) (results : Results)
      → r.rule ≡ string_rule_type
      → r.message ≢ ""
      → r.valid ≡ none
      → r.just_warning ≡ false
      → r.min_length ≡ number lo
      → r.max_length ≡ number hi
      → find lib r.path vm ≡ ok results
      → as_string results ≡ ok (v ∷ vals)
      → (succeeded (evaluate lib vm ref_vm (r ∷ [])) ≡ true)
        ↔ All (λ s. Within lo hi (pos (byte_length s))) (v ∷ vals)
  evaluate_string_rule r lo hi v vals results h1 h2 h3 h4 h5 h6 h7 h8 =
      let e = evaluate-includes_lengths r lo hi v vals results h1 h2 h3 h4 h5 h6 h7 h8 in
      let a = includes_lengths-Within lo hi (v ∷ vals) in (λ h. a.0 (sym e ∙ h), λ h. e ∙ a.1 h)

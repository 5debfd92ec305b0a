-- ===== src/TemplateValidator/Validation/Messages.antt =====
-- internal/template-validator/validation/specialized.go: what rules say of their
-- application. `%v` of a slice puts its elements in brackets, separated by spaces.
use ssp_operator.Base.{String, ◌<>◌, Bool, ◌&&◌, List, [], ◌∷◌, map, string_eq, if◌then◌else◌}
use ssp_operator.Base.Int.{ℤ, ltb_ℤ}
use ssp_operator.Base.Text.{join}
use ssp_operator.TemplateValidator.Validation.Path.{Library}
use ssp_operator.TemplateValidator.Validation.Decode.{Range}
use ssp_operator.TemplateValidator.Validation.Specialized.{
  RuleApplier, int_rule, string_rule, enum_rule, regex_rule,
}

module _ {V : Type 0} (lib : Library V) where
  abbrev bound : Bool → ℤ → String
  bound is_set n = if is_set then lib.format_int n else "N/A"

  -- The violations of one value, and of all, separated by commas.
  unfoldable pub describe_value : Range → ℤ → String
  describe_value r value =
      (if r.min_set && ltb_ℤ value r.min
        then "value "
          <> (lib.format_int value
              <> (" is lower than minimum [" <> (bound r.min_set r.min <> "]")))
        else "")
      <> (if r.max_set && ltb_ℤ r.max value
          then "value "
            <> (lib.format_int value
                <> (" is higher than maximum [" <> (bound r.max_set r.max <> "]")))
          else "")

  unfoldable pub describe_values : Range → List ℤ → String
  describe_values r [] = ""
  describe_values r (v ∷ []) = describe_value r v
  describe_values r (v ∷ w ∷ vs) = describe_value r v <> (", " <> describe_values r (w ∷ vs))

  abbrev interval : Range → String
  interval r = "[" <> (bound r.min_set r.min <> (", " <> (bound r.max_set r.max <> "]")))

  -- The four methods `String`.
  unfoldable pub applier_string : RuleApplier → String
  applier_string (int_rule ir) =
      if ir.satisfied
      then "All values ["
        <> (join " " (map lib.format_int ir.current) <> ("] are in interval " <> interval ir.value))
      else describe_values ir.value ir.current
  applier_string (string_rule sr) =
      if sr.satisfied
      then "Lengts of all strings are in interval " <> interval sr.length
      else "Lengths of some strings are not in interval " <> interval sr.length
  applier_string (enum_rule er) =
      if er.satisfied
      then "All [" <> (join ", " er.current <> ("] are in [" <> (join ", " er.values <> "]")))
      else "Some of ["
        <> (join ", " er.current <> ("] are not in [" <> (join ", " er.values <> "]")))
  applier_string (regex_rule rr) =
      if rr.satisfied
      then "All [" <> (join ", " rr.current <> ("] match " <> rr.regex))
      else "Some of [" <> (join ", " rr.current <> ("] do not match " <> rr.regex))

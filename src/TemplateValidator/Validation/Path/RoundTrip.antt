-- ===== src/TemplateValidator/Validation/Path/RoundTrip.antt =====
-- Paths in and out of JSON.
use ssp_operator.Base.{String, ◌<>◌, ◌≡◌, ap, ◌∙◌, Bool, false, arith, string_eq}
use ssp_operator.Base.Text.{has_prefix, has_prefix-append, trim_prefix-append, trim_prefix}
use ssp_operator.TemplateValidator.Validation.Path.{
  ok, JsonPath, json_path_prefix, is_json_path, trim_json_path, new_json_path_from_string, new,
  marshal_json, unmarshal_json,
}

trim_prefix_absent : (s prefix : String) → has_prefix s prefix ≡ false → trim_prefix s prefix ≡ s
unfolding trim_prefix has_prefix
trim_prefix_absent s prefix h = ground arith

-- An expression that does not begin with `$` is kept by the trimming.
trim_json_path-append :
    (expr : String) → has_prefix expr "$" ≡ false → trim_json_path (json_path_prefix <> expr) ≡ expr
unfolding trim_json_path
trim_json_path-append expr h =
    ap (λ s. trim_prefix s "$") (trim_prefix-append json_path_prefix expr)
    ∙ trim_prefix_absent expr "$" h

-- What `MarshalJSON` writes for a path `UnmarshalJSON` reads back as the same path, for every path
-- that `New` makes and whose expression does not begin with a dollar sign.
pub unmarshal_json-marshal_json :
    (parses : String → Bool) (expr : String) (p : JsonPath)
    → new parses expr ≡ ok p
    → has_prefix p.expr "$" ≡ false
    → unmarshal_json parses (marshal_json p) ≡ ok p
unfolding new new_json_path_from_string marshal_json unmarshal_json is_json_path
unmarshal_json-marshal_json parses expr p made h =
    ground (arith, has_prefix-append json_path_prefix p.expr, trim_json_path-append p.expr h)

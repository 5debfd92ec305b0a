-- ===== src/TemplateValidator/Validation/Path.antt =====
-- internal/template-validator/validation/path: JSON paths in rules and the values that they find.
-- k8s.io/client-go's `jsonpath` is a parameter: `parses` says whether it accepts an expression, and
-- `find_results` is what it finds in an object. A parsed path is its expression.
pub mod RoundTrip
use Prim.Native.Nat.{◌+◌}
use ssp_operator.Base.{
  ◌≡◌, refl, ◌⊎◌, inl, inr, ℕ, String, ◌<>◌, ◌++◌, length, Bool, true, false, not, Option, none,
  some, List, [], ◌∷◌, ◌==◌, string_eq, if◌then◌else◌,
}
use ssp_operator.Base.Int.{ℤ, pos, int64_of_uint64}
use ssp_operator.Base.Text.{has_prefix, trim_prefix}

-- The errors of the package and of its callers in `validation`.
pub data Error : Type 0 where
  invalid_json_path unrecognized_rule_type duplicate_rule_name missing_required_key : Error
  no_values_found parse_error regex_error unmarshal_error : Error
  mismatching_type unsupported_rule : String → Error
  expected_one_value : ℕ → Error

pub data Fallible {ℓ} (A : Type ℓ) : Type ℓ where
  ok : A → Fallible A
  err : Error → Fallible A

infixl 5 ◌>>=◌
abbrev pub ◌>>=◌ {ℓ κ} : {A : Type ℓ} {B : Type κ} → Fallible A → (A → Fallible B) → Fallible B
ok a >>= f = f a
err e >>= f = err e

pub Fallible-cases {ℓ} :
    {A : Type ℓ} (m : Fallible A) → ((a : A) × (m ≡ ok a)) ⊎ ((e : Error) × (m ≡ err e))
Fallible-cases (ok a) = inl (a, refl)
Fallible-cases (err e) = inr (e, refl)

abbrev pub json_path_prefix : String
json_path_prefix = "jsonpath::"

unfoldable pub is_json_path : String → Bool
unfolding has_prefix
is_json_path s = has_prefix s json_path_prefix

unfoldable pub trim_json_path : String → String
unfolding trim_prefix
trim_json_path path = trim_prefix (trim_prefix path json_path_prefix) "$"

unfoldable pub new_json_path_from_string : String → Fallible String
unfolding is_json_path trim_json_path
new_json_path_from_string path =
    if not (is_json_path path)
    then err invalid_json_path
    else ok ("{.spec.template" <> (trim_json_path path <> "}"))

pub record JsonPath : Type 0 where
  pub expr : String
  pub path : String

unfoldable pub new : (String → Bool) → String → Fallible JsonPath
unfolding new_json_path_from_string
new parses expr = do
  path_expr ← new_json_path_from_string expr
  if parses path_expr
      then ok (record { expr = trim_json_path expr; path = path_expr })
      else err parse_error

-- `MarshalJSON` and `UnmarshalJSON`, less the quoting of the text by encoding/json.
unfoldable pub marshal_json : JsonPath → String
marshal_json p = json_path_prefix <> p.expr

unfoldable pub unmarshal_json : (String → Bool) → String → Fallible JsonPath
unfolding new
unmarshal_json parses str = new parses str

-- A `reflect.Value`, by what the code asks of it. The first field of the last five is the name of its
-- type, which `reflect.Value.String` puts in angle brackets for a value that is no string.
pub data Value : Type 0 where
  -- a `string`
  string : String → Value
  -- a value of another type whose kind is string
  named_string : String → Value
  -- an `int`, `int32` or `int64`
  signed : String → ℤ → Value
  -- a `uint`, `uint32` or `uint64`
  unsigned : String → ℕ → Value
  -- a `float32` or `float64`, with the value of `int64(math.Round(f))`
  float : String → ℤ → Value
  -- a `resource.Quantity`, or a pointer to one, with the result of its method `AsInt64`
  quantity : String → Option ℤ → Value
  other : String → Value

abbrev pub Results : Type 0
Results = List (List Value)

-- internal/template-validator/validation/path/conv.go
unfoldable pub to_int64 : Value → Option ℤ
unfolding int64_of_uint64
to_int64 (signed _ val) = some val
to_int64 (unsigned _ val) = some (int64_of_uint64 val)
to_int64 (float _ rounded) = some rounded
to_int64 _ = none

abbrev type_name : Value → String
type_name (string s) = "string"
type_name (named_string s) = "string"
type_name (signed t _) = t
type_name (unsigned t _) = t
type_name (float t _) = t
type_name (quantity t _) = t
type_name (other t) = t

-- `reflect.Value.String`
abbrev pub value_string : Value → String
value_string (string s) = s
value_string (named_string s) = s
value_string v = "<" <> (type_name v <> " Value>")

-- `if intObj, ok := toInt64(obj)` and the two tests for a quantity.
unfoldable pub value_int64 : Value → Option ℤ
unfolding to_int64
value_int64 (quantity _ v) = v
value_int64 v = to_int64 v

-- One value of the loop of `AsString`.
unfoldable pub value_as_string : Value → Fallible String
value_as_string (string s) = ok s
value_as_string v =
    if not (value_string v == "<invalid Value>")
    then ok (value_string v)
    else err (mismatching_type (type_name v))

unfoldable pub value_as_int64 : Value → Fallible ℤ
unfolding value_int64
value_as_int64 v = elim (value_int64 v) [
  | some i ↦ ok i
  | none ↦ err (mismatching_type (type_name v))
]

-- The two nested loops of `AsString` and `AsInt64`, over the values of each result in turn.
module _ {A : Type 0} (convert : Value → Fallible A) where
  unfoldable pub convert_values : List Value → Fallible (List A)
  convert_values [] = ok []
  convert_values (v ∷ vs) = do a ← convert v; rest ← convert_values vs; ok (a ∷ rest)

  unfoldable pub convert_results : Results → Fallible (List A)
  unfolding convert_values
  convert_results [] = ok []
  convert_results (res ∷ r) = do
    first ← convert_values res
    rest ← convert_results r
    ok (first ++ rest)

unfoldable pub as_string : Results → Fallible (List String)
unfolding convert_results value_as_string
as_string = convert_results value_as_string

unfoldable pub as_int64 : Results → Fallible (List ℤ)
unfolding convert_results value_as_int64
as_int64 = convert_results value_as_int64

unfoldable pub len : Results → ℕ
len [] = 0
len (result ∷ r) = length result + len r

-- What the evaluation of rules asks of libraries: `FindResults` of jsonpath, which fails with `none`,
-- `regexp.Compile` and `MatchString`, and `strconv.FormatInt` in base 10.
pub record Library (V : Type 0) : Type 0 where
  pub find_results : String → V → Option Results
  pub compiles : String → Bool
  pub match_string : String → String → Bool
  pub format_int : ℤ → String

-- A `Path` finds results in an object, or an error that hides that of `jsonpath`.
unfoldable pub find : {V : Type 0} → Library V → JsonPath → V → Fallible Results
find lib p vm = elim (lib.find_results p.path vm) [
  | none ↦ err invalid_json_path
  | some results ↦ ok results
]

-- variants.go
pub data IntOrPath : Type 0 where
  int : ℤ → IntOrPath
  path : JsonPath → IntOrPath

pub data StringOrPath : Type 0 where
  str : String → StringOrPath
  path : JsonPath → StringOrPath

-- `StringOrPath.UnmarshalJSON`, of a JSON string.
unfoldable pub unmarshal_string_or_path : (String → Bool) → String → Fallible StringOrPath
unfolding is_json_path new
unmarshal_string_or_path parses s =
    if not (is_json_path s) then ok (str s) else do p ← new parses s; ok (path p)

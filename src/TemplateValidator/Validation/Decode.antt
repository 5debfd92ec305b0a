-- ===== src/TemplateValidator/Validation/Decode.antt =====
-- internal/template-validator/validation/specialized.go: ranges, and the values that paths find.
use ssp_operator.Base.{
  String, Bool, true, false, ◌&&◌, Option, none, some, List, [], ◌∷◌, length, string_eq,
  if◌then◌else◌,
}
use ssp_operator.Base.Int.{ℤ, pos, ltb_ℤ}
use ssp_operator.TemplateValidator.Validation.Path.{
  JsonPath, IntOrPath, int, path, StringOrPath, str, Library, Fallible, ok, err, ◌>>=◌, Results,
  find, as_string, as_int64, expected_one_value,
}

pub record Range : Type 0 where
  pub min_set : Bool
  pub min : ℤ
  pub max_set : Bool
  pub max : ℤ

abbrev pub empty_range : Range
empty_range = record { min_set = false; min = pos 0; max_set = false; max = pos 0 }

unfoldable pub includes : Range → ℤ → Bool
includes r v =
    if r.min_set && ltb_ℤ v r.min then false else if r.max_set && ltb_ℤ r.max v then false else true

-- `if len(v) != 1`
abbrev single : {A : Type 0} → List A → Fallible A
single (a ∷ []) = ok a
single v = err (expected_one_value (length v))

module _ {V : Type 0} (lib : Library V) where
  -- First the object, then the reference object, whose fields are all initialised.
  unfoldable pub find_path_on_vm_or_ref : JsonPath → V → V → Fallible Results
  find_path_on_vm_or_ref p vm ref = elim (find lib p vm) [
    | ok res ↦ ok res
    | err _ ↦ elim (find lib p ref) [ ok res ↦ ok res | err e ↦ err e ]
  ]

  unfoldable pub decode_ints : JsonPath → V → V → Fallible (List ℤ)
  decode_ints p vm ref = do res ← find_path_on_vm_or_ref p vm ref; as_int64 res

  unfoldable pub decode_int : IntOrPath → V → V → Fallible ℤ
  decode_int (int i) vm ref = ok i
  decode_int (path p) vm ref = do v ← decode_ints p vm ref; single v

  unfoldable pub decode_strings : JsonPath → V → V → Fallible (List String)
  decode_strings p vm ref = do res ← find_path_on_vm_or_ref p vm ref; as_string res

  unfoldable pub decode_string : StringOrPath → V → V → Fallible String
  decode_string (str s) vm ref = ok s
  decode_string (path p) vm ref = do vals ← decode_strings p vm ref; single vals

  -- `Range.Decode`, from the range that it is called on.
  unfoldable pub decode_range : Range → Option IntOrPath → Option IntOrPath → V → V → Fallible Range
  decode_range r min max vm ref = do
    r ← elim min [
      | none ↦ ok r
      | some m ↦ decode_int m vm ref >>= λ v. ok (record r { min = v; min_set = true })
    ]
    elim max [
      | none ↦ ok r
      | some m ↦ decode_int m vm ref >>= λ v. ok (record r { max = v; max_set = true })
    ]

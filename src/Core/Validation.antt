-- ===== src/Core/Validation.antt =====
-- core/validation/schema.ts. A value of JSON or JavaScript is a tree; a number is a whole one here, or
-- NaN. `is_email` and `is_uuid` are the two regular expressions; a message is the rule that was
-- broken, in place of its text.
pub mod Conforming
use Prim.Native.String.{◌++◌ as ◌++ₜ◌}
use pilots_hq.Prelude.{
  ℕ, String, Bool, true, false, not, ◌&&◌, Option, none, some, List, [], ◌∷◌, ◌++◌, str_eq, ltb,
  if◌then◌else◌, text_length,
}

mutual
  pub data Value : Type 0 where
    undefined null nan : Value
    boolean : Bool → Value
    number : ℕ → Value
    text : String → Value
    array : Value
    object : Fields → Value

  pub data Fields : Type 0 where
    bare : Fields
    field : String → Value → Fields → Fields

pub data Broken : Type 0 where
  is_required must_be_string too_short too_long not_email not_uuid : Broken
  must_be_number too_small too_large must_be_object : Broken

pub record FieldError : Type 0 where
  pub name : String
  pub broken : Broken

pub record StringValidator : Type 0 where
  pub required : Bool
  pub min_length : Option ℕ
  pub max_length : Option ℕ
  pub email : Bool
  pub uuid : Bool

pub record NumberValidator : Type 0 where
  pub required : Bool
  pub minimum : Option ℕ
  pub maximum : Option ℕ

-- the last is an object validator: whether it is required, and its shape
mutual
  pub data Validator : Type 0 where
    string_of : StringValidator → Validator
    number_of : NumberValidator → Validator
    object_of : Bool → Shape → Validator

  pub data Shape : Type 0 where
    no_keys : Shape
    key : String → Validator → Shape → Shape

pub record Patterns : Type 0 where
  pub is_email : String → Bool
  pub is_uuid : String → Bool

abbrev report : String → Broken → List FieldError
report name b = record { name = name; broken = b } ∷ []

unfoldable pub report_if : Bool → String → Broken → List FieldError
report_if true name b = report name b
report_if false name b = []

unfoldable pub is_below : ℕ → Option ℕ → Bool
is_below n none = false
is_below n (some m) = ltb n m

unfoldable pub is_above : ℕ → Option ℕ → Bool
is_above n none = false
is_above n (some m) = ltb m n

-- `obj[key]`
unfoldable pub lookup : String → Fields → Value
lookup k bare = undefined
lookup k (field j v more) = let rest = lookup k more in if str_eq j k then v else rest

-- the name under which a field is reported
unfoldable pub field_name : String → String → String
field_name parent k = if str_eq parent "root" then k else parent ++ₜ "." ++ₜ k

module _ (p : Patterns) where
  unfoldable pub check_text : StringValidator → String → String → List FieldError
  check_text v name s =
      report_if (is_below (text_length s) v.min_length) name too_short
      ++ (report_if (is_above (text_length s) v.max_length) name too_long
          ++ (report_if (v.email && not (p.is_email s)) name not_email
              ++ report_if (v.uuid && not (p.is_uuid s)) name not_uuid))

  unfoldable pub validate_string : StringValidator → Value → String → List FieldError
  validate_string v undefined name = report_if v.required name is_required
  validate_string v null name = report_if v.required name is_required
  validate_string v (text s) name =
      if str_eq s "" then report_if v.required name is_required else check_text v name s
  validate_string v _ name = report_if true name must_be_string

unfoldable pub validate_number : NumberValidator → Value → String → List FieldError
validate_number v undefined name = report_if v.required name is_required
validate_number v null name = report_if v.required name is_required
validate_number v (number n) name =
    report_if (is_below n v.minimum) name too_small
    ++ report_if (is_above n v.maximum) name too_large
validate_number v _ name = report_if true name must_be_number

module _ (p : Patterns) where
  unfoldable mutual
    pub validate : Validator → Value → String → List FieldError
    validate (string_of v) value name = validate_string p v value name
    validate (number_of v) value name = validate_number v value name
    validate (object_of required shape) undefined name = report_if required name is_required
    validate (object_of required shape) null name = report_if required name is_required
    validate (object_of required shape) (object fields) name = validate_all shape fields name
    validate (object_of required shape) _ name = report_if true name must_be_object

    pub validate_all : Shape → Fields → String → List FieldError
    validate_all no_keys fields name = []
    validate_all (key k v more) fields name =
        validate v (lookup k fields) (field_name name k) ++ validate_all more fields name

  -- `parse`: nothing where there are errors
  unfoldable pub parse : Validator → Value → Option Value
  parse v input = elim (validate v input "root") [ [] ↦ some input | e ∷ es ↦ none ]

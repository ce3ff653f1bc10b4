-- ===== src/Core/Validation/Conforming.antt =====
-- What passes the validators (core/validation/schema.ts).
use mathlib.Core.Bool.{and_assoc}
use mathlib.Core.Path.{ap₂}
use pilots_hq.Prelude.{
  ℕ, ◌≡◌, refl, sym, ap, ◌∙◌, String, Bool, true, false, not, ◌&&◌, Option, none, some, List, [],
  ◌∷◌, ◌++◌, str_eq, leb, if◌then◌else◌, Bool-cases, inl, inr, text_length, arith,
}
use pilots_hq.Core.Validation.{
  Value, undefined, null, nan, boolean, number, text, array, object, Fields, Broken, FieldError,
  StringValidator, NumberValidator, Validator, string_of, number_of, object_of, Shape, no_keys, key,
  Patterns, report_if, is_below, is_above, lookup, field_name, check_text, validate_string,
  validate_number, validate, validate_all, parse,
}

-- a number within the bounds that there are
unfoldable pub is_within : ℕ → Option ℕ → Option ℕ → Bool
is_within n none none = true
is_within n (some low) none = leb low n
is_within n none (some high) = leb n high
is_within n (some low) (some high) = leb low n && leb n high

unfoldable pub is_empty : {A : Type 0} → List A → Bool
is_empty [] = true
is_empty (x ∷ xs) = false

-- one that is asked for, or not
unfoldable pub implies : Bool → Bool → Bool
implies true b = b
implies false b = true

module _ (p : Patterns) where
  unfoldable pub conforms_text : StringValidator → String → Bool
  conforms_text v s =
      is_within (text_length s) v.min_length v.max_length
      && (implies v.email (p.is_email s) && implies v.uuid (p.is_uuid s))

  unfoldable pub conforms_string : StringValidator → Value → Bool
  conforms_string v undefined = not v.required
  conforms_string v null = not v.required
  conforms_string v (text s) = if str_eq s "" then not v.required else conforms_text v s
  conforms_string v _ = false

unfoldable pub conforms_number : NumberValidator → Value → Bool
conforms_number v undefined = not v.required
conforms_number v null = not v.required
conforms_number v (number n) = is_within n v.minimum v.maximum
conforms_number v _ = false

module _ (p : Patterns) where
  -- what the validators ask of a value, whatever they report
  unfoldable mutual
    pub conforms : Validator → Value → Bool
    conforms (string_of v) value = conforms_string p v value
    conforms (number_of v) value = conforms_number v value
    conforms (object_of required shape) undefined = not required
    conforms (object_of required shape) null = not required
    conforms (object_of required shape) (object fields) = conforms_all shape fields
    conforms (object_of required shape) _ = false

    pub conforms_all : Shape → Fields → Bool
    conforms_all no_keys fields = true
    conforms_all (key k v more) fields = conforms v (lookup k fields) && conforms_all more fields

is_empty-append : {A : Type 0} (xs ys : List A) → is_empty (xs ++ ys) ≡ (is_empty xs && is_empty ys)
unfolding is_empty
is_empty-append [] ys = refl
is_empty-append (x ∷ xs) ys = refl

is_empty-report_if :
    (b : Bool) (name : String) (broken : Broken) → is_empty (report_if b name broken) ≡ not b
unfolding is_empty report_if
is_empty-report_if true name broken = refl
is_empty-report_if false name broken = refl

bounds_lem :
    (n : ℕ) (low high : Option ℕ)
    → (not (is_below n low) && not (is_above n high)) ≡ is_within n low high
unfolding is_below is_above is_within
bounds_lem n none none = refl
bounds_lem n (some low) none = ground arith
bounds_lem n none (some high) = ground arith
bounds_lem n (some low) (some high) = ground arith

pattern_lem : (asked found : Bool) → not (asked && not found) ≡ implies asked found
unfolding implies
pattern_lem true true = refl
pattern_lem true false = refl
pattern_lem false found = refl

parsed_lem :
    (es : List FieldError) (input : Value)
    → (elim es [ [] ↦ some input | e ∷ rest ↦ none ]) ≡ (if is_empty es then some input else none)
unfolding is_empty
parsed_lem [] input = refl
parsed_lem (e ∷ es) input = refl

module _ (p : Patterns) where
  check_text-conforms_text :
      (v : StringValidator) (name s : String)
      → is_empty (check_text p v name s) ≡ conforms_text p v s
  unfolding check_text conforms_text
  check_text-conforms_text v name s =
      let n = text_length s in
      let patterns =
        is_empty-append (report_if (v.email && not (p.is_email s)) name _) _
        ∙ ap₂ (λ a b. a && b) (is_empty-report_if _ name _ ∙ pattern_lem v.email (p.is_email s))
            (is_empty-report_if _ name _ ∙ pattern_lem v.uuid (p.is_uuid s)) in
      is_empty-append (report_if (is_below n v.min_length) name _) _
      ∙ ap₂ (λ a b. a && b) (is_empty-report_if _ name _)
          (is_empty-append (report_if (is_above n v.max_length) name _) _
            ∙ ap₂ (λ a b. a && b) (is_empty-report_if _ name _) patterns)
      ∙ sym (and_assoc (not (is_below n v.min_length)) _ _)
      ∙ ap (λ b. b && (implies v.email (p.is_email s) && implies v.uuid (p.is_uuid s)))
          (bounds_lem n v.min_length v.max_length)

  validate_string-conforms_string :
      (v : StringValidator) (value : Value) (name : String)
      → is_empty (validate_string p v value name) ≡ conforms_string p v value
  unfolding validate_string conforms_string
  validate_string-conforms_string v undefined name = is_empty-report_if v.required name _
  validate_string-conforms_string v null name = is_empty-report_if v.required name _
  validate_string-conforms_string v nan name = is_empty-report_if true name _
  validate_string-conforms_string v (boolean b) name = is_empty-report_if true name _
  validate_string-conforms_string v (number n) name = is_empty-report_if true name _
  validate_string-conforms_string v array name = is_empty-report_if true name _
  validate_string-conforms_string v (object fields) name = is_empty-report_if true name _
  validate_string-conforms_string v (text s) name = elim (Bool-cases (str_eq s "")) [
    | inl blank ↦ rw blank (is_empty-report_if v.required name _)
    | inr there ↦ rw there (check_text-conforms_text v name s)
  ]

  validate_number-conforms_number :
      (v : NumberValidator) (value : Value) (name : String)
      → is_empty (validate_number v value name) ≡ conforms_number v value
  unfolding validate_number conforms_number
  validate_number-conforms_number v undefined name = is_empty-report_if v.required name _
  validate_number-conforms_number v null name = is_empty-report_if v.required name _
  validate_number-conforms_number v nan name = is_empty-report_if true name _
  validate_number-conforms_number v (boolean b) name = is_empty-report_if true name _
  validate_number-conforms_number v (text s) name = is_empty-report_if true name _
  validate_number-conforms_number v array name = is_empty-report_if true name _
  validate_number-conforms_number v (object fields) name = is_empty-report_if true name _
  validate_number-conforms_number v (number n) name =
      is_empty-append (report_if (is_below n v.minimum) name _) _
      ∙ ap₂ (λ a b. a && b) (is_empty-report_if _ name _) (is_empty-report_if _ name _)
      ∙ bounds_lem n v.minimum v.maximum

  mutual
    unfolding validate conforms is_empty

    value_lem :
        (v : Validator) (value : Value) (name : String)
        → is_empty (validate p v value name) ≡ conforms p v value
    value_lem (string_of v) value name = validate_string-conforms_string v value name
    value_lem (number_of v) value name = validate_number-conforms_number v value name
    value_lem (object_of required shape) undefined name = is_empty-report_if required name _
    value_lem (object_of required shape) null name = is_empty-report_if required name _
    value_lem (object_of required shape) nan name = is_empty-report_if true name _
    value_lem (object_of required shape) (boolean b) name = is_empty-report_if true name _
    value_lem (object_of required shape) (number n) name = is_empty-report_if true name _
    value_lem (object_of required shape) (text s) name = is_empty-report_if true name _
    value_lem (object_of required shape) array name = is_empty-report_if true name _
    value_lem (object_of required shape) (object fields) name = shape_lem shape fields name

    shape_lem :
        (shape : Shape) (fields : Fields) (name : String)
        → is_empty (validate_all p shape fields name) ≡ conforms_all p shape fields
    shape_lem no_keys fields name = refl
    shape_lem (key k v more) fields name =
        is_empty-append (validate p v (lookup k fields) (field_name name k)) _
        ∙ ap₂ (λ a b. a && b) (value_lem v (lookup k fields) (field_name name k))
            (shape_lem more fields name)

  -- Parsing gives the input back where it conforms to the validators, at every depth, and nothing
  -- otherwise.
  pub parse-conforms :
      (v : Validator) (input : Value)
      → parse p v input ≡ (if conforms p v input then some input else none)
  unfolding parse
  parse-conforms v input =
      parsed_lem (validate p v input "root") input
      ∙ ap (λ b. if b then some input else none) (value_lem v input "root")

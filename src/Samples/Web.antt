-- ===== src/Samples/Web.antt =====
-- The router and the validators at small inputs (core/http, core/validation).
use pilots_hq.Prelude.{ℕ, ◌≡◌, refl, String, true, false, some, none, [], ◌∷◌, if◌then◌else◌}
use pilots_hq.Core.Validation.{
  Value, number, text, object, bare, field, too_large, string_of, number_of, object_of, Validator,
  no_keys, key, Patterns, report_if, is_below, is_above, lookup, field_name, check_text,
  validate_string, validate_number, validate, parse,
}
use pilots_hq.Core.Validation.Conforming.{conforms, parse-conforms}
use pilots_hq.Core.Router.{Router, router, no_more, add_route, use_router, match_path, segments_of}
use pilots_hq.Core.Router.Mounting.{match_list, match_path-match_list}

abbrev upper : String → String
upper s = s

-- `/v1/orders/:id` and `/orders/:id/stops`
abbrev site : Router ℕ
unfolding add_route use_router
site =
    use_router "/v1" (add_route upper "GET" "/orders/:id" 1 (router [] no_more))
      (add_route upper "GET" "/orders/:id/stops" 2 (router [] no_more))

match_path-match_list_example :
    match_path upper "GET" "/v1/orders/7" site
    ≡ match_list upper "GET" (segments_of "/v1/orders/7") site
match_path-match_list_example = match_path-match_list upper "GET" "/v1/orders/7" site

abbrev patterns : Patterns
patterns = record { is_email = λ s. true; is_uuid = λ s. false }

-- `{ name: required string of 2 to 10, size: { width: number up to 9 } }`
abbrev form : Validator
form = object_of true (
    key "name"
      (string_of (record {
        required = true;
        min_length = some 2;
        max_length = some 10;
        email = false;
        uuid = false;
      }))
      (key "size"
        (object_of false (
          key "width" (number_of (record { required = true; minimum = none; maximum = some 9 }))
            no_keys))
        no_keys))

abbrev parcel : Value
parcel =
    object (field "name" (text "box") (field "size" (object (field "width" (number 12) bare)) bare))

parcel_lem :
    validate patterns form parcel "root" ≡ record { name = "size.width"; broken = too_large } ∷ []
unfolding validate validate_string check_text validate_number report_if is_below is_above lookup
    field_name
parcel_lem = refl

parse-conforms_example :
    parse patterns form parcel ≡ (if conforms patterns form parcel then some parcel else none)
parse-conforms_example = parse-conforms patterns form parcel

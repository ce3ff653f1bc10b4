-- ===== src/Samples/Hooks.antt =====
-- The cache and the webhooks at small inputs (core/cache/cache.ts, core/webhooks).
use Prim.Native.Char.{char}
use Prim.Native.String.{[] as no_text, ◌∷◌ as ◌∷ₜ◌}
use pilots_hq.Prelude.{ℕ, ◌≡◌, refl, sym, ap, String, true, Option, none, some, [], arith, empty}
use pilots_hq.Core.Cache.{get_cached, set_cached, del_cached}
use pilots_hq.Core.Webhooks.{
  no_id, text_id, number_id, Payload, object_json, stripe, Headers, Gateway, Services,
  is_already_processed, mark_processed, deliver, finish, stripe_delivery, handle_stripe_event,
  handle_stripe, route_webhook,
}
use pilots_hq.Core.Webhooks.Once.{IsSoonAfter, webhook_id, is_new, same_id_once}

abbrev encode : Option String → Option String
encode none = some "-"
encode (some s) = some s

abbrev decode : String → Option (Option String)
decode s = some (some s)

abbrev OtherKept : Type 0
OtherKept =
    (get_cached decode true 50 "n" "m"
        (set_cached encode true 10 "n" (some 60) "k" (some "v") empty).0
      ≡ get_cached decode true 50 "n" "m" empty)
    × (get_cached decode true 50 "n" "m" (del_cached "n" "k" empty)
        ≡ get_cached decode true 50 "n" "m" empty)

abbrev invoice : String → Payload
invoice type = record {
  id = no_id;
  type = type;
  object = some (text_id "in_1");
  from = none;
  body = none;
  message_sid = no_id;
}

-- a JSON text for an optional text: a mark before a text that is there
abbrev write_note : Option String → Option String
write_note none = some no_text
write_note (some s) = some (char 120 tt ∷ₜ s)

abbrev read_note : String → Option (Option String)
read_note no_text = some none
read_note (c ∷ₜ s) = some (some s)

read_note-write_note :
    (x : Option String) (t : String) → write_note x ≡ some t → read_note t ≡ some x
read_note-write_note none t e = ap (λ o. elim o [ none ↦ none | some u ↦ read_note u ]) (sym e)
read_note-write_note (some s) t e = ap (λ o. elim o [ none ↦ none | some u ↦ read_note u ]) (sym e)

abbrev services : ℕ → Services
services now = record {
  parse = λ raw. some (object_json (record (invoice "") { id = number_id 7 }));
  encode = write_note;
  decode = read_note;
  works = λ d. true;
  get_up = true;
  set_up = true;
  now = now;
}

abbrev headers : Headers
headers = record { topic = some "orders/create"; org_id = some "org" }

abbrev gateway : Gateway
gateway = record { redis = empty; deliveries = [] }

soon : IsSoonAfter (services 10) (services 20)
soon = record { reads_back = read_note-write_note; answers = refl; within = omega arith }

abbrev after_creation : Gateway
after_creation =
    (route_webhook (services 10) stripe "raw" headers (object_json (invoice "invoice.created"))
      gateway).0

same_id_once_example :
    (route_webhook
      (services 20)
      stripe
      "raw"
      headers
      (object_json (invoice "invoice.paid"))
      after_creation).0
    ≡ after_creation
unfolding webhook_id is_new route_webhook handle_stripe handle_stripe_event stripe_delivery
    is_already_processed get_cached finish deliver mark_processed set_cached
same_id_once_example =
    same_id_once (services 10) (services 20) stripe stripe "raw" "raw" headers headers
      (object_json (invoice "invoice.created")) (object_json (invoice "invoice.paid")) gateway
      "in_1" soon refl refl refl refl

-- ===== src/Core/Webhooks.antt =====
-- core/webhooks/webhook-handler.ts. `parse` is `JSON.parse` with the fields that the handlers read;
-- the connectors are known by whether a call of theirs succeeds, and the calls that do are kept in
-- order. The idempotency keys stand in the cache of core/cache/cache.ts.
pub mod Once
use pilots_hq.Prelude.{
  ℕ, zero, suc, ◌+◌, String, Bool, true, false, ◌&&◌, ◌||◌, Option, none, some, List, [], ◌∷◌, ◌++◌,
  str_eq, if◌then◌else◌,
}
use pilots_hq.Core.Cache.{
  Entry, SetResult, stored, not_serialized, redis_failed, get_cached, set_cached,
}

-- the JSON value of an id: `buildKey` throws on a number, which has no `replace`
pub data EventId : Type 0 where
  no_id : EventId
  text_id : String → EventId
  number_id : ℕ → EventId

pub record Payload : Type 0 where
  pub id : EventId
  pub type : String
  pub object : Option EventId
  pub from : Option String
  pub body : Option String
  pub message_sid : EventId

-- `payload`: a `null` throws where a field of it is read without `?.`
pub data Json : Type 0 where
  null_json : Json
  object_json : Payload → Json

pub data Source : Type 0 where
  shopify stripe twilio unknown : Source

pub record Headers : Type 0 where
  pub topic : Option String
  pub org_id : Option String

-- the calls of the connectors
pub data Delivery : Type 0 where
  order_created : String → String → Delivery
  invoice_paid : Payload → Delivery
  payment_failed : Payload → Delivery
  incoming_sms : String → String → Delivery

pub data Body : Type 0 where
  ok_body cached_body empty_body : Body
  error_body : String → Body

pub record Response : Type 0 where
  pub status_code : ℕ
  pub body : Body

pub record Gateway : Type 0 where
  pub redis : String → Option Entry
  pub deliveries : List Delivery

-- What the handlers use of other code, at the time of a webhook: what is noted with an id is one
-- optional text.
pub record Services : Type 0 where
  pub parse : String → Option Json
  pub encode : Option String → Option String
  pub decode : String → Option (Option String)
  pub works : Delivery → Bool
  pub get_up : Bool
  pub set_up : Bool
  pub now : ℕ

abbrev pub namespace : String
namespace = "webhook-idempotency"

abbrev pub idempotency_ttl : ℕ
idempotency_ttl = 86400

abbrev pub respond : ℕ → Body → Response
respond code b = record { status_code = code; body = b }

-- `!text`
abbrev pub is_missing : Option String → Bool
is_missing none = true
is_missing (some s) = str_eq s ""

-- `isAlreadyProcessed`; nothing where it throws
unfoldable pub is_already_processed : Services → EventId → Gateway → Option Bool
is_already_processed v no_id g = some false
is_already_processed v (number_id n) g = elim n [ zero ↦ some false | suc k ↦ none ]
is_already_processed v (text_id key) g =
    if str_eq key ""
    then some false
    else elim (get_cached v.decode v.get_up v.now namespace key g.redis) [
      | none ↦ some false
      | some x ↦ some true
    ]

-- `markProcessed`; nothing where it throws
unfoldable pub mark_processed : Services → EventId → Option String → Gateway → Option Gateway
mark_processed v no_id x g = some g
mark_processed v (number_id n) x g = elim n [ zero ↦ some g | suc k ↦ none ]
mark_processed v (text_id key) x g =
    if str_eq key ""
    then some g
    else let (redis, result) =
        set_cached v.encode v.set_up v.now namespace (some idempotency_ttl) key x g.redis in
      elim result [
        | stored ↦ some (record g { redis = redis })
        | not_serialized ↦ none
        | redis_failed ↦ none
      ]

-- A call of a connector, or none; nothing where it throws.
unfoldable pub deliver : Services → Option Delivery → Gateway → Option Gateway
deliver v none g = some g
deliver v (some d) g =
    if v.works d then some (record g { deliveries = g.deliveries ++ d ∷ [] }) else none

-- The end of each handler: the call, the mark and the answer, in the `try` that answers 500.
unfoldable pub finish :
    Services → Option Delivery → EventId → Option String → Body → Gateway → Gateway × Response
finish v d id x done g = elim (deliver v d g) [
  | none ↦ (g, respond 500 (error_body "Processing failed"))
  | some g' ↦ elim (mark_processed v id x g') [
    | none ↦ (g', respond 500 (error_body "Processing failed"))
    | some g'' ↦ (g'', respond 200 done)
  ]
]

unfoldable pub is_order_topic : Option String → Bool
is_order_topic none = false
is_order_topic (some t) = str_eq t "orders/create" || str_eq t "orders/updated"

unfoldable pub order_id : Json → EventId
order_id null_json = no_id
order_id (object_json p) = p.id

-- nothing where it throws: the check of the id stands before the `try`
unfoldable pub handle_shopify :
    Services → String → Headers → Json → Gateway → Option (Gateway × Response)
handle_shopify v raw h payload g = elim (is_already_processed v (order_id payload) g) [
  | none ↦ none
  | some true ↦ some (g, respond 200 cached_body)
  | some false ↦ some (
      if is_order_topic h.topic
      then (if is_missing h.org_id
          then (g, respond 400 (error_body "Missing org_id"))
          else finish v (some (order_created raw (elim h.org_id [ none ↦ "" | some o ↦ o ])))
              (order_id payload) h.topic ok_body g)
      else finish v none (order_id payload) h.topic ok_body g)
]

unfoldable pub stripe_delivery : Payload → Option Delivery
stripe_delivery p =
    if str_eq p.type "invoice.paid"
    then some (invoice_paid p)
    else if str_eq p.type "payment_intent.payment_failed"
    then some (payment_failed p)
    else none

unfoldable pub handle_stripe_event : Services → Payload → EventId → Gateway → Gateway × Response
handle_stripe_event v p id g = elim (is_already_processed v id g) [
  | none ↦ (g, respond 500 (error_body "Processing failed"))
  | some true ↦ (g, respond 200 cached_body)
  | some false ↦ finish v (stripe_delivery p) id (some p.type) ok_body g
]

unfoldable pub handle_stripe : Services → Json → Gateway → Gateway × Response
handle_stripe v null_json g = (g, respond 500 (error_body "Processing failed"))
handle_stripe v (object_json p) g = elim p.object [
  | none ↦ (g, respond 500 (error_body "Processing failed"))
  | some id ↦ handle_stripe_event v p id g
]

unfoldable pub handle_sms : Services → String → String → EventId → Gateway → Gateway × Response
handle_sms v from text id g = elim (is_already_processed v id g) [
  | none ↦ (g, respond 500 (error_body "Processing failed"))
  | some true ↦ (g, respond 200 cached_body)
  | some false ↦ finish v (some (incoming_sms from text)) id (some from) empty_body g
]

unfoldable pub handle_twilio : Services → Json → Gateway → Gateway × Response
handle_twilio v null_json g = (g, respond 500 (error_body "Processing failed"))
handle_twilio v (object_json p) g =
    if is_missing p.from || is_missing p.body
    then (g, respond 400 (error_body "Missing fields"))
    else handle_sms v (elim p.from [ none ↦ "" | some s ↦ s ])
        (elim p.body [ none ↦ "" | some s ↦ s ]) p.message_sid g

-- The switch over the source, with the `catch` around it.
unfoldable pub route_webhook :
    Services → Source → String → Headers → Json → Gateway → Gateway × Response
route_webhook v shopify raw h payload g = elim (handle_shopify v raw h payload g) [
  | none ↦ (g, respond 500 (error_body "Internal server error"))
  | some r ↦ r
]
route_webhook v stripe raw h payload g = handle_stripe v payload g
route_webhook v twilio raw h payload g = handle_twilio v payload g
route_webhook v unknown raw h payload g = (g, respond 400 (error_body "Unknown source"))

unfoldable pub handle_webhook : Services → Source → String → Headers → Gateway → Gateway × Response
handle_webhook v source raw h g = elim (v.parse raw) [
  | none ↦ (g, respond 400 (error_body "Invalid JSON"))
  | some payload ↦ route_webhook v source raw h payload g
]

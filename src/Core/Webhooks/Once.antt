-- ===== src/Core/Webhooks/Once.antt =====
-- A webhook that is done is not done again (core/webhooks/webhook-handler.ts).
use pilots_hq.Prelude.{
  ℕ, suc, ◌+◌, ◌<◌, ◌≡◌, ◌⊎◌, inl, inr, refl, sym, ap, ◌∙◌, String, Bool, true, false, ◌&&◌, ◌||◌,
  Option, none, some, str_eq, arith, lt→ltb, ◌==◌, Bool-cases, Option-cases,
}
use pilots_hq.Core.Cache.{set_cached}
use pilots_hq.Core.Cache.RoundTrip.{get_cached-set_cached}
use pilots_hq.Core.Webhooks.{
  EventId, no_id, text_id, number_id, Payload, Json, null_json, object_json, Source, shopify,
  stripe, twilio, unknown, Headers, Delivery, order_created, incoming_sms, Body, ok_body,
  cached_body, empty_body, error_body, Response, Gateway, Services, namespace, respond, is_missing,
  idempotency_ttl, is_already_processed, mark_processed, deliver, finish, is_order_topic, order_id,
  handle_shopify, stripe_delivery, handle_stripe_event, handle_stripe, handle_sms, handle_twilio,
  route_webhook, handle_webhook,
}

-- An answer that says that the webhook has just been handled.
unfoldable pub is_new : Response → Bool
is_new r = (r.status_code == 200) && (elim r.body [
  | cached_body ↦ false
  | ok_body ↦ true
  | empty_body ↦ true
  | error_body e ↦ true
])

-- The id under which a webhook is remembered.
unfoldable pub webhook_id : Source → Json → EventId
unfolding order_id
webhook_id shopify payload = order_id payload
webhook_id stripe null_json = no_id
webhook_id stripe (object_json p) = elim p.object [ none ↦ no_id | some id ↦ id ]
webhook_id twilio null_json = no_id
webhook_id twilio (object_json p) = p.message_sid
webhook_id unknown payload = no_id

-- What is read of Redis by `v'` is what was written by `v`, within a day.
pub record IsSoonAfter (v v' : Services) : Type 0 where
  pub reads_back :
      (x : Option String) (text : String) → v.encode x ≡ some text → v'.decode text ≡ some x
  pub answers : v'.get_up ≡ true
  pub within : v'.now < v.now + 86400

-- What a mark needs, and what it leaves.
mark_processed-some :
    (v : Services) (key : String) (x : Option String) (g g' : Gateway)
    → str_eq key "" ≡ false
    → mark_processed v (text_id key) x g ≡ some g'
    → (text : String) × (v.encode x ≡ some text)
      × (g'.redis
          ≡ (set_cached v.encode true v.now namespace (some idempotency_ttl) key x g.redis).0)
unfolding mark_processed set_cached
mark_processed-some v key x g g' e marked = elim (Option-cases (v.encode x)) [
  | inl none_there ↦ absurd (ground (arith, none_there))
  | inr (text, there) ↦ elim (Bool-cases v.set_up) [
    | inl up ↦ (text, there, rw (set_cached, there) (ground (arith, there, up)))
    | inr down ↦ absurd (ground (arith, there, down))
  ]
]

is_marked :
    (v v' : Services) (key : String) (x : Option String) (g g' : Gateway)
    → IsSoonAfter v v'
    → str_eq key "" ≡ false
    → mark_processed v (text_id key) x g ≡ some g'
    → is_already_processed v' (text_id key) g' ≡ some true
unfolding is_already_processed
is_marked v v' key x g g' soon e marked =
    let (text, there, redis) = mark_processed-some v key x g g' e marked in
    let found =
      get_cached-set_cached v.encode v'.decode v.now v'.now namespace (some idempotency_ttl) key x
        text g.redis there (soon.reads_back x text there) in
    rw (e, soon.answers, redis, found, lt→ltb v'.now (v.now + 86400) soon.within) refl

finish-marked :
    (v v' : Services) (d : Option Delivery) (key : String) (x : Option String) (done : Body)
    (g : Gateway)
    → IsSoonAfter v v'
    → str_eq key "" ≡ false
    → is_new (finish v d (text_id key) x done g).1 ≡ true
    → is_already_processed v' (text_id key) (finish v d (text_id key) x done g).0 ≡ some true
unfolding finish is_new
finish-marked v v' d key x done g soon e new = elim (Option-cases (deliver v d g)) [
  | inl failed ↦ absurd (ground (arith, failed))
  | inr (g', delivered) ↦ elim (Option-cases (mark_processed v (text_id key) x g')) [
    | inl failed ↦ absurd (ground (arith, failed, delivered))
    | inr (g'', marked) ↦
        let done_so : finish v d (text_id key) x done g ≡ (g'', respond 200 done) =
          rw (finish, delivered, marked) refl in
        rw done_so (is_marked v v' key x g' g'' soon e marked)
  ]
]

check-cases : (o : Option Bool) → (o ≡ none) ⊎ ((o ≡ some true) ⊎ (o ≡ some false))
check-cases none = inl refl
check-cases (some true) = inr (inl refl)
check-cases (some false) = inr (inr refl)

-- An outcome of `finish`.
abbrev FromFinish : Services → EventId → Gateway → Gateway × Response → Type 0
FromFinish v id g r =
    (d : Option Delivery) × (x : Option String) × (done : Body) × (r ≡ finish v d id x done g)

shopify-new :
    (v : Services) (raw : String) (h : Headers) (payload : Json) (g : Gateway)
    → is_new (route_webhook v shopify raw h payload g).1 ≡ true
    → FromFinish v (order_id payload) g (route_webhook v shopify raw h payload g)
unfolding route_webhook handle_shopify is_new
shopify-new v raw h payload g new =
    elim (check-cases (is_already_processed v (order_id payload) g)) [
      | inl e ↦ absurd (ground (arith, e))
      | inr (inl e) ↦ absurd (ground (arith, e))
      | inr (inr e) ↦ elim (Bool-cases (is_order_topic h.topic)) [
        | inr other ↦ (none, h.topic, ok_body, rw (route_webhook, handle_shopify, e, other) refl)
        | inl order ↦ elim (Bool-cases (is_missing h.org_id)) [
          | inl missing ↦ absurd (ground (arith, e, order, missing))
          | inr there ↦ (
            some (order_created raw (elim h.org_id [ none ↦ "" | some o ↦ o ])),
            h.topic,
            ok_body,
            rw (route_webhook, handle_shopify, e, order, there) refl,
          )
        ]
      ]
    ]

stripe-new :
    (v : Services) (p : Payload) (id : EventId) (g : Gateway)
    → is_new (handle_stripe_event v p id g).1 ≡ true
    → FromFinish v id g (handle_stripe_event v p id g)
unfolding handle_stripe_event is_new
stripe-new v p id g new = elim (check-cases (is_already_processed v id g)) [
  | inl e ↦ absurd (ground (arith, e))
  | inr (inl e) ↦ absurd (ground (arith, e))
  | inr (inr e) ↦ (stripe_delivery p, some p.type, ok_body, rw (handle_stripe_event, e) refl)
]

sms-new :
    (v : Services) (from text : String) (id : EventId) (g : Gateway)
    → is_new (handle_sms v from text id g).1 ≡ true
    → FromFinish v id g (handle_sms v from text id g)
unfolding handle_sms is_new
sms-new v from text id g new = elim (check-cases (is_already_processed v id g)) [
  | inl e ↦ absurd (ground (arith, e))
  | inr (inl e) ↦ absurd (ground (arith, e))
  | inr (inr e) ↦ (some (incoming_sms from text), some from, empty_body, rw (handle_sms, e) refl)
]

handle_stripe_lem :
    (v : Services) (p : Payload) (id : EventId) (g : Gateway)
    → p.object ≡ some id
    → handle_stripe v (object_json p) g ≡ handle_stripe_event v p id g
unfolding handle_stripe
handle_stripe_lem v p id g e =
    ap
      (λ o. elim o [
        | none ↦ (g, respond 500 (error_body "Processing failed"))
        | some i ↦ handle_stripe_event v p i g
      ])
      e

-- An answer that is new comes from `finish`, whatever the source.
route_webhook-new :
    (v : Services) (source : Source) (raw : String) (h : Headers) (payload : Json) (g : Gateway)
    → is_new (route_webhook v source raw h payload g).1 ≡ true
    → FromFinish v (webhook_id source payload) g (route_webhook v source raw h payload g)
unfolding webhook_id route_webhook handle_stripe handle_twilio is_new
route_webhook-new v shopify raw h payload g new = shopify-new v raw h payload g new
route_webhook-new v stripe raw h null_json g new = absurd (cc new)
route_webhook-new v stripe raw h (object_json p) g new = elim (Option-cases p.object) [
  | inl e ↦ absurd (ground (arith, e))
  | inr (id, e) ↦
      rw (route_webhook, handle_stripe, webhook_id, e)
        (stripe-new v p id g (ap (λ r. is_new r.1) (sym (handle_stripe_lem v p id g e)) ∙ new))
]
route_webhook-new v twilio raw h null_json g new = absurd (cc new)
route_webhook-new v twilio raw h (object_json p) g new =
    elim (Bool-cases (is_missing p.from || is_missing p.body)) [
      | inl e ↦ absurd (ground (arith, e))
      | inr e ↦ rw (route_webhook, handle_twilio, e) (sms-new v _ _ p.message_sid g (rw e at new))
    ]
route_webhook-new v unknown raw h payload g new = absurd (cc new)

stripe_event-marked :
    (v : Services) (p : Payload) (id : EventId) (g : Gateway)
    → is_already_processed v id g ≡ some true
    → (handle_stripe_event v p id g).0 ≡ g
unfolding handle_stripe_event
stripe_event-marked v p id g e = rw (handle_stripe_event, e) refl

-- A webhook whose id is marked changes nothing.
route_webhook-marked :
    (v : Services) (source : Source) (raw : String) (h : Headers) (payload : Json) (g : Gateway)
    → is_already_processed v (webhook_id source payload) g ≡ some true
    → (route_webhook v source raw h payload g).0 ≡ g
unfolding webhook_id route_webhook handle_shopify handle_stripe handle_stripe_event handle_twilio
    handle_sms
route_webhook-marked v shopify raw h payload g e = rw (route_webhook, handle_shopify, e) refl
route_webhook-marked v stripe raw h null_json g e = refl
route_webhook-marked v stripe raw h (object_json p) g e = elim (Option-cases p.object) [
  | inl o ↦ rw (route_webhook, handle_stripe, o) refl
  | inr (id, o) ↦
      ap (λ r. r.0) (handle_stripe_lem v p id g o)
      ∙ stripe_event-marked v p id g
          (ap (λ x. is_already_processed v (elim x [ none ↦ no_id | some i ↦ i ]) g) (sym o) ∙ e)
]
route_webhook-marked v twilio raw h null_json g e = refl
route_webhook-marked v twilio raw h (object_json p) g e =
    elim (Bool-cases (is_missing p.from || is_missing p.body)) [
      | inl o ↦ rw (route_webhook, handle_twilio, o) refl
      | inr o ↦ rw (route_webhook, handle_twilio, o, handle_sms, e) refl
    ]
route_webhook-marked v unknown raw h payload g e = refl

-- After a webhook with a text as its id is handled anew, a later one with that id, of any source and
-- type, changes nothing: no connector is called and no mark is set, where Redis answers the check
-- and a day is not over.
pub same_id_once :
    (v v' : Services) (source source' : Source) (raw raw' : String) (h h' : Headers)
    (payload payload' : Json) (g : Gateway) (key : String)
    → IsSoonAfter v v'
    → webhook_id source payload ≡ text_id key
    → webhook_id source' payload' ≡ text_id key
    → str_eq key "" ≡ false
    → is_new (route_webhook v source raw h payload g).1 ≡ true
    → let g' = (route_webhook v source raw h payload g).0 in
      (route_webhook v' source' raw' h' payload' g').0 ≡ g'
same_id_once v v' source source' raw raw' h h' payload payload' g key soon first second there new =
    let (d, x, done, e) = route_webhook-new v source raw h payload g new in
    let e' = e ∙ ap (λ id. finish v d id x done g) first in
    let marked =
      finish-marked v v' d key x done g soon there (ap (λ r. is_new r.1) (sym e') ∙ new) in
    route_webhook-marked v' source' raw' h' payload' _ (
      ap (λ id. is_already_processed v' id (route_webhook v source raw h payload g).0) second
      ∙ ap (λ r. is_already_processed v' (text_id key) r.0) e'
      ∙ marked)

-- A Shopify webhook with a number other than 0 as its id is answered with 500 and changes nothing,
-- whatever its topic: the text of the key is built with a method that numbers lack.
pub numeric_id_fails :
    (v : Services) (raw : String) (h : Headers) (p : Payload) (g : Gateway) (n : ℕ)
    → v.parse raw ≡ some (object_json p)
    → p.id ≡ number_id (suc n)
    → handle_webhook v shopify raw h g ≡ (g, respond 500 (error_body "Internal server error"))
unfolding handle_webhook route_webhook handle_shopify order_id is_already_processed
numeric_id_fails v raw h p g n parsed e = rw (handle_webhook, parsed) (rw e refl)

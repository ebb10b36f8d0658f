-- ===== src/Payments/Webhook.antt =====
-- The two ways in which a payment is reported: `verify` and `handleWebhook` of
-- apps/backend/src/modules/services/services.payments.ts. The signatures are checked by the gateway's
-- library, so their validity is an argument. What a paid event does to the tables of the plans is in
-- Plans/Webhook.
use finskool_monorepo.Base.{
  ℕ, Bool, true, false, not, ◌&&◌, ◌||◌, ◌==◌, if◌then◌else◌, Option, none, some, [], ◌∷◌, ◌++◌,
  find_first, update_where, any_where, Result, ok, err, ErrorCode, AppError,
}
use finskool_monorepo.Payments.{
  RazorpayPaymentStatus, RazorpaySettleSource, ServiceRequest, WebhookEvent, PayStore, PayEnv,
  find_order, find_quote,
}
use finskool_monorepo.Payments.Settle.{SettleInput, SettleOutcome, settle}

pub data WebhookEventType : Type 0 where
  order_paid payment_captured payment_failed other_event : WebhookEventType

pub record WebhookPayload : Type 0 where
  pub event : WebhookEventType
  pub order_id : Option ℕ
  pub payment_id : Option ℕ
  pub amount_paise : Option ℕ
  pub currency : Option ℕ

-- A later "captured" is never downgraded by a late "failed".
unfoldable pub record_failed_attempt : ℕ → ℕ → Option ℕ → PayStore → PayStore
record_failed_attempt order_id payment_id amount s = elim (find_order order_id s) [
  | none ↦ s
  | some order ↦
      if any_where (λ p. p.razorpay_payment_id == payment_id) s.payments then s else record s {
        payments =
            s.payments
            ++ record {
              razorpay_payment_id = payment_id;
              order_id = order.razorpay_order_id;
              amount_paise = elim amount [ none ↦ order.amount_paise | some a ↦ a ];
              status = RazorpayPaymentStatus.failed;
              settled_via = none;
            }
              ∷ [];
      }
]

abbrev pub webhook_input : ℕ → ℕ → WebhookPayload → SettleInput
webhook_input order_id payment_id p = record {
  razorpay_order_id = order_id;
  razorpay_payment_id = payment_id;
  amount_paise = p.amount_paise;
  currency = p.currency;
  source = RazorpaySettleSource.webhook;
}

abbrev pub is_ok : Result SettleOutcome → Bool
is_ok (ok outcome) = true
is_ok (err e) = false

-- An order of a plan is done with its own tables; any other is settled here.
abbrev pub settle_unless_plan : PayEnv → SettleInput → Result Bool → PayStore → Bool × PayStore
settle_unless_plan env input (err e) s = (false, s)
settle_unless_plan env input (ok true) s = (true, s)
settle_unless_plan env input (ok false) s = let (r, after) = settle env input s in (is_ok r, after)

abbrev pub process_ids : PayEnv → WebhookPayload → ℕ → ℕ → PayStore → Bool × PayStore
process_ids env p order_id payment_id s = elim p.event [
  | WebhookEventType.payment_failed ↦
      (true, record_failed_attempt order_id payment_id p.amount_paise s)
  | WebhookEventType.other_event ↦ (true, s)
  | _ ↦
      settle_unless_plan env (webhook_input order_id payment_id p)
        (env.plan_purchase order_id payment_id p.amount_paise) s
]

-- Whether the event was processed; every other event is stored for the record only.
unfoldable pub process_webhook_event : PayEnv → WebhookPayload → PayStore → Bool × PayStore
unfolding settle record_failed_attempt
process_webhook_event env p s = elim p.order_id [
  | none ↦ (true, s)
  | some order_id ↦ elim p.payment_id [
    | none ↦ (true, s)
    | some payment_id ↦ process_ids env p order_id payment_id s
  ]
]

abbrev pub is_event : ℕ → WebhookEvent → Bool
is_event event_id e = e.razorpay_event_id == event_id

unfoldable pub store_event : ℕ → PayStore → PayStore
store_event event_id s = if any_where (is_event event_id) s.webhook_events then s else record s {
  webhook_events =
      s.webhook_events ++ record { razorpay_event_id = event_id; processed = false } ∷ [];
}

unfoldable pub mark_processed : ℕ → PayStore → PayStore
mark_processed event_id s = record s {
  webhook_events =
      update_where (is_event event_id) (λ e. record e { processed = true }) s.webhook_events;
}

-- The status that Razorpay is answered with: anything but 2xx makes it retry.
unfoldable pub handle_webhook : PayEnv → Bool → ℕ → WebhookPayload → PayStore → ℕ × PayStore
unfolding store_event mark_processed process_webhook_event
handle_webhook env signature_valid event_id p s =
    if not signature_valid
    then (400, s)
    else if any_where (λ e. is_event event_id e && e.processed) s.webhook_events
    then (200, s)
    else (let (processed, after) = process_webhook_event env p (store_event event_id s) in
        if processed then (200, mark_processed event_id after) else (500, after))

-- The same answer whether this call settled the payment, the webhook had, or it is a retry.
unfoldable pub verify_answer : ℕ → ℕ → Result SettleOutcome → PayStore → Result ServiceRequest
verify_answer user_id request_id (err e) s = err e
verify_answer user_id request_id (ok outcome) s =
    elim (find_first (λ r. r.id == request_id && r.user_id == user_id) s.requests) [
      | none ↦ err (AppError.not_found ErrorCode.no_code)
      | some request ↦ ok request
    ]

abbrev pub verify_input : ℕ → ℕ → SettleInput
verify_input order_id payment_id = record {
  razorpay_order_id = order_id;
  razorpay_payment_id = payment_id;
  amount_paise = none;
  currency = none;
  source = RazorpaySettleSource.verify;
}

-- The app's own report, whose amount is the order's.
unfoldable pub verify : PayEnv → Bool → ℕ → ℕ → ℕ → ℕ → PayStore → Result ServiceRequest × PayStore
unfolding settle verify_answer
verify env signature_valid user_id request_id order_id payment_id s =
    let not_there : AppError = AppError.not_found ErrorCode.no_code in
    elim (find_order order_id s) [
      | none ↦ (err not_there, s)
      | some order ↦ elim (find_quote order.reference_id s) [
        | none ↦ (err not_there, s)
        | some quote ↦
            if not (order.user_id == user_id) || not (quote.request_id == request_id)
            then (err not_there, s)
            else if not signature_valid
            then (err (AppError.bad_request ErrorCode.payment_signature_invalid), s)
            else (let (r, after) = settle env (verify_input order_id payment_id) s in
                (verify_answer user_id request_id r after, after))
      ]
    ]

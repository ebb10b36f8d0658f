-- ===== src/Payments/Quotes.antt =====
-- Sending a quote: `sendQuote` of apps/backend/src/modules/services/admin-services.service.ts, up to the
-- end of its transaction.
use finskool_monorepo.Base.{
  ℕ, suc, ◌+◌, ◌-◌, ◌*◌, Bool, not, ◌&&◌, ◌==◌, ltb, if◌then◌else◌, Option, none, some, List, [],
  ◌∷◌, ◌++◌, find_first, update_where, max, Result, ok, err, ErrorCode, AppError,
}
use finskool_monorepo.Billing.{compute_quote_amounts}
use finskool_monorepo.Payments.{
  ServiceRequestStatus, ServiceQuoteStatus, ServiceRequest, ServiceQuote, ServiceEventType,
  SystemMessage, PayStore, PayEnv, is_active, find_request,
}
use finskool_monorepo.Payments.Close.{payment_in_progress_window_ms}
use finskool_monorepo.Payments.Desk.{
  AdminViewer, request_not_found, service_closed, assigned_to_other, can_act, note_event,
  claim_in_tx, claim_if_free,
}

-- The amount in paise and the rate in hundredths of a percent, as the validator leaves them.
pub record SendQuote : Type 0 where
  pub base_paise : ℕ
  pub gst_rate_bps : Option ℕ
  pub expiry_days : Option ℕ
  pub confirm_replace : Bool

abbrev pub or_default : Option ℕ → ℕ → ℕ
or_default none d = d
or_default (some a) d = a

abbrev pub refused_by_stage : ServiceRequestStatus → Option AppError
refused_by_stage ServiceRequestStatus.closed = some service_closed
refused_by_stage ServiceRequestStatus.paid = some (AppError.conflict ErrorCode.service_already_paid)
refused_by_stage _ = none

-- The member opened the payment sheet in the last minutes; never is the start of the epoch.
abbrev pub is_being_paid : PayEnv → ServiceQuote → Bool
is_being_paid env q =
    ltb (env.now - or_default q.payment_started_at 0) payment_in_progress_window_ms

abbrev pub is_active_of : ℕ → ServiceQuote → Bool
is_active_of id q = q.request_id == id && is_active q.status

-- An id that no quote has.
unfoldable pub new_quote_id : List ServiceQuote → ℕ
new_quote_id [] = 0
new_quote_id (q ∷ qs) = max (suc q.id) (new_quote_id qs)

-- `_max: { version: true }`, or 0.
unfoldable pub latest_version : ℕ → List ServiceQuote → ℕ
latest_version id [] = 0
latest_version id (q ∷ qs) =
    let rest = latest_version id qs in if q.request_id == id then max q.version rest else rest

abbrev pub day_ms : ℕ
day_ms = 24 * 60 * 60 * 1000

unfoldable pub new_quote : PayEnv → ℕ → SendQuote → List ServiceQuote → ServiceQuote
unfolding new_quote_id latest_version compute_quote_amounts
new_quote env id dto qs =
    let amounts =
      compute_quote_amounts dto.base_paise (or_default dto.gst_rate_bps env.default_gst_rate_bps) in
    record {
      id = new_quote_id qs;
      request_id = id;
      version = latest_version id qs + 1;
      base_paise = amounts.base_paise;
      gst_paise = amounts.gst_paise;
      total_paise = amounts.total_paise;
      expires_at = env.now + or_default dto.expiry_days env.default_quote_expiry_days * day_ms;
      status = ServiceQuoteStatus.active;
      billing = none;
      payment_started_at = none;
    }

unfoldable pub supersede : AdminViewer → ℕ → ServiceQuote → PayStore → PayStore
supersede a id active s =
    note_event id (ServiceEventType.quote_superseded active.id active.version) a.id (record s {
      quotes =
          update_where (λ q. q.id == active.id)
            (λ q. record q { status = ServiceQuoteStatus.superseded }) s.quotes;
    })

abbrev pub offer : ℕ → ServiceRequest → ServiceRequest
offer now r = record r {
  status = ServiceRequestStatus.quote_sent;
  last_message_at = now;
  user_unread_count = r.user_unread_count + 1;
}

unfoldable pub issue_quote : PayEnv → AdminViewer → ℕ → SendQuote → PayStore → Result ℕ × PayStore
unfolding new_quote
issue_quote env a id dto s =
    let quote = new_quote env id dto s.quotes in
    (
      ok quote.id,
      note_event id (ServiceEventType.quote_sent quote.id quote.version) a.id (record s {
        quotes = s.quotes ++ quote ∷ [];
        requests = update_where (λ r. r.id == id) (offer env.now) s.requests;
        messages = s.messages ++ (id, SystemMessage.quote_card quote.id) ∷ [];
      }),
    )

-- An earlier active quote is replaced; an error undoes the claim as well, so `s` is what was before it.
unfoldable pub replace_quote :
    PayEnv → AdminViewer → ℕ → SendQuote → PayStore → PayStore → Result ℕ × PayStore
unfolding supersede issue_quote
replace_quote env a id dto s claimed = elim (find_first (is_active_of id) claimed.quotes) [
  | none ↦ issue_quote env a id dto claimed
  | some active ↦
      if not dto.confirm_replace && is_being_paid env active
      then (err (AppError.conflict ErrorCode.quote_payment_in_progress), s)
      else issue_quote env a id dto (supersede a id active claimed)
]

-- The transaction, under the lock of the request.
unfoldable pub send_quote_in_tx :
    PayEnv → AdminViewer → ℕ → SendQuote → PayStore → Result ℕ × PayStore
unfolding claim_in_tx replace_quote
send_quote_in_tx env a id dto s = elim (find_request id s) [
  | none ↦ (err AppError.record_missing, s)
  | some fresh ↦ elim (refused_by_stage fresh.status) [
    | some e ↦ (err e, s)
    | none ↦
        if not (can_act a fresh)
        then (err assigned_to_other, s)
        else replace_quote env a id dto s (claim_if_free fresh id a.id s)
  ]
]

unfoldable pub send_quote : PayEnv → AdminViewer → ℕ → SendQuote → PayStore → Result ℕ × PayStore
unfolding send_quote_in_tx
send_quote env a id dto s =
    if not env.billing_configured
    then (err (AppError.conflict ErrorCode.billing_not_configured), s)
    else elim (find_request id s) [
      | none ↦ (err request_not_found, s)
      | some request ↦ elim (refused_by_stage request.status) [
        | some e ↦ (err e, s)
        | none ↦
            if not (can_act a request)
            then (err assigned_to_other, s)
            else send_quote_in_tx env a id dto (env.others s)
      ]
    ]

-- ===== src/Payments/Start.antt =====
-- Starting a payment: `createOrder` of apps/backend/src/modules/services/services.payments.ts, with
-- `effectiveQuoteStatus` of services.shared.ts.
use finskool_monorepo.Base.{
  ℕ, Bool, not, ◌&&◌, ◌||◌, ◌==◌, ltb, leb, if◌then◌else◌, Option, none, some, [], ◌∷◌, ◌++◌,
  find_first, count_where, update_where, any_where, Result, ok, err, ErrorCode, AppError,
}
use finskool_monorepo.Payments.{
  ServiceRequestStatus, ServiceQuoteStatus, RazorpayOrderStatus, ServiceQuote, RazorpayOrder,
  PayStore, PayEnv, is_active, is_paid_order,
}

abbrev pub not_there : AppError
not_there = AppError.not_found ErrorCode.no_code

abbrev pub not_payable : AppError
not_payable = AppError.conflict ErrorCode.quote_not_payable

-- A quote past its expiry reads as expired before the sweep has recorded it.
unfoldable pub effective_quote_status : ServiceQuote → ℕ → ServiceQuoteStatus
effective_quote_status q now =
    if is_active q.status && leb q.expires_at now then ServiceQuoteStatus.expired else q.status

-- What the status of the request has to say against paying.
abbrev pub refused_by_request : ServiceRequestStatus → Option AppError
refused_by_request ServiceRequestStatus.closed = some (AppError.conflict ErrorCode.service_closed)
refused_by_request ServiceRequestStatus.paid =
    some (AppError.conflict ErrorCode.service_already_paid)
refused_by_request ServiceRequestStatus.requested = some not_payable
refused_by_request ServiceRequestStatus.quote_sent = none

abbrev pub refused_by_quote : ServiceQuoteStatus → Option AppError
refused_by_quote ServiceQuoteStatus.active = none
refused_by_quote ServiceQuoteStatus.expired = some (AppError.conflict ErrorCode.quote_expired)
refused_by_quote _ = some not_payable

abbrev pub refused_by_settings : PayEnv → Option AppError
refused_by_settings env =
    if not env.billing_configured
    then some (AppError.conflict ErrorCode.billing_not_configured)
    else if not env.gateway_configured
    then some (AppError.unavailable ErrorCode.payments_not_configured)
    else none

abbrev pub or_else : Option AppError → Option AppError → Option AppError
or_else none o = o
or_else (some e) o = some e

-- 'INR'
abbrev pub inr : ℕ
inr = 0

-- The partial unique index `uq_razorpay_orders_one_unpaid` allows one of these for a quote.
abbrev pub is_unpaid_for : ℕ → RazorpayOrder → Bool
is_unpaid_for quote_id o = o.reference_id == quote_id && not (is_paid_order o.status)

abbrev pub unpaid : ℕ → PayStore → Option RazorpayOrder
unpaid quote_id s = find_first (is_unpaid_for quote_id) s.orders

-- `razorpayOrder.create`; the loser of a race shares the winner's order.
unfoldable pub create_or_share : ℕ → ℕ → ServiceQuote → PayStore → Result ℕ × PayStore
create_or_share gateway_id user_id quote s =
    if any_where (is_unpaid_for quote.id) s.orders
      || any_where (λ o. o.razorpay_order_id == gateway_id) s.orders
    then elim (unpaid quote.id s) [
      | none ↦ (err AppError.unique_violation, s)
      | some o ↦ (ok o.razorpay_order_id, s)
    ]
    else (
      ok gateway_id,
      record s {
        orders =
            s.orders
            ++ record {
              razorpay_order_id = gateway_id;
              reference_id = quote.id;
              user_id = user_id;
              amount_paise = quote.total_paise;
              currency = inr;
              status = RazorpayOrderStatus.created;
              paid_at = none;
            }
              ∷ [];
      },
    )

-- The order that is there, or a new one from the gateway, whose answer takes a while.
unfoldable pub order_for : PayEnv → ℕ → ServiceQuote → PayStore → Result ℕ × PayStore
unfolding create_or_share
order_for env user_id quote s = elim (unpaid quote.id s) [
  | some o ↦ (ok o.razorpay_order_id, s)
  | none ↦ elim env.new_gateway_order [
    | none ↦ (err (AppError.bad_gateway ErrorCode.payment_gateway_error), s)
    | some gateway_id ↦ create_or_share gateway_id user_id quote (env.others s)
  ]
]

abbrev pub is_payable_now : PayEnv → ℕ → ServiceQuote → Bool
is_payable_now env quote_id q = q.id == quote_id && is_active q.status && ltb env.now q.expires_at

-- Records the buyer's details and the start, while the quote is still active and not expired.
unfoldable pub start_payment : PayEnv → ℕ → ServiceQuote → ℕ → PayStore → Result ℕ × PayStore
unfolding order_for
start_payment env user_id quote billing s =
    if count_where (is_payable_now env quote.id) s.quotes == 0
    then (err not_payable, s)
    else order_for env user_id quote (record s {
      quotes =
          update_where (is_payable_now env quote.id)
            (λ q. record q { billing = some billing; payment_started_at = some env.now }) s.quotes;
    })

unfoldable pub create_order : PayEnv → ℕ → ℕ → ℕ → ℕ → PayStore → Result ℕ × PayStore
unfolding effective_quote_status start_payment
create_order env user_id request_id quote_id billing s =
    elim (find_first (λ r. r.id == request_id && r.user_id == user_id) s.requests) [
      | none ↦ (err not_there, s)
      | some request ↦ elim (refused_by_request request.status) [
        | some e ↦ (err e, s)
        | none ↦ elim (find_first (λ q. q.id == quote_id && q.request_id == request_id) s.quotes) [
          | none ↦ (err not_there, s)
          | some quote ↦
              elim (or_else (refused_by_quote (effective_quote_status quote env.now))
                (refused_by_settings env)) [
                  | some e ↦ (err e, s)
                  | none ↦ start_payment env user_id quote billing (env.others s)
                ]
        ]
      ]
    ]

-- ===== src/Payments/Settle.antt =====
-- The one place where a payment becomes real: `settle` of
-- apps/backend/src/modules/services/services.payments.ts, up to the end of its transaction. The tests on
-- the order's purpose are left out: `service_quote` is the only purpose there is.
use finskool_monorepo.Base.{
  ℕ, suc, ◌+◌, Bool, true, false, not, ◌&&◌, ◌||◌, ◌==◌, is_none, if◌then◌else◌, Option, none, some,
  List, [], ◌∷◌, ◌++◌, find_first, update_where, any_where, Result, ok, err, ErrorCode, AppError,
}
use finskool_monorepo.Payments.{
  ServiceRequestStatus, ServiceQuoteStatus, RazorpayOrderStatus, RazorpayPaymentStatus,
  RazorpaySettleSource, ServiceRequest, ServiceQuote, RazorpayOrder, RazorpayPayment,
  InvoiceCounter, ServiceEventType, SystemMessage, PayStore, PayEnv, is_active, is_paid_order,
  is_quote_sent, find_order, find_quote, find_request,
}

-- `amount_paise` and `currency` are missing on the verify path.
pub record SettleInput : Type 0 where
  pub razorpay_order_id : ℕ
  pub razorpay_payment_id : ℕ
  pub amount_paise : Option ℕ
  pub currency : Option ℕ
  pub source : RazorpaySettleSource

pub data SettleOutcome : Type 0 where
  settled already_settled flagged unknown_order : SettleOutcome

-- `input.amountPaise ?? orderPaise`
abbrev pub paid_amount : SettleInput → RazorpayOrder → ℕ
paid_amount input order = elim input.amount_paise [ none ↦ order.amount_paise | some a ↦ a ]

unfoldable pub is_mismatch : SettleInput → RazorpayOrder → Bool
is_mismatch input order =
    not (paid_amount input order == order.amount_paise)
    || elim input.currency [ none ↦ false | some c ↦ not (c == order.currency) ]

-- `razorpayPayment.upsert`
unfoldable pub upsert_payment : SettleInput → RazorpayOrder → PayStore → PayStore
upsert_payment input order s =
    let same : RazorpayPayment → Bool = λ p. p.razorpay_payment_id == input.razorpay_payment_id in
    record s {
      payments =
          if any_where same s.payments
          then update_where same (λ p. record p { status = RazorpayPaymentStatus.captured })
              s.payments
          else s.payments
            ++ record {
              razorpay_payment_id = input.razorpay_payment_id;
              order_id = order.razorpay_order_id;
              amount_paise = paid_amount input order;
              status = RazorpayPaymentStatus.captured;
              settled_via = none;
            }
              ∷ [];
    }

unfoldable pub mark_order_paid : ℕ → ℕ → PayStore → PayStore
mark_order_paid now order_id s = record s {
  orders =
      update_where (λ o. o.razorpay_order_id == order_id)
        (λ o. record o { status = RazorpayOrderStatus.paid; paid_at = some now }) s.orders;
}

-- The payment is kept for a manual look: nothing is granted.
unfoldable pub flag : ℕ → ℕ → ℕ → PayStore → PayStore
flag now request_id actor_id s = record s {
  requests =
      update_where (λ r. r.id == request_id)
        (λ r. record r {
          requires_review = true;
          last_message_at = now;
          admin_unread_count = r.admin_unread_count + 1;
        })
        s.requests;
  events =
      s.events
      ++ record {
        request_id = request_id;
        kind = ServiceEventType.payment_flagged;
        actor_id = some actor_id;
      }
        ∷ [];
  messages = s.messages ++ (request_id, SystemMessage.under_review) ∷ [];
}

unfoldable pub grant : PayEnv → SettleInput → RazorpayOrder → ServiceQuote → ℕ → PayStore → PayStore
grant env input order quote request_id s = record s {
  quotes =
      update_where (λ q. q.id == quote.id) (λ q. record q { status = ServiceQuoteStatus.paid })
        s.quotes;
  requests =
      update_where (λ r. r.id == request_id)
        (λ r. record r {
          status = ServiceRequestStatus.paid;
          paid_at = some env.now;
          last_message_at = env.now;
          admin_unread_count = r.admin_unread_count + 1;
        })
        s.requests;
  payments =
      update_where (λ p. p.razorpay_payment_id == input.razorpay_payment_id)
        (λ p. record p { settled_via = some input.source }) s.payments;
  events =
      s.events
      ++ record {
        request_id = request_id;
        kind = ServiceEventType.paid;
        actor_id = some order.user_id;
      }
        ∷ [];
  messages = s.messages ++ (request_id, SystemMessage.payment_received) ∷ [];
}

-- The counter of a financial year; no row is 0.
unfoldable pub last_number_of : ℕ → List InvoiceCounter → ℕ
unfolding find_first
last_number_of year cs = elim (find_first (λ c. c.financial_year == year) cs) [
  | none ↦ 0
  | some c ↦ c.last_number
]

-- `INSERT … VALUES (year, 1) ON CONFLICT … SET last_number = last_number + 1`
unfoldable pub count_up : ℕ → List InvoiceCounter → List InvoiceCounter
count_up year [] = record { financial_year = year; last_number = 1 } ∷ []
count_up year (c ∷ cs) =
    if c.financial_year == year
    then record c { last_number = suc c.last_number } ∷ cs
    else c ∷ count_up year cs

unfoldable pub issue_invoice : PayEnv → SettleInput → ServiceQuote → ℕ → PayStore → PayStore
unfolding count_up last_number_of
issue_invoice env input quote request_id s =
    let counters = count_up env.financial_year s.counters in
    record s {
      counters = counters;
      invoices =
          s.invoices
          ++ record {
            request_id = request_id;
            quote_id = quote.id;
            payment_id = input.razorpay_payment_id;
            financial_year = env.financial_year;
            sequence = last_number_of env.financial_year counters;
            total_paise = quote.total_paise;
          }
            ∷ [];
    }

-- Paid, but with nothing to invoice with: an admin sorts it out.
unfoldable pub no_invoice : ℕ → ℕ → PayStore → PayStore
no_invoice request_id actor_id s = record s {
  requests =
      update_where (λ r. r.id == request_id) (λ r. record r { requires_review = true }) s.requests;
  events =
      s.events
      ++ record {
        request_id = request_id;
        kind = ServiceEventType.payment_flagged;
        actor_id = some actor_id;
      }
        ∷ [];
}

unfoldable pub invoice_or_flag :
    PayEnv → SettleInput → RazorpayOrder → ServiceQuote → ℕ → PayStore → PayStore
unfolding issue_invoice no_invoice
invoice_or_flag env input order quote request_id s =
    if env.billing_configured && not (is_none quote.billing)
    then issue_invoice env input quote request_id s
    else no_invoice request_id order.user_id s

-- From the tests on: the order is not paid yet, and its quote and request are as they are now.
unfoldable pub settle_unpaid :
    PayEnv
    → SettleInput
    → RazorpayOrder
    → ServiceQuote
    → ServiceRequest
    → PayStore
    → SettleOutcome × PayStore
unfolding is_mismatch mark_order_paid flag grant invoice_or_flag
settle_unpaid env input order quote request s =
    let marked = mark_order_paid env.now order.razorpay_order_id s in
    if is_mismatch input order || not (is_quote_sent request.status) || not (is_active quote.status)
    then (flagged, flag env.now request.id order.user_id marked)
    else (
      settled,
      invoice_or_flag env input order quote request.id
          (grant env input order quote request.id marked),
    )

abbrev pub row_missing : AppError
row_missing = AppError.not_found ErrorCode.no_code

-- The transaction, under the lock of the request; `findUniqueOrThrow` rolls it back.
unfoldable pub settle_in_tx :
    PayEnv → SettleInput → RazorpayOrder → ServiceQuote → PayStore → Result SettleOutcome × PayStore
unfolding upsert_payment settle_unpaid
settle_in_tx env input order quote_ref s =
    let noted = upsert_payment input order s in
    elim (find_order order.razorpay_order_id noted) [
      | none ↦ (err row_missing, s)
      | some fresh ↦
          if is_paid_order fresh.status
          then (ok already_settled, noted)
          else elim (find_quote order.reference_id noted) [
            | none ↦ (err row_missing, s)
            | some quote ↦ elim (find_request quote_ref.request_id noted) [
              | none ↦ (err row_missing, s)
              | some request ↦
                  let (outcome, after) = settle_unpaid env input order quote request noted in
                  (ok outcome, after)
            ]
          ]
    ]

unfoldable pub settle : PayEnv → SettleInput → PayStore → Result SettleOutcome × PayStore
unfolding settle_in_tx
settle env input s = elim (find_order input.razorpay_order_id s) [
  | none ↦ (ok unknown_order, s)
  | some order ↦ elim (find_quote order.reference_id s) [
    | none ↦ (ok unknown_order, s)
    | some quote_ref ↦ settle_in_tx env input order quote_ref (env.others s)
  ]
]

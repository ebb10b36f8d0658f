-- ===== src/Payments.antt =====
-- Paying the quote of a service request: `ServicePaymentsService` of
-- apps/backend/src/modules/services/services.payments.ts, with the rows of
-- apps/backend/prisma/schema.prisma that it works on. Amounts are whole paise.
pub mod Settle
pub mod Start
pub mod Close
pub mod Webhook
pub mod Cases
pub mod Once
pub mod Receipts
pub mod Numbers
pub mod Desk
pub mod Rating
pub mod Quotes
pub mod Run
pub mod Moves
pub mod Money
mod Examples
use finskool_monorepo.Access.{Directory}
use finskool_monorepo.Base.{
  ℕ, suc, ◌+◌, Bool, true, false, not, ◌&&◌, ◌||◌, ◌==◌, is_none, if◌then◌else◌, Option, none, some,
  List, [], ◌∷◌, ◌++◌, find_first, Result,
}

pub data ServiceRequestStatus : Type 0 where
  requested quote_sent paid closed : ServiceRequestStatus

pub data ServiceClosedReason : Type 0 where
  completed declined cancelled_by_member : ServiceClosedReason

pub data ServiceQuoteStatus : Type 0 where
  active superseded expired paid cancelled : ServiceQuoteStatus

pub data RazorpayOrderStatus : Type 0 where
  created paid : RazorpayOrderStatus

pub data RazorpayPaymentStatus : Type 0 where
  authorized captured failed : RazorpayPaymentStatus

pub data RazorpaySettleSource : Type 0 where
  verify webhook : RazorpaySettleSource

pub record ServiceRequest : Type 0 where
  pub id : ℕ
  pub user_id : ℕ
  pub status : ServiceRequestStatus
  pub closed_reason : Option ServiceClosedReason
  pub user_unread_count : ℕ
  pub admin_unread_count : ℕ
  pub last_message_at : ℕ
  pub paid_at : Option ℕ
  pub closed_at : Option ℕ
  pub requires_review : Bool
  pub assigned_admin_id : Option ℕ
  pub rating : Option ℕ

-- `billing` is the buyer's details once the member has given them.
pub record ServiceQuote : Type 0 where
  pub id : ℕ
  pub request_id : ℕ
  pub version : ℕ
  pub base_paise : ℕ
  pub gst_paise : ℕ
  pub total_paise : ℕ
  pub expires_at : ℕ
  pub status : ServiceQuoteStatus
  pub billing : Option ℕ
  pub payment_started_at : Option ℕ

pub record RazorpayOrder : Type 0 where
  pub razorpay_order_id : ℕ
  pub reference_id : ℕ
  pub user_id : ℕ
  pub amount_paise : ℕ
  pub currency : ℕ
  pub status : RazorpayOrderStatus
  pub paid_at : Option ℕ

pub record RazorpayPayment : Type 0 where
  pub razorpay_payment_id : ℕ
  pub order_id : ℕ
  pub amount_paise : ℕ
  pub status : RazorpayPaymentStatus
  pub settled_via : Option RazorpaySettleSource

pub record ServiceInvoice : Type 0 where
  pub request_id : ℕ
  pub quote_id : ℕ
  pub payment_id : ℕ
  pub financial_year : ℕ
  pub sequence : ℕ
  pub total_paise : ℕ

pub record InvoiceCounter : Type 0 where
  pub financial_year : ℕ
  pub last_number : ℕ

pub data ServiceEventType : Type 0 where
  paid payment_flagged quote_expired cancelled review_resolved : ServiceEventType
  assigned : (to_admin_id : ℕ) → ServiceEventType
  reassigned : (to_admin_id from_admin_id : ℕ) → ServiceEventType
  quote_sent quote_superseded : (quote_id version : ℕ) → ServiceEventType
  closed : ServiceClosedReason → ServiceEventType

pub record ServiceEvent : Type 0 where
  pub request_id : ℕ
  pub kind : ServiceEventType
  pub actor_id : Option ℕ

-- The messages that paying puts into the chat of a request: the system's own, and the card of a quote.
pub data SystemMessage : Type 0 where
  payment_received under_review quote_lapsed : SystemMessage
  quote_card : (quote_id : ℕ) → SystemMessage

-- The row of a plan order's receipt, numbered in the series of its counter.
pub record PlanReceipt : Type 0 where
  pub plan_order_id : ℕ
  pub series : ℕ
  pub sequence : ℕ

-- `processed` is `processedAt !== null`.
pub record WebhookEvent : Type 0 where
  pub razorpay_event_id : ℕ
  pub processed : Bool

pub record PayStore : Type 0 where
  pub requests : List ServiceRequest
  pub quotes : List ServiceQuote
  pub orders : List RazorpayOrder
  pub payments : List RazorpayPayment
  pub invoices : List ServiceInvoice
  pub counters : List InvoiceCounter
  pub plan_receipts : List PlanReceipt
  pub events : List ServiceEvent
  pub messages : List (ℕ × SystemMessage)
  pub webhook_events : List WebhookEvent

-- What one call meets: the time, the financial year of it and the key of the year's plain receipts, whether a
-- receipt can be issued, the settings, the users, the gateway's
-- answer to a new order, what `settlePlanPurchase` answers (Plans/Settle), and what others commit between
-- its reads and its transaction.
pub record PayEnv : Type 0 where
  pub now : ℕ
  pub financial_year : ℕ
  pub receipt_series : ℕ
  pub receipts_up : Bool
  pub billing_configured : Bool
  pub gateway_configured : Bool
  pub default_gst_rate_bps : ℕ
  pub default_quote_expiry_days : ℕ
  pub directory : Directory
  pub new_gateway_order : Option ℕ
  pub plan_purchase : (order_id payment_id : ℕ) → Option ℕ → Result Bool
  pub others : PayStore → PayStore

abbrev pub is_closed : ServiceRequestStatus → Bool
is_closed ServiceRequestStatus.closed = true
is_closed _ = false

abbrev pub is_paid_request : ServiceRequestStatus → Bool
is_paid_request ServiceRequestStatus.paid = true
is_paid_request _ = false

abbrev pub is_active : ServiceQuoteStatus → Bool
is_active ServiceQuoteStatus.active = true
is_active _ = false

abbrev pub is_paid_quote : ServiceQuoteStatus → Bool
is_paid_quote ServiceQuoteStatus.paid = true
is_paid_quote _ = false

abbrev pub is_paid_order : RazorpayOrderStatus → Bool
is_paid_order RazorpayOrderStatus.paid = true
is_paid_order RazorpayOrderStatus.created = false

abbrev pub is_quote_sent : ServiceRequestStatus → Bool
is_quote_sent ServiceRequestStatus.quote_sent = true
is_quote_sent _ = false

abbrev pub find_order : ℕ → PayStore → Option RazorpayOrder
find_order id s = find_first (λ o. o.razorpay_order_id == id) s.orders

abbrev pub find_quote : ℕ → PayStore → Option ServiceQuote
find_quote id s = find_first (λ q. q.id == id) s.quotes

abbrev pub find_request : ℕ → PayStore → Option ServiceRequest
find_request id s = find_first (λ r. r.id == id) s.requests

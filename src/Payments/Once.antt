-- ===== src/Payments/Once.antt =====
-- A second report of one payment (`settle` of services.payments.ts).
use finskool_monorepo.Base.{
  ℕ, ◌≡◌, ◌≢◌, refl, ap, subst, ◌∙◌, Bool, true, false, not, ◌&&◌, ◌||◌, ◌==◌, is_none, Option,
  none, some, List, [], ◌∷◌, find_first, update_where, Result, ok, err, arith, Bool-cases, inl, inr,
}
use finskool_monorepo.Payments.Cases.{settle_in_tx_cases, settle_cases}
use finskool_monorepo.Payments.{
  RazorpayOrder, ServiceQuote, ServiceRequest, RazorpayOrderStatus, PayStore, PayEnv, is_active,
  is_paid_order, is_quote_sent, find_order,
}
use finskool_monorepo.Payments.Settle.{
  SettleInput, SettleOutcome, settled, already_settled, flagged, unknown_order, is_mismatch,
  upsert_payment, mark_order_paid, flag, grant, no_invoice, issue_invoice, invoice_or_flag,
  settle_unpaid, settle_in_tx, settle,
}

abbrev paid_row : Option RazorpayOrder → Bool
paid_row none = false
paid_row (some o) = is_paid_order o.status

-- The order is there and paid.
abbrev pub is_paid_in : ℕ → PayStore → Bool
is_paid_in id s = paid_row (find_order id s)

-- A paid order stays paid.
abbrev pub PaidStays : (PayStore → PayStore) → Type 0
PaidStays f = (id : ℕ) (s : PayStore) → is_paid_in id s ≡ true → is_paid_in id (f s) ≡ true

-- The call neither grants nor flags, and writes to no table but the payments.
pub record IsNoop (s : PayStore) (r : Result SettleOutcome × PayStore) : Type 0 where
  pub not_settled : r.0 ≢ ok settled
  pub not_flagged : r.0 ≢ ok flagged
  pub requests : r.1.requests ≡ s.requests
  pub quotes : r.1.quotes ≡ s.quotes
  pub orders : r.1.orders ≡ s.orders
  pub invoices : r.1.invoices ≡ s.invoices
  pub counters : r.1.counters ≡ s.counters
  pub events : r.1.events ≡ s.events
  pub messages : r.1.messages ≡ s.messages

-- ─── Marking an order ───────────────────────────────────────────────────────

marked_rows :
    (now a b : ℕ) (os : List RazorpayOrder)
    → paid_row (
        find_first
          (λ o. o.razorpay_order_id == b)
          (update_where
            (λ o. o.razorpay_order_id == a)
            (λ o. record o { status = RazorpayOrderStatus.paid; paid_at = some now })
            os))
      ≡ (paid_row (find_first (λ o. o.razorpay_order_id == b) os)
          || a == b && not (is_none (find_first (λ o. o.razorpay_order_id == b) os)))
unfolding find_first update_where
marked_rows now a b [] = ground arith
marked_rows now a b (o ∷ os) = ground (arith, marked_rows now a b os)

mark_order_paid-PaidStays : (now id : ℕ) → PaidStays (mark_order_paid now id)
unfolding mark_order_paid
mark_order_paid-PaidStays now id other s h = marked_rows now id other s.orders ∙ rw h refl

invoice_or_flag-orders :
    (env : PayEnv) (input : SettleInput) (order : RazorpayOrder) (quote : ServiceQuote) (id : ℕ)
    (s : PayStore)
    → (invoice_or_flag env input order quote id s).orders ≡ s.orders
unfolding invoice_or_flag issue_invoice no_invoice
invoice_or_flag-orders env input order quote id s = ground arith

settle_unpaid-orders :
    (env : PayEnv) (input : SettleInput) (order : RazorpayOrder) (quote : ServiceQuote)
    (request : ServiceRequest) (s : PayStore)
    → (settle_unpaid env input order quote request s).1.orders
      ≡ (mark_order_paid env.now order.razorpay_order_id s).orders
unfolding settle_unpaid flag grant mark_order_paid
settle_unpaid-orders env input order quote request s =
    elim (Bool-cases (
      is_mismatch input order
      || not (is_quote_sent request.status)
      || not (is_active quote.status))) [
        | inl p ↦ rw p refl
        | inr n ↦ rw n (invoice_or_flag-orders env input order quote request.id _)
      ]

settle_unpaid-rows :
    (env : PayEnv) (input : SettleInput) (order : RazorpayOrder) (quote : ServiceQuote)
    (request : ServiceRequest) (s : PayStore) (id : ℕ)
    → is_paid_in id (settle_unpaid env input order quote request s).1
      ≡ (is_paid_in id s || order.razorpay_order_id == id && not (is_none (find_order id s)))
unfolding mark_order_paid
settle_unpaid-rows env input order quote request s id =
    ap (λ os. paid_row (find_first (λ o. o.razorpay_order_id == id) os))
      (settle_unpaid-orders env input order quote request s)
    ∙ marked_rows env.now order.razorpay_order_id id s.orders

upsert_payment-orders :
    (input : SettleInput) (order : RazorpayOrder) (s : PayStore)
    → (upsert_payment input order s).orders ≡ s.orders
unfolding upsert_payment
upsert_payment-orders input order s = refl

-- ─── Once ───────────────────────────────────────────────────────────────────

-- After an answer other than `unknown_order` the order is paid.
abbrev IsAnswered : ℕ → Result SettleOutcome × PayStore → Type 0
IsAnswered id (ok unknown_order, t) = Unit
IsAnswered id (ok settled, t) = is_paid_in id t ≡ true
IsAnswered id (ok flagged, t) = is_paid_in id t ≡ true
IsAnswered id (ok already_settled, t) = is_paid_in id t ≡ true
IsAnswered id (err e, t) = Unit

answered :
    (id : ℕ) (outcome : SettleOutcome) (t : PayStore)
    → is_paid_in id t ≡ true
    → IsAnswered id (ok outcome, t)
answered id settled t h = h
answered id already_settled t h = h
answered id flagged t h = h
answered id unknown_order t h = tt

paid_after :
    (id : ℕ) (outcome : SettleOutcome) (t : PayStore)
    → outcome ≢ unknown_order
    → IsAnswered id (ok outcome, t)
    → is_paid_in id t ≡ true
paid_after id settled t k h = h
paid_after id already_settled t k h = h
paid_after id flagged t k h = h
paid_after id unknown_order t k h = elim (k refl) [ ]

module _ (env : PayEnv) (input : SettleInput) where
  settle_in_tx-IsAnswered :
      (order : RazorpayOrder) (quote_ref : ServiceQuote) (s : PayStore)
      → IsAnswered order.razorpay_order_id (settle_in_tx env input order quote_ref s)
  settle_in_tx-IsAnswered order quote_ref s =
      settle_in_tx_cases env input order quote_ref s (IsAnswered order.razorpay_order_id) (λ e. tt)
        (λ o e p. rw e p)
        (λ o quote request e n f g. answered order.razorpay_order_id _ _ (
          settle_unpaid-rows env input order quote request _ order.razorpay_order_id
          ∙ rw e (ground arith)))

  settle-IsAnswered : (s : PayStore) → IsAnswered input.razorpay_order_id (settle env input s)
  settle-IsAnswered s =
      settle_cases env input s (IsAnswered input.razorpay_order_id) tt (λ order quote_ref e f.
        subst (λ i. IsAnswered i (settle_in_tx env input order quote_ref (env.others s))) e
          (settle_in_tx-IsAnswered order quote_ref (env.others s)))

-- ─── A paid order ───────────────────────────────────────────────────────────

upsert_only :
    (input : SettleInput) (order : RazorpayOrder) (s : PayStore)
    → IsNoop s (ok already_settled, upsert_payment input order s)
unfolding upsert_payment
upsert_only input order s = record {
  not_settled = λ e. cc;
  not_flagged = λ e. cc;
  requests = refl;
  quotes = refl;
  orders = refl;
  invoices = refl;
  counters = refl;
  events = refl;
  messages = refl;
}

nothing_written :
    (r : Result SettleOutcome) (s : PayStore) → r ≢ ok settled → r ≢ ok flagged → IsNoop s (r, s)
nothing_written r s a b = record {
  not_settled = a;
  not_flagged = b;
  requests = refl;
  quotes = refl;
  orders = refl;
  invoices = refl;
  counters = refl;
  events = refl;
  messages = refl;
}

unpaid :
    (id : ℕ) (s : PayStore) (o : RazorpayOrder)
    → find_order id s ≡ some o
    → is_paid_order o.status ≡ false
    → is_paid_in id s ≡ true
    → ⊥
unpaid id s o e n h = cc

module _ (env : PayEnv) (input : SettleInput) where
  -- With the order found paid there is nothing to do.
  settle_in_tx-IsNoop :
      (order : RazorpayOrder) (quote_ref : ServiceQuote) (s : PayStore)
      → is_paid_in order.razorpay_order_id s ≡ true
      → IsNoop s (settle_in_tx env input order quote_ref s)
  unfolding upsert_payment
  settle_in_tx-IsNoop order quote_ref s h =
      settle_in_tx_cases env input order quote_ref s (IsNoop s)
        (λ e. nothing_written (err e) s (λ f. cc) (λ f. cc)) (λ o e p. upsert_only input order s)
        (λ o quote request e n f g.
          elim (unpaid order.razorpay_order_id (upsert_payment input order s) o e n h) [ ])

  settle-IsNoop :
      (s : PayStore)
      → env.others s ≡ s
      → is_paid_in input.razorpay_order_id s ≡ true
      → IsNoop s (settle env input s)
  settle-IsNoop s quiet h =
      settle_cases env input s (IsNoop s) (nothing_written (ok unknown_order) s (λ f. cc) (λ f. cc))
        (λ order quote_ref e f. rw quiet (settle_in_tx-IsNoop order quote_ref s (rw e h)))

  -- A settle keeps every paid order paid, so two of them may overlap.
  pub settle-PaidStays : PaidStays env.others → PaidStays (λ s. (settle env input s).1)
  unfolding upsert_payment
  settle-PaidStays keep id s h =
      settle_cases env input s (λ r. is_paid_in id r.1 ≡ true) h
        (λ order quote_ref e f.
          let later = keep id s h in
          settle_in_tx_cases env input order quote_ref (env.others s)
            (λ r. is_paid_in id r.1 ≡ true) (λ e. later) (λ o e p. later)
            (λ o quote request e n f g.
              settle_unpaid-rows env input order quote request _ id ∙ rw later refl))

-- A payment counts once. When the app's call or the webhook has been answered, with whatever answer but
-- `unknown_order`, a later call for the same order grants nothing and flags nothing: it leaves the
-- requests, the quotes, the orders, the invoices, their counters, the events and the messages alone,
-- and at most notes the payment. In between, anything may happen that leaves paid orders paid; the
-- second call itself is not interrupted.
pub settle-settle :
    (env env' : PayEnv) (input input' : SettleInput) (s t : PayStore) (outcome : SettleOutcome)
    (between : PayStore → PayStore)
    → PaidStays between
    → settle env input s ≡ (ok outcome, t)
    → outcome ≢ unknown_order
    → input'.razorpay_order_id ≡ input.razorpay_order_id
    → env'.others (between t) ≡ between t
    → IsNoop (between t) (settle env' input' (between t))
settle-settle env env' input input' s t outcome between keep done known same quiet =
    let first : IsAnswered input.razorpay_order_id (ok outcome, t) =
      subst (IsAnswered input.razorpay_order_id) done (settle-IsAnswered env input s) in
    settle-IsNoop env' input' (between t) quiet (
      rw same
        (keep input.razorpay_order_id t (paid_after input.razorpay_order_id outcome t known first)))

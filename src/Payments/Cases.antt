-- ===== src/Payments/Cases.antt =====
-- The ways in which `settle` ends (services.payments.ts).
use finskool_monorepo.Base.{
  ◌≡◌, true, false, some, find_first-holds, Result, ok, err, AppError, Bool-cases, Option-cases,
  inl, inr, ==→eq,
}
use finskool_monorepo.Payments.{
  RazorpayOrder, ServiceQuote, ServiceRequest, PayStore, PayEnv, is_paid_order, find_order,
  find_quote, find_request,
}
use finskool_monorepo.Payments.Settle.{
  SettleInput, SettleOutcome, already_settled, unknown_order, upsert_payment, settle_unpaid,
  settle_in_tx, settle,
}

-- ─── The transaction ────────────────────────────────────────────────────────

module _ (env : PayEnv) (input : SettleInput) (order : RazorpayOrder) (quote_ref : ServiceQuote)
    (s : PayStore) where
  -- The transaction fails, finds the order paid, or goes on to the tests.
  pub settle_in_tx_cases :
      (P : Result SettleOutcome × PayStore → Type 0)
      → ((e : AppError) → P (err e, s))
      → ((o : RazorpayOrder)
          → find_order order.razorpay_order_id (upsert_payment input order s) ≡ some o
          → is_paid_order o.status ≡ true
          → P (ok already_settled, upsert_payment input order s))
      → ((o : RazorpayOrder) (quote : ServiceQuote) (request : ServiceRequest)
          → find_order order.razorpay_order_id (upsert_payment input order s) ≡ some o
          → is_paid_order o.status ≡ false
          → find_quote order.reference_id (upsert_payment input order s) ≡ some quote
          → find_request quote_ref.request_id (upsert_payment input order s) ≡ some request
          → let (outcome, t) =
              settle_unpaid env input order quote request (upsert_payment input order s) in
            P (ok outcome, t))
      → P (settle_in_tx env input order quote_ref s)
  unfolding settle_in_tx
  settle_in_tx_cases P failed again fresh =
      elim (Option-cases (find_order order.razorpay_order_id (upsert_payment input order s))) [
        | inl e ↦ rw (e, settle_in_tx) (failed _)
        | inr (o, e) ↦
            rw (e, settle_in_tx)
              (elim (Bool-cases (is_paid_order o.status)) [
                | inl p ↦ rw p (again o e p)
                | inr n ↦
                    rw n
                      (elim (Option-cases
                        (find_quote order.reference_id (upsert_payment input order s))) [
                          | inl f ↦ rw f (failed _)
                          | inr (q, f) ↦
                              rw f
                                (elim (Option-cases (
                                  find_request quote_ref.request_id
                                    (upsert_payment input order s))) [
                                      | inl g ↦ rw g (failed _)
                                      | inr (r, g) ↦ rw g (fresh o q r e n f g)
                                    ])
                        ])
              ])
      ]

pub settle_cases :
    (env : PayEnv) (input : SettleInput) (s : PayStore)
    (P : Result SettleOutcome × PayStore → Type 0)
    → P (ok unknown_order, s)
    → ((order : RazorpayOrder) (quote_ref : ServiceQuote)
        → order.razorpay_order_id ≡ input.razorpay_order_id
        → find_quote order.reference_id s ≡ some quote_ref
        → P (settle_in_tx env input order quote_ref (env.others s)))
    → P (settle env input s)
unfolding settle
settle_cases env input s P unknown tx = elim (Option-cases (find_order input.razorpay_order_id s)) [
  | inl e ↦ rw (e, settle) unknown
  | inr (o, e) ↦
      rw (e, settle)
        (elim (Option-cases (find_quote o.reference_id s)) [
          | inl f ↦ rw f unknown
          | inr (q, f) ↦ rw f (tx o q (==→eq _ _ (find_first-holds _ s.orders e)) f)
        ])
]

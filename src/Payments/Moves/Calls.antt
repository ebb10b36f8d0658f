-- ===== src/Payments/Moves/Calls.antt =====
-- The writes of the calls that start, report, cancel and expire (services.payments.ts, services.service.ts,
-- service-quote-expiry.ts).
use finskool_monorepo.Base.{
  ℕ, ◌≡◌, refl, Bool, true, not, ◌&&◌, ◌||◌, ◌==◌, is_none, some, List, [], ◌∷◌, find_first,
  count_where, take, find_many, arith, Bool-cases, Option-cases, inl, inr,
}
use finskool_monorepo.Payments.{
  ServiceRequestStatus, ServiceClosedReason, ServiceQuoteStatus, ServiceQuote, ServiceRequest,
  RazorpayOrder, PayStore, PayEnv, is_active, is_quote_sent, find_quote, find_request,
}
use finskool_monorepo.Payments.Settle.{
  SettleInput, is_mismatch, upsert_payment, mark_order_paid, flag, grant, no_invoice, issue_invoice,
  invoice_or_flag, settle_unpaid, settle,
}
use finskool_monorepo.Payments.Cases.{settle_in_tx_cases, settle_cases}
use finskool_monorepo.Payments.Close.{
  is_cancellable, is_owned, cancel_in_tx, cancel, is_due, expire_one, batch_size, expire_all,
  expire_service_quotes,
}
use finskool_monorepo.Payments.Moves.{
  stays, lapsed, turned_down, Write, aside, moved, withdrawn, granted, Reach, here, next,
  Reach-trans, Calm,
}
use finskool_monorepo.Payments.Moves.Kept.{Reach-parents}

sent : (st : ServiceRequestStatus) → is_quote_sent st ≡ true → st ≡ ServiceRequestStatus.quote_sent
sent ServiceRequestStatus.quote_sent h = refl
sent ServiceRequestStatus.requested h = cc
sent ServiceRequestStatus.paid h = cc
sent ServiceRequestStatus.closed h = cc

-- ─── Cancelling and expiring ────────────────────────────────────────────────

module _ (env : PayEnv) where
  cancel_in_tx-Reach : (user_id id : ℕ) (s : PayStore) → Reach s (cancel_in_tx env user_id id s).1
  unfolding cancel_in_tx
  cancel_in_tx-Reach user_id id s =
      let open_row : ServiceRequest → Bool =
        λ r. is_owned user_id id r && is_cancellable r.status in
      elim (Bool-cases (count_where open_row s.requests == 0)) [
        | inl p ↦ rw p here
        | inr n ↦ rw n (
            next here (
              withdrawn open_row _ (λ q. q.request_id == id && is_active q.status)
                ServiceQuoteStatus.cancelled
                (λ x h. (
                  (refl, refl),
                  turned_down ServiceClosedReason.cancelled_by_member (inr refl) (ground (arith, h))
                      refl refl refl,
                ))
                (λ q p. ground (arith, p)) refl refl refl refl))
      ]

  expire_one-Reach : (k id : ℕ) (s : PayStore) → Reach s (expire_one env k id s)
  unfolding expire_one is_due
  expire_one-Reach k id s =
      let due : ServiceQuote → Bool = λ x. x.id == k && is_due env.now x in
      elim (Bool-cases (count_where due s.quotes == 0)) [
        | inl p ↦ rw p here
        | inr n ↦ rw n (
            next here (
              withdrawn (λ r. r.id == id && is_quote_sent r.status) _ due ServiceQuoteStatus.expired
                (λ x h. ((refl, refl), lapsed (sent x.status (ground (arith, h))) refl refl refl))
                (λ q p. ground (arith, p)) refl refl refl refl))
      ]

-- ─── Settling ───────────────────────────────────────────────────────────────

module _ (env : PayEnv) (input : SettleInput) (order : RazorpayOrder) (quote : ServiceQuote)
    (id : ℕ) where
  invoice_or_flag-Write : (s : PayStore) → Write s (invoice_or_flag env input order quote id s)
  unfolding invoice_or_flag issue_invoice no_invoice
  invoice_or_flag-Write s =
      elim (Bool-cases (env.billing_configured && not (is_none quote.billing))) [
        | inl p ↦ rw p (aside refl refl)
        | inr n ↦ rw n (
            moved (λ r. r.id == id) (λ r. record r { requires_review = true })
              (λ x h. ((refl, refl), stays refl refl refl)) refl refl)
      ]

settle_unpaid-Reach :
    (env : PayEnv) (input : SettleInput) (order : RazorpayOrder) (quote : ServiceQuote)
    (request : ServiceRequest) (s : PayStore) (k a : ℕ)
    → find_quote k s ≡ some quote
    → find_request a s ≡ some request
    → quote.request_id ≡ a
    → Reach s (settle_unpaid env input order quote request s).1
unfolding settle_unpaid mark_order_paid flag grant
settle_unpaid-Reach env input order quote request s k a fq fr pa =
    elim (Bool-cases (
      is_mismatch input order
      || not (is_quote_sent request.status)
      || not (is_active quote.status))) [
        | inl p ↦ rw p (
            next here (
              moved (λ r. r.id == request.id) _ (λ x h. ((refl, refl), stays refl refl refl)) refl
                refl))
        | inr n ↦ rw n (
            next
              (next here (
                granted k a env.now quote request _ fq fr pa (ground (arith, n))
                  (sent request.status (ground (arith, n)))
                  (λ y. ((refl, refl), (refl, refl, refl))) refl refl))
              (invoice_or_flag-Write env input order quote request.id _))
      ]

upsert_payment-Write :
    (input : SettleInput) (order : RazorpayOrder) (s : PayStore)
    → Write s (upsert_payment input order s)
unfolding upsert_payment
upsert_payment-Write input order s = aside refl refl

module _ (env : PayEnv) (calm : Calm env) where
  pub settle-Reach : (input : SettleInput) (s : PayStore) → Reach s (settle env input s).1
  unfolding upsert_payment
  settle-Reach input s =
      settle_cases env input s (λ r. Reach s r.1) here
        (λ order quote_ref e f.
          let t = env.others s in
          let noted : Reach s (upsert_payment input order t) =
            next (calm s) (upsert_payment-Write input order t) in
          settle_in_tx_cases env input order quote_ref t (λ r. Reach s r.1) (λ e. calm s)
            (λ o e p. noted)
            (λ o quote request e n g r. Reach-trans noted (
              settle_unpaid-Reach env input order quote request (upsert_payment input order t)
                order.reference_id quote_ref.request_id g r
                (Reach-parents s (upsert_payment input order t) noted order.reference_id quote_ref
                  quote f g))))

  expire_all-Reach : (qs : List ServiceQuote) (s : PayStore) → Reach s (expire_all env qs s)
  unfolding expire_all
  expire_all-Reach [] s = here
  expire_all-Reach (q ∷ qs) s =
      Reach-trans (Reach-trans (calm s) (expire_one-Reach env q.id q.request_id (env.others s)))
        (expire_all-Reach qs (expire_one env q.id q.request_id (env.others s)))

  pub expire_service_quotes-Reach : (s : PayStore) → Reach s (expire_service_quotes env s)
  unfolding expire_service_quotes
  expire_service_quotes-Reach s =
      expire_all-Reach (take batch_size (find_many (is_due env.now) s.quotes)) s

  pub cancel-Reach : (u r : ℕ) (s : PayStore) → Reach s (cancel env u r s).1
  unfolding cancel
  cancel-Reach u r s = elim (Option-cases (find_first (is_owned u r) s.requests)) [
    | inl e ↦ rw (e, cancel) here
    | inr (x, e) ↦
        rw (e, cancel)
          (elim (Bool-cases (is_cancellable x.status)) [
            | inl p ↦ rw p (Reach-trans (calm s) (cancel_in_tx-Reach env u r (env.others s)))
            | inr n ↦ rw n here
          ])
  ]

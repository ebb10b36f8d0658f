-- ===== src/Payments/Moves/Served.antt =====
-- The writes of starting a payment and of both ways of reporting it (services.payments.ts).
use finskool_monorepo.Base.{
  ℕ, refl, Bool, not, ◌&&◌, ◌||◌, ◌==◌, Option, List, All, [], ◌∷◌, find_first, any_where,
  count_where, Bool-cases, Option-cases, inl, inr, true, false, Result, ok, err,
}
use finskool_monorepo.Payments.{ServiceQuote, PayStore, PayEnv, find_quote, find_order}
use finskool_monorepo.Payments.Start.{
  unpaid, create_or_share, order_for, is_unpaid_for, is_payable_now, start_payment, create_order,
  refused_by_request, refused_by_quote, refused_by_settings, or_else, effective_quote_status,
}
use finskool_monorepo.Payments.Webhook.{
  WebhookPayload, WebhookEventType, record_failed_attempt, webhook_input, verify_input,
  settle_unless_plan, process_ids, process_webhook_event, store_event, mark_processed, is_event,
  handle_webhook, verify,
}
use finskool_monorepo.Payments.Settle.{SettleInput}
use finskool_monorepo.Payments.Run.{
  PayCall, begin_payment, confirm_payment, deliver_webhook, cancel_request, expire_quotes,
  quote_request, claim_request, reassign_request, close_request, clear_review, read_by_admin,
  read_by_member, rate_request, serve, serve_all,
}
use finskool_monorepo.Payments.Moves.Desk.{
  claim_cases, close_cases, reassign_cases, mark_read_cases, mark_read_by_member_cases,
  resolve_review_cases, rate-Write,
}
use finskool_monorepo.Payments.Moves.Offers.{send_quote_cases}
use finskool_monorepo.Payments.Moves.{aside, started, Reach, here, next, Reach-trans, Calm}
use finskool_monorepo.Payments.Moves.Calls.{settle-Reach, expire_service_quotes-Reach, cancel-Reach}

module _ (env : PayEnv) (calm : Calm env) where
  -- ─── Starting a payment ───────────────────────────────────────────────────

  create_or_share-Reach :
      (g u : ℕ) (q : ServiceQuote) (s : PayStore) → Reach s (create_or_share g u q s).1
  unfolding create_or_share
  create_or_share-Reach g u q s =
      elim (Bool-cases (
        any_where (is_unpaid_for q.id) s.orders
        || any_where (λ o. o.razorpay_order_id == g) s.orders)) [
          | inl p ↦
              rw p
                (elim (Option-cases (unpaid q.id s)) [ inl e ↦ rw e here | inr (o, e) ↦ rw e here ])
          | inr n ↦ rw n (next here (aside refl refl))
        ]

  order_for-Reach : (u : ℕ) (q : ServiceQuote) (s : PayStore) → Reach s (order_for env u q s).1
  unfolding order_for
  order_for-Reach u q s = elim (Option-cases (unpaid q.id s)) [
    | inr (o, e) ↦ rw (e, order_for) here
    | inl e ↦
        rw (e, order_for)
          (elim (Option-cases env.new_gateway_order) [
            | inl f ↦ rw f here
            | inr (g, f) ↦ rw f (Reach-trans (calm s) (create_or_share-Reach g u q (env.others s)))
          ])
  ]

  start_payment-Reach :
      (u : ℕ) (q : ServiceQuote) (b : ℕ) (s : PayStore) → Reach s (start_payment env u q b s).1
  unfolding start_payment
  start_payment-Reach u q b s =
      elim (Bool-cases (count_where (is_payable_now env q.id) s.quotes == 0)) [
        | inl p ↦ rw p here
        | inr n ↦ rw n (
            Reach-trans
              (next here (
                started (is_payable_now env q.id) _ (λ x. ((refl, refl, refl, refl), refl)) refl
                  refl))
              (order_for-Reach u q _))
      ]

  create_order-Reach : (u r q b : ℕ) (s : PayStore) → Reach s (create_order env u r q b s).1
  unfolding create_order
  create_order-Reach u r q b s =
      elim (Option-cases (find_first (λ x. x.id == r && x.user_id == u) s.requests)) [
        | inl e ↦ rw (e, create_order) here
        | inr (x, e) ↦
            rw (e, create_order)
              (elim (Option-cases (refused_by_request x.status)) [
                | inr (f, k) ↦ rw k here
                | inl k ↦
                    rw k
                      (elim (Option-cases
                        (find_first (λ y. y.id == q && y.request_id == r) s.quotes)) [
                          | inl f ↦ rw f here
                          | inr (y, f) ↦
                              rw f
                                (elim (Option-cases (
                                  or_else (refused_by_quote (effective_quote_status y env.now))
                                    (refused_by_settings env))) [
                                      | inr (m, l) ↦ rw l here
                                      | inl l ↦ rw l (
                                          Reach-trans (calm s)
                                            (start_payment-Reach u y b (env.others s)))
                                    ])
                        ])
              ])
      ]

  -- ─── Reporting a payment ──────────────────────────────────────────────────

  verify-Reach : (v : Bool) (u r o p : ℕ) (s : PayStore) → Reach s (verify env v u r o p s).1
  unfolding verify
  verify-Reach v u r o p s = elim (Option-cases (find_order o s)) [
    | inl e ↦ rw (e, verify) here
    | inr (x, e) ↦
        rw (e, verify)
          (elim (Option-cases (find_quote x.reference_id s)) [
            | inl f ↦ rw f here
            | inr (y, f) ↦
                rw f (elim (Bool-cases (not (x.user_id == u) || not (y.request_id == r))) [
                  | inl m ↦ rw m here
                  | inr n ↦ rw n (elim (Bool-cases v) [
                    | inl k ↦ rw k (settle-Reach env calm (verify_input o p) s)
                    | inr k ↦ rw k here
                  ])
                ])
          ])
  ]

  record_failed_attempt-Reach :
      (o p : ℕ) (a : Option ℕ) (s : PayStore) → Reach s (record_failed_attempt o p a s)
  unfolding record_failed_attempt
  record_failed_attempt-Reach o p a s = elim (Option-cases (find_order o s)) [
    | inl e ↦ rw (e, record_failed_attempt) here
    | inr (x, e) ↦
        rw (e, record_failed_attempt)
          (elim (Bool-cases (any_where (λ y. y.razorpay_payment_id == p) s.payments)) [
            | inl m ↦ rw m here
            | inr n ↦ rw n (next here (aside refl refl))
          ])
  ]

  settle_unless_plan-Reach :
      (input : SettleInput) (r : Result Bool) (s : PayStore)
      → Reach s (settle_unless_plan env input r s).1
  settle_unless_plan-Reach input (err e) s = here
  settle_unless_plan-Reach input (ok true) s = here
  settle_unless_plan-Reach input (ok false) s = settle-Reach env calm input s

  process_ids-Reach :
      (p : WebhookPayload) (o i : ℕ) (s : PayStore) → Reach s (process_ids env p o i s).1
  process_ids-Reach p o i s = by_event p.event
    where
      by_event : (e : WebhookEventType) → Reach s (process_ids env (record p { event = e }) o i s).1
      by_event WebhookEventType.order_paid =
          settle_unless_plan-Reach (webhook_input o i p) (env.plan_purchase o i p.amount_paise) s
      by_event WebhookEventType.payment_captured =
          settle_unless_plan-Reach (webhook_input o i p) (env.plan_purchase o i p.amount_paise) s
      by_event WebhookEventType.payment_failed = record_failed_attempt-Reach o i p.amount_paise s
      by_event WebhookEventType.other_event = here

  process_webhook_event-Reach :
      (p : WebhookPayload) (s : PayStore) → Reach s (process_webhook_event env p s).1
  unfolding process_webhook_event
  process_webhook_event-Reach p s = elim (Option-cases p.order_id) [
    | inl e ↦ rw (e, process_webhook_event) here
    | inr (o, e) ↦
        rw (e, process_webhook_event)
          (elim (Option-cases p.payment_id) [
            | inl f ↦ rw f here
            | inr (i, f) ↦ rw f (process_ids-Reach p o i s)
          ])
  ]

  store_event-Reach : (e : ℕ) (s : PayStore) → Reach s (store_event e s)
  unfolding store_event
  store_event-Reach e s = elim (Bool-cases (any_where (is_event e) s.webhook_events)) [
    | inl p ↦ rw p here
    | inr n ↦ rw n (next here (aside refl refl))
  ]

  handle_webhook-Reach :
      (v : Bool) (e : ℕ) (p : WebhookPayload) (s : PayStore)
      → Reach s (handle_webhook env v e p s).1
  unfolding handle_webhook mark_processed
  handle_webhook-Reach v e p s =
      let later : Reach s (process_webhook_event env p (store_event e s)).1 =
        Reach-trans (store_event-Reach e s) (process_webhook_event-Reach p (store_event e s)) in
      elim (Bool-cases v) [
        | inr k ↦ rw k here
        | inl k ↦
            rw k
              (elim (Bool-cases (any_where (λ x. is_event e x && x.processed) s.webhook_events)) [
                | inl m ↦ rw m here
                | inr n ↦
                    rw n (elim (Bool-cases (process_webhook_event env p (store_event e s)).0) [
                      | inl d ↦ rw d (next later (aside refl refl))
                      | inr d ↦ rw d later
                    ])
              ])
      ]

  -- ─── Every call ───────────────────────────────────────────────────────────

  serve-Reach : (c : PayCall) (s : PayStore) → Reach s (serve env c s)
  unfolding serve
  serve-Reach (begin_payment u r q b) s = create_order-Reach u r q b s
  serve-Reach (confirm_payment v u r o p) s = verify-Reach v u r o p s
  serve-Reach (deliver_webhook v e p) s = handle_webhook-Reach v e p s
  serve-Reach (cancel_request u r) s = cancel-Reach env calm u r s
  serve-Reach expire_quotes s = expire_service_quotes-Reach env calm s
  serve-Reach (quote_request a r dto) s =
      send_quote_cases env (Reach s) s here (λ t. Reach-trans (calm s)) a r dto
  serve-Reach (claim_request a r) s =
      claim_cases env (Reach s) s here (λ t. Reach-trans (calm s)) a r
  serve-Reach (reassign_request a r to_id) s =
      reassign_cases env (Reach s) s here (λ t. Reach-trans (calm s)) a r to_id
  serve-Reach (close_request a r) s =
      close_cases env (Reach s) s here (λ t. Reach-trans (calm s)) a r
  serve-Reach (clear_review a r) s =
      resolve_review_cases env (Reach s) s here (λ t. Reach-trans (calm s)) a r
  serve-Reach (read_by_admin a r) s =
      mark_read_cases env (Reach s) s here (λ t. Reach-trans (calm s)) a r
  serve-Reach (read_by_member u r) s =
      mark_read_by_member_cases env (Reach s) s here (λ t. Reach-trans (calm s)) u r
  serve-Reach (rate_request u r n) s = next here (rate-Write u r n s)

-- Whatever calls are made, in whatever order and with calm others in between, the requests and the
-- quotes only ever change by the writes of `Write`: a request is offered a quote only while it waits,
-- becomes paid only together with an active quote of its own, ends as declined or cancelled only from
-- waiting and as completed only from paid, and a quote ends only while it is active.
pub serve_all-Reach :
    (cs : List (PayEnv × PayCall))
    → All (λ c. Calm c.0) cs
    → (s : PayStore) → Reach s (serve_all cs s)
unfolding serve_all
serve_all-Reach [] calm s = here
serve_all-Reach ((env, c) ∷ cs) (calm, calms) s =
    Reach-trans (serve-Reach env calm c s) (serve_all-Reach cs calms (serve env c s))

-- ===== src/Payments/Money/Reports.antt =====
-- The grants of a request under `verify` and `handleWebhook` (services.payments.ts).
use finskool_monorepo.Base.{
  ℕ, refl, Bool, not, ◌&&◌, ◌||◌, ◌==◌, Option, List, [], ◌∷◌, All, any_where, Bool-cases,
  Option-cases, inl, inr, true, false, Result, ok, err,
}
use finskool_monorepo.Payments.{PayStore, PayEnv, find_quote, find_order}
use finskool_monorepo.Payments.Webhook.{
  WebhookPayload, WebhookEventType, record_failed_attempt, webhook_input, verify_input,
  settle_unless_plan, process_ids, process_webhook_event, store_event, mark_processed, is_event,
  handle_webhook, verify,
}
use finskool_monorepo.Payments.Settle.{SettleInput}
use finskool_monorepo.Payments.Run.{
  PayCall, begin_payment, confirm_payment, deliver_webhook, cancel_request, expire_quotes,
  quote_request, claim_request, reassign_request, close_request, clear_review, read_by_admin,
  read_by_member, rate_request, serve, serve_all,
}
use finskool_monorepo.Payments.Rating.{rate}
use finskool_monorepo.Payments.Moves.{Reach, here, next}
use finskool_monorepo.Payments.Moves.Desk.{
  claim_cases, close_cases, reassign_cases, mark_read_cases, mark_read_by_member_cases,
  resolve_review_cases, rate-Write,
}
use finskool_monorepo.Payments.Moves.Offers.{send_quote_cases}
use finskool_monorepo.Payments.Money.{IsMoney}
use finskool_monorepo.Payments.Money.Writes.{Reach-IsMoney}
use finskool_monorepo.Payments.Money.Granted.{IsSteady, settle-IsMoney}
use finskool_monorepo.Payments.Money.Calls.{
  aside, expire_service_quotes-IsMoney, cancel-IsMoney, create_order-IsMoney,
}

module _ (env : PayEnv) (steady : IsSteady env.others) where
  -- ─── Reporting a payment ──────────────────────────────────────────────────

  verify-IsMoney :
      (v : Bool) (u r o p : ℕ) (s : PayStore) → IsMoney s → IsMoney (verify env v u r o p s).1
  unfolding verify
  verify-IsMoney v u r o p s h = elim (Option-cases (find_order o s)) [
    | inl e ↦ rw (e, verify) h
    | inr (x, e) ↦
        rw (e, verify)
          (elim (Option-cases (find_quote x.reference_id s)) [
            | inl f ↦ rw f h
            | inr (y, f) ↦
                rw f (elim (Bool-cases (not (x.user_id == u) || not (y.request_id == r))) [
                  | inl m ↦ rw m h
                  | inr n ↦ rw n (elim (Bool-cases v) [
                    | inl k ↦ rw k (settle-IsMoney env (verify_input o p) steady s h)
                    | inr k ↦ rw k h
                  ])
                ])
          ])
  ]

  record_failed_attempt-IsMoney :
      (o p : ℕ) (a : Option ℕ) (s : PayStore) → IsMoney s → IsMoney (record_failed_attempt o p a s)
  unfolding record_failed_attempt
  record_failed_attempt-IsMoney o p a s h = elim (Option-cases (find_order o s)) [
    | inl e ↦ rw (e, record_failed_attempt) h
    | inr (x, e) ↦
        rw (e, record_failed_attempt)
          (elim (Bool-cases (any_where (λ y. y.razorpay_payment_id == p) s.payments)) [
            | inl m ↦ rw m h
            | inr n ↦ rw n (aside s _ refl refl h)
          ])
  ]

  settle_unless_plan-IsMoney :
      (input : SettleInput) (r : Result Bool) (s : PayStore)
      → IsMoney s
      → IsMoney (settle_unless_plan env input r s).1
  settle_unless_plan-IsMoney input (err e) s h = h
  settle_unless_plan-IsMoney input (ok true) s h = h
  settle_unless_plan-IsMoney input (ok false) s h = settle-IsMoney env input steady s h

  process_ids-IsMoney :
      (p : WebhookPayload) (o i : ℕ) (s : PayStore)
      → IsMoney s
      → IsMoney (process_ids env p o i s).1
  process_ids-IsMoney p o i s h = by_event p.event
    where
      by_event : (e : WebhookEventType) → IsMoney (process_ids env (record p { event = e }) o i s).1
      by_event WebhookEventType.order_paid =
          settle_unless_plan-IsMoney (webhook_input o i p) (env.plan_purchase o i p.amount_paise) s
            h
      by_event WebhookEventType.payment_captured =
          settle_unless_plan-IsMoney (webhook_input o i p) (env.plan_purchase o i p.amount_paise) s
            h
      by_event WebhookEventType.payment_failed =
          record_failed_attempt-IsMoney o i p.amount_paise s h
      by_event WebhookEventType.other_event = h

  process_webhook_event-IsMoney :
      (p : WebhookPayload) (s : PayStore) → IsMoney s → IsMoney (process_webhook_event env p s).1
  unfolding process_webhook_event
  process_webhook_event-IsMoney p s h = elim (Option-cases p.order_id) [
    | inl e ↦ rw (e, process_webhook_event) h
    | inr (o, e) ↦
        rw (e, process_webhook_event)
          (elim (Option-cases p.payment_id) [
            | inl f ↦ rw f h
            | inr (i, f) ↦ rw f (process_ids-IsMoney p o i s h)
          ])
  ]

  store_event-IsMoney : (e : ℕ) (s : PayStore) → IsMoney s → IsMoney (store_event e s)
  unfolding store_event
  store_event-IsMoney e s h = elim (Bool-cases (any_where (is_event e) s.webhook_events)) [
    | inl p ↦ rw p h
    | inr n ↦ rw n (aside s _ refl refl h)
  ]

  handle_webhook-IsMoney :
      (v : Bool) (e : ℕ) (p : WebhookPayload) (s : PayStore)
      → IsMoney s
      → IsMoney (handle_webhook env v e p s).1
  unfolding handle_webhook mark_processed
  handle_webhook-IsMoney v e p s h =
      let later = process_webhook_event-IsMoney p (store_event e s) (store_event-IsMoney e s h) in
      elim (Bool-cases v) [
        | inr k ↦ rw k h
        | inl k ↦
            rw k
              (elim (Bool-cases (any_where (λ x. is_event e x && x.processed) s.webhook_events)) [
                | inl m ↦ rw m h
                | inr n ↦
                    rw n (elim (Bool-cases (process_webhook_event env p (store_event e s)).0) [
                      | inl d ↦ rw d (aside _ _ refl refl later)
                      | inr d ↦ rw d later
                    ])
              ])
      ]

  -- ─── Every call ───────────────────────────────────────────────────────────

  -- Writes after the wait keep what the others kept.
  after_wait : (s : PayStore) → IsMoney s → (t : PayStore) → Reach (env.others s) t → IsMoney t
  after_wait s h t p = Reach-IsMoney (env.others s) t p (steady.money s h)

  serve-IsMoney : (c : PayCall) (s : PayStore) → IsMoney s → IsMoney (serve env c s)
  unfolding serve
  serve-IsMoney (begin_payment u r q b) s h = create_order-IsMoney env steady u r q b s h
  serve-IsMoney (confirm_payment v u r o p) s h = verify-IsMoney v u r o p s h
  serve-IsMoney (deliver_webhook v e p) s h = handle_webhook-IsMoney v e p s h
  serve-IsMoney (cancel_request u r) s h = cancel-IsMoney env steady u r s h
  serve-IsMoney expire_quotes s h = expire_service_quotes-IsMoney env steady s h
  serve-IsMoney (quote_request a r dto) s h =
      send_quote_cases env IsMoney s h (after_wait s h) a r dto
  serve-IsMoney (claim_request a r) s h = claim_cases env IsMoney s h (after_wait s h) a r
  serve-IsMoney (reassign_request a r to_id) s h =
      reassign_cases env IsMoney s h (after_wait s h) a r to_id
  serve-IsMoney (close_request a r) s h = close_cases env IsMoney s h (after_wait s h) a r
  serve-IsMoney (clear_review a r) s h = resolve_review_cases env IsMoney s h (after_wait s h) a r
  serve-IsMoney (read_by_admin a r) s h = mark_read_cases env IsMoney s h (after_wait s h) a r
  serve-IsMoney (read_by_member u r) s h =
      mark_read_by_member_cases env IsMoney s h (after_wait s h) u r
  serve-IsMoney (rate_request u r n) s h =
      Reach-IsMoney s (rate u r n s).1 (next here (rate-Write u r n s)) h

-- No request is granted twice, whatever calls are made and in whatever order, with steady others in
-- between: in every store that is reached from one where it holds, a request has one paid quote at most, and
-- has none while it is open for a quote or a payment.
pub serve_all-IsMoney :
    (cs : List (PayEnv × PayCall))
    → All (λ c. IsSteady c.0.others) cs
    → (s : PayStore) → IsMoney s
    → IsMoney (serve_all cs s)
unfolding serve_all
serve_all-IsMoney [] st s h = h
serve_all-IsMoney ((env, c) ∷ cs) (st, sts) s h =
    serve_all-IsMoney cs sts (serve env c s) (serve-IsMoney env st c s h)

-- ===== src/Plans/Webhook/Delivered.antt =====
-- A payment for a plan that the gateway reports (services.payments.ts, payments.service.ts).
use finskool_monorepo.Base.{
  Bool, ◌||◌, ℕ, ◌≡◌, refl, ◌∙◌, true, false, not, ◌&&◌, ◌==◌, is_id, Option, some, List, [], ◌∷◌,
  ◌++◌, find_first, any_where, count_where, update_where, next_id-fresh, UniqueKey, arith,
  Bool-cases, inl, inr, ==→eq, ==_refl, Result, ok,
}
use finskool_monorepo.Payments.{PayStore, PayEnv, PlanReceipt, WebhookEvent}
use finskool_monorepo.Payments.Webhook.{
  WebhookPayload, WebhookEventType, handle_webhook, process_webhook_event, process_ids, store_event,
  mark_processed, is_event,
}
use finskool_monorepo.Payments.Receipts.{issue_plan_receipt}
use finskool_monorepo.Plans.{
  PlanOrder, PlanSubscription, PlanStore, PlanEnv, Plan, is_paid_plan, find_plan_order,
  find_subscription, find_by_gateway_id,
}
use finskool_monorepo.Plans.Settle.{
  current_of, end_subscription, is_current, is_claimable, claim_order, recompute_active_sub_count,
  is_wrong_amount, grant_plan, grant_in_tx, settle_answer, plan_to_grant, result_of,
  settle_plan_order, settle_plan_purchase,
}
use finskool_monorepo.Plans.Book.{order_id, sub_id}
use finskool_monorepo.Plans.Granted.{find-appended, ended_absent, fill, bought, fused}
use finskool_monorepo.Plans.Again.{found_bought, unclaimable}
use finskool_monorepo.Plans.Webhook.{
  is_taxed, granted_order, granted_purchase, MoneyStore, is_paid_event, is_processed, with_plans,
  deliver,
}

-- The order waits for this payment, and what it is for is still there.
pub record IsPayable (o : PlanOrder) (payment_id : ℕ) (s t : PlanStore) : Type 0 where
  pub by_id : find_plan_order o.id s ≡ some o
  pub by_gateway_id : find_by_gateway_id o.razorpay_order_id s ≡ some o
  pub unpaid : is_paid_plan o.status ≡ false
  pub one_order : UniqueKey order_id t.orders
  pub untouched : find_plan_order o.id t ≡ some o
  pub new_payment :
      any_where (λ y. is_id y.razorpay_payment_id payment_id && not (y.id == o.id)) t.orders ≡ false

-- The order is paid by this payment, and the member has what it is for.
pub record IsDelivered (o : PlanOrder) (payment_id : ℕ) (x : PlanSubscription) (s : PlanStore)
    : Type 0 where
  pub paid : find_plan_order o.id s ≡ some (bought payment_id x.id o)
  pub stored : find_subscription x.id s ≡ some x
  pub running : is_current o.user_id o.community_id x ≡ true
  pub for_price : x.payment_paise ≡ o.amount_paise

claimable :
    (o : PlanOrder) (os : List PlanOrder)
    → find_first (λ x. x.id == o.id) os ≡ some o
    → is_paid_plan o.status ≡ false
    → (count_where (is_claimable o.id) os == 0) ≡ false
claimable o os f u = elim (Bool-cases (count_where (is_claimable o.id) os == 0)) [
  | inl p ↦ let paid = unclaimable o.id os o (==→eq _ _ p) f in let no : ⊥ = cc in elim no [ ]
  | inr n ↦ n
]

granted-IsDelivered :
    (o : PlanOrder) (payment_id : ℕ) (x : PlanSubscription) (old : Option PlanSubscription)
    (s t u : PlanStore)
    → IsPayable o payment_id s t
    → any_where (λ y. y.id == x.id) t.subscriptions ≡ false
    → (is_current o.user_id o.community_id x ≡ true) × (x.payment_paise ≡ o.amount_paise)
    → u.subscriptions ≡ end_subscription old t.subscriptions ++ x ∷ []
    → u.orders
      ≡ update_where
          (λ y. y.id == o.id)
          (fill x.id)
          (update_where (is_claimable o.id) (claim_order payment_id) t.orders)
    → IsDelivered o payment_id x u
granted-IsDelivered o payment_id x old s t u h absent is es eo =
    let able = claimable o t.orders h.untouched h.unpaid in
    let one = eo ∙ fused o.id payment_id x.id t.orders h.one_order able in
    record {
      paid = rw one (found_bought o.id payment_id x.id t.orders o h.untouched);
      stored = rw es (
          find-appended x (end_subscription old t.subscriptions)
            (ended_absent x.id old t.subscriptions absent));
      running = is.0;
      for_price = is.1;
    }

-- What an answer of `ok` to a grant comes with.
abbrev Delivers : PlanOrder → ℕ → Result (Option PlanSubscription) × PlanStore → Type 0
Delivers o payment_id g =
    (x : PlanSubscription) × (g.0 ≡ ok (some x)) × IsDelivered o payment_id x g.1

grant_in_tx-Delivers :
    (env : PlanEnv) (o : PlanOrder) (plan : Plan) (payment_id : ℕ) (s t : PlanStore)
    → IsPayable o payment_id s (env.meanwhile t)
    → Delivers o payment_id (grant_in_tx env o plan payment_id t)
unfolding grant_in_tx grant_plan recompute_active_sub_count
grant_in_tx-Delivers env o plan payment_id s t h =
    let u = env.meanwhile t in
    rw (claimable o u.orders h.untouched h.unpaid, h.new_payment)
      (
        _,
        refl,
        granted-IsDelivered o payment_id _ (current_of o t) s u _ h
            (next_id-fresh sub_id u.subscriptions) (ground arith, refl) refl refl,
      )

-- The call for an order that waits.
settle_plan_order-Delivers :
    (env : PlanEnv) (o : PlanOrder) (plan : Plan) (payment_id : ℕ) (s : PlanStore)
    → IsPayable o payment_id s (env.meanwhile (env.others s))
    → plan_to_grant o s ≡ some plan
    → (x : PlanSubscription) × ((settle_plan_order env o.id payment_id s).0
        ≡ ok (result_of o.community_id o.plan_id x))
      × (granted_order env o.id payment_id s ≡ some o)
      × IsDelivered o payment_id x (settle_plan_order env o.id payment_id s).1
unfolding settle_plan_order settle_answer granted_order
settle_plan_order-Delivers env o plan payment_id s h f =
    let (x, e, d) = grant_in_tx-Delivers env o plan payment_id s (env.others s) h in
    rw (h.by_id, settle_plan_order, granted_order) (rw h.unpaid (rw f (rw e (x, refl, refl, d))))

settle_plan_purchase-Delivers :
    (env : PlanEnv) (o : PlanOrder) (plan : Plan) (payment_id : ℕ) (paid : Option ℕ) (s : PlanStore)
    → IsPayable o payment_id s (env.meanwhile (env.others s))
    → plan_to_grant o s ≡ some plan
    → is_wrong_amount paid o ≡ false
    → ((settle_plan_purchase env o.razorpay_order_id payment_id paid s).0 ≡ ok true)
      × (granted_purchase env o.razorpay_order_id payment_id paid s ≡ some o)
      × (x : PlanSubscription) × IsDelivered o payment_id x
          (settle_plan_purchase env o.razorpay_order_id payment_id paid s).1
unfolding settle_plan_purchase granted_purchase
settle_plan_purchase-Delivers env o plan payment_id paid s h f right =
    let (x, e, g, d) = settle_plan_order-Delivers env o plan payment_id s h f in
    rw (h.by_gateway_id, settle_plan_purchase, granted_purchase)
      (rw right (rw (e, g) (refl, refl, x, d)))

-- ─── The delivery ───────────────────────────────────────────────────────────

-- The service requests, their quotes, orders and payments, and their invoices are left alone.
abbrev pub LeavesServices : PayStore → PayStore → Type 0
LeavesServices a b =
    (b.requests ≡ a.requests)
    × (b.quotes ≡ a.quotes)
    × (b.orders ≡ a.orders)
    × (b.payments ≡ a.payments)
    × (b.invoices ≡ a.invoices)

marked :
    (e : ℕ) (xs : List WebhookEvent)
    → any_where (is_event e) xs ≡ true
    → any_where
        (λ x. is_event e x && x.processed)
        (update_where (is_event e) (λ x. record x { processed = true }) xs)
      ≡ true
unfolding any_where update_where
marked e [] h = cc
marked e (x ∷ xs) h = elim (Bool-cases (is_event e x)) [
  | inl p ↦ rw (p, p) refl
  | inr n ↦ rw (n, n) (marked e xs (ground (arith, h, n)))
]

noted :
    (e : ℕ) (xs : List WebhookEvent) (x : WebhookEvent)
    → is_event e x ≡ true
    → any_where (is_event e) (xs ++ x ∷ []) ≡ true
unfolding any_where
noted e [] x h = rw h refl
noted e (y ∷ xs) x h = ground (arith, noted e xs x h)

store_event-LeavesServices :
    (e : ℕ) (s : PayStore)
    → LeavesServices s (mark_processed e (store_event e s))
      × (is_processed e (mark_processed e (store_event e s)) ≡ true)
unfolding store_event mark_processed
store_event-LeavesServices e s = elim (Bool-cases (any_where (is_event e) s.webhook_events)) [
  | inl p ↦ rw p ((refl, refl, refl, refl, refl), marked e s.webhook_events p)
  | inr n ↦
      rw n ((refl, refl, refl, refl, refl), marked e _ (noted e s.webhook_events _ (==_refl e)))
]

paid_ids :
    (env : PayEnv) (p : WebhookPayload) (o i : ℕ) (s : PayStore)
    → is_paid_event p.event ≡ true
    → env.plan_purchase o i p.amount_paise ≡ ok true
    → process_ids env p o i s ≡ (true, s)
paid_ids env p o i s h e = by_event p.event h
  where
    by_event :
        (k : WebhookEventType)
        → is_paid_event k ≡ true
        → process_ids env (record p { event = k }) o i s ≡ (true, s)
    by_event WebhookEventType.order_paid h = rw e refl
    by_event WebhookEventType.payment_captured h = rw e refl
    by_event WebhookEventType.payment_failed h = cc
    by_event WebhookEventType.other_event h = cc

handled :
    (env : PayEnv) (event_id : ℕ) (p : WebhookPayload) (o i : ℕ) (s : PayStore)
    → is_paid_event p.event ≡ true
    → p.order_id ≡ some o
    → p.payment_id ≡ some i
    → is_processed event_id s ≡ false
    → env.plan_purchase o i p.amount_paise ≡ ok true
    → handle_webhook env true event_id p s ≡ (200, mark_processed event_id (store_event event_id s))
unfolding handle_webhook process_webhook_event
handled env event_id p o i s paid eo ei new e = rw new (
    rw (eo, process_webhook_event)
      (rw ei (rw (paid_ids env p o i (store_event event_id s) paid e) refl)))

receipted :
    (id : ℕ) (xs : List PlanReceipt) (x : PlanReceipt)
    → (x.plan_order_id == id) ≡ true
    → any_where (λ r. r.plan_order_id == id) (xs ++ x ∷ []) ≡ true
unfolding any_where
receipted id [] x h = rw h refl
receipted id (y ∷ xs) x h = ground (arith, receipted id xs x h)

or_right : (a b : Bool) → b ≡ true → a || b ≡ true
or_right a b h = ground (arith, h)

-- A receipt touches nothing else, and the order has one then.
issue_plan_receipt-LeavesServices :
    (env : PayEnv) (id event_id : ℕ) (taxed : Bool) (s t : PayStore)
    → LeavesServices s t × (is_processed event_id t ≡ true)
    → LeavesServices s (issue_plan_receipt env id taxed t)
      × (is_processed event_id (issue_plan_receipt env id taxed t) ≡ true)
      × (not env.receipts_up
            || any_where
                (λ r. r.plan_order_id == id)
                (issue_plan_receipt env id taxed t).plan_receipts
          ≡ true)
unfolding issue_plan_receipt
issue_plan_receipt-LeavesServices env id event_id taxed s t (only, done) =
    elim (Bool-cases
      (any_where (λ r. r.plan_order_id == id) t.plan_receipts || not env.receipts_up)) [
        | inl p ↦ rw p (only, done, ground (arith, p))
        | inr n ↦ rw n (
          only,
          done,
          or_right (not env.receipts_up) _ (receipted id t.plan_receipts _ (==_refl id)),
        )
      ]

-- A payment for a plan is not lost when the app does not report it. A signed delivery of it that was not
-- processed before, for the price of an order that waits, is answered with 200 and not asked for again: it
-- makes the order paid, gives the member a running subscription at that price and the order its receipt,
-- if receipts can be issued, and leaves the service requests, their quotes, orders, payments and invoices
-- alone. It holds if nobody touches the order between the reads and the writes.
pub deliver-Delivers :
    (env : PayEnv) (plan_env : PlanEnv) (event_id payment_id : ℕ) (p : WebhookPayload)
    (o : PlanOrder) (plan : Plan) (s : MoneyStore)
    → is_paid_event p.event ≡ true
    → p.order_id ≡ some o.razorpay_order_id
    → p.payment_id ≡ some payment_id
    → is_wrong_amount p.amount_paise o ≡ false
    → is_processed event_id s.pay ≡ false
    → IsPayable o payment_id s.plans (plan_env.meanwhile (plan_env.others s.plans))
    → plan_to_grant o s.plans ≡ some plan
    → (let (status, t) = deliver env plan_env true event_id p s in
        (status ≡ 200)
        × (is_processed event_id t.pay ≡ true)
        × LeavesServices s.pay t.pay
        × (not env.receipts_up || any_where (λ r. r.plan_order_id == o.id) t.pay.plan_receipts
            ≡ true)
        × ((x : PlanSubscription) × IsDelivered o payment_id x t.plans))
unfolding deliver
deliver-Delivers env plan_env event_id payment_id p o plan s paid eo ei right new h f =
    let (true_answer, due, x, d) =
      settle_plan_purchase-Delivers plan_env o plan payment_id p.amount_paise s.plans h f right in
    let (only, done, receipt) =
      issue_plan_receipt-LeavesServices env o.id event_id (is_taxed o) s.pay _
        (store_event-LeavesServices event_id s.pay) in
    rw
      (handled (with_plans plan_env s.plans env) event_id p o.razorpay_order_id payment_id s.pay
        paid eo ei new true_answer)
      (rw (new, paid) (rw eo (rw ei (rw due (refl, done, only, receipt, (x, d))))))

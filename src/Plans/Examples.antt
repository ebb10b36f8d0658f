-- ===== src/Plans/Examples.antt =====
-- One member who renews the plan of one community early.
use finskool_monorepo.Base.{
  Bool-cases, inl, inr, subst, ◌==◌, not, ◌||◌, ℕ, ◌+◌, ◌≤◌, ◌≡◌, refl, true, false, none, some,
  List, [], ◌∷◌, find_first, any_where, count_where, update_where, next_id, arith, ok, err,
}
use finskool_monorepo.Plans.{
  Day, PlanOrderStatus, PlanOrder, Plan, PlanStore, PlanEnv, PlanSubscription,
}
use finskool_monorepo.Plans.Months.{IsDay, add_months, add_months_lem, clamped, days_in_month}
use finskool_monorepo.Plans.Settle.{PlanResult, grant_in_tx, settle_plan_order, current_of}
use finskool_monorepo.Plans.Book.{IsPlanBook}
use finskool_monorepo.Plans.Running.{current_count, grant_in_tx-one_running}
use finskool_monorepo.Plans.Kept.{IsOrderly, AreOrderly}
use finskool_monorepo.Plans.Run.{PlanCall}
use finskool_monorepo.Plans.Longer.{IsLonger, grant_in_tx-IsLonger}
use finskool_monorepo.Payments.{PayEnv}
use finskool_monorepo.Payments.Webhook.{WebhookEventType, WebhookPayload}
use finskool_monorepo.Plans.Webhook.{MoneyStore, is_processed, verify_plan, deliver}
use finskool_monorepo.Plans.Webhook.Delivered.{
  IsPayable, IsDelivered, LeavesServices, deliver-Delivers,
}
use finskool_monorepo.Plans.Again.{KeepsGrants, SameGrant, SameResult, settle_plan_order-again}
use finskool_monorepo.Plans.Checkout.{
  CheckoutEnv, CheckoutStore, signed_out, exchange, max_checkouts_per_hour,
}
use finskool_monorepo.Plans.Checkout.Burned.{
  CheckoutCall, serve_checkouts, exchange-serve_checkouts-exchange,
}
use finskool_monorepo.Plans.Checkout.Limit.{links, links-limit}

abbrev jan_31 : Day
jan_31 = record { year = 2025; month = 0; day = 31 }

jan_31-IsDay : IsDay jan_31
unfolding days_in_month
jan_31-IsDay = record { month_in = omega arith; day_in = (omega arith, omega arith) }

-- A month from January 31st is February 28th.
add_months_lem_example : add_months jan_31 1 ≡ clamped 2025 1 31
add_months_lem_example = add_months_lem jan_31 1 jan_31-IsDay

abbrev calm : PlanEnv
calm = record {
  now = 5000;
  today = record { year = 2025; month = 0; day = 10 };
  rules = record { applies = true; rate_bps = 1800 };
  gateway_configured = true;
  new_gateway_order = some 91;
  others = λ s. s;
  meanwhile = λ s. s;
}

abbrev monthly : Plan
monthly = record {
  id = 40;
  community_id = 30;
  duration_months = 1;
  price_paise = 100000;
  is_active = true;
}

abbrev an_order : ℕ → ℕ → PlanOrder
an_order id gateway_id = record {
  id = id;
  user_id = 3;
  community_id = 30;
  plan_id = 40;
  razorpay_order_id = gateway_id;
  razorpay_payment_id = none;
  amount_paise = 118000;
  base_paise = some 100000;
  gst_paise = some 18000;
  status = PlanOrderStatus.created;
  subscription_id = none;
  created_at = 4000;
}

abbrev running : PlanSubscription
running = record {
  id = 50;
  user_id = 3;
  community_id = 30;
  plan_id = 40;
  payment_paise = 118000;
  paid_on = 100;
  valid_until = jan_31;
  is_active = true;
}

abbrev one_order : PlanStore
one_order = record {
  user_ids = 3 ∷ [];
  communities = record { id = 30; is_free = false; deleted_at = none; active_sub_count = 1 } ∷ [];
  plans = monthly ∷ [];
  orders = an_order 60 90 ∷ an_order 61 92 ∷ [];
  subscriptions = running ∷ [];
  notices = [];
}

one_order-IsPlanBook : IsPlanBook one_order
unfolding any_where count_where
one_order-IsPlanBook = record {
  one_order = (refl, (refl, tt));
  one_sub = (refl, tt);
  settled = ((λ e. cc, λ e. refl), ((λ e. cc, λ e. refl), tt));
  own_sub = (refl, (refl, tt));
}

calm-IsOrderly : IsOrderly (λ s. s)
calm-IsOrderly = record { book = λ s h. h; orders = λ s id o p e f. ground (arith, e, f) }

both_calm : AreOrderly calm
both_calm = (calm-IsOrderly, calm-IsOrderly)

abbrev renewal : List (PlanEnv × PlanCall)
renewal =
    (calm, PlanCall.confirm_plan true 3 90 80)
    ∷ (calm, PlanCall.deliver_paid 90 80 (some 118000))
    ∷ (calm, PlanCall.begin_plan 3 30 40)
    ∷ []

abbrev renewed : PlanResult
renewed = record {
  subscription_id = 51;
  community_id = 30;
  plan_id = 40;
  payment_paise = 118000;
  valid_until = record { year = 2025; month = 1; day = 28 };
  is_active = true;
}

-- By the second report the subscription was replaced.
abbrev much_later : PlanStore
much_later =
    let u = (settle_plan_order calm 60 80 one_order).1 in
    record u {
      subscriptions =
          update_where (λ x. x.id == 51) (λ x. record x { is_active = false }) u.subscriptions;
    }

ended-Keeps :
    (i : ℕ) (x : PlanSubscription) (xs : List PlanSubscription)
    → find_first (λ y. y.id == i) xs ≡ some x
    → (y : PlanSubscription) × (find_first
          (λ y. y.id == i)
          (update_where (λ y. y.id == 51) (λ y. record y { is_active = false }) xs)
        ≡ some y)
      × SameGrant x y
unfolding find_first update_where
ended-Keeps i x [] e = cc
ended-Keeps i x (z ∷ xs) e = elim (Bool-cases (z.id == i)) [
  | inl p ↦
      let same : z ≡ x = ground (arith, e, p) in
      elim (Bool-cases (z.id == 51)) [
        | inl k ↦
            rw (k, p)
              (
                record z { is_active = false },
                refl,
                subst (λ w. SameGrant w (record z { is_active = false })) same (refl, refl, refl),
              )
        | inr n ↦ rw (n, p) (z, refl, subst (λ w. SameGrant w z) same (refl, refl, refl))
      ]
  | inr m ↦
      let ih = ended-Keeps i x xs (ground (arith, e, m)) in
      elim (Bool-cases (z.id == 51)) [ inl k ↦ rw (k, m) ih | inr n ↦ rw (n, m) ih ]
]

much_later-Keeps : KeepsGrants (settle_plan_order calm 60 80 one_order).1 much_later
much_later-Keeps = record {
  orders = λ id o e p. e;
  subscriptions =
      λ i x e. ended-Keeps i x (settle_plan_order calm 60 80 one_order).1.subscriptions e;
}

settle_plan_order-again_example :
    (b : PlanResult) × (settle_plan_order calm 60 80 much_later ≡ (ok b, much_later))
    × SameResult renewed b
unfolding settle_plan_order find_first count_where any_where update_where next_id add_months
settle_plan_order-again_example =
    settle_plan_order-again calm calm 60 80 one_order much_later renewed both_calm
      one_order-IsPlanBook refl much_later-Keeps

grant_in_tx-one_running_example :
    current_count 3 30 (grant_in_tx calm (an_order 60 90) monthly 80 one_order).1.subscriptions ≤ 1
unfolding count_where
grant_in_tx-one_running_example =
    grant_in_tx-one_running calm (an_order 60 90) monthly 80 one_order refl (λ u c. ground arith) 3
      30

abbrev bought_now : PlanSubscription
bought_now = record {
  id = 51;
  user_id = 3;
  community_id = 30;
  plan_id = 40;
  payment_paise = 118000;
  paid_on = 5000;
  valid_until = record { year = 2025; month = 1; day = 28 };
  is_active = true;
}

grant_in_tx-IsLonger_example :
    IsLonger calm.today (current_of (an_order 60 90) one_order) bought_now.valid_until
unfolding grant_in_tx find_first count_where any_where update_where next_id add_months days_in_month
grant_in_tx-IsLonger_example =
    grant_in_tx-IsLonger calm (an_order 60 90) monthly 80 one_order bought_now
      (record { month_in = omega arith; day_in = (omega arith, omega arith) }) (jan_31-IsDay, tt)
      (omega arith) refl

-- ─── The checkout page ──────────────────────────────────────────────────────

abbrev page : ℕ → CheckoutEnv
page token = record {
  plan_env = calm;
  hash_of = λ t. t + 1000;
  new_token = token;
  handoff_ttl_ms = 600;
  session_ttl_ms = 900;
}

abbrev one_link : CheckoutStore
one_link = record {
  plan_store = one_order;
  handoffs = record { hash = 1007; plan_order_id = 60; expires_at = 5600 } ∷ [];
  sessions = record { hash = 1008; plan_order_id = 60; expires_at = 5900 } ∷ [];
  rates = [];
}

abbrev next_calls : List (CheckoutEnv × CheckoutCall)
next_calls = (page 9, CheckoutCall.open_link 3 30 40) ∷ (page 10, CheckoutCall.use_link 9) ∷ []

exchange-serve_checkouts-exchange_example :
    let later = serve_checkouts next_calls (exchange (page 8) 7 one_link).1 in
    ((exchange (page 11) 7 later).0 ≡ err signed_out)
    × ((exchange (page 11) 7 later).1.sessions ≡ later.sessions)
exchange-serve_checkouts-exchange_example =
    exchange-serve_checkouts-exchange (page 8) (page 11) 7 next_calls one_link refl
      (refl, (refl, tt))

links-limit_example :
    links 3 ((page 12, (30, 40)) ∷ (page 13, (30, 40)) ∷ []) one_link ≤ max_checkouts_per_hour
unfolding find_first
links-limit_example =
    links-limit 3 (page 12) (30, 40) ((page 13, (30, 40)) ∷ []) one_link refl (omega arith, tt)

-- ─── A delivery of the gateway ──────────────────────────────────────────────

abbrev desk : PayEnv
desk = record {
  now = 5000;
  financial_year = 2025;
  receipt_series = 92025;
  receipts_up = true;
  billing_configured = true;
  gateway_configured = true;
  default_gst_rate_bps = 1800;
  default_quote_expiry_days = 7;
  directory = record { users = []; communities = []; subscriptions = []; community_admins = [] };
  new_gateway_order = none;
  plan_purchase = λ o i a. ok false;
  others = λ s. s;
}

abbrev delivery : WebhookPayload
delivery = record {
  event = WebhookEventType.order_paid;
  order_id = some 90;
  payment_id = some 80;
  amount_paise = some 118000;
  currency = some 0;
}

abbrev both : MoneyStore
both = record {
  pay = record {
    requests = [];
    quotes = [];
    orders = [];
    payments = [];
    invoices = [];
    counters = [];
    plan_receipts = [];
    events = [];
    messages = [];
    webhook_events = record { razorpay_event_id = 6; processed = true } ∷ [];
  };
  plans = one_order;
}

both-IsPayable : IsPayable (an_order 60 90) 80 one_order one_order
unfolding find_first any_where
both-IsPayable = record {
  by_id = refl;
  by_gateway_id = refl;
  unpaid = refl;
  one_order = (refl, (refl, tt));
  untouched = refl;
  new_payment = refl;
}

deliver-Delivers_example :
    let (status, t) = deliver desk calm true 7 delivery both in
    (status ≡ 200)
    × (is_processed 7 t.pay ≡ true)
    × LeavesServices both.pay t.pay
    × (not desk.receipts_up || any_where (λ r. r.plan_order_id == 60) t.pay.plan_receipts ≡ true)
    × ((x : PlanSubscription) × IsDelivered (an_order 60 90) 80 x t.plans)
unfolding find_first any_where
deliver-Delivers_example =
    deliver-Delivers desk calm 7 80 delivery (an_order 60 90) monthly both refl refl refl refl refl
      both-IsPayable refl

-- The app's report issues the receipt as well.
verify_plan_receipt :
    any_where
      (λ r. r.plan_order_id == 60)
      (verify_plan desk calm true 3 90 80 both).1.pay.plan_receipts
    ≡ true
unfolding verify_plan find_first any_where count_where update_where next_id add_months days_in_month
verify_plan_receipt = refl

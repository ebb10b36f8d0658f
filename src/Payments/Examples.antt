-- ===== src/Payments/Examples.antt =====
-- One request with one active quote, paid by the app and by the webhook.
use finskool_monorepo.Base.{
  ok, ℕ, Option, update_where, refl, true, false, none, some, List, [], ◌∷◌, find_first, find_many,
  any_where, count_where, arith,
}
use finskool_monorepo.Payments.{
  ServiceRequest, ServiceRequestStatus, ServiceQuoteStatus, RazorpayOrderStatus,
  RazorpaySettleSource, PayStore, PayEnv,
}
use finskool_monorepo.Payments.Settle.{last_number_of, SettleInput, SettleOutcome, settle}
use finskool_monorepo.Payments.Webhook.{WebhookEventType}
use finskool_monorepo.Payments.Run.{PayCall, serve_all}
use finskool_monorepo.Payments.Once.{IsNoop, settle-settle}
use finskool_monorepo.Payments.Receipts.{issue_plan_receipt}
use finskool_monorepo.Payments.Numbers.{IsNumbered, settle-IsNumbered}
use finskool_monorepo.Payments.Money.{IsMoney}
use finskool_monorepo.Payments.Money.Granted.{IsSteady}
use finskool_monorepo.Payments.Money.Reports.{serve_all-IsMoney}
use finskool_monorepo.Payments.Moves.{Reach, here, Calm}
use finskool_monorepo.Payments.Moves.Served.{serve_all-Reach}
use finskool_monorepo.Payments.Moves.Book.{IsBook, serve_all-IsBook}
use finskool_monorepo.Payments.Moves.After.{IsAfter, serve_all-IsAfter}
use finskool_monorepo.Payments.Desk.{AdminViewer}
use finskool_monorepo.Base.{All, Grows, map, ◌≡◌}
use finskool_monorepo.Payments.{ServiceClosedReason}
use finskool_monorepo.Payments.Start.{create_order}
use finskool_monorepo.Payments.Webhook.{verify}
use finskool_monorepo.Payments.Quotes.{send_quote}
use finskool_monorepo.Payments.Desk.{close}
use finskool_monorepo.Payments.Rating.{rate}

abbrev quiet : PayEnv
quiet = record {
  now = 1000;
  financial_year = 2026;
  receipt_series = 92026;
  receipts_up = true;
  billing_configured = true;
  gateway_configured = true;
  default_gst_rate_bps = 1800;
  default_quote_expiry_days = 7;
  directory = record { users = []; communities = []; subscriptions = []; community_admins = [] };
  new_gateway_order = some 70;
  plan_purchase = λ o i a. ok false;
  others = λ s. s;
}

abbrev one_quote : PayStore
one_quote = record {
  requests =
      record {
        id = 10;
        user_id = 3;
        status = ServiceRequestStatus.quote_sent;
        closed_reason = none;
        user_unread_count = 0;
        admin_unread_count = 0;
        last_message_at = 900;
        paid_at = none;
        closed_at = none;
        requires_review = false;
        assigned_admin_id = none;
        rating = none;
      }
      ∷ [];
  quotes =
      record {
        id = 20;
        request_id = 10;
        version = 1;
        base_paise = 100000;
        gst_paise = 18000;
        total_paise = 118000;
        expires_at = 5000;
        status = ServiceQuoteStatus.active;
        billing = some 1;
        payment_started_at = some 950;
      }
      ∷ [];
  orders =
      record {
        razorpay_order_id = 60;
        reference_id = 20;
        user_id = 3;
        amount_paise = 118000;
        currency = 0;
        status = RazorpayOrderStatus.created;
        paid_at = none;
      }
      ∷ [];
  payments = [];
  invoices = [];
  counters = [];
  plan_receipts = [];
  events = [];
  messages = [];
  webhook_events = [];
}

abbrev by_app : SettleInput
by_app = record {
  razorpay_order_id = 60;
  razorpay_payment_id = 80;
  amount_paise = none;
  currency = none;
  source = RazorpaySettleSource.verify;
}

abbrev by_webhook : SettleInput
by_webhook = record by_app { amount_paise = some 118000; source = RazorpaySettleSource.webhook }

settle-settle_example :
    let t = (settle quiet by_app one_quote).1 in IsNoop t (settle quiet by_webhook t)
unfolding settle find_first any_where
settle-settle_example =
    settle-settle quiet quiet by_app by_webhook one_quote (settle quiet by_app one_quote).1
      SettleOutcome.settled (λ s. s) (λ i s h. h) refl (λ e. cc) refl refl

settle-IsNumbered_example :
    IsNumbered (settle quiet by_app one_quote).1
    × IsNumbered (issue_plan_receipt quiet 60 true one_quote)
unfolding find_first last_number_of count_where
settle-IsNumbered_example =
    settle-IsNumbered quiet by_app 60 true one_quote (λ s h. h) (λ year n. ground arith)

one_quote-IsMoney : IsMoney one_quote
unfolding any_where count_where
one_quote-IsMoney = record { one_row = (refl, tt); paid_once = λ r. ground arith }

quiet-IsSteady : IsSteady quiet.others
quiet-IsSteady = record { money = λ s h. h; parents = λ s id q f r g. cc }

abbrev both_ways : List (PayEnv × PayCall)
both_ways =
    (quiet, PayCall.begin_payment 3 10 20 1)
    ∷ (quiet, PayCall.confirm_payment true 3 10 60 80)
    ∷ (
      quiet,
      PayCall.deliver_webhook true 5 (record {
        event = WebhookEventType.order_paid;
        order_id = some 60;
        payment_id = some 80;
        amount_paise = some 118000;
        currency = none;
      }),
    )
    ∷ []

serve_all-IsMoney_example : IsMoney (serve_all both_ways one_quote)
serve_all-IsMoney_example =
    serve_all-IsMoney both_ways (quiet-IsSteady, (quiet-IsSteady, (quiet-IsSteady, tt))) one_quote
      one_quote-IsMoney

-- ─── The support team ───────────────────────────────────────────────────────

abbrev asha : AdminViewer
asha = record { id = 7; is_super_admin = false }

-- A second quote replaces the first, and is paid, delivered, and rated.
abbrev delivered_late : List (PayEnv × PayCall)
delivered_late =
    (
      quiet,
      PayCall.quote_request asha 10 (record {
        base_paise = 50000;
        gst_rate_bps = none;
        expiry_days = some 3;
        confirm_replace = true;
      }),
    )
    ∷ (quiet, PayCall.begin_payment 3 10 21 1)
    ∷ (quiet, PayCall.confirm_payment true 3 10 70 81)
    ∷ (quiet, PayCall.close_request asha 10)
    ∷ (quiet, PayCall.rate_request 3 10 5)
    ∷ []

quiet-Calm : Calm quiet
quiet-Calm s = here

delivered_late-Calm : All (λ c. Calm c.0) delivered_late
delivered_late-Calm = (quiet-Calm, (quiet-Calm, (quiet-Calm, (quiet-Calm, (quiet-Calm, tt)))))

one_quote-IsBook : IsBook one_quote
unfolding any_where count_where
one_quote-IsBook = record {
  one_request = (refl, tt);
  one_quote = (refl, tt);
  one_active = λ r. ground arith;
  sound = ((refl, refl), tt);
}

serve_all-Reach_example : Reach one_quote (serve_all delivered_late one_quote)
serve_all-Reach_example = serve_all-Reach delivered_late delivered_late-Calm one_quote

serve_all-IsBook_example : IsBook (serve_all delivered_late one_quote)
serve_all-IsBook_example =
    serve_all-IsBook delivered_late delivered_late-Calm one_quote one_quote-IsBook

serve_all-IsAfter_example :
    Grows IsAfter one_quote.requests (serve_all delivered_late one_quote).requests
serve_all-IsAfter_example =
    serve_all-IsAfter delivered_late delivered_late-Calm one_quote one_quote-IsBook

abbrev ending : ServiceRequest → ServiceRequestStatus × Option ServiceClosedReason × Option ℕ
ending r = (r.status, r.closed_reason, r.rating)

delivered_late_closes :
    map ending (serve_all delivered_late one_quote).requests
    ≡ (ServiceRequestStatus.closed, some ServiceClosedReason.completed, some 5) ∷ []
unfolding serve_all send_quote create_order verify close rate find_first count_where update_where
    any_where find_many last_number_of
delivered_late_closes = refl

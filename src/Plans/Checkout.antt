-- ===== src/Plans/Checkout.antt =====
-- Buying a plan inside the app's web view: apps/backend/src/modules/payments/payments.checkout.ts. Tokens
-- are numbers, drawn by the environment and hashed by a parameter; Redis keeps a value until its time is
-- over.
pub mod Burned
pub mod Limit
use finskool_monorepo.Base.{
  ℕ, suc, ◌+◌, ◌-◌, ◌*◌, Bool, true, false, not, ◌&&◌, ◌||◌, ◌==◌, ltb, leb, is_none, if◌then◌else◌,
  Option, none, some, List, [], ◌∷◌, find_first, find_many, map, length, Result, ok, err, ErrorCode,
  AppError,
}
use finskool_monorepo.Plans.{
  Day, PlanOrderStatus, PlanOrder, PlanStore, PlanEnv, is_paid_plan, find_plan_order,
  find_by_gateway_id, create_plan_order,
}
use finskool_monorepo.Plans.Settle.{
  PlanResult, has_access_on, distinct, verify_payment, settle_plan_order,
}

-- A token's hash with the order that it opens.
pub record TokenEntry : Type 0 where
  pub hash : ℕ
  pub plan_order_id : ℕ
  pub expires_at : ℕ

pub record RateEntry : Type 0 where
  pub user_id : ℕ
  pub count : ℕ
  pub expires_at : ℕ

pub record CheckoutStore : Type 0 where
  pub plan_store : PlanStore
  pub handoffs : List TokenEntry
  pub sessions : List TokenEntry
  pub rates : List RateEntry

pub record CheckoutEnv : Type 0 where
  pub plan_env : PlanEnv
  pub hash_of : ℕ → ℕ
  pub new_token : ℕ
  pub handoff_ttl_ms : ℕ
  pub session_ttl_ms : ℕ

abbrev now_of : CheckoutEnv → ℕ
now_of env = env.plan_env.now

abbrev pub find_token : ℕ → ℕ → List TokenEntry → Option TokenEntry
find_token hash now es = find_first (λ e. e.hash == hash && ltb now e.expires_at) es

abbrev pub drop_token : ℕ → List TokenEntry → List TokenEntry
drop_token hash es = find_many (λ e. not (e.hash == hash)) es

-- `SET` with `EX`
abbrev pub set_token : ℕ → ℕ → ℕ → List TokenEntry → List TokenEntry
set_token hash plan_order_id expires_at es =
    record { hash = hash; plan_order_id = plan_order_id; expires_at = expires_at }
    ∷ drop_token hash es

abbrev pub hour_ms : ℕ
hour_ms = 3600 * 1000

abbrev pub max_checkouts_per_hour : ℕ
max_checkouts_per_hour = 10

abbrev pub reuse_order_within_ms : ℕ
reuse_order_within_ms = 15 * 60 * 1000

abbrev pub find_rate : ℕ → ℕ → List RateEntry → Option RateEntry
find_rate user_id now rs = find_first (λ r. r.user_id == user_id && ltb now r.expires_at) rs

-- `INCR`, with the hour of the first attempt.
abbrev pub bumped : ℕ → ℕ → Option RateEntry → RateEntry
bumped user_id now none = record { user_id = user_id; count = 1; expires_at = now + hour_ms }
bumped user_id now (some r) = record r { count = suc r.count }

abbrev pub bump : ℕ → ℕ → List RateEntry → List RateEntry
bump user_id now rs =
    bumped user_id now (find_rate user_id now rs) ∷ find_many (λ r. not (r.user_id == user_id)) rs

abbrev pub is_created : PlanOrderStatus → Bool
is_created PlanOrderStatus.created = true
is_created _ = false

abbrev is_reusable : ℕ → ℕ → ℕ → ℕ → PlanOrder → Bool
is_reusable now user_id community_id plan_id o =
    o.user_id == user_id
    && o.community_id == community_id
    && o.plan_id == plan_id
    && is_created o.status
    && leb (now - reuse_order_within_ms) o.created_at

abbrev pub later_order : PlanOrder → Option PlanOrder → Option PlanOrder
later_order o none = some o
later_order o (some p) = if ltb o.created_at p.created_at then some p else some o

-- `orderBy: { createdAt: 'desc' }`
unfoldable pub newest : List PlanOrder → Option PlanOrder
newest [] = none
newest (o ∷ os) = later_order o (newest os)

-- The order behind a new link, and its id.
unfoldable pub order_to_pay : CheckoutEnv → ℕ → ℕ → ℕ → PlanStore → Result ℕ × PlanStore
unfolding create_plan_order newest find_many
order_to_pay env user_id community_id plan_id s =
    elim (newest (find_many (is_reusable (now_of env) user_id community_id plan_id) s.orders)) [
      | some o ↦ (ok o.id, s)
      | none ↦
          let (answer, after) = create_plan_order env.plan_env user_id community_id plan_id s in
          (
            elim answer [
              | err e ↦ err e
              | ok gateway_id ↦ elim (find_by_gateway_id gateway_id after) [
                | none ↦ err AppError.record_missing
                | some row ↦ ok row.id
              ]
            ],
            after,
          )
    ]

abbrev pub issue_link : CheckoutEnv → Result ℕ → CheckoutStore → Result ℕ × CheckoutStore
issue_link env (err e) s = (err e, s)
issue_link env (ok plan_order_id) s = (
  ok env.new_token,
  record s {
    handoffs =
        set_token (env.hash_of env.new_token) plan_order_id (now_of env + env.handoff_ttl_ms)
          s.handoffs;
  },
)

-- The token of the link.
unfoldable pub create_session : CheckoutEnv → ℕ → ℕ → ℕ → CheckoutStore → Result ℕ × CheckoutStore
unfolding order_to_pay
create_session env user_id community_id plan_id s =
    let counted : CheckoutStore = record s { rates = bump user_id (now_of env) s.rates } in
    if ltb max_checkouts_per_hour
      (bumped user_id (now_of env) (find_rate user_id (now_of env) s.rates)).count
    then (err (AppError.too_many_requests ErrorCode.no_code), counted)
    else (let (answer, after) = order_to_pay env user_id community_id plan_id s.plan_store in
        issue_link env answer (record counted { plan_store = after }))

abbrev pub signed_out : AppError
signed_out = AppError.unauthorized ErrorCode.no_code

-- Without the names, the texts, the rate and the gateway's key, which are copied.
pub record ExchangeResult : Type 0 where
  pub session_token : ℕ
  pub status : PlanOrderStatus
  pub order_id : ℕ
  pub amount_paise : ℕ
  pub base_paise : ℕ
  pub gst_paise : ℕ
  pub member_count : ℕ

abbrev pub or_amount : Option ℕ → ℕ → ℕ
or_amount none d = d
or_amount (some a) d = a

unfoldable pub open_session :
    CheckoutEnv → ℕ → CheckoutStore → Result ExchangeResult × CheckoutStore
unfolding distinct find_many
open_session env plan_order_id s = elim (find_plan_order plan_order_id s.plan_store) [
  | none ↦ (err signed_out, s)
  | some order ↦ (
    ok (record {
      session_token = env.new_token;
      status = order.status;
      order_id = order.razorpay_order_id;
      amount_paise = order.amount_paise;
      base_paise = or_amount order.base_paise order.amount_paise;
      gst_paise = or_amount order.gst_paise 0;
      member_count = length (
          distinct (
            map (λ x. x.user_id)
              (find_many (has_access_on env.plan_env.today order.community_id)
                s.plan_store.subscriptions)));
    }),
    record s {
      sessions =
          set_token (env.hash_of env.new_token) plan_order_id (now_of env + env.session_ttl_ms)
            s.sessions;
    },
  )
]

-- `GETDEL`: the link is burned by the call.
unfoldable pub exchange : CheckoutEnv → ℕ → CheckoutStore → Result ExchangeResult × CheckoutStore
unfolding open_session
exchange env handoff_token s =
    let burned : CheckoutStore = record s {
      handoffs = drop_token (env.hash_of handoff_token) s.handoffs;
    } in
    elim (find_token (env.hash_of handoff_token) (now_of env) s.handoffs) [
      | none ↦ (err signed_out, burned)
      | some e ↦ open_session env e.plan_order_id burned
    ]

unfoldable pub order_of_session : CheckoutEnv → ℕ → CheckoutStore → Result PlanOrder
order_of_session env session_token s =
    elim (find_token (env.hash_of session_token) (now_of env) s.sessions) [
      | none ↦ err signed_out
      | some e ↦ elim (find_plan_order e.plan_order_id s.plan_store) [
        | none ↦ err (AppError.bad_request ErrorCode.no_code)
        | some order ↦ ok order
      ]
    ]

-- `verify`: the order comes from the session.
unfoldable pub verify_in_session :
    CheckoutEnv → Bool → ℕ → ℕ → CheckoutStore → Result PlanResult × CheckoutStore
unfolding order_of_session verify_payment
verify_in_session env signature_valid session_token payment_id s =
    elim (order_of_session env session_token s) [
      | err e ↦ (err e, s)
      | ok order ↦
          let (answer, after) =
            verify_payment env.plan_env signature_valid order.user_id order.razorpay_order_id
              payment_id s.plan_store in
          (answer, record s { plan_store = after })
    ]

abbrev pub status_of : Result PlanResult → Result (PlanOrderStatus × Option Day)
status_of (err e) = err e
status_of (ok r) = ok (PlanOrderStatus.paid, some r.valid_until)

abbrev pub paid_with : PlanOrder → Option ℕ
paid_with o =
    if is_paid_plan o.status && not (is_none o.subscription_id) then o.razorpay_payment_id else none

unfoldable pub checkout_status :
    CheckoutEnv → ℕ → CheckoutStore → Result (PlanOrderStatus × Option Day) × CheckoutStore
unfolding order_of_session settle_plan_order
checkout_status env session_token s = elim (order_of_session env session_token s) [
  | err e ↦ (err e, s)
  | ok order ↦ elim (paid_with order) [
    | none ↦ (ok (order.status, none), s)
    | some payment_id ↦
        let (answer, after) = settle_plan_order env.plan_env order.id payment_id s.plan_store in
        (status_of answer, record s { plan_store = after })
  ]
]

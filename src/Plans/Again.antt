-- ===== src/Plans/Again.antt =====
-- A second report of one payment of a plan (apps/backend/src/modules/payments/payments.service.ts).
use finskool_monorepo.Base.{
  ℕ, ◌≡◌, refl, ap, subst, ◌∙◌, true, false, not, ◌&&◌, ◌==◌, is_id, Option, none, some, List, [],
  ◌∷◌, ◌++◌, find_first, find_first-holds, any_where, count_where, update_where, next_id-fresh,
  UniqueKey, arith, Bool-cases, Option-cases, inl, inr, ==→eq, ==_refl, Result, ok, err, AppError,
}
use finskool_monorepo.Plans.{
  PlanOrder, PlanSubscription, PlanStore, PlanEnv, Plan, is_paid_plan, find_plan_order,
  find_subscription,
}
use finskool_monorepo.Plans.Settle.{
  PlanResult, current_of, end_subscription, is_claimable, claim_order, recompute_active_sub_count,
  grant_plan, grant_in_tx, settle_answer, result_of_paid_order, result_of, settle_plan_order,
}
use finskool_monorepo.Plans.Book.{order_id, sub_id, IsPlanBook}
use finskool_monorepo.Plans.Granted.{
  find-appended, ended_absent, fill, bought, fused, claimable_found,
}
use finskool_monorepo.Plans.Kept.{SamePlanOrder, AreOrderly}
use finskool_monorepo.Plans.Cases.{settle_cases}

-- What others may do to a paid order and its subscription: nothing, but for ending the subscription.
abbrev pub SameGrant : PlanSubscription → PlanSubscription → Type 0
SameGrant x y =
    (y.id ≡ x.id) × (y.payment_paise ≡ x.payment_paise) × (y.valid_until ≡ x.valid_until)

pub record KeepsGrants (s t : PlanStore) : Type 0 where
  pub orders :
      (id : ℕ) (o : PlanOrder)
      → find_plan_order id s ≡ some o
      → is_paid_plan o.status ≡ true
      → find_plan_order id t ≡ some o
  pub subscriptions :
      (i : ℕ) (x : PlanSubscription)
      → find_subscription i s ≡ some x
      → (y : PlanSubscription) × (find_subscription i t ≡ some y) × SameGrant x y

-- The same answer, but for whether the subscription still runs.
abbrev pub SameResult : PlanResult → PlanResult → Type 0
SameResult a b =
    (b.subscription_id ≡ a.subscription_id)
    × (b.community_id ≡ a.community_id)
    × (b.plan_id ≡ a.plan_id)
    × (b.payment_paise ≡ a.payment_paise)
    × (b.valid_until ≡ a.valid_until)

-- The order is paid, and this is the answer that it gives.
abbrev Answers : ℕ → ℕ → PlanResult → PlanStore → Type 0
Answers id payment_id r t =
    (o : PlanOrder) × (find_plan_order id t ≡ some o)
    × (is_paid_plan o.status ≡ true)
    × (result_of_paid_order o payment_id t ≡ ok r)

answered :
    (env : PlanEnv) (id payment_id : ℕ) (t : PlanStore) (o : PlanOrder) (r : PlanResult)
    → find_plan_order id t ≡ some o
    → is_paid_plan o.status ≡ true
    → result_of_paid_order o payment_id t ≡ ok r
    → settle_plan_order env id payment_id t ≡ (ok r, t)
unfolding settle_plan_order
answered env id payment_id t o r f p e = rw (f, settle_plan_order) (rw p (rw e refl))

value_or : PlanResult → Result PlanResult → PlanResult
value_or d (ok r) = r
value_or d (err e) = d

-- The answer of a paid order, from a store that keeps the grants.
later_result :
    (o : PlanOrder) (payment_id : ℕ) (u t : PlanStore) (r : PlanResult)
    → KeepsGrants u t
    → result_of_paid_order o payment_id u ≡ ok r
    → (b : PlanResult) × (result_of_paid_order o payment_id t ≡ ok b) × SameResult r b
unfolding result_of_paid_order value_or
later_result o payment_id u t r keep =
    elim (Bool-cases (not (is_id o.razorpay_payment_id payment_id))) [
      | inl p ↦ rw p (λ e. cc)
      | inr n ↦ rw n (elim (Option-cases o.subscription_id) [
        | inl f ↦ rw f (λ e. cc)
        | inr (i, f) ↦ rw f (elim (Option-cases (find_subscription i u)) [
          | inl g ↦ rw g (λ e. cc)
          | inr (x, g) ↦
              let (y, h, same) = keep.subscriptions i x g in
              rw (g, h)
                (λ e.
                  let is_r : result_of o.community_id o.plan_id x ≡ r = ap (value_or r) e in
                  (
                    result_of o.community_id o.plan_id y,
                    refl,
                    subst (λ q. SameResult q (result_of o.community_id o.plan_id y)) is_r
                        (same.0, refl, refl, same.1, same.2),
                  ))
        ])
      ])
    ]

pub unclaimable :
    (id : ℕ) (os : List PlanOrder) (o : PlanOrder)
    → count_where (is_claimable id) os ≡ 0
    → find_first (λ x. x.id == id) os ≡ some o
    → is_paid_plan o.status ≡ true
unfolding count_where find_first
unclaimable id [] o c f = cc
unclaimable id (x ∷ os) o c f = elim (Bool-cases (x.id == id)) [
  | inl p ↦
      let same : x ≡ o = ground (arith, f, p) in
      let able : is_claimable id x ≡ false = ground (arith, c) in
      rw (← same) (ground (arith, able, p))
  | inr n ↦ unclaimable id os o (ground (arith, c, n)) (ground (arith, f, n))
]

pub found_bought :
    (id p i : ℕ) (os : List PlanOrder) (o : PlanOrder)
    → find_first (λ x. x.id == id) os ≡ some o
    → find_first (λ x. x.id == id) (update_where (λ x. x.id == id) (bought p i) os)
      ≡ some (bought p i o)
unfolding find_first update_where
found_bought id p i [] o e = cc
found_bought id p i (x ∷ os) o e = elim (Bool-cases (x.id == id)) [
  | inl k ↦
      let same : x ≡ o = ground (arith, e, k) in rw (k, k) (ap (λ y. some (bought p i y)) same)
  | inr n ↦ rw (n, n) (found_bought id p i os o (ground (arith, e, n)))
]

-- What the grant leaves answers a second report as the grant itself did.
module _ (order fresh : PlanOrder) (id payment_id : ℕ) (s t : PlanStore)
    (old : Option PlanSubscription) (x : PlanSubscription) where
  granted_again :
      UniqueKey order_id s.orders
      → find_plan_order id s ≡ some fresh
      → SamePlanOrder order fresh
      → (count_where (is_claimable id) s.orders == 0) ≡ false
      → any_where (λ y. y.id == x.id) s.subscriptions ≡ false
      → t.subscriptions ≡ end_subscription old s.subscriptions ++ x ∷ []
      → t.orders
        ≡ update_where
            (λ o. o.id == id)
            (fill x.id)
            (update_where (is_claimable id) (claim_order payment_id) s.orders)
      → Answers id payment_id (result_of order.community_id order.plan_id x) t
  unfolding result_of_paid_order
  granted_again u f same able absent es eo =
      let one = eo ∙ fused id payment_id x.id s.orders u able in
      let found : find_plan_order id t ≡ some (bought payment_id x.id fresh) =
        rw one (found_bought id payment_id x.id s.orders fresh f) in
      let sub : find_subscription x.id t ≡ some x = rw es (
        find-appended x (end_subscription old s.subscriptions)
          (ended_absent x.id old s.subscriptions absent)) in
      (bought payment_id x.id fresh, found, refl, rw (==_refl payment_id, sub, same.1, same.2) refl)

module _ (order : PlanOrder) (payment_id : ℕ) (r : PlanResult) where
  -- Whoever was answered `r` has met an order that gives this answer.
  abbrev IsAgain : ℕ → Result (Option PlanSubscription) × PlanStore → Type 0
  IsAgain id g = settle_answer order payment_id g.0 g.1 ≡ ok r → Answers id payment_id r g.1

  lost-IsAgain :
      (s : PlanStore)
      → count_where (is_claimable order.id) s.orders ≡ 0
      → IsAgain order.id (ok none, s)
  unfolding settle_answer
  lost-IsAgain s c = elim (Option-cases (find_plan_order order.id s)) [
    | inl e ↦ rw (e, settle_answer) (λ k. cc)
    | inr (fresh, e) ↦
        rw (e, settle_answer) (λ k. (fresh, refl, unclaimable order.id s.orders fresh c e, k))
  ]

  won-IsAgain :
      (x : PlanSubscription) (t : PlanStore)
      → Answers order.id payment_id (result_of order.community_id order.plan_id x) t
      → IsAgain order.id (ok (some x), t)
  unfolding settle_answer
  won-IsAgain x t (o, f, p, e) k = (o, f, p, e ∙ k)

  failed-IsAgain : (e : AppError) (s : PlanStore) → IsAgain order.id (err e, s)
  unfolding settle_answer
  failed-IsAgain e s k = cc

  grant-IsAgain :
      (env : PlanEnv) (plan : Plan) (before : PlanStore)
      → IsPlanBook (env.meanwhile before)
      → ((p : PlanOrder)
          → find_plan_order order.id (env.meanwhile before) ≡ some p
          → SamePlanOrder order p)
      → IsAgain order.id (grant_in_tx env order plan payment_id before)
  unfolding grant_in_tx grant_plan recompute_active_sub_count
  grant-IsAgain env plan before h parent =
      let s = env.meanwhile before in
      elim (Bool-cases (count_where (is_claimable order.id) s.orders == 0)) [
        | inl p ↦ rw p (lost-IsAgain s (==→eq _ _ p))
        | inr n ↦
            rw n
              (elim (Bool-cases (
                any_where (λ o. is_id o.razorpay_payment_id payment_id && not (o.id == order.id))
                  s.orders)) [
                    | inl q ↦ rw q (failed-IsAgain AppError.unique_violation s)
                    | inr m ↦
                        let (fresh, found, unpaid) =
                          claimable_found order.id s.orders h.one_order n in
                        rw m (
                          won-IsAgain _ _ (
                            granted_again order fresh order.id payment_id s _
                              (current_of order before) _ h.one_order found (parent fresh found) n
                              (next_id-fresh sub_id s.subscriptions) refl refl))
                  ])
      ]

first_answer :
    (env : PlanEnv) (id payment_id : ℕ) (s : PlanStore) (r : PlanResult)
    → AreOrderly env
    → IsPlanBook s
    → (settle_plan_order env id payment_id s).0 ≡ ok r
    → Answers id payment_id r (settle_plan_order env id payment_id s).1
first_answer env id payment_id s r orderly h =
    settle_cases env id payment_id s (λ g. g.0 ≡ ok r → Answers id payment_id r g.1) (λ k. cc)
      (λ order e p k. (order, e, p, k))
      (λ order plan e f.
        let key : order.id ≡ id = ==→eq _ _ (find_first-holds (λ o. o.id == id) s.orders e) in
        let t = env.meanwhile (env.others s) in
        subst
          (λ i. IsAgain order payment_id r i (grant_in_tx env order plan payment_id (env.others s)))
          key
          (grant-IsAgain order payment_id r env plan (env.others s) (orderly.1.book s h) (λ p g.
            orderly.1.orders s id order p e (subst (λ i. find_plan_order i t ≡ some p) key g))))

-- A payment that was reported once, by the app or by the webhook, is answered again in the same way, and
-- the second report changes nothing. It holds whichever report comes first and whoever wins the race for
-- the order, with orderly others at the first report, and whatever happens before the second that leaves
-- paid orders as they are and keeps their subscriptions: only whether the subscription still runs is
-- answered as it is by then.
pub settle_plan_order-again :
    (env env' : PlanEnv) (id payment_id : ℕ) (s t : PlanStore) (r : PlanResult)
    → AreOrderly env
    → IsPlanBook s
    → (settle_plan_order env id payment_id s).0 ≡ ok r
    → KeepsGrants (settle_plan_order env id payment_id s).1 t
    → (b : PlanResult) × (settle_plan_order env' id payment_id t ≡ (ok b, t)) × SameResult r b
settle_plan_order-again env env' id payment_id s t r orderly h e keep =
    let u = (settle_plan_order env id payment_id s).1 in
    let (o, f, p, k) = first_answer env id payment_id s r orderly h e in
    let (b, k', same) = later_result o payment_id u t r keep k in
    (b, answered env' id payment_id t o b (keep.orders id o f p) p k', same)

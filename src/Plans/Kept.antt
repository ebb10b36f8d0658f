-- ===== src/Plans/Kept.antt =====
-- The orders and the subscriptions of plans under a grant and under a new order
-- (apps/backend/src/modules/payments/payments.service.ts).
use finskool_monorepo.Base.{
  ℕ, ◌≡◌, refl, ◌∙◌, false, not, ◌&&◌, ◌==◌, is_id, Option, none, some, List, [], ◌∷◌, ◌++◌,
  any_where, count_where, update_where, next_id, next_id-fresh, All-imp, All-update_one, UniqueKey,
  UniqueBy-append, UniqueBy-update_where, arith, Bool-cases, inl, inr,
}
use finskool_monorepo.Plans.{PlanOrder, PlanSubscription, PlanStore, PlanEnv, Plan, find_plan_order}
use finskool_monorepo.Plans.Settle.{
  current_of, end_subscription, is_claimable, claim_order, recompute_active_sub_count, grant_plan,
  grant_in_tx,
}
use finskool_monorepo.Plans.Book.{order_id, sub_id, IsSettled, IsPlanBook}
use finskool_monorepo.Plans.Granted.{
  find-appended, ended_absent, IsSettled-kept, fill, bought, fused, claimable_found, own_sub-update,
  orders_fresh,
}

-- What an order keeps for its whole life.
abbrev pub SamePlanOrder : PlanOrder → PlanOrder → Type 0
SamePlanOrder a b =
    (b.user_id ≡ a.user_id)
    × (b.community_id ≡ a.community_id)
    × (b.plan_id ≡ a.plan_id)
    × (b.amount_paise ≡ a.amount_paise)

-- What others commit keeps the books, and no order changes what it is for.
pub record IsOrderly (f : PlanStore → PlanStore) : Type 0 where
  pub book : (s : PlanStore) → IsPlanBook s → IsPlanBook (f s)
  pub orders :
      (s : PlanStore) (id : ℕ) (o p : PlanOrder)
      → find_plan_order id s ≡ some o
      → find_plan_order id (f s) ≡ some p
      → SamePlanOrder o p

-- So before the call's transaction, and up to its writes.
abbrev pub AreOrderly : PlanEnv → Type 0
AreOrderly env = IsOrderly env.others × IsOrderly (λ s. env.meanwhile (env.others s))

ended-UniqueKey :
    (old : Option PlanSubscription) (xs : List PlanSubscription)
    → UniqueKey sub_id xs
    → UniqueKey sub_id (end_subscription old xs)
ended-UniqueKey none xs u = u
ended-UniqueKey (some a) xs u = UniqueBy-update_where _ _ _ (λ x y p. refl) (λ x y p. refl) xs u

-- ─── A grant ────────────────────────────────────────────────────────────────

-- The new subscription is what the order paid for, with an id of its own.
record IsPurchase (order : PlanOrder) (xs : List PlanSubscription) (x : PlanSubscription)
    : Type 0 where
  new_id : x.id ≡ next_id sub_id xs
  for_user : x.user_id ≡ order.user_id
  for_community : x.community_id ≡ order.community_id
  for_plan : x.plan_id ≡ order.plan_id
  for_price : x.payment_paise ≡ order.amount_paise

module _ (order fresh : PlanOrder) (payment_id : ℕ) (x : PlanSubscription)
    (old : Option PlanSubscription) (s t : PlanStore) where
  bought-IsSettled :
      IsPurchase order s.subscriptions x
      → SamePlanOrder order fresh
      → IsSettled (end_subscription old s.subscriptions ++ x ∷ []) (bought payment_id x.id fresh)
  bought-IsSettled p same =
      let absent : any_where (λ y. y.id == x.id) s.subscriptions ≡ false =
        rw p.new_id (next_id-fresh sub_id s.subscriptions) in
      let there =
        find-appended x (end_subscription old s.subscriptions)
          (ended_absent x.id old s.subscriptions absent) in
      (
        λ e. rw there (
            ground (
              arith, p.for_user, p.for_community, p.for_plan, p.for_price, same.0, same.1, same.2,
              same.3,
            )),
        λ e. cc,
      )

  granted-IsPlanBook :
      IsPlanBook s
      → IsPurchase order s.subscriptions x
      → find_plan_order order.id s ≡ some fresh
      → (count_where (is_claimable order.id) s.orders == 0) ≡ false
      → SamePlanOrder order fresh
      → t.subscriptions ≡ end_subscription old s.subscriptions ++ x ∷ []
      → t.orders
        ≡ update_where
            (λ o. o.id == order.id)
            (fill x.id)
            (update_where (is_claimable order.id) (claim_order payment_id) s.orders)
      → IsPlanBook t
  granted-IsPlanBook h p found able same es eo =
      let one = eo ∙ fused order.id payment_id x.id s.orders h.one_order able in
      let absent : any_where (λ y. y.id == x.id) s.subscriptions ≡ false =
        rw p.new_id (next_id-fresh sub_id s.subscriptions) in
      record {
        one_order = rw one (
            UniqueBy-update_where _ _ (bought payment_id x.id) (λ a b q. refl) (λ a b q. refl)
              s.orders h.one_order);
        one_sub = rw es (
            UniqueBy-append _ x (λ y. ground arith) (end_subscription old s.subscriptions)
              (ended_absent x.id old s.subscriptions absent)
              (ended-UniqueKey old s.subscriptions h.one_sub));
        settled =
            rw (es, one)
              (All-update_one order_id order.id (bought payment_id x.id) _ fresh
                (λ e. bought-IsSettled p same) s.orders h.one_order found
                (All-imp _ _ (IsSettled-kept old x s.subscriptions) s.orders h.settled));
        own_sub = rw one (
            own_sub-update order.id x.id (bought payment_id x.id) s.orders (λ o. refl) h.one_order
              (rw p.new_id (orders_fresh s.subscriptions s.orders h.settled)) h.own_sub);
      }

pub grant_in_tx-IsPlanBook :
    (env : PlanEnv) (order : PlanOrder) (plan : Plan) (payment_id : ℕ) (s : PlanStore)
    → plan.id ≡ order.plan_id
    → ((p : PlanOrder)
        → find_plan_order order.id (env.meanwhile s) ≡ some p
        → SamePlanOrder order p)
    → IsPlanBook (env.meanwhile s)
    → IsPlanBook (grant_in_tx env order plan payment_id s).1
unfolding grant_in_tx grant_plan recompute_active_sub_count
grant_in_tx-IsPlanBook env order plan payment_id before of_plan parent h =
    let s = env.meanwhile before in
    elim (Bool-cases (count_where (is_claimable order.id) s.orders == 0)) [
      | inl p ↦ rw p h
      | inr n ↦
          rw n
            (elim (Bool-cases (
              any_where (λ o. is_id o.razorpay_payment_id payment_id && not (o.id == order.id))
                s.orders)) [
                  | inl q ↦ rw q h
                  | inr m ↦
                      let (fresh, found, unpaid) =
                        claimable_found order.id s.orders h.one_order n in
                      rw m (
                        granted-IsPlanBook order fresh payment_id _ (current_of order before) s _ h
                          (record {
                            new_id = refl;
                            for_user = refl;
                            for_community = refl;
                            for_plan = of_plan;
                            for_price = refl;
                          })
                          found n (parent fresh found) refl refl)
                ])
    ]

-- ===== src/Plans/Longer.antt =====
-- How long a bought plan runs (apps/backend/src/modules/payments/payments.service.ts).
use finskool_monorepo.Base.{
  ℕ, ◌≤◌, ◌<◌, ◌≡◌, refl, ap, subst, not, ◌&&◌, ◌==◌, leb, is_id, Option, none, some,
  find_first-All, any_where, count_where, All, arith, Bool-cases, inl, inr, Result, ok, leb→le,
}
use finskool_monorepo.Plans.{Day, PlanOrder, PlanSubscription, PlanStore, PlanEnv, Plan}
use finskool_monorepo.Plans.Months.{IsDay, day_key, add_months, add_months_later}
use finskool_monorepo.Plans.Settle.{
  is_current, base_day, current_of, is_claimable, grant_plan, grant_in_tx,
}

-- Access ends after `end`.
abbrev pub IsLonger : Day → Option PlanSubscription → Day → Type 0
IsLonger today current end =
    (day_key today < day_key end)
    × ((c : PlanSubscription) → current ≡ some c → day_key c.valid_until < day_key end)

longer :
    (today : Day) (months : ℕ) (current : Option PlanSubscription)
    → IsDay today
    → ((c : PlanSubscription) → current ≡ some c → IsDay c.valid_until)
    → 1 ≤ months
    → IsLonger today current (add_months (base_day today current) months)
longer today months none d ds m = (add_months_later today months d m, λ c e. cc)
longer today months (some x) d ds m =
    elim (Bool-cases (leb (day_key today) (day_key x.valid_until))) [
      | inl p ↦
          let later = add_months_later x.valid_until months (ds x refl) m in
          rw p (
            omega (arith, later, leb→le (day_key today) (day_key x.valid_until) p),
            λ c e.
                let same : x ≡ c = ground (arith, e) in
                subst (λ y. day_key y.valid_until < day_key (add_months x.valid_until months)) same
                  later,
          )
      | inr n ↦
          let later = add_months_later today months d m in
          let past : day_key x.valid_until < day_key today = ground (arith, n) in
          rw n (
            later,
            λ c e.
                let same : x ≡ c = ground (arith, e) in
                subst (λ y. day_key y.valid_until < day_key (add_months today months)) same
                  (omega (arith, later, past)),
          )
    ]

-- A plan that is granted for a month or more ends after today, and after the access that the
-- transaction finds running, if there is some: what is left of it is not lost by buying early.
pub grant_in_tx-IsLonger :
    (env : PlanEnv) (order : PlanOrder) (plan : Plan) (payment_id : ℕ) (s : PlanStore)
    (x : PlanSubscription)
    → IsDay env.today
    → All (λ c. IsDay c.valid_until) s.subscriptions
    → 1 ≤ plan.duration_months
    → (grant_in_tx env order plan payment_id s).0 ≡ ok (some x)
    → IsLonger env.today (current_of order s) x.valid_until
unfolding grant_in_tx grant_plan
grant_in_tx-IsLonger env order plan payment_id s x d ds m =
    let t = env.meanwhile s in
    elim (Bool-cases (count_where (is_claimable order.id) t.orders == 0)) [
      | inl p ↦ rw p (λ e. cc)
      | inr n ↦
          rw n
            (elim (Bool-cases (
              any_where (λ o. is_id o.razorpay_payment_id payment_id && not (o.id == order.id))
                t.orders)) [
                  | inl q ↦ rw q (λ e. cc)
                  | inr k ↦ rw k (λ e.
                      let end : add_months (base_day env.today (current_of order s))
                            plan.duration_months
                          ≡ x.valid_until =
                        ap (granted_end env.today) e in
                      subst (IsLonger env.today (current_of order s)) end (
                        longer env.today plan.duration_months (current_of order s) d
                          (λ c f.
                            find_first-All (λ y. IsDay y.valid_until)
                              (is_current order.user_id order.community_id) s.subscriptions ds f)
                          m))
                ])
    ]
  where
    granted_end : Day → Result (Option PlanSubscription) → Day
    granted_end d (ok (some y)) = y.valid_until
    granted_end d _ = d

-- ===== src/Plans/Running.antt =====
-- The running subscriptions of a member under a grant (apps/backend/src/modules/payments/payments.service.ts).
use finskool_monorepo.Base.{
  not, any_where, ℕ, ◌+◌, ◌≤◌, ◌≡◌, refl, ap, true, false, ◌&&◌, ◌==◌, is_id, Option, none, some,
  List, [], ◌∷◌, ◌++◌, find_first, count_where, update_where, arith, Bool-cases, inl, inr,
}
use finskool_monorepo.Plans.{PlanOrder, PlanSubscription, PlanStore, PlanEnv, Plan}
use finskool_monorepo.Plans.Settle.{
  is_current, end_subscription, current_of, is_claimable, grant_plan, grant_in_tx,
  recompute_active_sub_count,
}

abbrev pub current_count : ℕ → ℕ → List PlanSubscription → ℕ
current_count u c xs = count_where (is_current u c) xs

ended_count :
    (u c k : ℕ) (xs : List PlanSubscription)
    → current_count u c (update_where (λ x. x.id == k) (λ x. record x { is_active = false }) xs)
      ≤ current_count u c xs
unfolding update_where count_where
ended_count u c k [] = omega arith
ended_count u c k (x ∷ xs) = elim (Bool-cases (x.id == k)) [
  | inl p ↦ rw p (ground (arith, ended_count u c k xs))
  | inr n ↦ rw n (ground (arith, ended_count u c k xs))
]

ended_one :
    (u c : ℕ) (a : PlanSubscription) (xs : List PlanSubscription)
    → find_first (is_current u c) xs ≡ some a
    → current_count u c (update_where (λ x. x.id == a.id) (λ x. record x { is_active = false }) xs)
        + 1
      ≤ current_count u c xs
unfolding find_first update_where count_where
ended_one u c a [] e = cc
ended_one u c a (x ∷ xs) e = elim (Bool-cases (is_current u c x)) [
  | inl p ↦
      let same : x ≡ a = ground (arith, e, p) in
      let key : (x.id == a.id) ≡ true = ground (arith, ap (λ y. y.id) same) in
      rw (key, p) (ground (arith, ended_count u c a.id xs))
  | inr n ↦
      let ih = ended_one u c a xs (ground (arith, e, n)) in
      elim (Bool-cases (x.id == a.id)) [
        | inl p ↦ rw (p, n) (ground (arith, ih, n))
        | inr m ↦ rw (m, n) (ground (arith, ih, n))
      ]
]

none_current :
    (u c : ℕ) (xs : List PlanSubscription)
    → find_first (is_current u c) xs ≡ none
    → current_count u c xs ≡ 0
unfolding find_first count_where
none_current u c [] e = refl
none_current u c (x ∷ xs) e = elim (Bool-cases (is_current u c x)) [
  | inl p ↦ let no : ⊥ = ground (arith, e, p) in elim no [ ]
  | inr n ↦ rw n (none_current u c xs (ground (arith, e, n)))
]

end_subscription_le :
    (u c : ℕ) (old : Option PlanSubscription) (xs : List PlanSubscription)
    → current_count u c (end_subscription old xs) ≤ current_count u c xs
end_subscription_le u c none xs = omega arith
end_subscription_le u c (some a) xs = ended_count u c a.id xs

end_subscription_room :
    (u c : ℕ) (old : Option PlanSubscription) (xs : List PlanSubscription)
    → find_first (is_current u c) xs ≡ old
    → current_count u c xs ≤ 1
    → current_count u c (end_subscription old xs) ≡ 0
end_subscription_room u c none xs e h = none_current u c xs e
end_subscription_room u c (some a) xs e h = omega (arith, ended_one u c a xs e, h)

append_current :
    (u c : ℕ) (x : PlanSubscription) (xs : List PlanSubscription)
    → current_count u c (xs ++ x ∷ []) ≤ current_count u c xs + 1
unfolding count_where
append_current u c x [] = elim (Bool-cases (is_current u c x)) [
  | inl p ↦ rw p (omega arith)
  | inr n ↦ rw n (omega arith)
]
append_current u c x (y ∷ xs) = elim (Bool-cases (is_current u c y)) [
  | inl k ↦ rw k (omega (arith, append_current u c x xs))
  | inr n ↦ rw n (append_current u c x xs)
]

append_not_current :
    (u c : ℕ) (x : PlanSubscription) (xs : List PlanSubscription)
    → is_current u c x ≡ false
    → current_count u c (xs ++ x ∷ []) ≡ current_count u c xs
unfolding count_where
append_not_current u c x [] h = rw h refl
append_not_current u c x (y ∷ xs) h = rw (append_not_current u c x xs h) refl

-- The new subscription of a member takes the place of the running one.
pub replaced_count :
    (u c : ℕ) (old : Option PlanSubscription) (x : PlanSubscription) (xs : List PlanSubscription)
    → find_first (is_current u c) xs ≡ old
    → x.user_id ≡ u
    → x.community_id ≡ c
    → ((v d : ℕ) → current_count v d xs ≤ 1)
    → (v d : ℕ) → current_count v d (end_subscription old xs ++ x ∷ []) ≤ 1
replaced_count u c old x xs e eu ec h v d = elim (Bool-cases (u == v && c == d)) [
  | inl p ↦
      let same_u : u ≡ v = ground (arith, p) in
      let same_c : c ≡ d = ground (arith, p) in
      rw (← same_u, ← same_c)
        (omega (
          arith,
          append_current u c x (end_subscription old xs),
          end_subscription_room u c old xs e (h u c),
        ))
  | inr n ↦
      let other : is_current v d x ≡ false = ground (arith, eu, ec, n) in
      rw (append_not_current v d x (end_subscription old xs) other)
        (omega (arith, end_subscription_le v d old xs, h v d))
]

-- A grant whose transaction nobody comes between leaves every member one running subscription of each
-- community at most, if that is so before: the new one takes the place of the old.
pub grant_in_tx-one_running :
    (env : PlanEnv) (order : PlanOrder) (plan : Plan) (payment_id : ℕ) (s : PlanStore)
    → env.meanwhile s ≡ s
    → ((u c : ℕ) → current_count u c s.subscriptions ≤ 1)
    → (u c : ℕ) → current_count u c (grant_in_tx env order plan payment_id s).1.subscriptions ≤ 1
unfolding grant_in_tx grant_plan recompute_active_sub_count
grant_in_tx-one_running env order plan payment_id s alone h u c =
    rw alone (elim (Bool-cases (count_where (is_claimable order.id) s.orders == 0)) [
      | inl p ↦ rw p (h u c)
      | inr n ↦
          rw n
            (elim (Bool-cases (
              any_where (λ o. is_id o.razorpay_payment_id payment_id && not (o.id == order.id))
                s.orders)) [
                  | inl q ↦ rw q (h u c)
                  | inr m ↦ rw m (
                      replaced_count order.user_id order.community_id (current_of order s) _
                        s.subscriptions refl refl refl h u c)
                ])
    ])

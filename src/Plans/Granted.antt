-- ===== src/Plans/Granted.antt =====
-- A grant of a plan, row by row (apps/backend/src/modules/payments/payments.service.ts).
use finskool_monorepo.Base.{
  ℕ, ◌≡◌, refl, subst, ◌∙◌, Bool, true, false, ◌==◌, is_id, Option, none, some, List, [], ◌∷◌, ◌++◌,
  find_first, any_where, any_where-update_false, count_where, update_where, holds, next_id,
  next_id-fresh, All, All-imp, UniqueBy, UniqueKey, update_where-absent, update_where-count_zero,
  ◌⊎◌, any_where-update_where, arith, Bool-cases, inl, inr, ==→eq,
}
use finskool_monorepo.Plans.{PlanOrder, PlanSubscription, is_paid_plan}
use finskool_monorepo.Plans.Settle.{end_subscription, is_claimable, claim_order}
use finskool_monorepo.Plans.Book.{
  order_id, sub_id, is_bought_by, is_granted, IsSettled, shares, share_sub,
}

-- ─── The subscriptions that orders refer to ─────────────────────────────────

holds-update :
    (w : PlanSubscription → Bool) (i k : ℕ) (xs : List PlanSubscription)
    → ((x : PlanSubscription) → w (record x { is_active = false }) ≡ w x)
    → holds w (
        find_first
          (λ x. x.id == i)
          (update_where (λ x. x.id == k) (λ x. record x { is_active = false }) xs))
      ≡ holds w (find_first (λ x. x.id == i) xs)
unfolding find_first update_where
holds-update w i k [] h = refl
holds-update w i k (x ∷ xs) h = elim (Bool-cases (x.id == k)) [
  | inl p ↦ rw p (elim (Bool-cases (x.id == i)) [
    | inl q ↦ rw (q, h x) refl
    | inr q ↦ rw (q, holds-update w i k xs h) refl
  ])
  | inr n ↦ rw n (elim (Bool-cases (x.id == i)) [
    | inl q ↦ rw q refl
    | inr q ↦ rw (q, holds-update w i k xs h) refl
  ])
]

holds-append :
    (w : PlanSubscription → Bool) (i : ℕ) (xs ys : List PlanSubscription)
    → holds w (find_first (λ x. x.id == i) xs) ≡ true
    → holds w (find_first (λ x. x.id == i) (xs ++ ys)) ≡ true
unfolding find_first
holds-append w i [] ys h = cc
holds-append w i (x ∷ xs) ys h = ground (arith, holds-append w i xs ys, h)

pub find-appended :
    (x : PlanSubscription) (xs : List PlanSubscription)
    → any_where (λ y. y.id == x.id) xs ≡ false
    → find_first (λ y. y.id == x.id) (xs ++ x ∷ []) ≡ some x
unfolding find_first any_where
find-appended x [] h = ground arith
find-appended x (y ∷ xs) h = ground (arith, find-appended x xs, h)

pub ended_absent :
    (i : ℕ) (old : Option PlanSubscription) (xs : List PlanSubscription)
    → any_where (λ y. y.id == i) xs ≡ false
    → any_where (λ y. y.id == i) (end_subscription old xs) ≡ false
ended_absent i none xs h = h
ended_absent i (some a) xs h = any_where-update_where _ _ _ xs (λ x. refl) ∙ h

found_any :
    (w : PlanSubscription → Bool) (i : ℕ) (xs : List PlanSubscription)
    → holds w (find_first (λ x. x.id == i) xs) ≡ true
    → any_where (λ x. x.id == i) xs ≡ true
unfolding find_first any_where
found_any w i [] h = cc
found_any w i (x ∷ xs) h = ground (arith, found_any w i xs, h)

is_granted-kept :
    (o : PlanOrder) (i : Option ℕ) (old : Option PlanSubscription) (x : PlanSubscription)
    (xs : List PlanSubscription)
    → is_granted xs o i ≡ true
    → is_granted (end_subscription old xs ++ x ∷ []) o i ≡ true
is_granted-kept o none old x xs h = h
is_granted-kept o (some i) none x xs h = holds-append (is_bought_by o) i xs (x ∷ []) h
is_granted-kept o (some i) (some a) x xs h =
    holds-append (is_bought_by o) i (end_subscription (some a) xs) (x ∷ [])
      (holds-update (is_bought_by o) i a.id xs (λ y. refl) ∙ h)

pub IsSettled-kept :
    (old : Option PlanSubscription) (x : PlanSubscription) (xs : List PlanSubscription)
    (o : PlanOrder)
    → IsSettled xs o
    → IsSettled (end_subscription old xs ++ x ∷ []) o
IsSettled-kept old x xs o h = (λ p. is_granted-kept o o.subscription_id old x xs (h.0 p), h.1)

-- No order refers to an id that no subscription has.
fresh_sub :
    (xs : List PlanSubscription) (i : ℕ) (o : PlanOrder)
    → any_where (λ x. x.id == i) xs ≡ false
    → IsSettled xs o
    → is_id o.subscription_id i ≡ false
fresh_sub xs i o f h = by_status (Bool-cases (is_paid_plan o.status))
  where
    at : (k : Option ℕ) → is_granted xs o k ≡ true → is_id k i ≡ false
    at none g = refl
    at (some j) g = elim (Bool-cases (j == i)) [
      | inl p ↦
          let there =
            subst (λ n. any_where (λ x. x.id == n) xs ≡ true) (==→eq j i p)
              (found_any (is_bought_by o) j xs g) in
          let no : ⊥ = cc in elim no [ ]
      | inr n ↦ n
    ]

    by_status :
        (is_paid_plan o.status ≡ true) ⊎ (is_paid_plan o.status ≡ false)
        → is_id o.subscription_id i ≡ false
    by_status (inl p) = at o.subscription_id (h.0 p)
    by_status (inr n) = rw (h.1 n) refl

-- ─── The order that is claimed ──────────────────────────────────────────────

abbrev pub fill : ℕ → PlanOrder → PlanOrder
fill i o = record o { subscription_id = some i }

abbrev pub bought : ℕ → ℕ → PlanOrder → PlanOrder
bought payment_id i o = fill i (claim_order payment_id o)

no_rows :
    (id : ℕ) (os : List PlanOrder)
    → any_where (λ o. o.id == id) os ≡ false
    → count_where (is_claimable id) os ≡ 0
unfolding any_where count_where
no_rows id [] h = refl
no_rows id (o ∷ os) h = ground (arith, no_rows id os)

-- With a primary key, the rows claimed and filled are one row.
pub fused :
    (id payment_id i : ℕ) (os : List PlanOrder)
    → UniqueKey order_id os
    → (count_where (is_claimable id) os == 0) ≡ false
    → update_where
        (λ o. o.id == id)
        (fill i)
        (update_where (is_claimable id) (claim_order payment_id) os)
      ≡ update_where (λ o. o.id == id) (bought payment_id i) os
unfolding update_where count_where
fused id payment_id i [] u c = cc
fused id payment_id i (o ∷ os) u c = elim (Bool-cases (o.id == id)) [
  | inl p ↦
      let rest : any_where (λ y. y.id == id) os ≡ false =
        subst (λ n. any_where (λ y. y.id == n) os ≡ false) (==→eq o.id id p) u.0 in
      let none_left = no_rows id os rest in
      let able : is_claimable id o ≡ true = ground (arith, c, none_left, p) in
      let same : update_where (is_claimable id) (claim_order payment_id) os ≡ os =
        update_where-count_zero _ _ os none_left in
      rw
        (
          able,
          p,
          same,
          update_where-absent _ (fill i) os rest,
          update_where-absent _ (bought payment_id i) os rest,
        )
        refl
  | inr n ↦
      let able : is_claimable id o ≡ false = ground (arith, n) in
      rw (able, n, fused id payment_id i os u.1 (ground (arith, c, able))) refl
]

pub claimable_found :
    (id : ℕ) (os : List PlanOrder)
    → UniqueKey order_id os
    → (count_where (is_claimable id) os == 0) ≡ false
    → (o : PlanOrder) × (find_first (λ x. x.id == id) os ≡ some o) × (is_paid_plan o.status ≡ false)
unfolding find_first count_where
claimable_found id [] u c = cc
claimable_found id (o ∷ os) u c = elim (Bool-cases (o.id == id)) [
  | inl p ↦
      let rest : any_where (λ y. y.id == id) os ≡ false =
        subst (λ n. any_where (λ y. y.id == n) os ≡ false) (==→eq o.id id p) u.0 in
      let none_left = no_rows id os rest in (o, rw p refl, ground (arith, c, none_left, p))
  | inr n ↦ let (x, f, e) = claimable_found id os u.1 (ground (arith, c, n)) in (x, rw n f, e)
]

-- One order takes a subscription that no order has.
pub own_sub-update :
    (id i : ℕ) (f : PlanOrder → PlanOrder) (os : List PlanOrder)
    → ((o : PlanOrder) → (f o).subscription_id ≡ some i)
    → UniqueKey order_id os
    → All (λ o. is_id o.subscription_id i ≡ false) os
    → UniqueBy share_sub os
    → UniqueBy share_sub (update_where (λ o. o.id == id) f os)
unfolding update_where any_where
own_sub-update id i f [] e u a s = tt
own_sub-update id i f (o ∷ os) e u a s = elim (Bool-cases (o.id == id)) [
  | inl p ↦
      let rest : any_where (λ y. y.id == id) os ≡ false =
        subst (λ n. any_where (λ y. y.id == n) os ≡ false) (==→eq o.id id p) u.0 in
      rw (p, update_where-absent _ f os rest) (rw (e o) (none_shares os a.1), s.1)
  | inr n ↦ rw n (
    any_where-update_false _ _ f os (λ y q v. rw (e y) (apart o.subscription_id a.0)) s.0,
    own_sub-update id i f os e u.1 a.1 s.1,
  )
]
  where
    apart : (k : Option ℕ) → is_id k i ≡ false → shares k (some i) ≡ false
    apart none h = refl
    apart (some j) h = ground (arith, h)

    none_shares :
        (xs : List PlanOrder)
        → All (λ x. is_id x.subscription_id i ≡ false) xs
        → any_where (λ x. is_id x.subscription_id i) xs ≡ false
    none_shares [] h = refl
    none_shares (x ∷ xs) h = ground (arith, none_shares xs h.1, h.0)

pub orders_fresh :
    (xs : List PlanSubscription) (os : List PlanOrder)
    → All (IsSettled xs) os
    → All (λ o. is_id o.subscription_id (next_id sub_id xs) ≡ false) os
orders_fresh xs os h =
    All-imp _ _ (λ o. fresh_sub xs (next_id sub_id xs) o (next_id-fresh sub_id xs)) os h

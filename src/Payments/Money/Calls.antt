-- ===== src/Payments/Money/Calls.antt =====
-- The grants of a request under each call (services.payments.ts, services.service.ts,
-- service-quote-expiry.ts).
use finskool_monorepo.Base.{
  ℕ, ◌≡◌, refl, Bool, true, false, ◌&&◌, ◌||◌, ◌==◌, List, [], ◌∷◌, find_first, any_where,
  count_where, arith, Bool-cases, Option-cases, inl, inr, take, find_many, any_where-update_false,
}
use finskool_monorepo.Payments.{
  ServiceQuoteStatus, ServiceQuote, ServiceRequest, PayStore, PayEnv, is_active, is_paid_quote,
}
use finskool_monorepo.Payments.Start.{
  unpaid, create_or_share, order_for, is_unpaid_for, is_payable_now, start_payment, create_order,
  refused_by_request, refused_by_quote, refused_by_settings, or_else, effective_quote_status,
}
use finskool_monorepo.Payments.Close.{
  is_cancellable, is_owned, cancel_in_tx, cancel, is_due, expire_one, batch_size, expire_all,
  expire_service_quotes,
}
use finskool_monorepo.Payments.Money.{
  IsMoney, keep-IsMoney, update_quotes-UniqueKey, paid_count-update_where,
}
use finskool_monorepo.Payments.Money.Granted.{IsSteady}

-- A write beside the quotes and the requests.
pub aside : (s t : PayStore) → t.quotes ≡ s.quotes → t.requests ≡ s.requests → IsMoney s → IsMoney t
aside s t q r h = record { one_row = rw q h.one_row; paid_once = λ i. rw (q, r) (h.paid_once i) }

pub active_unpaid : (s : ServiceQuoteStatus) → is_active s ≡ true → is_paid_quote s ≡ false
active_unpaid s h = ground arith

-- ─── Cancelling and expiring ────────────────────────────────────────────────

module _ (env : PayEnv) where
  cancel_in_tx-IsMoney :
      (user_id request_id : ℕ) (s : PayStore)
      → IsMoney s
      → IsMoney (cancel_in_tx env user_id request_id s).1
  unfolding cancel_in_tx
  cancel_in_tx-IsMoney user_id request_id s h =
      let open_row : ServiceRequest → Bool =
        λ r. is_owned user_id request_id r && is_cancellable r.status in
      elim (Bool-cases (count_where open_row s.requests == 0)) [
        | inl p ↦ rw p h
        | inr n ↦ rw n (
            keep-IsMoney s _ (update_quotes-UniqueKey _ _ (λ q. refl) s.quotes h.one_row)
              (λ r.
                paid_count-update_where _ _ (λ q p. active_unpaid q.status (ground (arith, p)))
                  (λ q p. refl) r s.quotes)
              (λ r w. any_where-update_false _ open_row _ s.requests (λ x p v. ground arith) w) h)
      ]

  expire_one-IsMoney : (q r : ℕ) (s : PayStore) → IsMoney s → IsMoney (expire_one env q r s)
  unfolding expire_one is_due
  expire_one-IsMoney q r s h =
      let due : ServiceQuote → Bool = λ x. x.id == q && is_due env.now x in
      elim (Bool-cases (count_where due s.quotes == 0)) [
        | inl p ↦ rw p h
        | inr n ↦ rw n (
            keep-IsMoney s _ (update_quotes-UniqueKey _ _ (λ q. refl) s.quotes h.one_row)
              (λ i.
                paid_count-update_where _ _ (λ q p. active_unpaid q.status (ground (arith, p)))
                  (λ q p. refl) i s.quotes)
              (λ i w. any_where-update_false _ _ _ s.requests (λ x p v. ground (arith, v, p)) w) h)
      ]

module _ (env : PayEnv) (steady : IsSteady env.others) where
  expire_all-IsMoney :
      (qs : List ServiceQuote) (s : PayStore) → IsMoney s → IsMoney (expire_all env qs s)
  unfolding expire_all
  expire_all-IsMoney [] s h = h
  expire_all-IsMoney (q ∷ qs) s h =
      expire_all-IsMoney qs _ (expire_one-IsMoney env q.id q.request_id _ (steady.money s h))

  pub expire_service_quotes-IsMoney :
      (s : PayStore) → IsMoney s → IsMoney (expire_service_quotes env s)
  unfolding expire_service_quotes
  expire_service_quotes-IsMoney s h =
      expire_all-IsMoney (take batch_size (find_many (is_due env.now) s.quotes)) s h

  pub cancel-IsMoney : (u r : ℕ) (s : PayStore) → IsMoney s → IsMoney (cancel env u r s).1
  unfolding cancel
  cancel-IsMoney u r s h = elim (Option-cases (find_first (is_owned u r) s.requests)) [
    | inl e ↦ rw (e, cancel) h
    | inr (x, e) ↦
        rw (e, cancel)
          (elim (Bool-cases (is_cancellable x.status)) [
            | inl p ↦ rw p (cancel_in_tx-IsMoney env u r (env.others s) (steady.money s h))
            | inr n ↦ rw n h
          ])
  ]

  -- ─── Starting a payment ───────────────────────────────────────────────────

  create_or_share-IsMoney :
      (g u : ℕ) (q : ServiceQuote) (s : PayStore) → IsMoney s → IsMoney (create_or_share g u q s).1
  unfolding create_or_share
  create_or_share-IsMoney g u q s h =
      elim (Bool-cases (
        any_where (is_unpaid_for q.id) s.orders
        || any_where (λ o. o.razorpay_order_id == g) s.orders)) [
          | inl p ↦
              rw p (elim (Option-cases (unpaid q.id s)) [ inl e ↦ rw e h | inr (o, e) ↦ rw e h ])
          | inr n ↦ rw n (aside s _ refl refl h)
        ]

  order_for-IsMoney :
      (u : ℕ) (q : ServiceQuote) (s : PayStore) → IsMoney s → IsMoney (order_for env u q s).1
  unfolding order_for
  order_for-IsMoney u q s h = elim (Option-cases (unpaid q.id s)) [
    | inr (o, e) ↦ rw (e, order_for) h
    | inl e ↦
        rw (e, order_for)
          (elim (Option-cases env.new_gateway_order) [
            | inl f ↦ rw f h
            | inr (g, f) ↦ rw f (create_or_share-IsMoney g u q (env.others s) (steady.money s h))
          ])
  ]

  start_payment-IsMoney :
      (u : ℕ) (q : ServiceQuote) (b : ℕ) (s : PayStore)
      → IsMoney s
      → IsMoney (start_payment env u q b s).1
  unfolding start_payment
  start_payment-IsMoney u q b s h =
      elim (Bool-cases (count_where (is_payable_now env q.id) s.quotes == 0)) [
        | inl p ↦ rw p h
        | inr n ↦ rw n (
            order_for-IsMoney u q _ (
              keep-IsMoney s _ (update_quotes-UniqueKey _ _ (λ x. refl) s.quotes h.one_row)
                (λ r.
                  paid_count-update_where _ _ (λ x p. active_unpaid x.status (ground (arith, p)))
                    (λ x p. active_unpaid x.status (ground (arith, p))) r s.quotes)
                (λ r w. w) h))
      ]

  pub create_order-IsMoney :
      (u r q b : ℕ) (s : PayStore) → IsMoney s → IsMoney (create_order env u r q b s).1
  unfolding create_order
  create_order-IsMoney u r q b s h =
      elim (Option-cases (find_first (λ x. x.id == r && x.user_id == u) s.requests)) [
        | inl e ↦ rw (e, create_order) h
        | inr (x, e) ↦
            rw (e, create_order)
              (elim (Option-cases (refused_by_request x.status)) [
                | inr (f, k) ↦ rw k h
                | inl k ↦
                    rw k
                      (elim (Option-cases
                        (find_first (λ y. y.id == q && y.request_id == r) s.quotes)) [
                          | inl f ↦ rw f h
                          | inr (y, f) ↦
                              rw f
                                (elim (Option-cases (
                                  or_else (refused_by_quote (effective_quote_status y env.now))
                                    (refused_by_settings env))) [
                                      | inr (m, l) ↦ rw l h
                                      | inl l ↦ rw l (
                                          start_payment-IsMoney u y b (env.others s)
                                            (steady.money s h))
                                    ])
                        ])
              ])
      ]

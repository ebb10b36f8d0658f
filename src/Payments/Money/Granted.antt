-- ===== src/Payments/Money/Granted.antt =====
-- The grants of a request under `settle` (services.payments.ts).
use finskool_monorepo.Base.{
  ℕ, ◌+◌, ◌≤◌, ◌≡◌, refl, sym, ap, subst, ◌∙◌, Bool, true, false, not, ◌&&◌, ◌||◌, ◌==◌, is_none,
  some, List, [], ◌∷◌, find_first, find_first-holds, update_where, any_where, arith, Bool-cases,
  inl, inr, ==→eq, any_where-update_where,
}
use finskool_monorepo.Payments.{
  ServiceRequestStatus, ServiceQuote, ServiceRequest, RazorpayOrder, PayStore, PayEnv, is_active,
  is_quote_sent, find_quote, find_request,
}
use finskool_monorepo.Payments.Close.{is_cancellable}
use finskool_monorepo.Payments.Settle.{
  SettleInput, is_mismatch, upsert_payment, mark_order_paid, flag, grant, no_invoice, issue_invoice,
  invoice_or_flag, settle_unpaid, settle,
}
use finskool_monorepo.Payments.Cases.{settle_in_tx_cases, settle_cases}
use finskool_monorepo.Payments.Money.{
  paid_count, is_waiting, bit, IsMoney, keep-IsMoney, granted_count, granted_waiting,
  update_quotes-UniqueKey,
}

-- What others commit keeps the property, and no quote changes its request.
pub record IsSteady (f : PayStore → PayStore) : Type 0 where
  pub money : (s : PayStore) → IsMoney s → IsMoney (f s)
  pub parents :
      (s : PayStore) (id : ℕ) (q : ServiceQuote)
      → find_quote id s ≡ some q
      → (r : ServiceQuote) → find_quote id (f s) ≡ some r
      → r.request_id ≡ q.request_id

pub found_waiting :
    (a : ℕ) (rs : List ServiceRequest) (x : ServiceRequest)
    → find_first (λ r. r.id == a) rs ≡ some x
    → is_cancellable x.status ≡ true
    → is_waiting a rs ≡ true
unfolding find_first any_where
found_waiting a [] x f c = cc
found_waiting a (r ∷ rs) x f c = elim (Bool-cases (r.id == a)) [
  | inl p ↦
      let e : r ≡ x = ground arith in ground (arith, p, c, ap (λ y. is_cancellable y.status) e)
  | inr n ↦ ground (arith, found_waiting a rs x, n, f)
]

sent_waits : (r : ServiceRequestStatus) → is_quote_sent r ≡ true → is_cancellable r ≡ true
sent_waits r h = ground arith

-- A write to the requests that leaves their ids and states alone.
pub touch :
    (s : PayStore) (w : ServiceRequest → Bool) (f : ServiceRequest → ServiceRequest)
    → ((x : ServiceRequest) → (f x).id ≡ x.id)
    → ((x : ServiceRequest) → is_cancellable (f x).status ≡ is_cancellable x.status)
    → (r : ℕ) → is_waiting r s.requests ≡ false
    → is_waiting r (update_where w f s.requests) ≡ false
touch s w f same state r h =
    any_where-update_where _ w f s.requests (λ x. rw (same x, state x) refl) ∙ h

invoice_or_flag-IsMoney :
    (env : PayEnv) (input : SettleInput) (order : RazorpayOrder) (quote : ServiceQuote) (id : ℕ)
    (s : PayStore)
    → IsMoney s
    → IsMoney (invoice_or_flag env input order quote id s)
unfolding invoice_or_flag issue_invoice no_invoice
invoice_or_flag-IsMoney env input order quote id s h =
    elim (Bool-cases (env.billing_configured && not (is_none quote.billing))) [
      | inl p ↦ rw p (keep-IsMoney s _ h.one_row (λ r. refl) (λ r n. n) h)
      | inr n ↦ rw n (
          keep-IsMoney s _ h.one_row (λ r. refl)
            (touch s (λ x. x.id == id) (λ x. record x { requires_review = true }) (λ x. refl)
              (λ x. refl))
            h)
    ]

pub moved_bit :
    (n : ℕ) (w b : Bool) → (b ≡ true → w ≡ true) → n + bit w ≤ 1 → n + bit b + bit (w && not b) ≤ 1
moved_bit n true true f h = omega (arith, h)
moved_bit n true false f h = omega (arith, h)
moved_bit n false true f h = let e = f refl in cc
moved_bit n false false f h = omega (arith, h)

module _ (env : PayEnv) (input : SettleInput) (order : RazorpayOrder) (quote : ServiceQuote)
    (request : ServiceRequest) (s : PayStore) (k a : ℕ) where
  grant-IsMoney :
      find_quote k s ≡ some quote
      → find_request a s ≡ some request
      → quote.request_id ≡ a
      → is_quote_sent request.status ≡ true
      → is_active quote.status ≡ true
      → IsMoney s
      → IsMoney (grant env input order quote request.id s)
  unfolding grant
  grant-IsMoney fq fr e sent act h =
      let kk = ==→eq _ _ (find_first-holds (λ q. q.id == k) s.quotes fq) in
      let aa = ==→eq _ _ (find_first-holds (λ r. r.id == a) s.requests fr) in
      let waits = found_waiting a s.requests request fr (sent_waits request.status sent) in
      let fq' : find_quote quote.id s ≡ some quote =
        subst (λ i. find_quote i s ≡ some quote) (sym kk) fq in
      record {
        one_row = update_quotes-UniqueKey _ _ (λ q. refl) s.quotes h.one_row;
        paid_once = λ r.
            rw
              (
                granted_count r quote.id s.quotes quote h.one_row fq' act,
                granted_waiting r request.id
                    (λ x. record x {
                      status = ServiceRequestStatus.paid;
                      paid_at = some env.now;
                      last_message_at = env.now;
                      admin_unread_count = x.admin_unread_count + 1;
                    })
                    (λ x. refl) (λ x. refl) s.requests,
              )
              (one_more r aa waits (h.paid_once r));
      }
    where
      one_more :
          (r : ℕ)
          → request.id ≡ a
          → is_waiting a s.requests ≡ true
          → paid_count r s.quotes + bit (is_waiting r s.requests) ≤ 1
          → paid_count r s.quotes
              + bit (quote.request_id == r)
              + bit (is_waiting r s.requests && not (request.id == r))
            ≤ 1
      one_more r aa waits h =
          rw (e, aa)
            (moved_bit (paid_count r s.quotes) (is_waiting r s.requests) (a == r)
              (λ p. subst (λ i. is_waiting i s.requests ≡ true) (==→eq a r p) waits) h)

module _ (env : PayEnv) (input : SettleInput) (order : RazorpayOrder) (quote : ServiceQuote)
    (request : ServiceRequest) (s : PayStore) (k a : ℕ) where
  settle_unpaid-IsMoney :
      find_quote k s ≡ some quote
      → find_request a s ≡ some request
      → quote.request_id ≡ a
      → IsMoney s
      → IsMoney (settle_unpaid env input order quote request s).1
  unfolding settle_unpaid mark_order_paid flag
  settle_unpaid-IsMoney fq fr e h =
      elim (Bool-cases (
        is_mismatch input order
        || not (is_quote_sent request.status)
        || not (is_active quote.status))) [
          | inl p ↦ rw p (
              keep-IsMoney s _ h.one_row (λ r. refl)
                (touch s (λ x. x.id == request.id)
                  (λ x. record x {
                    requires_review = true;
                    last_message_at = env.now;
                    admin_unread_count = x.admin_unread_count + 1;
                  })
                  (λ x. refl) (λ x. refl))
                h)
          | inr n ↦ rw n (
              invoice_or_flag-IsMoney env input order quote request.id _ (
                grant-IsMoney env input order quote request
                  (mark_order_paid env.now order.razorpay_order_id s) k a fq fr e
                  (ground (arith, n)) (ground (arith, n))
                  (keep-IsMoney s _ h.one_row (λ r. refl) (λ r w. w) h)))
        ]

module _ (env : PayEnv) (input : SettleInput) (steady : IsSteady env.others) where
  pub settle-IsMoney : (s : PayStore) → IsMoney s → IsMoney (settle env input s).1
  unfolding upsert_payment
  settle-IsMoney s h =
      settle_cases env input s (λ r. IsMoney r.1) h
        (λ order quote_ref e f.
          let t = env.others s in
          let later = steady.money s h in
          settle_in_tx_cases env input order quote_ref t (λ r. IsMoney r.1) (λ e. later)
            (λ o e p. keep-IsMoney t _ later.one_row (λ r. refl) (λ r w. w) later)
            (λ o quote request e n g r.
              settle_unpaid-IsMoney env input order quote request (upsert_payment input order t)
                order.reference_id quote_ref.request_id g r
                (steady.parents s order.reference_id quote_ref f quote g)
                (keep-IsMoney t _ later.one_row (λ r. refl) (λ r w. w) later)))

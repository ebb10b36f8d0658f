-- ===== src/Payments/Money.antt =====
-- The grants of a request, counted (services.payments.ts, services.service.ts, service-quote-expiry.ts).
pub mod Granted
pub mod Calls
pub mod Writes
pub mod Reports
use finskool_monorepo.Base.{
  ℕ, suc, ◌+◌, ◌≤◌, ◌≡◌, ◌≢◌, refl, sym, ap, subst, ◌∙◌, Bool, true, false, not, ◌&&◌, ◌||◌, ◌==◌,
  is_none, if◌then◌else◌, Option, none, some, List, [], ◌∷◌, ◌++◌, find_first, find_first-holds,
  find_first-All, update_where, any_where, count_where, Result, ok, err, AppError, arith,
  Bool-cases, Option-cases, inl, inr, ==→eq, ==_refl, UniqueKey, UniqueBy-update_where,
  any_where-update_cond, any_where-update_false, any_where-update_where, count_where-update_cond,
}
use finskool_monorepo.Payments.{
  ServiceQuoteStatus, ServiceRequestStatus, ServiceQuote, ServiceRequest, RazorpayOrder, PayStore,
  PayEnv, is_active, is_paid_quote, is_quote_sent, find_quote, find_request, is_paid_order,
}
use finskool_monorepo.Payments.Close.{is_cancellable}

-- The quotes of a request that are paid.
abbrev pub paid_count : ℕ → List ServiceQuote → ℕ
paid_count r qs = count_where (λ q. q.request_id == r && is_paid_quote q.status) qs

-- The request waits for a quote or for its payment.
abbrev pub is_waiting : ℕ → List ServiceRequest → Bool
is_waiting r rs = any_where (λ x. x.id == r && is_cancellable x.status) rs

abbrev pub bit : Bool → ℕ
bit true = 1
bit false = 0

abbrev quote_id : ServiceQuote → ℕ
quote_id q = q.id

-- A request has one paid quote at most, and none while it waits.
pub record IsMoney (s : PayStore) : Type 0 where
  pub one_row : UniqueKey quote_id s.quotes
  pub paid_once : (r : ℕ) → paid_count r s.quotes + bit (is_waiting r s.requests) ≤ 1

-- A write that pays for nothing and makes nothing wait.
pub keep-IsMoney :
    (s t : PayStore)
    → UniqueKey quote_id t.quotes
    → ((r : ℕ) → paid_count r t.quotes ≡ paid_count r s.quotes)
    → ((r : ℕ) → is_waiting r s.requests ≡ false → is_waiting r t.requests ≡ false)
    → IsMoney s
    → IsMoney t
keep-IsMoney s t u c w h = record {
  one_row = u;
  paid_once = λ r. elim (Bool-cases (is_waiting r s.requests)) [
    | inl p ↦ ground (arith, c r, h.paid_once r, p)
    | inr n ↦ ground (arith, c r, h.paid_once r, n, w r n)
  ];
}

module _ (w : ServiceQuote → Bool) (f : ServiceQuote → ServiceQuote) where
  pub update_quotes-UniqueKey :
      ((q : ServiceQuote) → (f q).id ≡ q.id)
      → (qs : List ServiceQuote) → UniqueKey quote_id qs
      → UniqueKey quote_id (update_where w f qs)
  update_quotes-UniqueKey same qs u =
      UniqueBy-update_where _ w f (λ x y p. rw (same x) refl) (λ x y p. rw (same y) refl) qs u

  pub paid_count-update_where :
      ((q : ServiceQuote) → w q ≡ true → is_paid_quote q.status ≡ false)
      → ((q : ServiceQuote) → w q ≡ true → is_paid_quote (f q).status ≡ false)
      → (r : ℕ) (qs : List ServiceQuote) → paid_count r (update_where w f qs) ≡ paid_count r qs
  paid_count-update_where before after r qs =
      count_where-update_cond _ w f qs (λ q p. ground (arith, before q p, after q p))

-- ─── A grant ────────────────────────────────────────────────────────────────

no_other :
    (r k : ℕ) (qs : List ServiceQuote) (f : ServiceQuote → ServiceQuote)
    → any_where (λ q. q.id == k) qs ≡ false
    → update_where (λ q. q.id == k) f qs ≡ qs
unfolding any_where update_where
no_other r k [] f h = refl
no_other r k (q ∷ qs) f h = ground (arith, no_other r k qs f)

abbrev pay_quote : ServiceQuote → ServiceQuote
pay_quote q = record q { status = ServiceQuoteStatus.paid }

-- Paying one active quote makes one more paid quote, of its request.
pub granted_count :
    (r k : ℕ) (qs : List ServiceQuote) (quote : ServiceQuote)
    → UniqueKey quote_id qs
    → find_first (λ q. q.id == k) qs ≡ some quote
    → is_active quote.status ≡ true
    → paid_count r (update_where (λ q. q.id == k) pay_quote qs)
      ≡ paid_count r qs + bit (quote.request_id == r)
unfolding find_first update_where count_where
granted_count r k [] quote u f a = cc
granted_count r k (q ∷ qs) quote u f a = elim (Bool-cases (q.id == k)) [
  | inl p ↦
      let same : q ≡ quote = ground arith in
      let rest =
        no_other r k qs pay_quote
          (subst (λ i. any_where (λ y. y.id == i) qs ≡ false) (==→eq _ _ p) u.0) in
      rw (p, rest) (ground (arith, ap (λ x. x.request_id) same, ap (λ x. is_active x.status) same))
  | inr n ↦ rw n (ground (arith, granted_count r k qs quote u.1 (ground arith) a))
]

-- The request that is paid waits no longer, and no other begins to.
pub granted_waiting :
    (r k : ℕ) (f : ServiceRequest → ServiceRequest)
    → ((x : ServiceRequest) → (f x).id ≡ x.id)
    → ((x : ServiceRequest) → is_cancellable (f x).status ≡ false)
    → (rs : List ServiceRequest)
    → is_waiting r (update_where (λ x. x.id == k) f rs) ≡ (is_waiting r rs && not (k == r))
unfolding any_where update_where
granted_waiting r k f same closed [] = refl
granted_waiting r k f same closed (x ∷ rs) =
    ground (arith, granted_waiting r k f same closed rs, same x, closed x)

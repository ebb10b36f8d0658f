-- ===== src/Payments/Numbers.antt =====
-- The numbers of invoices and receipts (`settle` of modules/services/services.payments.ts, `issuePlanReceipt` of
-- lib/plan-receipt.ts).
use finskool_monorepo.Base.{
  ℕ, suc, ◌+◌, ◌≡◌, refl, sym, subst, ◌∙◌, Bool, true, false, not, ◌&&◌, ◌||◌, ◌==◌, is_none, leb,
  if◌then◌else◌, List, [], ◌∷◌, ◌++◌, find_first, any_where, count_where, arith, Bool-cases, inl,
  inr, ==→eq,
}
use finskool_monorepo.Payments.Receipts.{series_of, issue_plan_receipt}
use finskool_monorepo.Payments.{
  ServiceQuote, ServiceRequest, RazorpayOrder, ServiceInvoice, PlanReceipt, InvoiceCounter,
  PayStore, PayEnv, is_active, is_quote_sent,
}
use finskool_monorepo.Payments.Settle.{
  SettleInput, is_mismatch, upsert_payment, mark_order_paid, flag, grant, no_invoice, issue_invoice,
  invoice_or_flag, settle_unpaid, settle, last_number_of, count_up,
}
use finskool_monorepo.Payments.Cases.{settle_in_tx_cases, settle_cases}

abbrev bit : Bool → ℕ
bit true = 1
bit false = 0

abbrev pub invoice_has : ℕ → ℕ → ServiceInvoice → Bool
invoice_has year n i = i.financial_year == year && i.sequence == n

abbrev pub receipt_has : ℕ → ℕ → PlanReceipt → Bool
receipt_has year n r = r.series == year && r.sequence == n

-- How many invoices of services and receipts of plans have this number of the series.
abbrev pub uses : ℕ → ℕ → PayStore → ℕ
uses year n s =
    count_where (invoice_has year n) s.invoices + count_where (receipt_has year n) s.plan_receipts

-- In every series, the numbers from 1 to the counter are used once, and no other is.
abbrev pub IsNumbered : PayStore → Type 0
IsNumbered s =
    (year n : ℕ)
    → uses year n s ≡ (if leb 1 n && leb n (last_number_of year s.counters) then 1 else 0)

last_number_of-count_up :
    (a b : ℕ) (cs : List InvoiceCounter)
    → last_number_of b (count_up a cs)
      ≡ (if a == b then suc (last_number_of b cs) else last_number_of b cs)
unfolding last_number_of count_up find_first
last_number_of-count_up a b [] = ground arith
last_number_of-count_up a b (c ∷ cs) = ground (arith, last_number_of-count_up a b cs)

counted :
    {A : Type 0} (w : A → Bool) (x : A) (xs : List A)
    → count_where w (xs ++ x ∷ []) ≡ count_where w xs + bit (w x)
unfolding count_where
counted w x [] = elim (Bool-cases (w x)) [ inl p ↦ rw p refl | inr n ↦ rw n refl ]
counted w x (y ∷ xs) = elim (Bool-cases (w y)) [
  | inl p ↦ rw p (omega (arith, counted w x xs))
  | inr n ↦ rw n (counted w x xs)
]

-- A number more, for a counter that counted up.
one_more :
    (a b n : ℕ) (cs : List InvoiceCounter)
    → (if leb 1 n && leb n (last_number_of b cs) then 1 else 0)
        + bit (a == b && last_number_of a (count_up a cs) == n)
      ≡ (if leb 1 n && leb n (last_number_of b (count_up a cs)) then 1 else 0)
one_more a b n cs = elim (Bool-cases (a == b)) [
  | inr k ↦ rw (k, last_number_of-count_up a b cs, k) (omega arith)
  | inl p ↦
      let up : last_number_of b (count_up a cs) ≡ suc (last_number_of b cs) =
        last_number_of-count_up a b cs ∙ rw p refl in
      let same : last_number_of a (count_up a cs) ≡ suc (last_number_of b cs) =
        subst (λ c. last_number_of c (count_up a cs) ≡ suc (last_number_of b cs))
          (sym (==→eq a b p)) up in
      rw (p, up, same) (ground arith)
]

-- The receipt of a plan order takes the next number of its series.
issue_plan_receipt-IsNumbered :
    (env : PayEnv) (order_id : ℕ) (taxed : Bool) (s : PayStore)
    → IsNumbered s
    → IsNumbered (issue_plan_receipt env order_id taxed s)
unfolding issue_plan_receipt
issue_plan_receipt-IsNumbered env order_id taxed s h year n =
    elim (Bool-cases
      (any_where (λ r. r.plan_order_id == order_id) s.plan_receipts || not env.receipts_up)) [
        | inl p ↦ rw p (h year n)
        | inr k ↦
            let key = series_of env taxed in
            rw (k, counted (receipt_has year n) _ s.plan_receipts)
              (omega (arith, h year n, one_more key year n s.counters))
      ]

module _ (env : PayEnv) (input : SettleInput) where
  issue_invoice-IsNumbered :
      (quote : ServiceQuote) (id : ℕ) (s : PayStore)
      → IsNumbered s
      → IsNumbered (issue_invoice env input quote id s)
  unfolding issue_invoice
  issue_invoice-IsNumbered quote id s h year n =
      rw (counted (invoice_has year n) _ s.invoices)
        (omega (arith, h year n, one_more env.financial_year year n s.counters))

  invoice_or_flag-IsNumbered :
      (order : RazorpayOrder) (quote : ServiceQuote) (id : ℕ) (s : PayStore)
      → IsNumbered s
      → IsNumbered (invoice_or_flag env input order quote id s)
  unfolding invoice_or_flag no_invoice
  invoice_or_flag-IsNumbered order quote id s h =
      elim (Bool-cases (env.billing_configured && not (is_none quote.billing))) [
        | inl p ↦ rw p (issue_invoice-IsNumbered quote id s h)
        | inr n ↦ rw n h
      ]

  settle_unpaid-IsNumbered :
      (order : RazorpayOrder) (quote : ServiceQuote) (request : ServiceRequest) (s : PayStore)
      → IsNumbered s
      → IsNumbered (settle_unpaid env input order quote request s).1
  unfolding settle_unpaid mark_order_paid flag grant
  settle_unpaid-IsNumbered order quote request s h =
      elim (Bool-cases (
        is_mismatch input order
        || not (is_quote_sent request.status)
        || not (is_active quote.status))) [
          | inl p ↦ rw p h
          | inr n ↦ rw n (invoice_or_flag-IsNumbered order quote request.id _ h)
        ]

  settled-IsNumbered :
      ((s : PayStore) → IsNumbered s → IsNumbered (env.others s))
      → (s : PayStore) → IsNumbered s
      → IsNumbered (settle env input s).1
  unfolding upsert_payment
  settled-IsNumbered keep s h =
      settle_cases env input s (λ r. IsNumbered r.1) h
        (λ order quote_ref e f.
          settle_in_tx_cases env input order quote_ref (env.others s) (λ r. IsNumbered r.1)
            (λ e. keep s h) (λ o e p. keep s h)
            (λ o quote request e n g r.
              settle_unpaid-IsNumbered order quote request
                (upsert_payment input order (env.others s)) (keep s h)))

-- The invoices of services and the receipts of plans share their series without a gap and without a double:
-- each number from 1 to a series' counter is on one of them, and no other number is. Settling a payment of
-- a service keeps it so, however the call ends, if what others commit in between does; and so does issuing
-- the receipt of any plan order, taxed or not.
pub settle-IsNumbered :
    (env : PayEnv) (input : SettleInput) (order_id : ℕ) (taxed : Bool) (s : PayStore)
    → ((u : PayStore) → IsNumbered u → IsNumbered (env.others u))
    → IsNumbered s
    → IsNumbered (settle env input s).1 × IsNumbered (issue_plan_receipt env order_id taxed s)
settle-IsNumbered env input order_id taxed s keep h =
    (settled-IsNumbered env input keep s h, issue_plan_receipt-IsNumbered env order_id taxed s h)

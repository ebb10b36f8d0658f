-- ===== src/Payments/Receipts.antt =====
-- The receipt of a paid plan order, which shares the invoice counters: `issuePlanReceipt` of
-- apps/backend/src/lib/plan-receipt.ts. What is printed on it is left out.
use finskool_monorepo.Base.{ℕ, Bool, not, ◌||◌, ◌==◌, any_where, if◌then◌else◌, [], ◌∷◌, ◌++◌}
use finskool_monorepo.Payments.{PayStore, PayEnv}
use finskool_monorepo.Payments.Settle.{last_number_of, count_up}

-- Tax invoices count in the series of the service invoices, plain receipts in their own.
abbrev pub series_of : PayEnv → Bool → ℕ
series_of env taxed = if taxed then env.financial_year else env.receipt_series

-- Once for an order. A failure is only logged.
unfoldable pub issue_plan_receipt : PayEnv → (plan_order_id : ℕ) → Bool → PayStore → PayStore
unfolding count_up last_number_of
issue_plan_receipt env plan_order_id taxed s =
    if any_where (λ r. r.plan_order_id == plan_order_id) s.plan_receipts || not env.receipts_up
    then s
    else (let counters = count_up (series_of env taxed) s.counters in
        record s {
          counters = counters;
          plan_receipts =
              s.plan_receipts
              ++ record {
                plan_order_id = plan_order_id;
                series = series_of env taxed;
                sequence = last_number_of (series_of env taxed) counters;
              }
                ∷ [];
        })

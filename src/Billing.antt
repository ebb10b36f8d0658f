-- ===== src/Billing.antt =====
-- The money of quotes, plans and invoices in whole paise:
-- apps/backend/src/modules/services/services.billing.ts and apps/backend/src/lib/plan-gst.ts.
pub mod Rounding
pub mod Gstin
pub mod Words
mod Examples
use finskool_monorepo.Base.{ℕ, ◌+◌, ◌-◌, ◌*◌, ◌/◌, Bool, true, false, text_eq, Text, if◌then◌else◌}

pub record QuoteAmounts : Type 0 where
  pub base_paise : ℕ
  pub gst_paise : ℕ
  pub total_paise : ℕ

-- `rate_bps` is the rate × 100.
unfoldable pub compute_quote_amounts : ℕ → ℕ → QuoteAmounts
compute_quote_amounts base_paise rate_bps =
    let gst_paise = (base_paise * rate_bps + 5000) / 10000 in
    record { base_paise = base_paise; gst_paise = gst_paise; total_paise = base_paise + gst_paise }

pub record GstSplit : Type 0 where
  pub cgst_paise : ℕ
  pub sgst_paise : ℕ
  pub igst_paise : ℕ

unfoldable pub split_gst : ℕ → Text → Text → GstSplit
unfolding text_eq
split_gst gst_paise seller_state_code buyer_state_code =
    if text_eq seller_state_code buyer_state_code
    then (let cgst_paise = gst_paise / 2 in
        record { cgst_paise = cgst_paise; sgst_paise = gst_paise - cgst_paise; igst_paise = 0 })
    else record { cgst_paise = 0; sgst_paise = 0; igst_paise = gst_paise }

-- The rate in hundredths of a percent, a whole number.
pub record GstRules : Type 0 where
  pub applies : Bool
  pub rate_bps : ℕ

pub record PlanPricing : Type 0 where
  pub gst_applies : Bool
  pub rate_bps : ℕ
  pub base_paise : ℕ
  pub gst_paise : ℕ
  pub total_paise : ℕ

-- The price is in whole paise and the rate in basis points, as their columns have two decimals, so the
-- rounding of both is the identity.
unfoldable pub price_with_gst : ℕ → GstRules → PlanPricing
unfolding compute_quote_amounts
price_with_gst base_paise rules =
    let amounts = compute_quote_amounts base_paise rules.rate_bps in
    if rules.applies
    then record {
      gst_applies = true;
      rate_bps = rules.rate_bps;
      base_paise = base_paise;
      gst_paise = amounts.gst_paise;
      total_paise = amounts.total_paise;
    }
    else record {
      gst_applies = false;
      rate_bps = 0;
      base_paise = base_paise;
      gst_paise = 0;
      total_paise = base_paise;
    }

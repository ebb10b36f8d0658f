-- ===== src/Billing/Examples.antt =====
-- The helpers of services.billing.ts on small amounts and a known GSTIN.
use finskool_monorepo.Base.{◌+◌, ◌≡◌, ◌≤◌, ◌<◌, refl, true, false, some, none, text, arith}
use finskool_monorepo.Billing.{compute_quote_amounts, split_gst, price_with_gst, GstRules}
use finskool_monorepo.Billing.Rounding.{split_gst_total, price_with_gst_mono}
use finskool_monorepo.Billing.Gstin.{is_valid_gstin}
use finskool_monorepo.Billing.Gstin.OneError.{is_valid_gstin_one_error}
use finskool_monorepo.Billing.Words.{amount_in_words, IsSome, amount_in_words-IsSome}

split_gst_total_example :
    let q = compute_quote_amounts 12345 1800 in
    let s = split_gst q.gst_paise (text "27") (text "27") in
    (q.base_paise + s.cgst_paise + s.sgst_paise + s.igst_paise ≡ q.total_paise)
    × (s.cgst_paise ≤ s.sgst_paise)
    × (s.sgst_paise ≤ s.cgst_paise + 1)
split_gst_total_example = split_gst_total 12345 1800 (text "27") (text "27")

abbrev rules : GstRules
rules = record { applies = true; rate_bps = 1800 }

price_with_gst_mono_example :
    let p = price_with_gst 100 rules in
    let q = price_with_gst 101 rules in
    (p.gst_paise ≤ q.gst_paise)
    × (p.total_paise < q.total_paise)
    × (p.total_paise ≡ p.base_paise + p.gst_paise)
price_with_gst_mono_example = price_with_gst_mono 100 101 rules (omega arith)

known : is_valid_gstin (text "27AAPFU0939F1ZV") ≡ true
unfolding is_valid_gstin
known = refl

one_wrong : is_valid_gstin (text "27AAPFU0938F1ZV") ≡ false
unfolding is_valid_gstin
one_wrong = refl

is_valid_gstin_one_error_example : is_valid_gstin (text "27AAPFU0938F1ZV") ≡ false
unfolding is_valid_gstin
is_valid_gstin_one_error_example =
    is_valid_gstin_one_error (text "27AAPFU093") 57 56 (text "F1ZV") (λ e. omega (arith, e)) refl

twelve :
    amount_in_words 1250050 ≡ some (text "Rupees Twelve Thousand Five Hundred and Fifty Paise Only")
unfolding amount_in_words
twelve = refl

two_thousand_crore : amount_in_words 2000000000000 ≡ none
unfolding amount_in_words
two_thousand_crore = refl

amount_in_words-IsSome_example : IsSome (amount_in_words 1250050)
amount_in_words-IsSome_example = amount_in_words-IsSome 1250050 (omega arith)

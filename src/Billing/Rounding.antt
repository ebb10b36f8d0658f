-- ===== src/Billing/Rounding.antt =====
-- Rounding and splitting GST (services.billing.ts, plan-gst.ts).
use finskool_monorepo.Base.{
  ℕ, ◌+◌, ◌-◌, ◌*◌, ◌/◌, ◌≤◌, ◌<◌, ◌≡◌, refl, subst, text_eq, Text, arith, Bool-cases, inl, inr,
}
use finskool_monorepo.Billing.{compute_quote_amounts, split_gst, GstRules, price_with_gst}

split_halves :
    (gst : ℕ) (seller buyer : Text)
    → let s = split_gst gst seller buyer in
      (s.cgst_paise ≤ s.sgst_paise) × (s.sgst_paise ≤ s.cgst_paise + 1)
unfolding split_gst
split_halves gst seller buyer = elim (Bool-cases (text_eq seller buyer)) [
  | inl p ↦ rw p (omega arith, omega arith)
  | inr n ↦ rw n (omega arith, omega arith)
]

split_sum :
    (gst : ℕ) (seller buyer : Text)
    → let s = split_gst gst seller buyer in s.cgst_paise + s.sgst_paise + s.igst_paise ≡ gst
unfolding split_gst
split_sum gst seller buyer = ground arith

-- What an invoice lists adds up: the base, the two halves of the GST of one state or the GST between
-- states make the total that was charged, to the paisa. The two halves differ by a paisa at most, with
-- the odd one in SGST.
pub split_gst_total :
    (base rate : ℕ) (seller buyer : Text)
    → let q = compute_quote_amounts base rate in
      let s = split_gst q.gst_paise seller buyer in
      (q.base_paise + s.cgst_paise + s.sgst_paise + s.igst_paise ≡ q.total_paise)
      × (s.cgst_paise ≤ s.sgst_paise)
      × (s.sgst_paise ≤ s.cgst_paise + 1)
unfolding compute_quote_amounts
split_gst_total base rate seller buyer =
    let gst = (base * rate + 5000) / 10000 in
    let halves = split_halves gst seller buyer in
    (omega (arith, split_sum gst seller buyer), halves.0, halves.1)

mul_mono : (a b c : ℕ) → a ≤ b → a * c ≤ b * c
mul_mono a b c h =
    let e : a + (b - a) ≡ b = omega (arith, h) in subst (λ x. a * c ≤ x * c) e (omega arith)

-- A dearer plan is never charged less: with the same GST rules a higher price means at least the GST
-- of the lower one and a higher total, and the total is the price with its GST.
pub price_with_gst_mono :
    (base higher : ℕ) (rules : GstRules)
    → base < higher
    → let p = price_with_gst base rules in
      let q = price_with_gst higher rules in
      (p.gst_paise ≤ q.gst_paise)
      × (p.total_paise < q.total_paise)
      × (p.total_paise ≡ p.base_paise + p.gst_paise)
unfolding price_with_gst compute_quote_amounts
price_with_gst_mono base higher rules h =
    let m : base * rules.rate_bps ≤ higher * rules.rate_bps =
      mul_mono base higher rules.rate_bps (omega (arith, h)) in
    elim (Bool-cases rules.applies) [
      | inl p ↦ rw p (omega (arith, m), omega (arith, m, h), refl)
      | inr n ↦ rw n (omega arith, h, omega arith)
    ]

-- ===== src/Performance.antt =====
-- Which trades of a performance board a free member sees:
-- apps/backend/src/modules/performance/performance.visibility.ts. Ids are numbers in their order.
pub mod Newest
pub mod Ranks
pub mod Visible
mod Examples
use finskool_monorepo.Base.{
  ℕ, ◌+◌, ◌*◌, Bool, true, false, ◌&&◌, ◌||◌, ◌==◌, ltb, leb, List, [], ◌∷◌, ◌++◌, map, take,
  if◌then◌else◌,
}

pub data TradeVisibility : Type 0 where
  auto show hide : TradeVisibility

pub record VisibilityRules : Type 0 where
  pub hide_newer_than_days : ℕ
  pub max_free_trades : ℕ

pub record VisibilityInput : Type 0 where
  pub id : ℕ
  pub trade_date : ℕ
  pub created_at : ℕ
  pub visibility : TradeVisibility

abbrev pub trade_day_ms : ℕ
trade_day_ms = 24 * 60 * 60 * 1000

-- `compareNewestFirst(a, b) < 0`
unfoldable pub newer : VisibilityInput → VisibilityInput → Bool
newer a b =
    ltb b.trade_date a.trade_date
    || a.trade_date == b.trade_date
      && (ltb b.created_at a.created_at || a.created_at == b.created_at && ltb b.id a.id)

abbrev pub is_show : TradeVisibility → Bool
is_show show = true
is_show _ = false

abbrev pub is_auto : TradeVisibility → Bool
is_auto auto = true
is_auto _ = false

-- `(today - tradeDate) / DAY_MS >= hideNewerThanDays`
unfoldable pub is_eligible_trade : VisibilityRules → ℕ → VisibilityInput → Bool
is_eligible_trade rules today t =
    is_auto t.visibility && leb (t.trade_date + rules.hide_newer_than_days * trade_day_ms) today

-- The loop: the ids that are always shown, and the eligible trades.
unfoldable pub collect : VisibilityRules → ℕ → List VisibilityInput → List ℕ × List VisibilityInput
unfolding is_eligible_trade
collect rules today [] = ([], [])
collect rules today (t ∷ ts) =
    let (visible, eligible) = collect rules today ts in
    if is_show t.visibility
    then (t.id ∷ visible, eligible)
    else if is_eligible_trade rules today t
    then (visible, t ∷ eligible)
    else (visible, eligible)

unfoldable pub insert_sorted : VisibilityInput → List VisibilityInput → List VisibilityInput
unfolding newer
insert_sorted t [] = t ∷ []
insert_sorted t (u ∷ us) =
    let rest = insert_sorted t us in if newer t u then t ∷ u ∷ us else u ∷ rest

-- `eligible.sort(compareNewestFirst)`
unfoldable pub sort_newest : List VisibilityInput → List VisibilityInput
unfolding insert_sorted
sort_newest [] = []
sort_newest (t ∷ ts) = insert_sorted t (sort_newest ts)

unfoldable pub free_visible_ids : List VisibilityInput → VisibilityRules → ℕ → List ℕ
unfolding collect sort_newest
free_visible_ids trades rules today =
    let (visible, eligible) = collect rules today trades in
    visible ++ map (λ t. t.id) (take rules.max_free_trades (sort_newest eligible))

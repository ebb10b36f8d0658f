-- ===== src/Performance/Examples.antt =====
-- Three trades of one board, of which a free member sees one.
use finskool_monorepo.Base.{
  ◌≡◌, refl, ◌||◌, ◌&&◌, ltb, [], ◌∷◌, List, any_where, Memᴰ, includes, count_where,
}
use finskool_monorepo.Performance.{
  TradeVisibility, VisibilityRules, VisibilityInput, is_show, free_visible_ids,
}
use finskool_monorepo.Performance.Visible.{is_candidate, comes_first, includes-free_visible_ids}

abbrev rules : VisibilityRules
rules = record { hide_newer_than_days = 7; max_free_trades = 1 }

abbrev old_trade : VisibilityInput
old_trade = record { id = 1; trade_date = 0; created_at = 5; visibility = TradeVisibility.auto }

abbrev board : List VisibilityInput
board =
    old_trade
    ∷ record old_trade { id = 2; created_at = 6 }
    ∷ record old_trade { id = 3; visibility = TradeVisibility.hide }
    ∷ []

one_visible : free_visible_ids board rules 864000000 ≡ 2 ∷ []
unfolding free_visible_ids
one_visible = refl

includes-free_visible_ids_example : includes 1 (free_visible_ids board rules 864000000) ≡ (
    is_show old_trade.visibility
    || is_candidate rules 864000000 old_trade
      && ltb (count_where (λ u. is_candidate rules 864000000 u && comes_first u old_trade) board) 1)
unfolding any_where
includes-free_visible_ids_example =
    includes-free_visible_ids board rules 864000000 old_trade (refl, (refl, (refl, tt)))
      (Memᴰ.head refl)

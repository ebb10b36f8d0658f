-- ===== src/Lifecycle/Closed.antt =====
-- What the expiry job leaves open (`expireLapsedSubscriptions` of
-- apps/backend/src/lib/subscription-lifecycle.ts).
use finskool_monorepo.Base.{not, ◌||◌, any_where, ◌≡◌, Bool, true, false, ◌&&◌, ◌==◌, List}
use finskool_monorepo.Lifecycle.{SubRow, JobEnv, is_lapsed}

-- `y` is the row `x`, as far as the job reads it.
abbrev is_for : SubRow → SubRow → Bool
is_for x y =
    y.id == x.id && (y.user_usable && x.user_usable || not y.user_usable && not x.user_usable)

module _ (env : JobEnv) where
  abbrev can_close : SubRow → Bool
  can_close x = env.database_up x.id && (env.inbox_up x.id || not x.user_usable)

  -- Lapsed and closable only if it is one of the rows still to do.
  abbrev Pending : List SubRow → SubRow → Type 0
  Pending todo x = (is_lapsed env x && can_close x) ≡ true → any_where (is_for x) todo ≡ true

  close_row : SubRow → SubRow
  close_row x = record x { is_active = false }

-- ===== src/Lifecycle/Examples.antt =====
-- One member whose access ends in three days, and one whose access ended the day before yesterday.
use finskool_monorepo.Base.{
  not, ◌==◌, length, find_many, update_where, any_where, ◌≡◌, refl, true, some, [], ◌∷◌, text,
}
use finskool_monorepo.Lifecycle.{
  expire_lapsed_subscriptions, SubRow, JobEnv, JobStore, run_subscription_lifecycle_sweep,
}
use finskool_monorepo.Lifecycle.Once.{run_sweep-run_sweep}

abbrev ending : SubRow
ending = record {
  id = 1;
  user_id = 3;
  community_id = 7;
  community_name = text "Traders";
  valid_until = 1123200000;
  is_active = true;
  user_usable = true;
  email = some (text "asha@example.com");
}

abbrev ended : SubRow
ended = record ending { id = 2; user_id = 4; valid_until = 691200000 }

abbrev morning : JobEnv
morning = record {
  today = 864000000;
  channels = record { live_up = true; queue_up = true };
  format_date = λ t. text "soon";
  database_up = λ id. true;
  inbox_up = λ id. not (id == 5);
}

abbrev start : JobStore
start = record {
  subs = ending ∷ ended ∷ [];
  inbox = record { rows = []; next_id = 1; published = []; queued = [] };
  mails = [];
}

run_sweep-run_sweep_example :
    let once = run_subscription_lifecycle_sweep morning start in
    run_subscription_lifecycle_sweep morning once ≡ once
run_sweep-run_sweep_example = run_sweep-run_sweep morning start

one_closed :
    length (find_many (λ x. x.is_active) (expire_lapsed_subscriptions morning start).subs) ≡ 1
unfolding expire_lapsed_subscriptions find_many update_where any_where
one_closed = refl

-- ===== src/Lifecycle.antt =====
-- The two daily jobs on subscriptions: apps/backend/src/lib/subscription-lifecycle.ts. A row holds
-- what the query joins to it; `today` is the start of the day, and times are milliseconds.
pub mod Once
pub mod Windows
pub mod Closed
mod Examples
use finskool_monorepo.Base.{
  ℕ, suc, zero, ◌+◌, ◌-◌, ◌*◌, ◌/◌, Bool, true, false, not, ◌&&◌, ◌||◌, ◌==◌, is_none, ltb, leb,
  if◌then◌else◌, Option, none, some, List, [], ◌∷◌, ◌++◌, find_many, update_where, Text, text,
  Result, ok, err,
}
use finskool_monorepo.Notify.{NotificationType, Channels, Inbox, subscription_routing}
use finskool_monorepo.Notify.Senders.{NotificationRowParams, notify_once}

-- 'expiring-7', 'expiring-1', 'expired'
pub data Bucket : Type 0 where
  expiring_7 expiring_1 expired : Bucket

-- Whole days from today, and whole days before it.
pub data ℤ : Type 0 where
  pos negsuc : ℕ → ℤ

unfoldable pub bucket_for : ℤ → Option Bucket
bucket_for (pos n) =
    if leb 2 n && leb n 7 then some expiring_7 else if leb n 1 then some expiring_1 else none
bucket_for (negsuc n) = if leb n 6 then some expired else none

abbrev pub sub_day_ms : ℕ
sub_day_ms = 1000 * 60 * 60 * 24

abbrev pub minus : ℕ → ℤ
minus zero = pos 0
minus (suc n) = negsuc n

-- `Math.ceil((validUntil - today) / day)`
unfoldable pub days_until_expiry : ℕ → ℕ → ℤ
days_until_expiry valid_until today =
    if leb today valid_until
    then pos ((valid_until - today + (sub_day_ms - 1)) / sub_day_ms)
    else minus ((today - valid_until) / sub_day_ms)

pub record SubRow : Type 0 where
  pub id : ℕ
  pub user_id : ℕ
  pub community_id : ℕ
  pub community_name : Text
  pub valid_until : ℕ
  pub is_active : Bool
  pub user_usable : Bool
  pub email : Option Text

pub record JobEnv : Type 0 where
  pub today : ℕ
  pub channels : Channels
  pub format_date : ℕ → Text
  pub database_up : ℕ → Bool
  pub inbox_up : ℕ → Bool

pub record JobStore : Type 0 where
  pub subs : List SubRow
  pub inbox : Inbox
  pub mails : List (ℕ × Bucket)

abbrev pub type_of : Bucket → NotificationType
type_of expiring_7 = NotificationType.subscription_expiring_7_days
type_of expiring_1 = NotificationType.subscription_expiring_1_day
type_of expired = NotificationType.subscription_expired

abbrev pub bucket_text : Bucket → Text
bucket_text expiring_7 = text "expiring-7"
bucket_text expiring_1 = text "expiring-1"
bucket_text expired = text "expired"

abbrev pub title_of : Bucket → Text
title_of expiring_7 = text "Access ends in 7 days"
title_of expiring_1 = text "Last day of access"
title_of expired = text "Access paused"

abbrev pub message_of : JobEnv → Bucket → SubRow → Text
message_of env expiring_7 sub =
    text "Your "
    ++ sub.community_name
    ++ text " subscription expires on "
    ++ env.format_date sub.valid_until
    ++ text ". Email support@finskool21.com to extend."
message_of env expiring_1 sub =
    text "Your "
    ++ sub.community_name
    ++ text " subscription ends tomorrow. Email support@finskool21.com to extend."
message_of env expired sub =
    text "Email support@finskool21.com to restore your " ++ sub.community_name ++ text " access."

-- The subscription's own id is the source of the notification.
abbrev pub reminder_of : JobEnv → Bucket → SubRow → NotificationRowParams
reminder_of env bucket sub = record {
  community_id = some sub.community_id;
  user_id = sub.user_id;
  kind = type_of bucket;
  source_id = sub.id;
  title = title_of bucket;
  message = message_of env bucket sub;
  routing = some (subscription_routing sub.community_id (bucket_text bucket));
  push = some (subscription_routing sub.community_id (bucket_text bucket), none);
}

-- A notification that is new is mailed as well, if there is an address.
abbrev pub mails_for : Bucket → SubRow → Result (Option ℕ) → List (ℕ × Bucket)
mails_for bucket sub (ok (some id)) = if is_none sub.email then [] else (sub.id, bucket) ∷ []
mails_for bucket sub _ = []

unfoldable pub tell : JobEnv → Bucket → SubRow → JobStore → JobStore
unfolding notify_once
tell env bucket sub s =
    let (r, after) = notify_once env.channels (reminder_of env bucket sub) s.inbox in
    record s { inbox = after; mails = s.mails ++ mails_for bucket sub r }

abbrev pub bucket_of : JobEnv → SubRow → Option Bucket
bucket_of env sub = bucket_for (days_until_expiry sub.valid_until env.today)

abbrev pub remind_as : JobEnv → SubRow → Option Bucket → JobStore → JobStore
remind_as env sub none s = s
remind_as env sub (some bucket) s = tell env bucket sub s

unfoldable pub remind_one : JobEnv → SubRow → JobStore → JobStore
unfolding tell
remind_one env sub s = remind_as env sub (bucket_of env sub) s

unfoldable pub remind_all : JobEnv → List SubRow → JobStore → JobStore
unfolding remind_one
remind_all env [] s = s
remind_all env (sub ∷ subs) s = remind_all env subs (remind_one env sub s)

-- Active, within seven days of today on either side, and the member usable.
unfoldable pub in_window : JobEnv → SubRow → Bool
in_window env sub =
    sub.is_active
    && leb env.today (sub.valid_until + 7 * sub_day_ms)
    && leb sub.valid_until (env.today + 7 * sub_day_ms)
    && sub.user_usable

unfoldable pub run_subscription_lifecycle_sweep : JobEnv → JobStore → JobStore
unfolding remind_all in_window
run_subscription_lifecycle_sweep env s = remind_all env (find_many (in_window env) s.subs) s

-- ─── The day after the last ─────────────────────────────────────────────────

unfoldable pub is_lapsed : JobEnv → SubRow → Bool
is_lapsed env sub = sub.is_active && ltb sub.valid_until env.today

-- The member is told first and the subscription closed last. A `notifyOnce` that fails (`inbox_up`) skips the
-- rest, and so does a failed update: the subscription stays open.
unfoldable pub expire_one : JobEnv → SubRow → JobStore → JobStore
unfolding tell
expire_one env sub s =
    let told = if sub.user_usable && env.inbox_up sub.id then tell env expired sub s else s in
    if env.database_up sub.id && (env.inbox_up sub.id || not sub.user_usable)
    then record told {
      subs = update_where (λ x. x.id == sub.id) (λ x. record x { is_active = false }) told.subs;
    }
    else told

unfoldable pub expire_each : JobEnv → List SubRow → JobStore → JobStore
unfolding expire_one
expire_each env [] s = s
expire_each env (sub ∷ subs) s = expire_each env subs (expire_one env sub s)

unfoldable pub expire_lapsed_subscriptions : JobEnv → JobStore → JobStore
unfolding expire_each is_lapsed
expire_lapsed_subscriptions env s = expire_each env (find_many (is_lapsed env) s.subs) s

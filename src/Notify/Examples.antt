-- ===== src/Notify/Examples.antt =====
-- A subscription reminder, reported twice.
use finskool_monorepo.Base.{
  not, includes, ◌&&◌, ◌||◌, ◌≡◌, ◌≤◌, refl, true, false, none, some, [], ◌∷◌, ok, length, All,
  text, any_where,
}
use finskool_monorepo.Notify.{NotificationType, Channels, Inbox, subscription_routing}
use finskool_monorepo.Notify.Preview.{message_preview, IsInline, message_preview_fits}
use finskool_monorepo.Notify.Senders.{NotificationRowParams, notify_once}
use finskool_monorepo.Notify.Senders.{AdminNotification, notify_admins}
use finskool_monorepo.Notify.Senders.Admins.{has_row, notify_admins_lem}
use finskool_monorepo.Notify.{routing_data, RoutingModule}
use finskool_monorepo.Notify.Senders.Once.{notify_once-notify_once}

abbrev reminder : NotificationRowParams
reminder = record {
  community_id = some 7;
  user_id = 3;
  kind = NotificationType.subscription_expiring_7_days;
  source_id = 40;
  title = text "Access ends in 7 days";
  message = text "Renew";
  routing = none;
  push = some (subscription_routing 7 (text "expiring-7"), none);
}

abbrev empty : Inbox
empty = record { rows = []; next_id = 1; published = []; queued = [] }

abbrev working : Channels
working = record { live_up = true; queue_up = true }

first_report : (notify_once working reminder empty).0 ≡ ok (some 1)
unfolding notify_once any_where
first_report = refl

notify_once-notify_once_example :
    let after = (notify_once working reminder empty).1 in
    notify_once working (record reminder { title = text "Again" }) after ≡ (ok none, after)
notify_once-notify_once_example =
    notify_once-notify_once working working reminder (record reminder { title = text "Again" })
      empty refl refl refl

two_lines : message_preview (some (text " two\n  words ")) 0 ≡ text "two words"
unfolding message_preview
two_lines = refl

message_preview_fits_example :
    (1 ≤ length (message_preview (some (text "hello")) 0))
    × (length (message_preview (some (text "hello")) 0) ≤ 100)
    × All IsInline (message_preview (some (text "hello")) 0)
message_preview_fits_example = message_preview_fits (some (text "hello")) 0

abbrev new_ticket : AdminNotification
new_ticket = record {
  kind = NotificationType.admin_new_ticket;
  source_id = 90;
  community_id = some 7;
  title = text "New support ticket";
  message = text "Asha opened a ticket";
  routing = routing_data RoutingModule.ticket 90 (some 7) none false;
}

notify_admins_example :
    let (told, after) = notify_admins working new_ticket (1 ∷ 2 ∷ []) empty in
    (includes 2 told ≡ (not (has_row new_ticket empty 2) && includes 2 (1 ∷ 2 ∷ [])))
    × (has_row new_ticket after 2 ≡ (has_row new_ticket empty 2 || includes 2 (1 ∷ 2 ∷ [])))
notify_admins_example = notify_admins_lem working new_ticket (1 ∷ 2 ∷ []) empty 2

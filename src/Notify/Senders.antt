-- ===== src/Notify/Senders.antt =====
-- The functions that save a notification and announce it: apps/backend/src/lib/notify-once.ts,
-- admin-notify.ts and member-notify.ts.
pub mod Once
pub mod Admins
use finskool_monorepo.Base.{
  ℕ, suc, Bool, true, false, not, Option, none, some, List, [], ◌∷◌, ◌++◌, ◌==◌, is_none,
  is_unique_violation, if◌then◌else◌, any_where, Text, Result, ok, err, AppError,
}
use finskool_monorepo.Notify.{
  NotificationType, RoutingModule, RoutingData, Notification, LiveEvent, PushRequest, Channels,
  Inbox, has_key, publish_live, queue_push_for,
}

-- `NotificationRowParams`; `push` holds the push's own routing and thread.
pub record NotificationRowParams : Type 0 where
  pub community_id : Option ℕ
  pub user_id : ℕ
  pub kind : NotificationType
  pub source_id : ℕ
  pub title : Text
  pub message : Text
  pub routing : Option RoutingData
  pub push : Option (RoutingData × Option (RoutingModule × ℕ))

abbrev pub row_of : ℕ → NotificationRowParams → Notification
row_of id p = record {
  id = id;
  user_id = p.user_id;
  community_id = p.community_id;
  kind = p.kind;
  source_id = p.source_id;
  title = p.title;
  message = p.message;
  routing = p.routing;
  push_pending = not (is_none p.push);
}

abbrev pub live_of : Notification → LiveEvent
live_of n = record {
  user_id = n.user_id;
  kind = n.kind;
  community_id = n.community_id;
  message = n.message;
  source_id = n.source_id;
}

-- `notification.create`, without the unique key's check.
add_row : Notification → Inbox → Inbox
add_row n inbox = record inbox { rows = inbox.rows ++ n ∷ []; next_id = suc inbox.next_id }

push_if :
    Channels
    → ℕ
    → NotificationRowParams
    → Option (RoutingData × Option (RoutingModule × ℕ))
    → Inbox
    → Inbox
push_if ch id p none inbox = inbox
push_if ch id p (some (routing, thread_id)) inbox =
    (queue_push_for ch (λ n. n.id == id)
      (record {
        user_ids = p.user_id ∷ [];
        title = p.title;
        body = p.message;
        routing = routing;
        thread_id = thread_id;
      })
      inbox).1

unfoldable pub create_and_publish_notification :
    Channels → NotificationRowParams → Inbox → Result ℕ × Inbox
unfolding publish_live queue_push_for push_if add_row
create_and_publish_notification ch p inbox =
    let row = row_of inbox.next_id p in
    if any_where (has_key p.user_id p.kind p.source_id) inbox.rows
    then (err AppError.unique_violation, inbox)
    else (ok row.id, push_if ch row.id p p.push (publish_live ch (live_of row) (add_row row inbox)))

-- `none` is returned for a notification that was already there.
unfoldable pub notify_once : Channels → NotificationRowParams → Inbox → Result (Option ℕ) × Inbox
unfolding create_and_publish_notification
notify_once ch p inbox =
    let (r, after) = create_and_publish_notification ch p inbox in
    (
      elim r [ ok id ↦ ok (some id) | err e ↦ (if is_unique_violation e then ok none else err e) ],
      after,
    )

-- `AdminNotification`, less the database and the audience.
pub record AdminNotification : Type 0 where
  pub kind : NotificationType
  pub source_id : ℕ
  pub community_id : Option ℕ
  pub title : Text
  pub message : Text
  pub routing : RoutingData

abbrev pub admin_row : ℕ → ℕ → AdminNotification → Notification
admin_row id user_id n = record {
  id = id;
  user_id = user_id;
  community_id = n.community_id;
  kind = n.kind;
  source_id = n.source_id;
  title = n.title;
  message = n.message;
  routing = some n.routing;
  push_pending = false;
}

-- `createManyAndReturn` with `skipDuplicates`: the ids of the users whose row is new.
create_many : AdminNotification → List ℕ → Inbox → List ℕ × Inbox
unfolding add_row
create_many n [] inbox = ([], inbox)
create_many n (user_id ∷ rest) inbox =
    let dup = any_where (has_key user_id n.kind n.source_id) inbox.rows in
    let (told, after) =
      create_many n rest
        (if dup then inbox else add_row (admin_row inbox.next_id user_id n) inbox) in
    (if dup then told else user_id ∷ told, after)

publish_all : Channels → AdminNotification → List ℕ → Inbox → Inbox
unfolding publish_live
publish_all ch n [] inbox = inbox
publish_all ch n (user_id ∷ rest) inbox =
    publish_all ch n rest (publish_live ch (live_of (admin_row 0 user_id n)) inbox)

-- The admins who were told just now.
unfoldable pub notify_admins : Channels → AdminNotification → List ℕ → Inbox → List ℕ × Inbox
unfolding create_many publish_all
notify_admins ch n admin_ids inbox =
    let (told, after) = create_many n admin_ids inbox in (told, publish_all ch n told after)

-- `ThreadNotification`; `is_ticket` is the kind, 'ticket' or 'service'.
pub record ThreadNotification : Type 0 where
  pub user_id : ℕ
  pub is_ticket : Bool
  pub thread_id : ℕ
  pub event_id : ℕ
  pub community_id : Option ℕ
  pub title : Text
  pub message : Text
  pub event : Text

abbrev pub thread_params : ThreadNotification → NotificationRowParams
thread_params n =
    let kind = if n.is_ticket then RoutingModule.ticket else RoutingModule.service in
    let routing : RoutingData = record {
      module_name = kind;
      id = n.thread_id;
      community_id = n.community_id;
      event = some n.event;
    } in
    record {
      community_id = n.community_id;
      user_id = n.user_id;
      kind =
          if n.is_ticket then NotificationType.ticket_update else NotificationType.service_update;
      source_id = n.event_id;
      title = n.title;
      message = n.message;
      routing = some routing;
      push = some (routing, some (kind, n.thread_id));
    }

-- The same row, live event and push as above; a row that is already there ends it in silence.
unfoldable pub notify_member_thread : Channels → ThreadNotification → Inbox → Inbox
unfolding create_and_publish_notification
notify_member_thread ch n inbox = (create_and_publish_notification ch (thread_params n) inbox).1

-- ===== src/Notify.antt =====
-- The notification inbox and its two channels: apps/backend/src/lib/notify-once.ts, admin-notify.ts,
-- member-notify.ts, notification-routing.ts and the queueing half of push.ts. A live event that
-- Redis refuses is only logged by the code, and a push that the queue refuses leaves its row
-- pending: `Channels` says which of the two answer.
pub mod Senders
pub mod Preview
mod Examples
use finskool_monorepo.Base.{
  ℕ, suc, ◌+◌, ◌-◌, Bool, true, false, not, ◌&&◌, ◌||◌, Option, none, some, List, [], ◌∷◌, ◌++◌,
  map, length, take, is_none, is_unique_violation, ltb, leb, ◌==◌, includes, if◌then◌else◌,
  any_where, update_where, Text, text, Result, ok, err, AppError,
}

-- `NotificationType` of modules/notifications/notifications.dto.ts.
pub data NotificationType : Type 0 where
  post thread recommendation subscription_extended community_added : NotificationType
  new_member_registered import_complete new_member_reply reaction : NotificationType
  subscription_expiring_7_days subscription_expiring_1_day subscription_expired : NotificationType
  admin_unreplied_digest admin_expiry_report ticket_update service_update : NotificationType
  admin_new_ticket admin_ticket_reply admin_new_service_request admin_service_message :
      NotificationType
  admin_service_paid admin_payment_flagged admin_subscription_paid : NotificationType

-- The place of a type in the list above; two types are equal exactly when their places are.
abbrev pub type_tag : NotificationType → ℕ
type_tag NotificationType.post = 0
type_tag NotificationType.thread = 1
type_tag NotificationType.recommendation = 2
type_tag NotificationType.subscription_extended = 3
type_tag NotificationType.community_added = 4
type_tag NotificationType.new_member_registered = 5
type_tag NotificationType.import_complete = 6
type_tag NotificationType.new_member_reply = 7
type_tag NotificationType.reaction = 8
type_tag NotificationType.subscription_expiring_7_days = 9
type_tag NotificationType.subscription_expiring_1_day = 10
type_tag NotificationType.subscription_expired = 11
type_tag NotificationType.admin_unreplied_digest = 12
type_tag NotificationType.admin_expiry_report = 13
type_tag NotificationType.ticket_update = 14
type_tag NotificationType.service_update = 15
type_tag NotificationType.admin_new_ticket = 16
type_tag NotificationType.admin_ticket_reply = 17
type_tag NotificationType.admin_new_service_request = 18
type_tag NotificationType.admin_service_message = 19
type_tag NotificationType.admin_service_paid = 20
type_tag NotificationType.admin_payment_flagged = 21
type_tag NotificationType.admin_subscription_paid = 22

-- `RoutingModule` of lib/notification-routing.ts.
pub data RoutingModule : Type 0 where
  feed post recommendation subscription ticket service member members threads subscriptions
        payment_flags :
      RoutingModule

-- The keys of the routing payload; `none` where the key is left out.
pub record RoutingData : Type 0 where
  pub module_name : RoutingModule
  pub id : ℕ
  pub community_id : Option ℕ
  pub event : Option Text

unfoldable pub routing_data : RoutingModule → ℕ → Option ℕ → Option Text → Bool → RoutingData
routing_data module_name id community_id event free =
    if free
    then record { module_name = RoutingModule.feed; id = id; community_id = none; event = event }
    else record { module_name = module_name; id = id; community_id = community_id; event = event }

unfoldable pub subscription_routing : ℕ → Text → RoutingData
unfolding routing_data
subscription_routing community_id event =
    routing_data RoutingModule.subscription community_id (some community_id) (some event) false

pub record Notification : Type 0 where
  pub id : ℕ
  pub user_id : ℕ
  pub community_id : Option ℕ
  pub kind : NotificationType
  pub source_id : ℕ
  pub title : Text
  pub message : Text
  pub routing : Option RoutingData
  pub push_pending : Bool

-- What is published on the notifications channel.
pub record LiveEvent : Type 0 where
  pub user_id : ℕ
  pub kind : NotificationType
  pub community_id : Option ℕ
  pub message : Text
  pub source_id : ℕ

-- `PushRequest` of lib/push.ts; the thread is a kind of chat and its id.
pub record PushRequest : Type 0 where
  pub user_ids : List ℕ
  pub title : Text
  pub body : Text
  pub routing : RoutingData
  pub thread_id : Option (RoutingModule × ℕ)

pub record Channels : Type 0 where
  pub live_up : Bool
  pub queue_up : Bool

pub record Inbox : Type 0 where
  pub rows : List Notification
  pub next_id : ℕ
  pub published : List LiveEvent
  pub queued : List PushRequest

-- `uq_notifications_user_type_source`
abbrev pub has_key : ℕ → NotificationType → ℕ → Notification → Bool
has_key user_id kind source_id n =
    n.user_id == user_id && type_tag n.kind == type_tag kind && n.source_id == source_id

unfoldable pub publish_live : Channels → LiveEvent → Inbox → Inbox
publish_live ch e inbox =
    if ch.live_up then record inbox { published = inbox.published ++ e ∷ [] } else inbox

unfoldable pub enqueue_push : Channels → PushRequest → Inbox → Bool × Inbox
enqueue_push ch req inbox =
    if length req.user_ids == 0
    then (true, inbox)
    else if ch.queue_up
    then (true, record inbox { queued = inbox.queued ++ req ∷ [] })
    else (false, inbox)

-- `where` picks the rows whose flag is cleared once the push is queued.
unfoldable pub queue_push_for :
    Channels → (Notification → Bool) → PushRequest → Inbox → Bool × Inbox
unfolding enqueue_push
queue_push_for ch w req inbox =
    let (queued, after) = enqueue_push ch req inbox in
    if queued
    then (
      true,
      record after { rows = update_where w (λ n. record n { push_pending = false }) after.rows },
    )
    else (false, after)

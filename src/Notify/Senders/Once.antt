-- ===== src/Notify/Senders/Once.antt =====
-- A second report of one event (`notifyOnce` of apps/backend/src/lib/notify-once.ts).
use finskool_monorepo.Base.{
  ℕ, ==_refl, any_where-append, any_where-update_where, ◌∙◌, ◌≡◌, refl, Bool, true, false, Option,
  none, some, [], ◌∷◌, ◌==◌, any_where, arith, ok, Bool-cases, inl, inr,
}
use finskool_monorepo.Notify.{
  RoutingModule, RoutingData, LiveEvent, Channels, Inbox, type_tag, has_key, publish_live,
  queue_push_for, enqueue_push,
}
use finskool_monorepo.Notify.Senders.{
  NotificationRowParams, row_of, live_of, add_row, push_if, create_and_publish_notification,
  notify_once,
}

-- The event of `p` has its row.
abbrev pub is_saved : NotificationRowParams → Inbox → Bool
is_saved p inbox = any_where (has_key p.user_id p.kind p.source_id) inbox.rows

module _ (ch : Channels) (p : NotificationRowParams) where
  -- Announcing a row moves no key.
  is_saved-push_if :
      (id : ℕ) (q : NotificationRowParams) (o : Option (RoutingData × Option (RoutingModule × ℕ)))
      (inbox : Inbox)
      → is_saved p (push_if ch id q o inbox) ≡ is_saved p inbox
  unfolding push_if queue_push_for enqueue_push
  is_saved-push_if id q none inbox = refl
  is_saved-push_if id q (some (routing, thread)) inbox = ground (
    arith,
    any_where-update_where (has_key p.user_id p.kind p.source_id) (λ n. n.id == id)
        (λ n. record n { push_pending = false }) inbox.rows (λ n. refl),
  )

  row_of-key : (id : ℕ) → has_key p.user_id p.kind p.source_id (row_of id p) ≡ true
  row_of-key id = rw (==_refl p.user_id, ==_refl (type_tag p.kind), ==_refl p.source_id)

  is_saved-add_row : (id : ℕ) (inbox : Inbox) → is_saved p (add_row (row_of id p) inbox) ≡ true
  unfolding add_row any_where
  is_saved-add_row id inbox =
      any_where-append (has_key p.user_id p.kind p.source_id) inbox.rows (row_of id p ∷ [])
      ∙ ground (arith, row_of-key id)

  is_saved-publish_live :
      (e : LiveEvent) (inbox : Inbox) → is_saved p (publish_live ch e inbox) ≡ is_saved p inbox
  unfolding publish_live
  is_saved-publish_live e inbox = ground arith

  create_and_publish_notification-saves :
      (inbox : Inbox) → is_saved p (create_and_publish_notification ch p inbox).1 ≡ true
  unfolding create_and_publish_notification
  create_and_publish_notification-saves inbox = elim (Bool-cases (is_saved p inbox)) [
    | inl old ↦ rw old old
    | inr new ↦ rw new (
        is_saved-push_if inbox.next_id p p.push _
        ∙ is_saved-publish_live (live_of (row_of inbox.next_id p)) _
        ∙ is_saved-add_row inbox.next_id inbox)
  ]

notify_once-inbox :
    (ch : Channels) (p : NotificationRowParams) (inbox : Inbox)
    → (notify_once ch p inbox).1 ≡ (create_and_publish_notification ch p inbox).1
unfolding notify_once
notify_once-inbox ch p inbox = refl

pub notify_once-saves :
    (ch : Channels) (p : NotificationRowParams) (inbox : Inbox)
    → is_saved p (notify_once ch p inbox).1 ≡ true
unfolding notify_once
notify_once-saves ch p inbox = create_and_publish_notification-saves ch p inbox

-- A row that is there stays there.
pub notify_once_keeps :
    (ch : Channels) (p q : NotificationRowParams) (inbox : Inbox)
    → is_saved p inbox ≡ true
    → is_saved p (notify_once ch q inbox).1 ≡ true
unfolding notify_once create_and_publish_notification add_row
notify_once_keeps ch p q inbox h = elim (Bool-cases (is_saved q inbox)) [
  | inl old ↦ rw old h
  | inr new ↦ rw new (
      is_saved-push_if ch p inbox.next_id q q.push _
      ∙ is_saved-publish_live ch p (live_of (row_of inbox.next_id q)) _
      ∙ any_where-append (has_key p.user_id p.kind p.source_id) inbox.rows
          (row_of inbox.next_id q ∷ [])
      ∙ rw h refl)
]

pub notify_once_repeated :
    (ch : Channels) (p : NotificationRowParams) (inbox : Inbox)
    → is_saved p inbox ≡ true
    → notify_once ch p inbox ≡ (ok none, inbox)
unfolding notify_once create_and_publish_notification
notify_once_repeated ch p inbox h = rw h

-- However often an event is reported, and whatever the later reports say, only the first one
-- counts: a later report returns none and changes nothing, live events and pushes included.
pub notify_once-notify_once :
    (ch ch' : Channels) (p q : NotificationRowParams) (inbox : Inbox)
    → q.user_id ≡ p.user_id
    → q.kind ≡ p.kind
    → q.source_id ≡ p.source_id
    → let after = (notify_once ch p inbox).1 in notify_once ch' q after ≡ (ok none, after)
unfolding notify_once
notify_once-notify_once ch ch' p q inbox eu ek es =
    notify_once_repeated ch' q (notify_once ch p inbox).1
      (rw (eu, ek, es) (create_and_publish_notification-saves ch p inbox))

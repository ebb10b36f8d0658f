-- ===== src/Tickets/Reply.antt =====
-- Replying to and resolving a ticket: `reply` and `resolve` of
-- apps/backend/src/modules/tickets/admin-tickets.service.ts.
use finskool_monorepo.Base.{
  ℕ, ◌+◌, Bool, true, false, not, ◌&&◌, ◌||◌, none, some, List, ◌==◌, is_none, is_id,
  is_unique_violation, if◌then◌else◌, find_first, length, text, non_empty, Result, ok, err,
  ErrorCode, AppError,
}
use finskool_monorepo.Notify.Preview.{message_preview}
use finskool_monorepo.Notify.Senders.{ThreadNotification, notify_member_thread}
use finskool_monorepo.Tickets.{
  resolved, admin, Ticket, TicketMessage, TicketEventType, LiveTicketEvent, Env, Action, pure,
  throw, gets, modify, ◌>>=◌, ◌>>◌, throw_if, or_throw, transaction, attempt, update_tickets,
  add_event, is_resolved, create_message, find_ticket, find_message, ticket_resolved, not_found,
  Attachment,
}
use finskool_monorepo.Tickets.Attachments.{resolve_attachments}
use finskool_monorepo.Tickets.Wire.{tickets_prefix, await_others, publish_both}
use finskool_monorepo.Tickets.Member.{SendMessage}
use finskool_monorepo.Tickets.Support.{
  AdminActor, get_visible, assigned_to_other, can_act, claim_in_tx, publish_updated,
}

abbrev pub support_message : Env → ℕ → ℕ → ℕ → SendMessage → List Attachment → TicketMessage
support_message env id admin_id ticket_id dto attachments = record {
  id = id;
  ticket_id = ticket_id;
  sender_id = admin_id;
  sender_role = admin;
  body = non_empty dto.body;
  client_message_id = dto.client_message_id;
  attachments = attachments;
  created_at = env.now;
}

-- `{ id, status: { not: 'resolved' }, assignedAdminId }`, the last not for a super admin.
abbrev pub may_write : AdminActor → ℕ → Ticket → Bool
may_write a ticket_id t =
    t.id == ticket_id
    && not (is_resolved t.status)
    && (a.is_super_admin || is_id t.assigned_admin_id a.id)

-- What a write that matched no row is answered with.
unfoldable pub refuse : {A : Type 0} → ℕ → Action A
refuse ticket_id = do
  current ← or_throw (← gets (find_ticket ticket_id)) not_found
  throw (if is_resolved current.status then ticket_resolved else assigned_to_other)

-- The first reply on an unassigned ticket claims it.
unfoldable pub claim_if_free : Ticket → ℕ → Action Bool
claim_if_free ticket admin_id =
    if is_none ticket.assigned_admin_id then claim_in_tx ticket.id admin_id else pure false

-- The bump and the message; status and ownership are tested again under the row lock.
unfoldable pub post_support_message :
    Env → AdminActor → ℕ → SendMessage → List Attachment → Action ℕ
unfolding refuse
post_support_message env a ticket_id dto attachments = do
  bumped ←
      update_tickets (may_write a ticket_id)
        (λ t. record t { last_message_at = env.now; user_unread_count = t.user_unread_count + 1 })
  if bumped == 0 then refuse ticket_id else (do
    id ← gets (λ s. s.next_id)
    create_message (support_message env id a.id ticket_id dto attachments))

unfoldable pub reply_in_tx : Env → AdminActor → Ticket → SendMessage → List Attachment → Action ℕ
unfolding claim_if_free post_support_message claim_in_tx
reply_in_tx env a ticket dto attachments = do
  _ ← claim_if_free ticket a.id
  post_support_message env a ticket.id dto attachments

unfoldable pub tell_member : Env → ThreadNotification → Action (Unit {0})
tell_member env n = modify λ s. record s { inbox = notify_member_thread env.channels n s.inbox }

unfoldable pub announce_reply : Env → TicketMessage → Ticket → Action TicketMessage
unfolding publish_both tell_member
announce_reply env m t = do
  publish_both (LiveTicketEvent.ticket_message m.id) t
  tell_member env (record {
    user_id = t.user_id;
    is_ticket = true;
    thread_id = t.id;
    event_id = m.id;
    community_id = some t.community_id;
    title = text "Support replied to your ticket";
    message = message_preview m.body (length m.attachments);
    event = text "reply";
  })
  pure m

unfoldable pub reply_committed :
    Env → AdminActor → ℕ → SendMessage → Result ℕ → Action TicketMessage
unfolding announce_reply get_visible
reply_committed env a ticket_id dto (ok id) = do
  m ← or_throw (← gets (λ s. find_first (λ m. m.id == id) s.messages)) not_found
  fresh ← get_visible a ticket_id
  announce_reply env m fresh
reply_committed env a ticket_id dto (err e) = do
  winner ← gets (find_message ticket_id dto.client_message_id)
  if is_unique_violation e then or_throw winner e else throw e

unfoldable pub reply_new : Env → AdminActor → Ticket → SendMessage → Action TicketMessage
unfolding reply_in_tx reply_committed
reply_new env a ticket dto = do
  throw_if (is_resolved ticket.status) ticket_resolved
  throw_if (not (can_act a ticket)) assigned_to_other
  attachments ← resolve_attachments env tickets_prefix a.id dto.attachments
  await_others env
  r ← attempt (transaction (reply_in_tx env a ticket dto attachments))
  await_others env
  reply_committed env a ticket.id dto r

-- A retry of a stored message gets that message, also once the ticket is resolved or reassigned.
unfoldable pub reply : Env → AdminActor → ℕ → SendMessage → Action TicketMessage
unfolding get_visible reply_new
reply env a ticket_id dto = do
  ticket ← get_visible a ticket_id
  replay ← gets (find_message ticket_id dto.client_message_id)
  elim replay [ some m ↦ pure m | none ↦ reply_new env a ticket dto ]

abbrev pub close_at : ℕ → Ticket → Ticket
close_at now t = record t { status = resolved; resolved_at = some now; admin_unread_count = 0 }

unfoldable pub mark_resolved : Env → AdminActor → ℕ → Action Bool
mark_resolved env a ticket_id = do
  updated ← update_tickets (may_write a ticket_id) (close_at env.now)
  if updated == 0 then pure false else (do
    add_event
        (record { ticket_id = ticket_id; kind = TicketEventType.resolved_event; actor_id = a.id })
    pure true)

unfoldable pub resolve_in_tx : Env → AdminActor → Ticket → Action Bool
unfolding claim_if_free mark_resolved claim_in_tx
resolve_in_tx env a ticket = do _ ← claim_if_free ticket a.id; mark_resolved env a ticket.id

unfoldable pub resolve_done : Env → AdminActor → ℕ → Action Ticket
unfolding get_visible publish_updated tell_member
resolve_done env a ticket_id = do
  fresh ← get_visible a ticket_id
  publish_updated fresh
  tell_member env (record {
    user_id = fresh.user_id;
    is_ticket = true;
    thread_id = ticket_id;
    event_id = ticket_id;
    community_id = some fresh.community_id;
    title = text "Your ticket was resolved";
    message = text "Tap to see the outcome and rate the support you got.";
    event = text "resolved";
  })
  pure fresh

unfoldable pub resolve_lost : AdminActor → ℕ → Action Ticket
unfolding get_visible
resolve_lost a ticket_id = do
  current ← get_visible a ticket_id
  throw (if is_resolved current.status then ticket_resolved else assigned_to_other)

unfoldable pub resolve_open : Env → AdminActor → Ticket → Action Ticket
unfolding resolve_in_tx resolve_done resolve_lost
resolve_open env a ticket = do
  await_others env
  closed ← transaction (resolve_in_tx env a ticket)
  await_others env
  if closed then resolve_done env a ticket.id else resolve_lost a ticket.id

-- The assignee or a super admin ends the ticket; the chat is read-only from then on.
unfoldable pub resolve : Env → AdminActor → ℕ → Action Ticket
unfolding get_visible resolve_open
resolve env a ticket_id = do
  ticket ← get_visible a ticket_id
  throw_if (is_resolved ticket.status) ticket_resolved
  throw_if (is_none ticket.assigned_admin_id && not a.is_super_admin)
      (AppError.conflict ErrorCode.ticket_not_claimed)
  throw_if (not (can_act a ticket)) assigned_to_other
  resolve_open env a ticket

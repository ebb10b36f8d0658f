-- ===== src/Tickets/Member.antt =====
-- The ticket owner's side: `TicketsService` of apps/backend/src/modules/tickets/tickets.service.ts,
-- the operations that change a ticket. A ticket that is not the caller's is not found.
use finskool_monorepo.Base.{
  ℕ, ◌+◌, false, not, ◌&&◌, Option, none, some, List, [], ◌∷◌, ◌++◌, ◌==◌, is_none,
  is_unique_violation, if◌then◌else◌, find_first, length, starts_with, drop, Text, text, non_empty,
  Result, ok, err, ErrorCode, AppError,
}
use finskool_monorepo.Access.{find_user, get_community_admin_ids}
use finskool_monorepo.Notify.{NotificationType, RoutingModule, routing_data}
use finskool_monorepo.Notify.Preview.{message_preview}
use finskool_monorepo.Tickets.{
  user, Ticket, TicketMessage, LiveTicketEvent, Env, Action, pure, throw, gets, ◌>>=◌, ◌>>◌,
  throw_if, or_throw, transaction, attempt, update_tickets, publish, is_resolved, create_message,
  find_ticket, find_message, ticket_resolved, not_found, Attachment,
}
use finskool_monorepo.Tickets.Attachments.{AttachmentRef, resolve_attachments}
use finskool_monorepo.Tickets.Wire.{
  tickets_prefix, await_others, get_owned, name_of, event_at, publish_both, tell_admins,
}

pub record SendMessage : Type 0 where
  pub client_message_id : ℕ
  pub body : Option Text
  pub attachments : List AttachmentRef

-- `/^Sent you/` becomes `Sent`.
abbrev pub third_person : Text → Text
third_person t = if starts_with t (text "Sent you") then text "Sent" ++ drop 8 t else t

abbrev pub member_message : Env → ℕ → ℕ → ℕ → SendMessage → List Attachment → TicketMessage
member_message env id user_id ticket_id dto attachments = record {
  id = id;
  ticket_id = ticket_id;
  sender_id = user_id;
  sender_role = user;
  body = non_empty dto.body;
  client_message_id = dto.client_message_id;
  attachments = attachments;
  created_at = env.now;
}

-- Once an admin has taken the ticket, only the live events tell the admins.
unfoldable pub ping_admins : Env → SendMessage → ℕ → TicketMessage → Ticket → Action (Unit {0})
unfolding tell_admins
ping_admins env dto attachments m t = do
  u ← gets (λ s. find_user s.directory t.user_id)
  tell_admins env
      (record {
        kind = NotificationType.admin_ticket_reply;
        source_id = m.id;
        community_id = some t.community_id;
        title = text "New message on " ++ t.subject;
        message = name_of u ++ text ": " ++ third_person (message_preview dto.body attachments);
        routing =
            routing_data RoutingModule.ticket t.id (some t.community_id) (some (text "reply"))
              false;
      })
      t.community_id

unfoldable pub announce_message :
    Env → SendMessage → ℕ → TicketMessage → Ticket → Action TicketMessage
unfolding publish_both ping_admins
announce_message env dto attachments m t = do
  publish_both (LiveTicketEvent.ticket_message m.id) t
  if is_none t.assigned_admin_id then ping_admins env dto attachments m t else pure tt
  pure m

unfoldable pub message_committed :
    Env → ℕ → SendMessage → List Attachment → Result ℕ → Action TicketMessage
unfolding announce_message
message_committed env ticket_id dto attachments (ok id) = do
  m ← or_throw (← gets (λ s. find_first (λ m. m.id == id) s.messages)) not_found
  t ← or_throw (← gets (find_ticket ticket_id)) not_found
  announce_message env dto (length attachments) m t
-- The same message sent twice at once: the loser gets the stored one.
message_committed env ticket_id dto attachments (err e) = do
  winner ← gets (find_message ticket_id dto.client_message_id)
  if is_unique_violation e then or_throw winner e else throw e

-- The transaction of `sendMessage`: the bump matches only a ticket that is still not resolved.
unfoldable pub post_member_message : Env → ℕ → ℕ → SendMessage → List Attachment → Action ℕ
post_member_message env user_id ticket_id dto attachments = do
  bumped ←
      update_tickets (λ t. t.id == ticket_id && t.user_id == user_id && not (is_resolved t.status))
        (λ t. record t { last_message_at = env.now; admin_unread_count = t.admin_unread_count + 1 })
  throw_if (bumped == 0) ticket_resolved
  id ← gets (λ s. s.next_id)
  create_message (member_message env id user_id ticket_id dto attachments)

unfoldable pub send_new : Env → ℕ → Ticket → SendMessage → Action TicketMessage
unfolding post_member_message message_committed
send_new env user_id ticket dto = do
  throw_if (is_resolved ticket.status) ticket_resolved
  attachments ← resolve_attachments env tickets_prefix user_id dto.attachments
  await_others env
  r ← attempt (transaction (post_member_message env user_id ticket.id dto attachments))
  await_others env
  message_committed env ticket.id dto attachments r

-- A retry of a stored message gets that message, also once the ticket is resolved.
unfoldable pub send_message : Env → ℕ → ℕ → SendMessage → Action TicketMessage
unfolding get_owned send_new
send_message env user_id ticket_id dto = do
  ticket ← get_owned user_id ticket_id
  replay ← gets (find_message ticket_id dto.client_message_id)
  elim replay [ some m ↦ pure m | none ↦ send_new env user_id ticket dto ]

-- Zeroes the member's unread badge, and tells the member's other devices.
unfoldable pub mark_read : Env → ℕ → ℕ → Action ℕ
unfolding get_owned
mark_read env user_id ticket_id = do
  ticket ← get_owned user_id ticket_id
  if ticket.user_unread_count == 0 then pure 0 else (do
    await_others env
    _ ← update_tickets (λ t. t.id == ticket_id) (λ t. record t { user_unread_count = 0 })
    publish (event_at (user_id ∷ []) LiveTicketEvent.ticket_read ticket 0)
    pure 0)

pub record Rating : Type 0 where
  pub rating : ℕ
  pub comment : Option Text

unfoldable pub rated : Env → Rating → Ticket → Ticket
rated env dto t = record t {
  rating = some dto.rating;
  rating_comment = non_empty dto.comment;
  rated_at = some env.now;
}

-- The update is the lock: it matches only a resolved ticket of this member with no rating.
unfoldable pub rate : Env → ℕ → ℕ → Rating → Action Ticket
unfolding get_owned rated
rate env user_id ticket_id dto = do
  count ←
      update_tickets
        (λ t. t.id == ticket_id && t.user_id == user_id && is_resolved t.status && is_none t.rating)
        (rated env dto)
  ticket ← get_owned user_id ticket_id
  throw_if (count == 0 && not (is_resolved ticket.status))
      (AppError.conflict ErrorCode.ticket_not_resolved)
  throw_if (count == 0) (AppError.conflict ErrorCode.already_rated)
  admin_ids ← gets (λ s. get_community_admin_ids s.directory ticket.community_id)
  publish (event_at admin_ids LiveTicketEvent.ticket_updated ticket ticket.admin_unread_count)
  pure ticket

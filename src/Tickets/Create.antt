-- ===== src/Tickets/Create.antt =====
-- Raising a ticket: `create` of apps/backend/src/modules/tickets/tickets.service.ts. The ticket row is
-- returned where the service maps it to a DTO.
use finskool_monorepo.Base.{
  ℕ, suc, Bool, true, false, not, ◌&&◌, ◌||◌, Option, none, some, List, [], ◌∷◌, ◌++◌, ◌==◌,
  is_none, is_unique_violation, if◌then◌else◌, find_first, any_where, Text, text, Result, ok, err,
  ErrorCode, AppError,
}
use finskool_monorepo.Access.{User, UserStatus, active, Directory, find_user}
use finskool_monorepo.Notify.{NotificationType, RoutingModule, routing_data}
use finskool_monorepo.Tickets.{
  TicketCategory, TicketType, opened, Ticket, created, LiveTicketEvent, Store, Env, Action, pure,
  throw, gets, ◌>>=◌, ◌>>◌, throw_if, or_throw, transaction, attempt, add_event, find_ticket,
  not_found, Attachment,
}
use finskool_monorepo.Tickets.Attachments.{AttachmentRef, resolve_attachments}
use finskool_monorepo.Tickets.Wire.{
  tickets_prefix, await_others, name_of, find_community, community_name_of, publish_both,
  tell_admins,
}

pub record CreateTicket : Type 0 where
  pub community_id : ℕ
  pub category : TicketCategory
  pub kind : TicketType
  pub subject : Text
  pub description : Text
  pub attachments : List AttachmentRef

-- `uq_tickets_user_request`
abbrev pub is_request : ℕ → ℕ → Ticket → Bool
is_request user_id client_request_id t =
    t.user_id == user_id && t.client_request_id == client_request_id

abbrev pub find_by_request_id : ℕ → ℕ → Store → Option Ticket
find_by_request_id user_id client_request_id s =
    find_first (is_request user_id client_request_id) s.tickets

abbrev pub is_active : UserStatus → Bool
is_active active = true
is_active _ = false

-- `!user || user.deletedAt || user.status !== 'active'`
unfoldable pub cannot_raise : Option User → Bool
cannot_raise none = true
cannot_raise (some u) = not (is_none u.deleted_at) || not (is_active u.status)

-- The member holds, or has held, a subscription to this community, which is not deleted.
unfoldable pub is_eligible : Directory → ℕ → ℕ → Bool
is_eligible d user_id community_id =
    any_where (λ c. c.id == community_id && is_none c.deleted_at) d.communities
    && any_where (λ s. s.user_id == user_id && s.community_id == community_id) d.subscriptions

abbrev pub new_ticket : Env → ℕ → ℕ → ℕ → CreateTicket → List Attachment → Ticket
new_ticket env id user_id client_request_id dto attachments = record {
  id = id;
  user_id = user_id;
  community_id = dto.community_id;
  category = dto.category;
  kind = dto.kind;
  subject = dto.subject;
  description = dto.description;
  status = opened;
  assigned_admin_id = none;
  client_request_id = client_request_id;
  user_unread_count = 0;
  admin_unread_count = 1;
  last_message_at = env.now;
  rating = none;
  rating_comment = none;
  rated_at = none;
  resolved_at = none;
  attachments = attachments;
}

-- `ticket.create`, with the unique key's check.
unfoldable pub create_ticket : Ticket → Action ℕ
create_ticket t s =
    if any_where (is_request t.user_id t.client_request_id) s.tickets
    then (err AppError.unique_violation, s)
    else (ok t.id, record s { tickets = s.tickets ++ t ∷ []; next_id = suc s.next_id })

unfoldable pub announce_created : Env → Ticket → Action Ticket
unfolding publish_both tell_admins find_community
announce_created env t = do
  publish_both LiveTicketEvent.ticket_created t
  u ← gets (λ s. find_user s.directory t.user_id)
  c ← gets (λ s. find_community s.directory t.community_id)
  tell_admins env
      (record {
        kind = NotificationType.admin_new_ticket;
        source_id = t.id;
        community_id = some t.community_id;
        title = text "New support ticket";
        message =
            name_of u
            ++ text " opened \""
            ++ t.subject
            ++ text "\" in "
            ++ community_name_of c
            ++ text ".";
        routing =
            routing_data RoutingModule.ticket t.id (some t.community_id) (some (text "new")) false;
      })
      t.community_id
  pure t

unfoldable pub create_committed : Env → ℕ → ℕ → Result ℕ → Action Ticket
unfolding announce_created
create_committed env user_id client_request_id (ok id) = do
  t ← or_throw (← gets (find_ticket id)) not_found
  announce_created env t
-- Two identical submits at once: the loser hands back the winner's ticket.
create_committed env user_id client_request_id (err e) = do
  winner ← gets (find_by_request_id user_id client_request_id)
  if is_unique_violation e then or_throw winner e else throw e

unfoldable pub create_new : Env → ℕ → ℕ → CreateTicket → Action Ticket
unfolding create_ticket create_committed cannot_raise is_eligible
create_new env user_id client_request_id dto = do
  u ← gets (λ s. find_user s.directory user_id)
  throw_if (cannot_raise u) (AppError.forbidden ErrorCode.account_inactive)
  eligible ← gets (λ s. is_eligible s.directory user_id dto.community_id)
  throw_if (not eligible) (AppError.bad_request ErrorCode.community_not_allowed)
  attachments ← resolve_attachments env tickets_prefix user_id dto.attachments
  await_others env
  r ← attempt (
      transaction (do
        id ← gets (λ s. s.next_id)
        _ ← create_ticket (new_ticket env id user_id client_request_id dto attachments)
        add_event (record { ticket_id = id; kind = created; actor_id = user_id })
        pure id))
  create_committed env user_id client_request_id r

-- A retry or a double tap is answered with the ticket of the first request.
unfoldable pub create : Env → ℕ → ℕ → CreateTicket → Action Ticket
unfolding create_new
create env user_id client_request_id dto = do
  existing ← gets (find_by_request_id user_id client_request_id)
  elim existing [ some t ↦ pure t | none ↦ create_new env user_id client_request_id dto ]

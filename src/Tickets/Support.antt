-- ===== src/Tickets/Support.antt =====
-- The support team's side: `AdminTicketsService` of
-- apps/backend/src/modules/tickets/admin-tickets.service.ts, the operations that change a ticket. One
-- admin owns a ticket: other admins may look, and a super admin may always act.
use finskool_monorepo.Base.{
  ℕ, Bool, true, false, not, ◌&&◌, ◌||◌, Option, none, some, List, [], ◌∷◌, ◌==◌, is_none, is_id,
  includes, if◌then◌else◌, ErrorCode, AppError,
}
use finskool_monorepo.Access.{get_community_admin_ids, has_community_access}
use finskool_monorepo.Tickets.{
  in_progress, Ticket, TicketEventType, LiveTicketEvent, Env, Action, pure, gets, ◌>>=◌, ◌>>◌,
  throw_if, or_throw, transaction, update_tickets, add_event, publish, is_resolved, find_ticket,
  ticket_resolved, not_found,
}
use finskool_monorepo.Tickets.Wire.{await_others, event_at, publish_both}

-- `AdminActor`: `none` is unrestricted.
pub record AdminActor : Type 0 where
  pub id : ℕ
  pub is_super_admin : Bool
  pub accessible_community_ids : Option (List ℕ)

abbrev pub not_visible : AdminActor → Option Ticket → Bool
not_visible a none = true
not_visible a (some t) = not (has_community_access a.accessible_community_ids t.community_id)

unfoldable pub get_visible : AdminActor → ℕ → Action Ticket
get_visible a ticket_id = do
  found ← gets (find_ticket ticket_id)
  throw_if (not_visible a found) not_found
  or_throw found not_found

abbrev pub assigned_to_other : AppError
assigned_to_other = AppError.forbidden ErrorCode.ticket_assigned_to_other

-- `assertCanAct`: a super admin, the assignee, or anyone while there is none.
abbrev pub can_act : AdminActor → Ticket → Bool
can_act a t = a.is_super_admin || is_none t.assigned_admin_id || is_id t.assigned_admin_id a.id

-- `canReply` and `canResolve` of `mapAdminTicket`: the buttons that the dashboard shows.
unfoldable pub can_reply : AdminActor → Ticket → Bool
can_reply a t =
    not (is_resolved t.status)
    && (a.is_super_admin || is_id t.assigned_admin_id a.id || is_none t.assigned_admin_id)

unfoldable pub can_resolve : AdminActor → Ticket → Bool
can_resolve a t = not (is_resolved t.status) && (a.is_super_admin || is_id t.assigned_admin_id a.id)

abbrev pub take_by : ℕ → Ticket → Ticket
take_by admin_id t = record t { assigned_admin_id = some admin_id; status = in_progress }

-- Assigns the ticket if it is still unassigned and not resolved, and says whether it did.
unfoldable pub claim_in_tx : ℕ → ℕ → Action Bool
claim_in_tx ticket_id admin_id = do
  claimed ←
      update_tickets
        (λ t. t.id == ticket_id && is_none t.assigned_admin_id && not (is_resolved t.status))
        (take_by admin_id)
  if claimed == 0 then pure false else (do
    add_event (record {
      ticket_id = ticket_id;
      kind = TicketEventType.assigned admin_id none;
      actor_id = admin_id;
    })
    pure true)

unfoldable pub publish_updated : Ticket → Action (Unit {0})
unfolding publish_both
publish_updated t = publish_both LiveTicketEvent.ticket_updated t

-- The row as it is now, announced.
unfoldable pub show_updated : AdminActor → ℕ → Action Ticket
unfolding get_visible publish_updated
show_updated a ticket_id = do fresh ← get_visible a ticket_id; publish_updated fresh; pure fresh

unfoldable pub claim_lost : AdminActor → ℕ → Action Ticket
unfolding get_visible
claim_lost a ticket_id = do
  current ← get_visible a ticket_id
  throw_if (not (is_id current.assigned_admin_id a.id))
      (AppError.conflict ErrorCode.ticket_already_assigned)
  pure current

-- Between the commit and the row that is read again, others are served once more.
unfoldable pub claim_open : Env → AdminActor → ℕ → Action Ticket
unfolding claim_in_tx show_updated claim_lost
claim_open env a ticket_id = do
  await_others env
  claimed ← transaction (claim_in_tx ticket_id a.id)
  await_others env
  if claimed then show_updated a ticket_id else claim_lost a ticket_id

unfoldable pub claim : Env → AdminActor → ℕ → Action Ticket
unfolding get_visible claim_open
claim env a ticket_id = do
  ticket ← get_visible a ticket_id
  throw_if (is_resolved ticket.status) ticket_resolved
  if is_id ticket.assigned_admin_id a.id then pure ticket else claim_open env a ticket_id

unfoldable pub reassign_in_tx : AdminActor → ℕ → Ticket → Action Bool
reassign_in_tx a to_admin_id ticket = do
  updated ←
      update_tickets (λ t. t.id == ticket.id && not (is_resolved t.status)) (take_by to_admin_id)
  if updated == 0 then pure false else (do
    add_event (record {
      ticket_id = ticket.id;
      kind =
          if is_none ticket.assigned_admin_id
          then TicketEventType.assigned to_admin_id none
          else TicketEventType.reassigned to_admin_id ticket.assigned_admin_id;
      actor_id = a.id;
    })
    pure true)

unfoldable pub reassign_open : Env → AdminActor → ℕ → Ticket → Action Ticket
unfolding reassign_in_tx show_updated
reassign_open env a to_admin_id ticket = do
  eligible ← gets (λ s. get_community_admin_ids s.directory ticket.community_id)
  throw_if (not (includes to_admin_id eligible)) (AppError.bad_request ErrorCode.admin_not_eligible)
  await_others env
  changed ← transaction (reassign_in_tx a to_admin_id ticket)
  await_others env
  throw_if (not changed) ticket_resolved
  show_updated a ticket.id

-- Super admin only: hand the ticket to another admin of its community.
unfoldable pub reassign : Env → AdminActor → ℕ → ℕ → Action Ticket
unfolding get_visible reassign_open
reassign env a ticket_id to_admin_id = do
  throw_if (not a.is_super_admin) (AppError.forbidden ErrorCode.super_admin_required)
  ticket ← get_visible a ticket_id
  throw_if (is_resolved ticket.status) ticket_resolved
  if is_id ticket.assigned_admin_id to_admin_id
      then pure ticket
      else reassign_open env a to_admin_id ticket

-- Zeroes the badge; only the assignee's reading counts. The answer is what is left unread.
unfoldable pub mark_read : Env → AdminActor → ℕ → Action ℕ
unfolding get_visible
mark_read env a ticket_id = do
  ticket ← get_visible a ticket_id
  if not (is_id ticket.assigned_admin_id a.id) || ticket.admin_unread_count == 0
      then pure ticket.admin_unread_count
      else (do
        await_others env
        _ ← update_tickets (λ t. t.id == ticket_id) (λ t. record t { admin_unread_count = 0 })
        publish (event_at (a.id ∷ []) LiveTicketEvent.ticket_read ticket 0)
        pure 0)

-- ===== src/Tickets/Examples/Retry.antt =====
-- The same desk with its ticket open: a message is sent twice, and the ticket is claimed.
use finskool_monorepo.Base.{
  is_id, find_many, count_where, update_where, ok, ◌≡◌, refl, true, none, some, [], ◌∷◌, text,
  any_where, find_first, arith,
}
use finskool_monorepo.Access.{has_community_access}
use finskool_monorepo.Tickets.{
  find_ticket, is_resolved, add_event, update_tickets, create_message, publish, ◌>>=◌, TicketStatus,
  Ticket, TicketMessage, Store,
}
use finskool_monorepo.Tickets.Attachments.{resolve_attachments}
use finskool_monorepo.Tickets.Member.{SendMessage}
use finskool_monorepo.Tickets.Support.{claim}
use finskool_monorepo.Tickets.Reply.{resolve}
use finskool_monorepo.Tickets.Moves.Requests.Ends.{Keeps-resolve}
use finskool_monorepo.Tickets.Member
use finskool_monorepo.Tickets.Moves.{Reach}
use finskool_monorepo.Tickets.Moves.Claimed.{claim-IsMine}
use finskool_monorepo.Tickets.Moves.Again.{send_message-send_message}
use finskool_monorepo.Tickets.Moves.Constraints.{IsStore}
use finskool_monorepo.Tickets.Examples.{
  done_ticket, first_message, desk, quiet_env, quiet-Calm, words, local_admin,
}

abbrev open_ticket : Ticket
open_ticket = record done_ticket { status = TicketStatus.in_progress; resolved_at = none }

abbrev open_desk : Store
open_desk = record desk { tickets = open_ticket ∷ [] }

open_desk-IsStore : IsStore open_desk
unfolding any_where
open_desk-IsStore = record {
  tickets = (
    record {
      assignee = refl;
      resolved_once = refl;
      rated_when = refl;
      rated_after = refl;
      stars = refl;
      nothing_left = refl;
    },
    tt,
  );
  ids_below = (omega arith, tt);
  message_ids_below = (omega arith, tt);
  one_row = (refl, tt);
  one_request = (refl, tt);
  one_message = (refl, tt);
  parents = (refl, tt);
}

abbrev second_message : TicketMessage
second_message = record first_message {
  id = 22;
  body = some (text "Hello");
  client_message_id = 601;
  created_at = 1000;
}

second_message_stored :
    Member.send_message quiet_env 3 20 (words 601) open_desk
    ≡ (ok second_message, (Member.send_message quiet_env 3 20 (words 601) open_desk).1)
unfolding Member.send_message any_where ◌>>=◌ find_many find_first resolve_attachments
    update_tickets count_where create_message update_where publish
second_message_stored = refl

-- The ticket is resolved before the message is sent again.
abbrev resolved_since : Store
resolved_since =
    (resolve quiet_env local_admin 20
      (Member.send_message quiet_env 3 20 (words 601) open_desk).1).1

resolved_since_is_resolved : any_where (λ x. is_resolved x.status) resolved_since.tickets ≡ true
unfolding Member.send_message resolve any_where ◌>>=◌ find_many find_first resolve_attachments
    update_tickets count_where create_message update_where publish add_event has_community_access
resolved_since_is_resolved = refl

send_message-send_message_example :
    Member.send_message quiet_env 3 20 (record (words 601) { body = none }) resolved_since
    ≡ (ok second_message, resolved_since)
send_message-send_message_example =
    send_message-send_message quiet_env quiet_env 3 20 (words 601)
      (record (words 601) { body = none }) open_desk second_message
      (Member.send_message quiet_env 3 20 (words 601) open_desk).1 resolved_since quiet-Calm
      open_desk-IsStore refl second_message_stored
      ((Keeps-resolve quiet_env quiet-Calm local_admin 20).path _)

abbrev free_desk : Store
free_desk = record desk {
  tickets = record open_ticket { status = TicketStatus.opened; assigned_admin_id = none } ∷ [];
}

free_desk-IsStore : IsStore free_desk
unfolding any_where
free_desk-IsStore = record {
  message_ids_below = open_desk-IsStore.message_ids_below;
  one_message = open_desk-IsStore.one_message;
  tickets = (
    record {
      assignee = refl;
      resolved_once = refl;
      rated_when = refl;
      rated_after = refl;
      stars = refl;
      nothing_left = refl;
    },
    tt,
  );
  ids_below = (omega arith, tt);
  one_row = (refl, tt);
  one_request = (refl, tt);
  parents = (refl, tt);
}

free_desk_claimed :
    claim quiet_env local_admin 20 free_desk
    ≡ (ok open_ticket, (claim quiet_env local_admin 20 free_desk).1)
unfolding claim any_where ◌>>=◌ find_many find_first update_tickets count_where update_where publish
    has_community_access add_event
free_desk_claimed = refl

claim-IsMine_example :
    let t = (claim quiet_env local_admin 20 free_desk).1 in
    (find_ticket 20 t ≡ some open_ticket)
    × (u : Store) × (Reach free_desk u)
    × (Reach u t)
    × ((x : Ticket) × (find_ticket 20 u ≡ some x) × (is_id x.assigned_admin_id 2 ≡ true))
claim-IsMine_example =
    claim-IsMine quiet_env local_admin 20 free_desk open_ticket
      (claim quiet_env local_admin 20 free_desk).1 quiet-Calm free_desk-IsStore free_desk_claimed

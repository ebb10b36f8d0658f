-- ===== src/Tickets/Examples.antt =====
-- A small support desk: one super admin, one admin of community 7, one member with a subscription.
mod Retry
use finskool_monorepo.Base.{
  find_many, count_where, update_where, length, ok, err, ℕ, ◌≡◌, refl, true, false, none, some,
  List, [], ◌∷◌, All, text, any_where, find_first, arith,
}
use finskool_monorepo.Access.{admin, member, active, User, Directory}
use finskool_monorepo.Tickets.{
  update_tickets, create_message, publish, ◌>>=◌, TicketCategory, TicketType, TicketStatus, user,
  Ticket, TicketMessage, Store, Env,
}
use finskool_monorepo.Tickets.Attachments.{AttachmentRef, sniff_mime, resolve_attachments}
use finskool_monorepo.Tickets.Attachments.Checked.{IsResolved, resolve_attachments-IsResolved}
use finskool_monorepo.Tickets.Create.{CreateTicket}
use finskool_monorepo.Tickets.Member.{SendMessage}
use finskool_monorepo.Tickets.Support.{AdminActor}
use finskool_monorepo.Tickets.Member
use finskool_monorepo.Tickets.Moves.Again.{send_message-send_message}
use finskool_monorepo.Tickets.Moves.{Reach, here, Calm}
use finskool_monorepo.Tickets.Moves.Constraints.{IsStore, run-IsStore}
use finskool_monorepo.Tickets.Moves.Past.{IsPast, run-IsPast}
use finskool_monorepo.Tickets.Moves.ClosedChat.{chat, run-chat}
use finskool_monorepo.Tickets.Moves.Handle.{
  Request, create_ticket, send_message, claim_ticket, reply_ticket, resolve_ticket, rate_ticket,
  run, IsServed, run-Reach,
}

abbrev root : User
root = record {
  id = 1;
  name = text "Root";
  role = admin;
  super_admin = true;
  status = active;
  deleted_at = none;
}

abbrev directory : Directory
directory = record {
  users =
      root
      ∷ record root { id = 2; super_admin = false }
      ∷ record root { id = 3; role = member; super_admin = false }
      ∷ [];
  communities = record { id = 7; name = text "Traders"; deleted_at = none } ∷ [];
  subscriptions =
      record { user_id = 3; community_id = 7; valid_until = 200000000; is_active = true } ∷ [];
  community_admins = record { community_id = 7; admin_id = 2 } ∷ [];
}

abbrev pub quiet_env : Env
quiet_env = record {
  now = 1000;
  id_text = λ i. text "id";
  storage = record { stat_object = λ k. none; head_bytes = λ k. none };
  channels = record { live_up = true; queue_up = false };
  others = λ s. s;
}

pub quiet-Calm : Calm quiet_env
quiet-Calm = λ s. here

-- One ticket, resolved, with one message in its chat.
abbrev pub done_ticket : Ticket
done_ticket = record {
  id = 20;
  user_id = 3;
  community_id = 7;
  category = TicketCategory.payments;
  kind = TicketType.issue;
  subject = text "Refund";
  description = text "Paid twice";
  status = TicketStatus.resolved;
  assigned_admin_id = some 2;
  client_request_id = 500;
  user_unread_count = 1;
  admin_unread_count = 0;
  last_message_at = 900;
  rating = none;
  rating_comment = none;
  rated_at = none;
  resolved_at = some 950;
  attachments = [];
}

abbrev pub first_message : TicketMessage
first_message = record {
  id = 21;
  ticket_id = 20;
  sender_id = 3;
  sender_role = user;
  body = some (text "Any news?");
  client_message_id = 600;
  attachments = [];
  created_at = 900;
}

abbrev pub desk : Store
desk = record {
  directory = directory;
  tickets = done_ticket ∷ [];
  messages = first_message ∷ [];
  events = [];
  next_id = 22;
  removed_objects = [];
  published = [];
  inbox = record { rows = []; next_id = 1; published = []; queued = [] };
}

desk-IsStore : IsStore desk
unfolding any_where
desk-IsStore = record {
  tickets = (
    record {
      assignee = refl;
      resolved_once = refl;
      rated_when = refl;
      rated_after = refl;
      stars = refl;
      nothing_left = refl;
    },
    tt,
  );
  ids_below = (omega arith, tt);
  message_ids_below = (omega arith, tt);
  one_row = (refl, tt);
  one_request = (refl, tt);
  one_message = (refl, tt);
  parents = (refl, tt);
}

abbrev pub words : ℕ → SendMessage
words id = record { client_message_id = id; body = some (text "Hello"); attachments = [] }

abbrev pub local_admin : AdminActor
local_admin = record { id = 2; is_super_admin = false; accessible_community_ids = some (7 ∷ []) }

abbrev new_issue : CreateTicket
new_issue = record {
  community_id = 7;
  category = TicketCategory.app_bug;
  kind = TicketType.issue;
  subject = text "Chart";
  description = text "The chart is empty";
  attachments = [];
}

-- The old ticket is written to, which is refused, and rated; a new one is raised and seen through.
abbrev busy_day : List (Env × Request)
busy_day =
    (quiet_env, send_message 3 20 (words 601))
    ∷ (quiet_env, rate_ticket 3 20 (record { rating = 5; comment = none }))
    ∷ (quiet_env, create_ticket 3 501 new_issue)
    ∷ (quiet_env, claim_ticket local_admin 22)
    ∷ (quiet_env, reply_ticket local_admin 22 (words 602))
    ∷ (quiet_env, resolve_ticket local_admin 22)
    ∷ []

busy_day-IsServed : All IsServed busy_day
busy_day-IsServed = (
  (quiet-Calm, tt),
  (
    (quiet-Calm, (omega arith, omega arith)),
    ((quiet-Calm, tt), ((quiet-Calm, tt), ((quiet-Calm, tt), ((quiet-Calm, tt), tt)))),
  ),
)

run-Reach_example : Reach desk (run busy_day desk)
run-Reach_example = run-Reach busy_day busy_day-IsServed desk

run-IsStore_example : IsStore (run busy_day desk)
run-IsStore_example = run-IsStore busy_day busy_day-IsServed desk desk-IsStore

run-IsPast_example : IsPast desk (run busy_day desk)
run-IsPast_example = run-IsPast busy_day busy_day-IsServed desk

run-chat_example : chat 20 (run busy_day desk) ≡ chat 20 desk
unfolding find_first
run-chat_example = run-chat busy_day busy_day-IsServed desk desk-IsStore 20 done_ticket refl refl

abbrev document : AttachmentRef
document = record { object_key = text "tickets/id/a.pdf"; file_name = text "a.pdf" }

-- The storage holds a document of 9 bytes under every key.
abbrev stocked_env : Env
stocked_env = record quiet_env {
  storage = record { stat_object = λ k. some 9; head_bytes = λ k. some (text "%PDF-1.7\n") };
}

document_passes :
    length (elim (resolve_attachments stocked_env (text "tickets") 3 (document ∷ []) desk).0 [
      | ok rows ↦ rows
      | err e ↦ []
    ])
    ≡ 1
unfolding resolve_attachments any_where ◌>>=◌ sniff_mime
document_passes = refl

resolve_attachments-IsResolved_example :
    IsResolved stocked_env
      (text "tickets")
      3
      (document ∷ [])
      desk
      (resolve_attachments stocked_env (text "tickets") 3 (document ∷ []) desk)
resolve_attachments-IsResolved_example =
    resolve_attachments-IsResolved stocked_env (text "tickets") 3 (document ∷ []) desk

-- ===== src/Tickets/Wire.antt =====
-- What both sides of a ticket share: how events reach the two parties, and the pause in which other
-- requests commit (apps/backend/src/modules/tickets).
use finskool_monorepo.Base.{
  ℕ, ◌&&◌, Option, none, some, List, [], ◌∷◌, ◌==◌, find_first, Text, text,
}
use finskool_monorepo.Access.{User, Community, Directory, get_community_admin_ids}
use finskool_monorepo.Notify.Senders.{AdminNotification, notify_admins}
use finskool_monorepo.Tickets.{
  Ticket, LiveTicketEvent, Published, Env, Action, gets, modify, ◌>>=◌, ◌>>◌, or_throw, publish,
  not_found,
}

abbrev pub tickets_prefix : Text
tickets_prefix = text "tickets"

-- What others commit while this request waits for the database or the storage.
abbrev pub await_others : Env → Action (Unit {0})
await_others env = modify env.others

unfoldable pub get_owned : ℕ → ℕ → Action Ticket
get_owned user_id ticket_id = do
  found ← gets (λ s. find_first (λ t. t.id == ticket_id && t.user_id == user_id) s.tickets)
  or_throw found not_found

abbrev pub community_name_of : Option Community → Text
community_name_of none = []
community_name_of (some c) = c.name

unfoldable pub find_community : Directory → ℕ → Option Community
find_community d id = find_first (λ c. c.id == id) d.communities

abbrev pub name_of : Option User → Text
name_of none = []
name_of (some u) = u.name

abbrev pub event_at : List ℕ → LiveTicketEvent → Ticket → ℕ → Published
event_at user_ids event t unread_count = record {
  user_ids = user_ids;
  event = event;
  ticket_id = t.id;
  community_id = t.community_id;
  unread_count = unread_count;
}

-- Live events for the community's admins and for the member.
unfoldable pub publish_both : LiveTicketEvent → Ticket → Action (Unit {0})
publish_both event t = do
  admin_ids ← gets (λ s. get_community_admin_ids s.directory t.community_id)
  publish (event_at admin_ids event t t.admin_unread_count)
  publish (event_at (t.user_id ∷ []) event t t.user_unread_count)

unfoldable pub tell_admins : Env → AdminNotification → ℕ → Action (Unit {0})
tell_admins env n community_id = modify λ s.
    let ids = get_community_admin_ids s.directory community_id in
    record s { inbox = (notify_admins env.channels n ids s.inbox).1 }

-- ===== src/Tickets/Moves.antt =====
-- The life of a ticket as a step relation: what may be committed to one ticket, to the store, and
-- along a path. It is the specification that the operations of Create, Member, Support and Reply
-- are held to.
pub mod Rules
pub mod Requests
pub mod Handle
pub mod Valid
pub mod Constraints
pub mod Past
pub mod ClosedChat
pub mod Answers
pub mod Again
pub mod Claimed
use finskool_monorepo.Base.{
  ℕ, suc, ◌+◌, ◌≤◌, ◌≡◌, ◌≢◌, Bool, true, false, Option, none, some, List, [], ◌∷◌, ◌++◌,
  count_where, update_where, any_where, Text,
}
use finskool_monorepo.Notify.{Inbox}
use finskool_monorepo.Tickets.{
  opened, Ticket, TicketMessage, TicketEvent, Published, Store, Env, Action, is_resolved,
  is_message,
}
use finskool_monorepo.Tickets.Create.{is_request}
use finskool_monorepo.Tickets.Support.{take_by}
use finskool_monorepo.Tickets.Reply.{close_at}

-- One step of a ticket, from `a` to `b`.
pub data Move (a b : Ticket) : Type 0 where
  claimed :
      (admin_id : ℕ)
      → is_resolved a.status ≡ false
      → a.assigned_admin_id ≡ none
      → b ≡ take_by admin_id a
      → Move a b
  reassigned_to : (admin_id : ℕ) → is_resolved a.status ≡ false → b ≡ take_by admin_id a → Move a b
  member_wrote :
      (now : ℕ)
      → is_resolved a.status ≡ false
      → b ≡ record a { last_message_at = now; admin_unread_count = a.admin_unread_count + 1 }
      → Move a b
  support_wrote :
      (now : ℕ)
      → is_resolved a.status ≡ false
      → b ≡ record a { last_message_at = now; user_unread_count = a.user_unread_count + 1 }
      → Move a b
  closed : (now : ℕ) → is_resolved a.status ≡ false → b ≡ close_at now a → Move a b
  rated_with :
      (stars : ℕ) (comment : Option Text) (now : ℕ)
      → is_resolved a.status ≡ true
      → a.rating ≡ none
      → 1 ≤ stars
      → stars ≤ 5
      → b ≡ record a { rating = some stars; rating_comment = comment; rated_at = some now }
      → Move a b
  read_by_member : b ≡ record a { user_unread_count = 0 } → Move a b
  read_by_support : b ≡ record a { admin_unread_count = 0 } → Move a b

-- One committed write of the store, from `s` to `t`.
pub data Write (s t : Store) : Type 0 where
  aside :
      (es : List TicketEvent) (os : List Text) (ps : List Published) (inbox : Inbox)
      → t ≡ record s { events = es; removed_objects = os; published = ps; inbox = inbox }
      → Write s t
  moved :
      (w : Ticket → Bool) (f : Ticket → Ticket)
      → ((a : Ticket) → w a ≡ true → Move a (f a))
      → t ≡ record s { tickets = update_where w f s.tickets }
      → Write s t
  raised :
      (k : Ticket)
      → k.id ≡ s.next_id
      → k.status ≡ opened
      → k.assigned_admin_id ≡ none
      → k.rating ≡ none
      → k.rated_at ≡ none
      → k.resolved_at ≡ none
      → any_where (is_request k.user_id k.client_request_id) s.tickets ≡ false
      → t ≡ record s { tickets = s.tickets ++ k ∷ []; next_id = suc s.next_id }
      → Write s t
  posted :
      (w : Ticket → Bool) (f : Ticket → Ticket) (m : TicketMessage)
      → ((a : Ticket) → w a ≡ true → Move a (f a))
      → ((a : Ticket) → w a ≡ true → (a.id ≡ m.ticket_id) × (is_resolved a.status ≡ false))
      → count_where w s.tickets ≢ 0
      → m.id ≡ s.next_id
      → any_where (is_message m.ticket_id m.client_message_id) s.messages ≡ false
      → t ≡ record s {
        tickets = update_where w f s.tickets;
        messages = s.messages ++ m ∷ [];
        next_id = suc s.next_id;
      }
      → Write s t

pub data Reach (s : Store) : Store → Type 0 where
  here : Reach s s
  next : {t u : Store} → Reach s t → Write t u → Reach s u

-- The other requests of the interleaving make moves as well.
abbrev pub Calm : Env → Type 0
Calm env = (s : Store) → Reach s (env.others s)

-- However it ends, an action takes the store along a path of moves.
pub record Keeps {A : Type 0} (m : Action A) : Type 0 where
  pub path : (s : Store) → Reach s (m s).1

-- ===== src/Tickets.antt =====
-- Support tickets: the rows of apps/backend/prisma/schema.prisma, the store that the two services of
-- apps/backend/src/modules/tickets work on, and the queries that they send.
pub mod Attachments
pub mod Wire
pub mod Create
pub mod Member
pub mod Support
pub mod Reply
pub mod Moves
pub mod Listing
mod Examples
use finskool_monorepo.Base.{
  ℕ, suc, ◌+◌, Bool, true, false, not, ◌&&◌, Option, none, some, List, [], ◌∷◌, ◌++◌, ◌==◌, is_none,
  if◌then◌else◌, find_first, count_where, update_where, any_where, Text, text, Result, ok, err,
  ErrorCode, AppError,
}
use finskool_monorepo.Access.{Directory}
use finskool_monorepo.Notify.{Inbox, Channels}

pub data TicketCategory : Type 0 where
  payments subscription account content app_bug other : TicketCategory

pub data TicketType : Type 0 where
  issue question feature_request refund_request : TicketType

-- 'open', 'in_progress', 'resolved'
pub data TicketStatus : Type 0 where
  opened in_progress resolved : TicketStatus

pub data SenderRole : Type 0 where
  user admin : SenderRole

pub data Mime : Type 0 where
  png jpeg webp pdf : Mime

pub record Attachment : Type 0 where
  pub object_key : Text
  pub file_name : Text
  pub mime_type : Mime
  pub size_bytes : ℕ

pub record Ticket : Type 0 where
  pub id : ℕ
  pub user_id : ℕ
  pub community_id : ℕ
  pub category : TicketCategory
  pub kind : TicketType
  pub subject : Text
  pub description : Text
  pub status : TicketStatus
  pub assigned_admin_id : Option ℕ
  pub client_request_id : ℕ
  pub user_unread_count : ℕ
  pub admin_unread_count : ℕ
  pub last_message_at : ℕ
  pub rating : Option ℕ
  pub rating_comment : Option Text
  pub rated_at : Option ℕ
  pub resolved_at : Option ℕ
  pub attachments : List Attachment

pub record TicketMessage : Type 0 where
  pub id : ℕ
  pub ticket_id : ℕ
  pub sender_id : ℕ
  pub sender_role : SenderRole
  pub body : Option Text
  pub client_message_id : ℕ
  pub attachments : List Attachment
  pub created_at : ℕ

-- The audit trail; `assigned` and `reassigned` carry to whom, and from whom.
pub data TicketEventType : Type 0 where
  created resolved_event : TicketEventType
  assigned reassigned : ℕ → Option ℕ → TicketEventType

pub record TicketEvent : Type 0 where
  pub ticket_id : ℕ
  pub kind : TicketEventType
  pub actor_id : ℕ

-- What `publishTicketEvent` sends, and to whom: the name of the event, with the message that it
-- carries and the unread count of the side that it is for.
pub data LiveTicketEvent : Type 0 where
  ticket_created ticket_updated ticket_read : LiveTicketEvent
  ticket_message : ℕ → LiveTicketEvent

pub record Published : Type 0 where
  pub user_ids : List ℕ
  pub event : LiveTicketEvent
  pub ticket_id : ℕ
  pub community_id : ℕ
  pub unread_count : ℕ

pub record Store : Type 0 where
  pub directory : Directory
  pub tickets : List Ticket
  pub messages : List TicketMessage
  pub events : List TicketEvent
  pub next_id : ℕ
  pub removed_objects : List Text
  pub published : List Published
  pub inbox : Inbox

-- The object storage (MinIO): the size of an object, if it is there, and its first bytes.
pub record Storage : Type 0 where
  pub stat_object : Text → Option ℕ
  pub head_bytes : Text → Option (List ℕ)

-- What one request meets: the time, how an id is written, the storage, the channels of the
-- notifications, and what other requests commit between its reads and its transaction.
pub record Env : Type 0 where
  pub now : ℕ
  pub id_text : ℕ → Text
  pub storage : Storage
  pub channels : Channels
  pub others : Store → Store

-- ─── Requests as actions on the store ───────────────────────────────────────

abbrev pub Action : Type 0 → Type 0
Action A = Store → Result A × Store

unfoldable pub pure : {A : Type 0} → A → Action A
pure a s = (ok a, s)

unfoldable pub throw : {A : Type 0} → AppError → Action A
throw e s = (err e, s)

unfoldable pub gets : {A : Type 0} → (Store → A) → Action A
gets f s = (ok (f s), s)

unfoldable pub modify : (Store → Store) → Action (Unit {0})
modify f s = (ok tt, f s)

unfoldable pub throw_if : Bool → AppError → Action (Unit {0})
throw_if c e s = (if c then err e else ok tt, s)

unfoldable pub or_throw : {A : Type 0} → Option A → AppError → Action A
unfolding throw pure
or_throw none e = throw e
or_throw (some a) e = pure a

-- `$transaction`: an error rolls the store back.
unfoldable pub transaction : {A : Type 0} → Action A → Action A
transaction m s = let (r, s') = m s in elim r [ ok a ↦ (ok a, s') | err e ↦ (err e, s) ]

-- `try`: the error becomes a value.
unfoldable pub attempt : {A : Type 0} → Action A → Action (Result A)
attempt m s = let (r, s') = m s in (ok r, s')

infixl 5 ◌>>=◌ ◌>>◌
-- Opening this opens the other ways to build an action.
unfoldable pub ◌>>=◌ : {A B : Type 0} → Action A → (A → Action B) → Action B
unfolding pure throw gets modify throw_if or_throw transaction attempt
◌>>=◌ m f s = let (r, s') = m s in elim r [ ok a ↦ f a s' | err e ↦ (err e, s') ]

abbrev pub ◌>>◌ : {B : Type 0} → Action (Unit {0}) → Action B → Action B
m >> k = m >>= λ _. k

-- `updateMany`: how many rows matched.
unfoldable pub update_tickets : (Ticket → Bool) → (Ticket → Ticket) → Action ℕ
update_tickets w f s =
    (ok (count_where w s.tickets), record s { tickets = update_where w f s.tickets })

unfoldable pub add_event : TicketEvent → Action (Unit {0})
unfolding modify
add_event e = modify (λ s. record s { events = s.events ++ e ∷ [] })

unfoldable pub publish : Published → Action (Unit {0})
unfolding modify
publish p = modify (λ s. record s { published = s.published ++ p ∷ [] })

abbrev pub is_resolved : TicketStatus → Bool
is_resolved resolved = true
is_resolved _ = false

-- `uq_ticket_messages_client_id`
abbrev pub is_message : ℕ → ℕ → TicketMessage → Bool
is_message ticket_id client_message_id m =
    m.ticket_id == ticket_id && m.client_message_id == client_message_id

-- `ticketMessage.create`, with the unique key's check; the id of the new row.
unfoldable pub create_message : TicketMessage → Action ℕ
create_message m s =
    if any_where (is_message m.ticket_id m.client_message_id) s.messages
    then (err AppError.unique_violation, s)
    else (ok m.id, record s { messages = s.messages ++ m ∷ []; next_id = suc s.next_id })

abbrev pub find_ticket : ℕ → Store → Option Ticket
find_ticket ticket_id s = find_first (λ t. t.id == ticket_id) s.tickets

abbrev pub find_message : ℕ → ℕ → Store → Option TicketMessage
find_message ticket_id client_message_id s =
    find_first (is_message ticket_id client_message_id) s.messages

abbrev pub ticket_resolved : AppError
ticket_resolved = AppError.conflict ErrorCode.ticket_resolved

abbrev pub not_found : AppError
not_found = AppError.not_found ErrorCode.no_code

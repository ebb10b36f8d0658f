-- ===== src/Tickets/Listing.antt =====
-- The member's list of tickets: `list` of apps/backend/src/modules/tickets/tickets.service.ts, with the
-- cursors of tickets.shared.ts. A cursor is a text; base64 and the dates of the language are parameters, as
-- is the text of an id.
pub mod Cursor
pub mod Sorted
pub mod Walk
mod Examples
use finskool_monorepo.Base.{
  ℕ, suc, ◌+◌, Bool, true, false, not, ◌&&◌, ◌||◌, ◌==◌, ltb, is_none, if◌then◌else◌, Option, none,
  some, List, [], ◌∷◌, ◌++◌, take, length, find_many, Text, text, Result, ok, err, ErrorCode,
  AppError,
}
use finskool_monorepo.Tickets.{Ticket, TicketStatus}

pub record CursorCodec : Type 0 where
  pub to_base64 : Text → Text
  pub from_base64 : Text → Text
  pub to_iso : ℕ → Text
  pub from_iso : Text → Option ℕ
  pub id_text : ℕ → Text
  pub text_id : Text → ℕ

-- '|', '-', '0', '9', 'A', 'F', 'a' and 'f'
abbrev pub bar : ℕ
bar = 124

abbrev dash : ℕ
dash = 45

abbrev between : ℕ → ℕ → ℕ → Bool
between a b c = not (ltb c a) && not (ltb b c)

abbrev pub is_hex : ℕ → Bool
is_hex c = between 48 57 c || between 65 70 c || between 97 102 c

-- A hexadecimal digit, or the dash.
abbrev pub fits : Bool → ℕ → Bool
fits true c = is_hex c
fits false c = c == dash

abbrev four : List Bool
four = true ∷ true ∷ true ∷ true ∷ []

-- 8-4-4-4-12
abbrev pub uuid_re : List Bool
uuid_re =
    four ++ four ++ false ∷ four ++ false ∷ four ++ false ∷ four ++ false ∷ four ++ four ++ four

unfoldable pub fits_all : List Bool → Text → Bool
fits_all [] [] = true
fits_all [] (_ ∷ _) = false
fits_all (_ ∷ _) [] = false
fits_all (p ∷ ps) (c ∷ cs) = fits p c && fits_all ps cs

abbrev pub is_uuid : Text → Bool
is_uuid value = fits_all uuid_re value

-- The part before the first bar, and what follows it.
unfoldable pub split_bar : Text → Text × Option Text
split_bar [] = ([], none)
split_bar (c ∷ cs) =
    let rest = split_bar cs in if c == bar then ([], some cs) else (c ∷ rest.0, rest.1)

unfoldable pub encode_cursor : CursorCodec → ℕ → ℕ → Text
encode_cursor codec at id = codec.to_base64 (codec.to_iso at ++ bar ∷ codec.id_text id)

abbrev pub invalid_cursor : AppError
invalid_cursor = AppError.bad_request ErrorCode.invalid_cursor

abbrev pub checked : CursorCodec → Option ℕ → Text → Result (ℕ × ℕ)
checked codec none id = err invalid_cursor
checked codec (some at) id = if is_uuid id then ok (at, codec.text_id id) else err invalid_cursor

abbrev pub decoded : CursorCodec → Text × Option Text → Result (ℕ × ℕ)
decoded codec (iso, none) = err invalid_cursor
decoded codec (iso, some rest) = checked codec (codec.from_iso iso) (split_bar rest).0

unfoldable pub decode_cursor : CursorCodec → Text → Result (ℕ × ℕ)
unfolding split_bar fits_all
decode_cursor codec cursor = decoded codec (split_bar (codec.from_base64 cursor))

-- ─── A page ─────────────────────────────────────────────────────────────────

pub record ListQuery : Type 0 where
  pub status : Option TicketStatus
  pub limit : ℕ

abbrev pub same_status : TicketStatus → TicketStatus → Bool
same_status TicketStatus.opened TicketStatus.opened = true
same_status TicketStatus.in_progress TicketStatus.in_progress = true
same_status TicketStatus.resolved TicketStatus.resolved = true
same_status _ _ = false

abbrev pub has_status : Option TicketStatus → Ticket → Bool
has_status none t = true
has_status (some x) t = same_status t.status x

abbrev pub is_listed : ℕ → ListQuery → Ticket → Bool
is_listed user_id query t = t.user_id == user_id && has_status query.status t

-- `lastMessageAt < at`, or the same time and a smaller id.
abbrev pub is_older : ℕ × ℕ → Ticket → Bool
is_older (at, id) t = ltb t.last_message_at at || t.last_message_at == at && ltb t.id id

abbrev pub is_after : Option (ℕ × ℕ) → Ticket → Bool
is_after none t = true
is_after (some c) t = is_older c t

-- `orderBy: [{ lastMessageAt: 'desc' }, { id: 'desc' }]`
unfoldable pub insert_newest : Ticket → List Ticket → List Ticket
insert_newest t [] = t ∷ []
insert_newest t (u ∷ us) =
    let rest = insert_newest t us in
    if is_older (t.last_message_at, t.id) u then t ∷ u ∷ us else u ∷ rest

unfoldable pub newest_first : List Ticket → List Ticket
unfolding insert_newest
newest_first [] = []
newest_first (t ∷ ts) = insert_newest t (newest_first ts)

-- `page[page.length - 1]`
abbrev pub last_of : List Ticket → Option Ticket
last_of [] = none
last_of (t ∷ []) = some t
last_of (t ∷ u ∷ us) = last_of (u ∷ us)

abbrev pub cursor_of : CursorCodec → Option Ticket → Option Text
cursor_of codec none = none
cursor_of codec (some t) = some (encode_cursor codec t.last_message_at t.id)

-- The page, and the cursor of the next one.
abbrev pub page_of : CursorCodec → ListQuery → List Ticket → List Ticket × Option Text
page_of codec query rows =
    let page = take query.limit rows in
    (page, if ltb query.limit (length rows) then cursor_of codec (last_of page) else none)

unfoldable pub find_page :
    CursorCodec → ℕ → ListQuery → Option (ℕ × ℕ) → List Ticket → List Ticket × Option Text
unfolding newest_first find_many encode_cursor
find_page codec user_id query cursor tickets = page_of codec query (
    take (suc query.limit)
      (newest_first (find_many (λ t. is_listed user_id query t && is_after cursor t) tickets)))

unfoldable pub list_tickets :
    CursorCodec → ℕ → ListQuery → Option Text → List Ticket → Result (List Ticket × Option Text)
unfolding decode_cursor find_page
list_tickets codec user_id query none tickets = ok (find_page codec user_id query none tickets)
list_tickets codec user_id query (some cursor) tickets = elim (decode_cursor codec cursor) [
  | err e ↦ err e
  | ok c ↦ ok (find_page codec user_id query (some c) tickets)
]

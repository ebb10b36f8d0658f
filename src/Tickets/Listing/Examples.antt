-- ===== src/Tickets/Listing/Examples.antt =====
-- Three tickets in pages of one.
use finskool_monorepo.Base.{
  ℕ, zero, suc, ap, ◌+◌, ◌-◌, ◌≡◌, refl, false, none, some, List, [], ◌∷◌, ◌++◌, All, length, Text,
  arith, ok, any_where, find_many, ◌==◌,
}
use finskool_monorepo.Tickets.{Ticket, TicketCategory, TicketType, TicketStatus}
use finskool_monorepo.Tickets.Listing.{
  CursorCodec, bar, fits_all, ListQuery, encode_cursor, decode_cursor, newest_first,
}
use finskool_monorepo.Tickets.Listing.Cursor.{IsCodec, decode_cursor-encode_cursor}
use finskool_monorepo.Tickets.Listing.Walk.{walk, walk-listed}

abbrev zeros : ℕ → Text
zeros zero = []
zeros (suc n) = 48 ∷ zeros n

abbrev last_digit : Text → ℕ
last_digit [] = 0
last_digit (c ∷ []) = c - 48
last_digit (c ∷ d ∷ t) = last_digit (d ∷ t)

-- Dates in unary, and ids of one digit.
abbrev plain : CursorCodec
plain = record {
  to_base64 = λ t. t;
  from_base64 = λ t. t;
  to_iso = zeros;
  from_iso = λ t. some (length t);
  id_text = λ id.
      zeros 8 ++ 45 ∷ zeros 4 ++ 45 ∷ zeros 4 ++ 45 ∷ zeros 4 ++ 45 ∷ zeros 11 ++ (48 + id) ∷ [];
  text_id = last_digit;
}

length-zeros : (n : ℕ) → length (zeros n) ≡ n
length-zeros zero = refl
length-zeros (suc n) = ap suc (length-zeros n)

zeros-bar : (n : ℕ) → All (λ c. (c == bar) ≡ false) (zeros n)
zeros-bar zero = tt
zeros-bar (suc n) = (refl, zeros-bar n)

plain-IsCodec : IsCodec plain 10
unfolding fits_all
plain-IsCodec = record {
  base64 = λ t. refl;
  iso = λ at. rw (length-zeros at) refl;
  iso_bar = zeros-bar;
  uuid = λ id small. ground (arith, small);
  id = λ id small. omega arith;
}

decode_cursor-encode_cursor_example : decode_cursor plain (encode_cursor plain 5 7) ≡ ok (5, 7)
decode_cursor-encode_cursor_example =
    decode_cursor-encode_cursor plain 10 5 7 plain-IsCodec (omega arith)

abbrev a_ticket : ℕ → ℕ → Ticket
a_ticket id at = record {
  id = id;
  user_id = 3;
  community_id = 30;
  category = TicketCategory.content;
  kind = TicketType.issue;
  subject = [];
  description = [];
  status = TicketStatus.opened;
  assigned_admin_id = none;
  client_request_id = 40 + id;
  user_unread_count = 0;
  admin_unread_count = 1;
  last_message_at = at;
  rating = none;
  rating_comment = none;
  rated_at = none;
  resolved_at = none;
  attachments = [];
}

abbrev three : List Ticket
three = a_ticket 1 20 ∷ a_ticket 2 30 ∷ a_ticket 4 20 ∷ []

abbrev by_one : ListQuery
by_one = record { status = none; limit = 1 }

walk-listed_example :
    walk plain 3 by_one three 4 none ≡ some (a_ticket 2 30 ∷ a_ticket 4 20 ∷ a_ticket 1 20 ∷ [])
unfolding any_where newest_first find_many
walk-listed_example =
    walk-listed plain 10 3 by_one three 4 plain-IsCodec (refl, (refl, (refl, tt)))
      (omega arith, (omega arith, (omega arith, tt))) (omega arith) (omega arith)

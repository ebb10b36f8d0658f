-- ===== src/Tickets/Moves/Handle.antt =====
-- The requests that change a ticket (tickets.routes.ts of apps/backend/src/modules/tickets), and
-- their effect on the store, one after the other.
use finskool_monorepo.Base.{ℕ, List, [], ◌∷◌, All}
use finskool_monorepo.Tickets.{Store, Env}
use finskool_monorepo.Tickets.Create.{CreateTicket, create}
use finskool_monorepo.Tickets.Member
use finskool_monorepo.Tickets.Member.{SendMessage, Rating}
use finskool_monorepo.Tickets.Support
use finskool_monorepo.Tickets.Support.{AdminActor}
use finskool_monorepo.Tickets.Reply
use finskool_monorepo.Tickets.Moves.{Reach, here, Calm}
use finskool_monorepo.Tickets.Moves.Rules.{Reach-trans}
use finskool_monorepo.Tickets.Moves.Requests.{Keeps-claim, Keeps-reassign}
use finskool_monorepo.Tickets.Moves.Requests.Reads.{
  IsStars, Keeps-member_mark_read, Keeps-support_mark_read, Keeps-rate,
}
use finskool_monorepo.Tickets.Moves.Requests.Ends.{Keeps-resolve}
use finskool_monorepo.Tickets.Moves.Requests.Posts.{Keeps-send_message, Keeps-reply, Keeps-create}

pub data Request : Type 0 where
  create_ticket : (user_id request_id : ℕ) → CreateTicket → Request
  send_message : (user_id ticket_id : ℕ) → SendMessage → Request
  member_read : (user_id ticket_id : ℕ) → Request
  rate_ticket : (user_id ticket_id : ℕ) → Rating → Request
  claim_ticket : AdminActor → ℕ → Request
  reassign_ticket : AdminActor → (ticket_id to_admin_id : ℕ) → Request
  support_read : AdminActor → ℕ → Request
  reply_ticket : AdminActor → ℕ → SendMessage → Request
  resolve_ticket : AdminActor → ℕ → Request

-- The store after the request, whether it is answered or refused.
unfoldable pub handle : Env → Request → Store → Store
handle env (create_ticket u r dto) s = (create env u r dto s).1
handle env (send_message u t dto) s = (Member.send_message env u t dto s).1
handle env (member_read u t) s = (Member.mark_read env u t s).1
handle env (rate_ticket u t dto) s = (Member.rate env u t dto s).1
handle env (claim_ticket a t) s = (Support.claim env a t s).1
handle env (reassign_ticket a t b) s = (Support.reassign env a t b s).1
handle env (support_read a t) s = (Support.mark_read env a t s).1
handle env (reply_ticket a t dto) s = (Reply.reply env a t dto s).1
handle env (resolve_ticket a t) s = (Reply.resolve env a t s).1

-- The validator lets one to five stars through (`ratingSchema` of tickets.validator.ts).
abbrev pub IsChecked : Request → Type 0
IsChecked (rate_ticket u t dto) = IsStars dto
IsChecked _ = Unit

unfoldable pub run : List (Env × Request) → Store → Store
unfolding handle
run [] s = s
run ((env, r) ∷ rest) s = run rest (handle env r s)

abbrev pub IsServed : Env × Request → Type 0
IsServed (env, r) = Calm env × IsChecked r

pub handle-Reach :
    (env : Env) → Calm env → (r : Request) → IsChecked r → (s : Store) → Reach s (handle env r s)
unfolding handle
handle-Reach env calm (create_ticket u r dto) ok s = (Keeps-create env u r dto calm).path s
handle-Reach env calm (send_message u t dto) ok s = (Keeps-send_message env dto calm u t).path s
handle-Reach env calm (member_read u t) ok s = (Keeps-member_mark_read env calm u t).path s
handle-Reach env calm (rate_ticket u t dto) ok s = (Keeps-rate env u t dto ok).path s
handle-Reach env calm (claim_ticket a t) ok s = (Keeps-claim env calm a t).path s
handle-Reach env calm (reassign_ticket a t b) ok s = (Keeps-reassign env calm a t b).path s
handle-Reach env calm (support_read a t) ok s = (Keeps-support_mark_read env calm a t).path s
handle-Reach env calm (reply_ticket a t dto) ok s = (Keeps-reply env a calm t dto).path s
handle-Reach env calm (resolve_ticket a t) ok s = (Keeps-resolve env calm a t).path s

-- Every run of the nine requests, in any order and with any calm interleaving inside each of them, is
-- a path of the life of a ticket: only the steps of `Move` are made on a ticket, only `raised` adds
-- one, and only `posted` adds a message. The rating requests carry one to five stars.
pub run-Reach : (rs : List (Env × Request)) → All IsServed rs → (s : Store) → Reach s (run rs s)
unfolding run
run-Reach [] h s = here
run-Reach ((env, r) ∷ rest) (h, hs) s =
    Reach-trans (handle-Reach env h.0 r h.1 s) (run-Reach rest hs (handle env r s))

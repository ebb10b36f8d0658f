-- ===== src/Tickets/Moves/Requests.antt =====
-- The moves of admin-tickets.service.ts: claiming and reassigning.
pub mod Reads
pub mod Ends
pub mod Posts
use finskool_monorepo.Base.{
  ℕ, Bool, true, false, not, ◌&&◌, ◌||◌, Option, none, some, List, ◌==◌, ◌≡◌, refl, is_none, is_id,
  arith, &&-true, Text, Result, ok, err, if◌then◌else◌, inl, inr,
}
use finskool_monorepo.Notify.Senders.{AdminNotification, ThreadNotification}
use finskool_monorepo.Tickets.{
  Ticket, Store, Env, ◌>>=◌, Action, publish, LiveTicketEvent, is_resolved, update_tickets, modify,
  throw,
}
use finskool_monorepo.Tickets.Attachments.{AttachmentRef, resolve_attachments, remove_own}
use finskool_monorepo.Tickets.Wire.{publish_both, event_at, tell_admins, get_owned}
use finskool_monorepo.Tickets.Member
use finskool_monorepo.Tickets.Member.{Rating, rate, rated}
use finskool_monorepo.Tickets.Support
use finskool_monorepo.Tickets.Support.{
  AdminActor, get_visible, take_by, claim_in_tx, publish_updated, show_updated, claim_lost,
  claim_open, claim, reassign_in_tx, reassign_open, reassign,
}
use finskool_monorepo.Tickets.Reply.{
  may_write, refuse, claim_if_free, tell_member, close_at, mark_resolved, resolve_in_tx,
  resolve_done, resolve_lost, resolve_open, resolve,
}
use finskool_monorepo.Tickets.Moves.{
  Move, claimed, reassigned_to, closed, rated_with, read_by_member, read_by_support, Keeps, Calm,
  aside, here, next,
}
use finskool_monorepo.Tickets.Moves.Rules.{keeps_rules, Keeps-update_tickets}

pub Keeps-publish_both : (e : LiveTicketEvent) (t : Ticket) → Keeps (publish_both e t)
unfolding publish_both
Keeps-publish_both e t = search keeps_rules

pub Keeps-tell_admins : (env : Env) (n : AdminNotification) (c : ℕ) → Keeps (tell_admins env n c)
unfolding tell_admins
Keeps-tell_admins env n c = search keeps_rules

pub Keeps-tell_member : (env : Env) (n : ThreadNotification) → Keeps (tell_member env n)
unfolding tell_member
Keeps-tell_member env n = search keeps_rules

pub Keeps-get_owned : (user_id id : ℕ) → Keeps (get_owned user_id id)
unfolding get_owned
Keeps-get_owned user_id id = search keeps_rules

pub Keeps-get_visible : (a : AdminActor) (id : ℕ) → Keeps (get_visible a id)
unfolding get_visible
Keeps-get_visible a id = search keeps_rules

Keeps-remove_own :
    (env : Env) (prefix : Text) (id : ℕ) (bad : List AttachmentRef)
    → Keeps (modify (remove_own env prefix id bad))
unfolding modify remove_own
Keeps-remove_own env prefix id bad = record {
  path = λ s.
      next here
        (aside s.events (remove_own env prefix id bad s).removed_objects s.published s.inbox refl);
}

pub Keeps-resolve_attachments :
    (env : Env) (prefix : Text) (id : ℕ) (refs : List AttachmentRef)
    → Keeps (resolve_attachments env prefix id refs)
unfolding resolve_attachments
Keeps-resolve_attachments env prefix id refs = search (keeps_rules, Keeps-remove_own)

claims :
    (id admin_id : ℕ) (t : Ticket)
    → (t.id == id && is_none t.assigned_admin_id && not (is_resolved t.status)) ≡ true
    → Move t (take_by admin_id t)
claims id admin_id t h = claimed admin_id (ground arith) (ground arith) refl

pub Keeps-claim_in_tx : (id admin_id : ℕ) → Keeps (claim_in_tx id admin_id)
unfolding claim_in_tx
Keeps-claim_in_tx id admin_id = search (keeps_rules, Keeps-update_tickets, claims)

pub Keeps-publish_updated : (t : Ticket) → Keeps (publish_updated t)
unfolding publish_updated
Keeps-publish_updated t = Keeps-publish_both LiveTicketEvent.ticket_updated t

pub ruleset basic_rules = (
  keeps_rules, Keeps-publish_both, Keeps-tell_admins, Keeps-tell_member, Keeps-get_owned,
  Keeps-get_visible, Keeps-resolve_attachments, Keeps-claim_in_tx, Keeps-publish_updated,
  Keeps-update_tickets,
)

Keeps-show_updated : (a : AdminActor) (id : ℕ) → Keeps (show_updated a id)
unfolding show_updated
Keeps-show_updated a id = search basic_rules

Keeps-claim_lost : (a : AdminActor) (id : ℕ) → Keeps (claim_lost a id)
unfolding claim_lost
Keeps-claim_lost a id = search basic_rules

-- What a claim does after its transaction.
pub Keeps-shown :
    (a : AdminActor) (id : ℕ) (b : Bool) → Keeps (if b then show_updated a id else claim_lost a id)
Keeps-shown a id b = search (basic_rules, Keeps-show_updated, Keeps-claim_lost)

Keeps-claim_open : (env : Env) → Calm env → (a : AdminActor) (id : ℕ) → Keeps (claim_open env a id)
unfolding claim_open
Keeps-claim_open env calm a id = search (basic_rules, Keeps-show_updated, Keeps-claim_lost)

pub Keeps-claim : (env : Env) → Calm env → (a : AdminActor) (id : ℕ) → Keeps (claim env a id)
unfolding claim
Keeps-claim env calm a id = search (basic_rules, Keeps-claim_open)

reassigns :
    (id admin_id : ℕ) (t : Ticket)
    → (t.id == id && not (is_resolved t.status)) ≡ true
    → Move t (take_by admin_id t)
reassigns id admin_id t h = reassigned_to admin_id (ground arith) refl

Keeps-reassign_in_tx : (a : AdminActor) (to_id : ℕ) (t : Ticket) → Keeps (reassign_in_tx a to_id t)
unfolding reassign_in_tx
Keeps-reassign_in_tx a to_id t = search (basic_rules, reassigns)

Keeps-reassign_open :
    (env : Env)
    → Calm env
    → (a : AdminActor) (to_id : ℕ) (t : Ticket) → Keeps (reassign_open env a to_id t)
unfolding reassign_open
Keeps-reassign_open env calm a to_id t =
    search (basic_rules, Keeps-reassign_in_tx, Keeps-show_updated) depth 10

pub Keeps-reassign :
    (env : Env) → Calm env → (a : AdminActor) (id to_id : ℕ) → Keeps (reassign env a id to_id)
unfolding reassign
Keeps-reassign env calm a id to_id = search (basic_rules, Keeps-reassign_open) depth 9

-- ===== src/Tickets/Moves/Requests/Ends.antt =====
-- The moves of `resolve` (admin-tickets.service.ts).
use finskool_monorepo.Base.{ℕ, ◌≡◌, refl, true, arith}
use finskool_monorepo.Tickets.{Ticket, Env}
use finskool_monorepo.Tickets.Support.{AdminActor}
use finskool_monorepo.Tickets.Reply.{
  may_write, claim_if_free, close_at, mark_resolved, resolve_in_tx, resolve_done, resolve_lost,
  resolve_open, resolve,
}
use finskool_monorepo.Tickets.Moves.{Move, closed, Keeps, Calm}
use finskool_monorepo.Tickets.Moves.Requests.{basic_rules}

pub Keeps-claim_if_free : (t : Ticket) (admin_id : ℕ) → Keeps (claim_if_free t admin_id)
unfolding claim_if_free
Keeps-claim_if_free t admin_id = search basic_rules

closes :
    (now : ℕ) (a : AdminActor) (id : ℕ) (t : Ticket)
    → may_write a id t ≡ true
    → Move t (close_at now t)
closes now a id t h = closed now (ground arith) refl

Keeps-mark_resolved : (env : Env) (a : AdminActor) (id : ℕ) → Keeps (mark_resolved env a id)
unfolding mark_resolved
Keeps-mark_resolved env a id = search (basic_rules, closes env.now a id)

Keeps-resolve_in_tx : (env : Env) (a : AdminActor) (t : Ticket) → Keeps (resolve_in_tx env a t)
unfolding resolve_in_tx
Keeps-resolve_in_tx env a t = search (basic_rules, Keeps-claim_if_free, Keeps-mark_resolved)

Keeps-resolve_done : (env : Env) (a : AdminActor) (id : ℕ) → Keeps (resolve_done env a id)
unfolding resolve_done
Keeps-resolve_done env a id = search basic_rules depth 9

Keeps-resolve_lost : (a : AdminActor) (id : ℕ) → Keeps (resolve_lost a id)
unfolding resolve_lost
Keeps-resolve_lost a id = search basic_rules

Keeps-resolve_open :
    (env : Env) → Calm env → (a : AdminActor) (t : Ticket) → Keeps (resolve_open env a t)
unfolding resolve_open
Keeps-resolve_open env calm a t =
    search (basic_rules, Keeps-resolve_in_tx, Keeps-resolve_done, Keeps-resolve_lost)

pub Keeps-resolve : (env : Env) → Calm env → (a : AdminActor) (id : ℕ) → Keeps (resolve env a id)
unfolding resolve
Keeps-resolve env calm a id = search (basic_rules, Keeps-resolve_open) depth 9

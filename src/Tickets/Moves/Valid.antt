-- ===== src/Tickets/Moves/Valid.antt =====
-- The conditions on the tickets and the messages (schema.prisma's columns of `Ticket` and
-- `TicketMessage`).
use finskool_monorepo.Base.{
  ℕ, ◌≡◌, refl, Bool, true, not, ◌&&◌, ◌||◌, ◌==◌, is_none, arith, Option, some, none, leb,
}
use finskool_monorepo.Tickets.{TicketStatus, opened, in_progress, resolved, Ticket, is_resolved}
use finskool_monorepo.Tickets.Moves.{
  Move, claimed, reassigned_to, member_wrote, support_wrote, closed, rated_with, read_by_member,
  read_by_support,
}

-- An open ticket has no assignee, and one in progress has one.
abbrev pub assignee_fits : TicketStatus → Option ℕ → Bool
assignee_fits opened o = is_none o
assignee_fits in_progress o = not (is_none o)
assignee_fits resolved o = true

abbrev pub stars_fit : Option ℕ → Bool
stars_fit none = true
stars_fit (some n) = leb 1 n && leb n 5

pub record IsTicket (t : Ticket) : Type 0 where
  pub assignee : assignee_fits t.status t.assigned_admin_id ≡ true
  pub resolved_once : is_none t.resolved_at ≡ not (is_resolved t.status)
  pub rated_when : is_none t.rated_at ≡ is_none t.rating
  pub rated_after : (is_none t.rating || is_resolved t.status) ≡ true
  pub stars : stars_fit t.rating ≡ true
  pub nothing_left : (not (is_resolved t.status) || t.admin_unread_count == 0) ≡ true

-- A move changes the columns named by its constructor only.
pub Move-IsTicket : (a b : Ticket) → Move a b → IsTicket a → IsTicket b
Move-IsTicket a b (claimed i n f e) h = rw e (record {
  assignee = refl;
  resolved_once = ground (arith, n, h.resolved_once);
  rated_when = h.rated_when;
  rated_after = ground (arith, n, h.rated_after);
  stars = h.stars;
  nothing_left = refl;
})
Move-IsTicket a b (reassigned_to i n e) h = rw e (record {
  assignee = refl;
  resolved_once = ground (arith, n, h.resolved_once);
  rated_when = h.rated_when;
  rated_after = ground (arith, n, h.rated_after);
  stars = h.stars;
  nothing_left = refl;
})
Move-IsTicket a b (member_wrote now n e) h = rw e (record {
  assignee = h.assignee;
  resolved_once = h.resolved_once;
  rated_when = h.rated_when;
  rated_after = h.rated_after;
  stars = h.stars;
  nothing_left = rw n refl;
})
Move-IsTicket a b (support_wrote now n e) h = rw e (record {
  assignee = h.assignee;
  resolved_once = h.resolved_once;
  rated_when = h.rated_when;
  rated_after = h.rated_after;
  stars = h.stars;
  nothing_left = rw n refl;
})
Move-IsTicket a b (closed now n e) h = rw e (record {
  assignee = refl;
  resolved_once = refl;
  rated_when = h.rated_when;
  rated_after = ground arith;
  stars = h.stars;
  nothing_left = refl;
})
Move-IsTicket a b (rated_with n c now r u lo hi e) h = rw e (record {
  assignee = h.assignee;
  resolved_once = h.resolved_once;
  rated_when = refl;
  rated_after = r;
  stars = ground arith;
  nothing_left = h.nothing_left;
})
Move-IsTicket a b (read_by_member e) h = rw e (record {
  assignee = h.assignee;
  resolved_once = h.resolved_once;
  rated_when = h.rated_when;
  rated_after = h.rated_after;
  stars = h.stars;
  nothing_left = h.nothing_left;
})
Move-IsTicket a b (read_by_support e) h = rw e (record {
  assignee = h.assignee;
  resolved_once = h.resolved_once;
  rated_when = h.rated_when;
  rated_after = h.rated_after;
  stars = h.stars;
  nothing_left = ground arith;
})

-- The columns that no move touches.
abbrev pub Identity : Ticket → Ticket → Type 0
Identity a b =
    (a.id ≡ b.id)
    × (a.user_id ≡ b.user_id)
    × (a.community_id ≡ b.community_id)
    × (a.client_request_id ≡ b.client_request_id)

pub Move-Identity : (a b : Ticket) → Move a b → Identity a b
Move-Identity a b (claimed i n f e) = rw e (refl, refl, refl, refl)
Move-Identity a b (reassigned_to i n e) = rw e (refl, refl, refl, refl)
Move-Identity a b (member_wrote now n e) = rw e (refl, refl, refl, refl)
Move-Identity a b (support_wrote now n e) = rw e (refl, refl, refl, refl)
Move-Identity a b (closed now n e) = rw e (refl, refl, refl, refl)
Move-Identity a b (rated_with n c now r u lo hi e) = rw e (refl, refl, refl, refl)
Move-Identity a b (read_by_member e) = rw e (refl, refl, refl, refl)
Move-Identity a b (read_by_support e) = rw e (refl, refl, refl, refl)

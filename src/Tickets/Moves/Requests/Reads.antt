-- ===== src/Tickets/Moves/Requests/Reads.antt =====
-- The moves of both `markRead` and of `rate` (tickets.service.ts, admin-tickets.service.ts).
use finskool_monorepo.Base.{ℕ, ◌≤◌, ◌≡◌, refl, true, ◌&&◌, ◌==◌, is_none, arith}
use finskool_monorepo.Tickets.{Ticket, Env, is_resolved}
use finskool_monorepo.Tickets.Member
use finskool_monorepo.Tickets.Member.{Rating, rate, rated}
use finskool_monorepo.Tickets.Support
use finskool_monorepo.Tickets.Support.{AdminActor}
use finskool_monorepo.Tickets.Moves.{Move, rated_with, read_by_member, read_by_support, Keeps, Calm}
use finskool_monorepo.Tickets.Moves.Requests.{basic_rules}

member_reads :
    (id : ℕ) (t : Ticket) → (t.id == id) ≡ true → Move t (record t { user_unread_count = 0 })
member_reads id t h = read_by_member refl

support_reads :
    (id : ℕ) (t : Ticket) → (t.id == id) ≡ true → Move t (record t { admin_unread_count = 0 })
support_reads id t h = read_by_support refl

pub Keeps-member_mark_read :
    (env : Env) → Calm env → (user_id id : ℕ) → Keeps (Member.mark_read env user_id id)
unfolding Member.mark_read
Keeps-member_mark_read env calm user_id id = search (basic_rules, member_reads) depth 9

pub Keeps-support_mark_read :
    (env : Env) → Calm env → (a : AdminActor) (id : ℕ) → Keeps (Support.mark_read env a id)
unfolding Support.mark_read
Keeps-support_mark_read env calm a id = search (basic_rules, support_reads) depth 9

-- What `ratingSchema` lets through.
abbrev pub IsStars : Rating → Type 0
IsStars dto = (1 ≤ dto.rating) × (dto.rating ≤ 5)

rates :
    (env : Env) (user_id id : ℕ) (dto : Rating)
    → IsStars dto
    → (t : Ticket)
    → (t.id == id && t.user_id == user_id && is_resolved t.status && is_none t.rating) ≡ true
    → Move t (rated env dto t)
unfolding rated
rates env user_id id dto stars t h =
    rated_with dto.rating _ env.now (ground arith) (ground arith) stars.0 stars.1 refl

pub Keeps-rate :
    (env : Env) (user_id id : ℕ) (dto : Rating) → IsStars dto → Keeps (rate env user_id id dto)
unfolding rate
Keeps-rate env user_id id dto stars = search (basic_rules, rates env user_id id dto stars) depth 9

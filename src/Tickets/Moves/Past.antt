-- ===== src/Tickets/Moves/Past.antt =====
-- What is compared between two moments of a run (apps/backend/src/modules/tickets).
use finskool_monorepo.Base.{
  ℕ, ◌≡◌, refl, ◌∙◌, update_where, Bool, true, false, is_none, arith, List, All, leb, Grows,
  Grows-refl, Grows-trans, Grows-append, Grows-update_where,
}
use finskool_monorepo.Tickets.{
  TicketStatus, opened, in_progress, resolved, Ticket, TicketMessage, Env, Store, is_resolved,
}
use finskool_monorepo.Tickets.Support.{take_by}
use finskool_monorepo.Tickets.Moves.{
  Move, claimed, reassigned_to, member_wrote, support_wrote, closed, rated_with, read_by_member,
  read_by_support, Write, aside, moved, raised, posted, Reach, here, next,
}
use finskool_monorepo.Tickets.Moves.Valid.{Identity, Move-Identity}
use finskool_monorepo.Tickets.Moves.Handle.{Request, run, IsServed, run-Reach}

-- open → in_progress → resolved
abbrev pub rank : TicketStatus → ℕ
rank opened = 0
rank in_progress = 1
rank resolved = 2

pub record IsLater (a b : Ticket) : Type 0 where
  pub identity : Identity a b
  pub status_on : leb (rank a.status) (rank b.status) ≡ true
  pub assignee_stays : is_none a.assigned_admin_id ≡ false → is_none b.assigned_admin_id ≡ false
  pub owner_final : is_resolved a.status ≡ true → b.assigned_admin_id ≡ a.assigned_admin_id
  pub end_final : is_resolved a.status ≡ true → b.resolved_at ≡ a.resolved_at
  pub rating_final : is_none a.rating ≡ false → b.rating ≡ a.rating

IsLater-refl : (a : Ticket) → IsLater a a
IsLater-refl a = record {
  identity = (refl, refl, refl, refl);
  status_on = ground arith;
  assignee_stays = λ p. p;
  owner_final = λ p. refl;
  end_final = λ p. refl;
  rating_final = λ p. refl;
}

-- A resolved ticket stays resolved.
pub stays_resolved :
    (a b : TicketStatus)
    → leb (rank a) (rank b) ≡ true
    → is_resolved a ≡ true
    → is_resolved b ≡ true
stays_resolved resolved resolved h r = refl
stays_resolved resolved opened h r = h
stays_resolved resolved in_progress h r = h
stays_resolved opened b h r = cc
stays_resolved in_progress b h r = cc

IsLater-trans : (a b c : Ticket) → IsLater a b → IsLater b c → IsLater a c
IsLater-trans a b c p q = record {
  identity = (cc, cc, cc, cc);
  status_on = ground (arith, p.status_on, q.status_on);
  assignee_stays = λ h. q.assignee_stays (p.assignee_stays h);
  owner_final =
      λ h. q.owner_final (stays_resolved a.status b.status p.status_on h) ∙ p.owner_final h;
  end_final = λ h. q.end_final (stays_resolved a.status b.status p.status_on h) ∙ p.end_final h;
  rating_final = λ h. let e = p.rating_final h in q.rating_final (rw e h) ∙ e;
}

-- A move that leaves the status, the assignee, the end and the rating alone.
quiet :
    (a b : Ticket)
    → Identity a b
    → b.status ≡ a.status
    → b.assigned_admin_id ≡ a.assigned_admin_id
    → b.resolved_at ≡ a.resolved_at
    → b.rating ≡ a.rating
    → IsLater a b
quiet a b i s o e r = record {
  identity = i;
  status_on = rw s (ground arith);
  assignee_stays = λ h. rw o h;
  owner_final = λ h. o;
  end_final = λ h. e;
  rating_final = λ h. r;
}

-- A move that takes the ticket, which is not resolved.
taken :
    (i : ℕ) (a b : Ticket)
    → Identity a b
    → is_resolved a.status ≡ false
    → b ≡ take_by i a
    → IsLater a b
taken i a b same n e = record {
  identity = same;
  status_on = rw e (ground (arith, n));
  assignee_stays = λ h. rw e refl;
  owner_final = λ h. ground (arith, n, h);
  end_final = λ h. rw e refl;
  rating_final = λ h. rw e refl;
}

pub Move-IsLater : (a b : Ticket) → Move a b → IsLater a b
Move-IsLater a b (claimed i n f e) = taken i a b (Move-Identity a b (claimed i n f e)) n e
Move-IsLater a b (reassigned_to i n e) = taken i a b (Move-Identity a b (reassigned_to i n e)) n e
Move-IsLater a b (member_wrote now n e) =
    quiet a b (Move-Identity a b (member_wrote now n e)) (rw e refl) (rw e refl) (rw e refl)
      (rw e refl)
Move-IsLater a b (support_wrote now n e) =
    quiet a b (Move-Identity a b (support_wrote now n e)) (rw e refl) (rw e refl) (rw e refl)
      (rw e refl)
Move-IsLater a b (closed now n e) = record {
  identity = Move-Identity a b (closed now n e);
  status_on = rw e (ground (arith, n));
  assignee_stays = λ h. rw e h;
  owner_final = λ h. rw e refl;
  end_final = λ h. ground (arith, n, h);
  rating_final = λ h. rw e refl;
}
Move-IsLater a b (rated_with n c now r u lo hi e) = record {
  identity = Move-Identity a b (rated_with n c now r u lo hi e);
  status_on = rw e (ground arith);
  assignee_stays = λ h. rw e h;
  owner_final = λ h. rw e refl;
  end_final = λ h. rw e refl;
  rating_final = λ h. ground (arith, u, h);
}
Move-IsLater a b (read_by_member e) =
    quiet a b (Move-Identity a b (read_by_member e)) (rw e refl) (rw e refl) (rw e refl) (rw e refl)
Move-IsLater a b (read_by_support e) =
    quiet a b (Move-Identity a b (read_by_support e)) (rw e refl) (rw e refl) (rw e refl)
      (rw e refl)

-- Every ticket of `s` is still there, later in its life, and every message as it was.
pub record IsPast (s t : Store) : Type 0 where
  pub tickets : Grows IsLater s.tickets t.tickets
  pub messages : Grows (λ a b. a ≡ b) s.messages t.messages

same_messages : (ms : List TicketMessage) → Grows (λ a b. a ≡ b) ms ms
same_messages ms = Grows-refl _ (λ a. refl) ms

moved-IsLater :
    (w : Ticket → Bool) (f : Ticket → Ticket)
    → ((a : Ticket) → w a ≡ true → Move a (f a))
    → (ts : List Ticket) → Grows IsLater ts (update_where w f ts)
moved-IsLater w f move ts =
    Grows-update_where IsLater w f IsLater-refl (λ a p. Move-IsLater a (f a) (move a p)) ts

Write-IsPast : (s t : Store) → Write s t → IsPast s t
Write-IsPast s t (aside es os ps inbox e) =
    rw e (record { tickets = Grows-refl _ IsLater-refl _; messages = same_messages _ })
Write-IsPast s t (moved w f move e) =
    rw e (record { tickets = moved-IsLater w f move _; messages = same_messages _ })
Write-IsPast s t (raised k id op un nr nra nres free e) =
    rw e (record { tickets = Grows-append _ IsLater-refl _ _; messages = same_messages _ })
Write-IsPast s t (posted w f m move at c i free e) =
    rw e (record { tickets = moved-IsLater w f move _; messages = Grows-append _ (λ a. refl) _ _ })

pub Reach-IsPast : (s t : Store) → Reach s t → IsPast s t
Reach-IsPast s t here = record { tickets = Grows-refl _ IsLater-refl _; messages = same_messages _ }
Reach-IsPast s t (next {t = u} p w) =
    let first = Reach-IsPast s u p in
    let last = Write-IsPast u t w in
    record {
      tickets = Grows-trans _ IsLater-trans _ _ _ first.tickets last.tickets;
      messages = Grows-trans _ (λ a b c x y. x ∙ y) _ _ _ first.messages last.messages;
    }

-- A run of ticket requests, in any calm interleaving, takes nothing back. No ticket row disappears or
-- changes its id, owner, community or request id; no status goes back, from resolved least of all; a
-- ticket that has an assignee keeps having one; once it is resolved its assignee and its end time are
-- final, and once it is rated the rating is; and no stored message is changed or removed.
pub run-IsPast : (rs : List (Env × Request)) → All IsServed rs → (s : Store) → IsPast s (run rs s)
run-IsPast rs served s = Reach-IsPast s (run rs s) (run-Reach rs served s)

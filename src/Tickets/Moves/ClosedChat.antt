-- ===== src/Tickets/Moves/ClosedChat.antt =====
-- The chat of a resolved ticket (apps/backend/src/modules/tickets).
use finskool_monorepo.Base.{
  ℕ, ◌<◌, ◌≡◌, ◌≢◌, refl, ◌∙◌, Bool, true, false, not, ◌&&◌, ◌==◌, arith, List, ◌∷◌, [], ◌++◌, some,
  All, count_where, any_where, update_where, find_many, find_first-holds, find_first-All,
  any_where-key, ==→eq, subst, any_where-update_false, any_where-append, any_where-witness,
  any_where-of_mem, any_where-count_where, Bool-cases, inl, inr,
}
use finskool_monorepo.Tickets.{Ticket, TicketMessage, Env, Store, is_resolved, find_ticket}
use finskool_monorepo.Tickets.Moves.{Move, Write, aside, moved, raised, posted, Reach, here, next}
use finskool_monorepo.Tickets.Moves.Valid.{Move-Identity}
use finskool_monorepo.Tickets.Moves.Constraints.{IsStore}
use finskool_monorepo.Tickets.Moves.Past.{Move-IsLater, stays_resolved}
use finskool_monorepo.Tickets.Moves.Handle.{Request, run, IsServed, run-Reach}

-- The messages of one ticket.
abbrev pub chat : ℕ → Store → List TicketMessage
chat id s = find_many (λ m. m.ticket_id == id) s.messages

is_live : ℕ → Ticket → Bool
is_live id t = not (is_resolved t.status) && t.id == id

abbrev IsClosed : ℕ → Store → Type 0
IsClosed id s = (id < s.next_id) × (any_where (is_live id) s.tickets ≡ false)

live_back : (id : ℕ) (a b : Ticket) → Move a b → is_live id a ≡ false → is_live id b ≡ false
unfolding is_live
live_back id a b m h = ground (
  arith,
  h,
  (Move-Identity a b m).0,
  stays_resolved a.status b.status (Move-IsLater a b m).status_on,
)

moved-closed :
    (id : ℕ) (w : Ticket → Bool) (f : Ticket → Ticket)
    → ((a : Ticket) → w a ≡ true → Move a (f a))
    → (ts : List Ticket) → any_where (is_live id) ts ≡ false
    → any_where (is_live id) (update_where w f ts) ≡ false
moved-closed id w f move ts h =
    any_where-update_false _ w f ts (λ a p. live_back id a (f a) (move a p)) h

-- A counted row that is not resolved is live.
counted_live :
    (w : Ticket → Bool) (id : ℕ) (ts : List Ticket)
    → ((a : Ticket) → w a ≡ true → (a.id ≡ id) × (is_resolved a.status ≡ false))
    → count_where w ts ≢ 0
    → any_where (is_live id) ts ≡ true
unfolding is_live
counted_live w id ts at c =
    let (a, m, p) = any_where-witness w ts (ground (arith, any_where-count_where w ts, c)) in
    any_where-of_mem _ ts m (ground (arith, (at a p).0, (at a p).1))

chat-append :
    (id : ℕ) (m : TicketMessage) (ms : List TicketMessage)
    → (m.ticket_id == id) ≡ false
    → find_many (λ n. n.ticket_id == id) (ms ++ m ∷ []) ≡ find_many (λ n. n.ticket_id == id) ms
unfolding find_many
chat-append id m [] h = rw h refl
chat-append id m (n ∷ ms) h = rw (chat-append id m ms h) refl

-- The ticket stays closed, and its chat stays as it is.
abbrev IsShut : ℕ → Store → Store → Type 0
IsShut id s t = IsClosed id t × (chat id t ≡ chat id s)

-- A message for this ticket would need a live row of it.
other_ticket :
    (w : Ticket → Bool) (m : TicketMessage) (id : ℕ) (ts : List Ticket)
    → ((a : Ticket) → w a ≡ true → (a.id ≡ m.ticket_id) × (is_resolved a.status ≡ false))
    → count_where w ts ≢ 0
    → any_where (is_live id) ts ≡ false
    → (m.ticket_id == id) ≡ false
other_ticket w m id ts at c h = elim (Bool-cases (m.ticket_id == id)) [
  | inr n ↦ n
  | inl p ↦
      let live : any_where (is_live id) ts ≡ true =
        subst (λ i. any_where (is_live i) ts ≡ true) (==→eq _ _ p)
          (counted_live w m.ticket_id ts at c) in
      cc
]

Write-IsShut : (id : ℕ) (s t : Store) → Write s t → IsClosed id s → IsShut id s t
unfolding any_where is_live
Write-IsShut id s t (aside es os ps inbox e) h = rw e (h, refl)
Write-IsShut id s t (moved w f move e) h =
    rw e ((h.0, moved-closed id w f move s.tickets h.1), refl)
Write-IsShut id s t (raised k i op un nr nra nres free e) h = rw e (
  (
    omega (arith, h.0),
    rw (any_where-append (is_live id) s.tickets (k ∷ []), h.1) (ground (arith, i, h.0)),
  ),
  refl,
)
Write-IsShut id s t (posted w f m move at c i free e) h = rw e (
  (omega (arith, h.0), moved-closed id w f move s.tickets h.1),
  chat-append id m s.messages (other_ticket w m id s.tickets at c h.1),
)

Reach-IsShut : (id : ℕ) (s t : Store) → Reach s t → IsClosed id s → IsShut id s t
Reach-IsShut id s t here h = (h, refl)
Reach-IsShut id s t (next {t = u} p w) h =
    let (closed, same) = Reach-IsShut id s u p h in
    let (closed', same') = Write-IsShut id u t w closed in (closed', same' ∙ same)

resolved-IsClosed :
    (id : ℕ) (s : Store) (t : Ticket)
    → IsStore s
    → find_ticket id s ≡ some t
    → is_resolved t.status ≡ true
    → IsClosed id s
unfolding is_live
resolved-IsClosed id s t h f r =
    let below = find_first-All _ _ s.tickets h.ids_below f in
    let same = ==→eq _ _ (find_first-holds _ s.tickets f) in
    (
      rw (← same) below,
      any_where-key (λ u. u.id) (λ u. not (is_resolved u.status)) id s.tickets h.one_row
          ∙ rw (f, r) refl,
    )

-- Once a ticket is resolved, no run of ticket requests, in any calm interleaving, adds a message to
-- its chat or changes one: the messages of the ticket after the run are those before it.
pub run-chat :
    (rs : List (Env × Request))
    → All IsServed rs
    → (s : Store) → IsStore s
    → (id : ℕ) (t : Ticket) → find_ticket id s ≡ some t
    → is_resolved t.status ≡ true
    → chat id (run rs s) ≡ chat id s
run-chat rs served s h id t f r =
    (Reach-IsShut id s (run rs s) (run-Reach rs served s) (resolved-IsClosed id s t h f r)).1

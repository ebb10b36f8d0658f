-- ===== src/Tickets/Moves/Constraints.antt =====
-- The constraints of the tables (schema.prisma: primary keys, `uq_tickets_user_request`,
-- `uq_ticket_messages_client_id`, the foreign key of a message), with the condition on each ticket.
use finskool_monorepo.Base.{
  ℕ, suc, ◌<◌, ◌≡◌, ◌≢◌, refl, Bool, true, false, ◌==◌, arith, List, ◌∷◌, [], ◌++◌, All, All-append,
  All-imp, All-update_where, count_where, any_where, update_where, any_where-append,
  any_where-count_where, any_where-witness, any_where-of_mem, sym, UniqueBy, UniqueBy-append,
  UniqueBy-update_where, any_where-update_cond,
}
use finskool_monorepo.Tickets.{Ticket, TicketMessage, Env, Store, is_message}
use finskool_monorepo.Tickets.Create.{is_request}
use finskool_monorepo.Tickets.Moves.{Move, Write, aside, moved, raised, posted, Reach, here, next}
use finskool_monorepo.Tickets.Moves.Handle.{Request, run, IsServed, run-Reach}
use finskool_monorepo.Tickets.Moves.Valid.{IsTicket, Move-IsTicket, Move-Identity}

abbrev pub same_id : Ticket → Ticket → Bool
same_id a b = b.id == a.id

abbrev pub same_request : Ticket → Ticket → Bool
same_request a b = is_request a.user_id a.client_request_id b

abbrev pub same_message : TicketMessage → TicketMessage → Bool
same_message a b = is_message a.ticket_id a.client_message_id b

abbrev pub has_ticket : List Ticket → ℕ → Bool
has_ticket ts id = any_where (λ t. t.id == id) ts

-- The database's own constraints, and the condition on each ticket.
pub record IsStore (s : Store) : Type 0 where
  pub tickets : All IsTicket s.tickets
  pub ids_below : All (λ t. t.id < s.next_id) s.tickets
  pub message_ids_below : All (λ m. m.id < s.next_id) s.messages
  pub one_row : UniqueBy same_id s.tickets
  pub one_request : UniqueBy same_request s.tickets
  pub one_message : UniqueBy same_message s.messages
  pub parents : All (λ m. has_ticket s.tickets m.ticket_id ≡ true) s.messages

no_row : (n : ℕ) (ts : List Ticket) → All (λ t. t.id < n) ts → any_where (λ t. t.id == n) ts ≡ false
unfolding any_where
no_row n [] h = refl
no_row n (t ∷ ts) h = ground (arith, no_row n ts h.1, h.0)

module _ (w : Ticket → Bool) (f : Ticket → Ticket)
    (move : (a : Ticket) → w a ≡ true → Move a (f a)) where
  id_kept : (a : Ticket) → w a ≡ true → (f a).id ≡ a.id
  id_kept a p = sym (Move-Identity _ _ (move a p)).0

  user_kept : (a : Ticket) → w a ≡ true → (f a).user_id ≡ a.user_id
  user_kept a p = sym (Move-Identity _ _ (move a p)).1

  request_kept : (a : Ticket) → w a ≡ true → (f a).client_request_id ≡ a.client_request_id
  request_kept a p = sym (Move-Identity _ _ (move a p)).3

  pub has_ticket-update_where :
      (ts : List Ticket) (id : ℕ) → has_ticket (update_where w f ts) id ≡ has_ticket ts id
  has_ticket-update_where ts id = any_where-update_cond _ w f ts (λ a p. rw (id_kept a p) refl)

  moved-IsStore :
      (s : Store) → IsStore s → IsStore (record s { tickets = update_where w f s.tickets })
  moved-IsStore s h = record {
    tickets = All-update_where _ w f (λ a p. Move-IsTicket _ _ (move a p)) _ h.tickets;
    ids_below = All-update_where _ w f (λ a p q. rw (id_kept a p) q) _ h.ids_below;
    message_ids_below = h.message_ids_below;
    one_row =
        UniqueBy-update_where same_id w f (λ x y p. rw (id_kept x p) refl)
          (λ x y p. rw (id_kept y p) refl) _ h.one_row;
    one_request =
        UniqueBy-update_where same_request w f (λ x y p. rw (user_kept x p, request_kept x p) refl)
          (λ x y p. rw (user_kept y p, request_kept y p) refl) _ h.one_request;
    one_message = h.one_message;
    parents = All-imp _ _ (λ m p. rw (has_ticket-update_where s.tickets m.ticket_id) p) _ h.parents;
  }

raised-IsStore :
    (k : Ticket) (s : Store)
    → k.id ≡ s.next_id
    → IsTicket k
    → any_where (is_request k.user_id k.client_request_id) s.tickets ≡ false
    → IsStore s
    → IsStore (record s { tickets = s.tickets ++ k ∷ []; next_id = suc s.next_id })
unfolding any_where
raised-IsStore k s e ok free h = record {
  tickets = All-append _ _ _ h.tickets (ok, tt);
  ids_below =
      All-append _ _ _ (All-imp _ _ (λ t p. omega (arith, p)) _ h.ids_below) (omega (arith, e), tt);
  message_ids_below = All-imp _ _ (λ m p. omega (arith, p)) _ h.message_ids_below;
  one_row =
      UniqueBy-append same_id k (λ x. ground arith) _ (rw e (no_row _ _ h.ids_below)) h.one_row;
  one_request = UniqueBy-append same_request k (λ x. ground arith) _ free h.one_request;
  one_message = h.one_message;
  parents = All-imp _ _ (λ m p. rw (any_where-append _ s.tickets (k ∷ []), p) refl) _ h.parents;
}

posted-IsStore :
    (m : TicketMessage) (s : Store)
    → m.id ≡ s.next_id
    → has_ticket s.tickets m.ticket_id ≡ true
    → any_where (is_message m.ticket_id m.client_message_id) s.messages ≡ false
    → IsStore s
    → IsStore (record s { messages = s.messages ++ m ∷ []; next_id = suc s.next_id })
posted-IsStore m s e parent free h = record {
  tickets = h.tickets;
  ids_below = All-imp _ _ (λ t p. omega (arith, p)) _ h.ids_below;
  message_ids_below =
      All-append _ _ _ (All-imp _ _ (λ n p. omega (arith, p)) _ h.message_ids_below)
        (omega (arith, e), tt);
  one_row = h.one_row;
  one_request = h.one_request;
  one_message = UniqueBy-append same_message m (λ x. ground arith) _ free h.one_message;
  parents = All-append _ _ _ h.parents (parent, tt);
}

-- A counted row is there.
pub counted_parent :
    (w : Ticket → Bool) (id : ℕ) (ts : List Ticket)
    → ((a : Ticket) → w a ≡ true → a.id ≡ id)
    → count_where w ts ≢ 0
    → has_ticket ts id ≡ true
counted_parent w id ts at c =
    let (a, m, p) = any_where-witness w ts (ground (arith, any_where-count_where w ts, c)) in
    any_where-of_mem _ ts m (ground (arith, at a p))

Write-IsStore : (s t : Store) → Write s t → IsStore s → IsStore t
Write-IsStore s t (aside es os ps inbox e) h = rw e (record {
  tickets = h.tickets;
  ids_below = h.ids_below;
  message_ids_below = h.message_ids_below;
  one_row = h.one_row;
  one_request = h.one_request;
  one_message = h.one_message;
  parents = h.parents;
})
Write-IsStore s t (moved w f move e) h = rw e (moved-IsStore w f move s h)
Write-IsStore s t (raised k id op un nr nra nres free e) h = rw e (
    raised-IsStore k s id
      (record {
        assignee = rw (op, un) refl;
        resolved_once = rw (op, nres) refl;
        rated_when = rw (nr, nra) refl;
        rated_after = rw nr refl;
        stars = rw nr refl;
        nothing_left = rw op refl;
      })
      free h)
Write-IsStore s t (posted w f m move at c i free e) h = rw e (
    posted-IsStore m (record s { tickets = update_where w f s.tickets }) i
      (rw (has_ticket-update_where w f move s.tickets m.ticket_id)
        (counted_parent w m.ticket_id s.tickets (λ a p. (at a p).0) c))
      free (moved-IsStore w f move s h))

pub Reach-IsStore : {s t : Store} → Reach s t → IsStore s → IsStore t
Reach-IsStore here h = h
Reach-IsStore (next p w) h = Write-IsStore _ _ w (Reach-IsStore p h)

-- Every run of ticket requests, answered or refused and in any calm interleaving, keeps the tables
-- consistent. An open ticket has no assignee and one in progress has one; a ticket has an end time
-- exactly when it is resolved, and then nothing is left unread for the support team; only a resolved
-- ticket is rated, once, with one to five stars; ids are unique, a user has one ticket for a request
-- id, a ticket one message for a client id; and every message belongs to a ticket.
pub run-IsStore :
    (rs : List (Env × Request)) → All IsServed rs → (s : Store) → IsStore s → IsStore (run rs s)
run-IsStore rs served s h = Reach-IsStore (run-Reach rs served s) h

-- ===== src/Tickets/Moves/Claimed.antt =====
-- Whose a ticket is when a claim is answered (`claim` of
-- apps/backend/src/modules/tickets/admin-tickets.service.ts).
use finskool_monorepo.Base.{
  ℕ, ◌≡◌, ◌≢◌, refl, ap, sym, subst, ◌∙◌, Bool, true, false, not, ◌&&◌, ◌==◌, arith, List, [], ◌∷◌,
  ◌++◌, some, none, Result, ok, err, is_none, is_id, if◌then◌else◌, find_first, any_where,
  count_where, update_where, any_where-count_where, any_where-witness, any_where-of_mem, UniqueBy,
  Bool-cases, inl, inr, ==_refl, holds, AppError,
}
use finskool_monorepo.Tickets.{
  Ticket, TicketEvent, TicketEventType, Env, Store, pure, throw_if, or_throw, transaction,
  update_tickets, add_event, publish, modify, find_ticket, is_resolved, ◌>>=◌, not_found,
}
use finskool_monorepo.Tickets.Wire.{await_others, publish_both}
use finskool_monorepo.Tickets.Support.{
  AdminActor, not_visible, get_visible, take_by, claim_in_tx, publish_updated, show_updated,
  claim_lost, claim_open, claim,
}
use finskool_monorepo.Tickets.Moves.{Calm, Reach, here}
use finskool_monorepo.Tickets.Moves.Answers.{answer, bind_answers, or_throw_answers}
use finskool_monorepo.Tickets.Moves.Rules.{Keeps-await_others, Keeps-transaction, Reach-trans}
use finskool_monorepo.Tickets.Moves.Requests.{Keeps-claim_in_tx, Keeps-shown}
use finskool_monorepo.Tickets.Moves.Constraints.{IsStore, Reach-IsStore, same_id}

-- The row with an id is the updated one, if the update reached a row with that id and ids are unique.
module _ (id : ℕ) (w : Ticket → Bool) (f : Ticket → Ticket) (P : Ticket → Type 0)
    (at : (a : Ticket) → w a ≡ true → (a.id == id) ≡ true)
    (same : (a : Ticket) → w a ≡ true → (f a).id ≡ a.id)
    (holds_of : (a : Ticket) → w a ≡ true → P (f a)) where
  -- The row is still found after the update.
  found_row :
      (xs : List Ticket)
      → count_where w xs ≢ 0
      → (k : Ticket) × (find_first (λ t. t.id == id) (update_where w f xs) ≡ some k)
  unfolding find_first update_where count_where
  found_row [] c = elim (c refl) [ ]
  found_row (x ∷ xs) c = elim (Bool-cases (w x)) [
    | inl p ↦
        let here_id : ((f x).id == id) ≡ true = rw (same x p) (at x p) in
        (f x, ground (arith, p, here_id))
    | inr n ↦ elim (Bool-cases (x.id == id)) [
      | inl q ↦ (x, ground (arith, n, q))
      | inr r ↦
          let (k, e) = found_row xs (λ z. c (ground (arith, z, n))) in (k, ground (arith, e, n, r))
    ]
  ]

  only_row :
      (x : Ticket) (xs : List Ticket)
      → (x.id == id) ≡ true
      → any_where (same_id x) xs ≡ false
      → count_where w xs ≡ 0
  only_row x xs q u = elim (Bool-cases (count_where w xs == 0)) [
    | inl z ↦ ground (arith, z)
    | inr n ↦
        let (a, m, p) = any_where-witness w xs (ground (arith, any_where-count_where w xs, n)) in
        let e : any_where (same_id x) xs ≡ true =
          any_where-of_mem _ xs m (ground (arith, at a p, q)) in
        cc
  ]

  updated_row :
      (xs : List Ticket) (k : Ticket)
      → UniqueBy same_id xs
      → count_where w xs ≢ 0
      → find_first (λ t. t.id == id) (update_where w f xs) ≡ some k
      → P k
  unfolding find_first update_where count_where
  updated_row [] k u c e = cc
  updated_row (x ∷ xs) k u c e = elim (Bool-cases (w x)) [
    | inl p ↦
        let here_id : ((f x).id == id) ≡ true = rw (same x p) (at x p) in
        let found : f x ≡ k = ground (arith, e, p, here_id) in subst P found (holds_of x p)
    | inr n ↦ elim (Bool-cases (x.id == id)) [
      | inl q ↦
          let z : count_where w xs ≡ 0 = only_row x xs q u.0 in elim (c (ground (arith, z, n))) [ ]
      | inr r ↦ updated_row xs k u.1 (λ z. c (ground (arith, z, n))) (ground (arith, e, n, r))
    ]
  ]

module _ (a : AdminActor) (id : ℕ) where
  -- The row that a store has under the id is the caller's.
  abbrev pub IsOwner : Store → Type 0
  IsOwner u = (x : Ticket) × (find_ticket id u ≡ some x) × (is_id x.assigned_admin_id a.id ≡ true)

  -- The row in the store `t` is the one answered with, and it is the caller's in a store on the way.
  abbrev pub IsMine : Store → Ticket → Store → Type 0
  IsMine s k t = (find_ticket id t ≡ some k) × (u : Store) × (Reach s u) × (Reach u t) × (IsOwner u)

  get_visible_answers :
      (s : Store) (k : Ticket) (t : Store)
      → get_visible a id s ≡ (ok k, t)
      → (find_ticket id s ≡ some k) × (s ≡ t)
  unfolding get_visible ◌>>=◌ throw_if
  get_visible_answers s k t h =
      let found = find_ticket id s in
      let (u, s1, e1, r1) =
        bind_answers (λ _. or_throw found not_found) k t (throw_if (not_visible a found) not_found)
          s h in
      let (e, back) = or_throw_answers found not_found s1 k t r1 in (e, ap (λ r. r.1) e1 ∙ back)

  not_thrown :
      (c : Bool) (e : AppError) (s : Store) (v : Unit {0}) (u : Store)
      → throw_if c e s ≡ (ok v, u)
      → (c ≡ false) × (s ≡ u)
  unfolding throw_if
  not_thrown true e s v u h = cc
  not_thrown false e s v u h = (refl, ap (λ r. r.1) h)

  pure_answers :
      (k' : Ticket) (s : Store) (k : Ticket) (t : Store)
      → pure k' s ≡ (ok k, t)
      → (some k' ≡ some k) × (s ≡ t)
  unfolding pure
  pure_answers k' s k t h = (ap (λ r. answer r.0) h, ap (λ r. r.1) h)

  claim_lost-IsMine :
      (s : Store) (k : Ticket) (t : Store)
      → claim_lost a id s ≡ (ok k, t)
      → (find_ticket id t ≡ some k) × (is_id k.assigned_admin_id a.id ≡ true)
  unfolding claim_lost
  claim_lost-IsMine s k t h =
      let (k', s1, e1, r1) = bind_answers _ k t (get_visible a id) s h in
      let (found, stay1) = get_visible_answers s k' s1 e1 in
      let (v, s2, e2, r2) = bind_answers _ k t _ s1 r1 in
      let (mine, stay2) = not_thrown _ _ s1 v s2 e2 in
      let (same, stay3) = pure_answers k' s2 k t r2 in
      (
        subst (λ u. find_ticket id u ≡ some k) (stay1 ∙ stay2 ∙ stay3) (found ∙ same),
        subst (λ o. holds (λ x. is_id x.assigned_admin_id a.id) o ≡ true) same
            (ground (arith, mine)),
      )

  publish_updated-tickets : (k : Ticket) (s : Store) → (publish_updated k s).1.tickets ≡ s.tickets
  unfolding publish_updated publish_both publish modify ◌>>=◌
  publish_updated-tickets k s = refl

  show_updated-shown :
      (s : Store) (k : Ticket) (t : Store)
      → show_updated a id s ≡ (ok k, t)
      → find_ticket id t ≡ some k
  unfolding show_updated
  show_updated-shown s k t h =
      let (k', s1, e1, r1) = bind_answers _ k t (get_visible a id) s h in
      let (found, stay1) = get_visible_answers s k' s1 e1 in
      let (v, s2, e2, r2) = bind_answers _ k t (publish_updated k') s1 r1 in
      let kept : s2.tickets ≡ s1.tickets =
        subst (λ r. r.1.tickets ≡ s1.tickets) e2 (publish_updated-tickets k' s1) in
      let (same, stay3) = pure_answers k' s2 k t r2 in
      let here : find_ticket id s1 ≡ some k =
        subst (λ u. find_ticket id u ≡ some k) stay1 (found ∙ same) in
      subst (λ u. find_ticket id u ≡ some k) stay3
        (subst (λ ts. find_first (λ x. x.id == id) ts ≡ some k) (sym kept) here)

  abbrev is_free : Ticket → Bool
  is_free t = t.id == id && is_none t.assigned_admin_id && not (is_resolved t.status)

  -- What the transaction says of the row.
  abbrev Taken : Result Bool × Store → Type 0
  Taken (ok true, s) = IsOwner s
  Taken (ok false, s) = Unit
  Taken (err e, s) = Unit

  commit : Store → Result Bool × Store → Result Bool × Store
  commit s r = elim r.0 [ ok b ↦ (ok b, r.1) | err e ↦ (err e, s) ]

  abbrev assignment : TicketEvent
  assignment = record { ticket_id = id; kind = TicketEventType.assigned a.id none; actor_id = a.id }

  -- The two ways in which the transaction ends.
  not_claimed :
      (s : Store)
      → (count_where is_free s.tickets == 0) ≡ true
      → claim_in_tx id a.id s
        ≡ (ok false, record s { tickets = update_where is_free (take_by a.id) s.tickets })
  unfolding claim_in_tx ◌>>=◌ update_tickets pure
  not_claimed s z = rw z refl

  claimed :
      (s : Store)
      → (count_where is_free s.tickets == 0) ≡ false
      → claim_in_tx id a.id s ≡ (
        ok true,
        record s {
          tickets = update_where is_free (take_by a.id) s.tickets;
          events = s.events ++ assignment ∷ [];
        },
      )
  unfolding claim_in_tx ◌>>=◌ update_tickets add_event modify pure
  claimed s n = rw n refl

  abbrev Owned : Ticket → Type 0
  Owned y = is_id y.assigned_admin_id a.id ≡ true

  take_by-Owned : (y : Ticket) → is_free y ≡ true → Owned (take_by a.id y)
  take_by-Owned y p = ==_refl a.id

  claim_in_tx-Taken : (s : Store) → IsStore s → Taken (transaction (claim_in_tx id a.id) s)
  unfolding commit transaction
  claim_in_tx-Taken s h = elim (Bool-cases (count_where is_free s.tickets == 0)) [
    | inl z ↦ subst (λ r. Taken (commit s r)) (sym (not_claimed s z)) tt
    | inr n ↦
        subst (λ r. Taken (commit s r)) (sym (claimed s n))
          (let at : (y : Ticket) → is_free y ≡ true → (y.id == id) ≡ true =
              λ y p. ground (arith, p) in
            let some_row : count_where is_free s.tickets ≢ 0 = λ c. ground (arith, c, n) in
            let (x, e) =
              found_row id is_free (take_by a.id) Owned at (λ y p. refl) take_by-Owned s.tickets
                some_row in
            (
              x,
              e,
              updated_row id is_free (take_by a.id) Owned at (λ y p. refl) take_by-Owned s.tickets x
                  h.one_row some_row e,
            ))
  ]

  -- The row re-read after the others: `u` is the store that the transaction left.
  ended :
      (b : Bool) (s u v : Store) (k : Ticket) (t : Store)
      → Reach s u
      → Reach u v
      → Reach v t
      → Taken (ok b, u)
      → (if b then show_updated a id else claim_lost a id) v ≡ (ok k, t)
      → IsMine s k t
  ended true s u v k t p q r mine run = (show_updated-shown v k t run, u, p, Reach-trans q r, mine)
  ended false s u v k t p q r mine run =
      let (found, own) = claim_lost-IsMine v k t run in
      (found, t, Reach-trans p (Reach-trans q r), here, (k, found, own))

  claim_open-IsMine :
      (env : Env)
      → Calm env
      → (s : Store) (k : Ticket) (t : Store) → IsStore s
      → claim_open env a id s ≡ (ok k, t)
      → IsMine s k t
  unfolding claim_open
  claim_open-IsMine env calm s k t h run =
      let others : (x : Store) → Reach x (await_others env x).1 =
        λ x. (Keeps-await_others env calm).path x in
      let (v, s1, e1, r1) = bind_answers _ k t (await_others env) s run in
      let to1 : Reach s s1 = subst (λ r. Reach s r.1) e1 (others s) in
      let (b, s2, e2, r2) = bind_answers _ k t (transaction (claim_in_tx id a.id)) s1 r1 in
      let to2 : Reach s1 s2 =
        subst (λ r. Reach s1 r.1) e2 ((Keeps-transaction _ (Keeps-claim_in_tx id a.id)).path s1) in
      let (v', s3, e3, r3) = bind_answers _ k t (await_others env) s2 r2 in
      let to3 : Reach s2 s3 = subst (λ r. Reach s2 r.1) e3 (others s2) in
      let to4 : Reach s3 t = subst (λ r. Reach s3 r.1) r3 ((Keeps-shown a id b).path s3) in
      ended b s s2 s3 k t (Reach-trans to1 to2) to3 to4
        (subst Taken e2 (claim_in_tx-Taken s1 (Reach-IsStore to1 h))) r3

  claimed_or_mine :
      (env : Env)
      → Calm env
      → (b : Bool) (k' : Ticket) (s : Store) (k : Ticket) (t : Store) → IsStore s
      → find_ticket id s ≡ some k'
      → is_id k'.assigned_admin_id a.id ≡ b
      → (if b then pure k' else claim_open env a id) s ≡ (ok k, t)
      → IsMine s k t
  claimed_or_mine env calm false k' s k t h found e run = claim_open-IsMine env calm s k t h run
  claimed_or_mine env calm true k' s k t h found e run =
      let (same, stay) = pure_answers k' s k t run in
      let at_end : find_ticket id t ≡ some k =
        subst (λ u. find_ticket id u ≡ some k) stay (found ∙ same) in
      let own : is_id k.assigned_admin_id a.id ≡ true =
        subst (λ o. holds (λ x. is_id x.assigned_admin_id a.id) o ≡ true) same e in
      (at_end, t, subst (λ u. Reach s u) stay here, here, (k, at_end, own))

-- A claim is only answered with a ticket that the caller came to own. In any calm interleaving, the
-- ticket that `claim` answers with is the row as the store then has it, and at a moment between the
-- request and the answer the row with that id had the caller as its assignee. It need not have at the
-- answer: another request may hand the ticket on after the claim is committed.
pub claim-IsMine :
    (env : Env) (a : AdminActor) (id : ℕ) (s : Store) (k : Ticket) (t : Store)
    → Calm env
    → IsStore s
    → claim env a id s ≡ (ok k, t)
    → (find_ticket id t ≡ some k)
      × (u : Store) × (Reach s u)
      × (Reach u t)
      × ((x : Ticket) × (find_ticket id u ≡ some x) × (is_id x.assigned_admin_id a.id ≡ true))
unfolding claim
claim-IsMine env a id s k t calm h run =
    let (k', s1, e1, r1) = bind_answers _ k t (get_visible a id) s run in
    let (found, stay1) = get_visible_answers a id s k' s1 e1 in
    let (v, s2, e2, r2) = bind_answers _ k t _ s1 r1 in
    let (open_still, stay2) = not_thrown a id _ _ s1 v s2 e2 in
    subst (λ u. IsMine a id u k t) (sym (stay1 ∙ stay2))
      (claimed_or_mine a id env calm (is_id k'.assigned_admin_id a.id) k' s2 k t
        (subst IsStore (stay1 ∙ stay2) h)
        (subst (λ u. find_ticket id u ≡ some k') (stay1 ∙ stay2) found) refl r2)

-- ===== src/Tickets/Moves/Again/Stored.antt =====
-- What a retry finds once `sendMessage` of tickets.service.ts has answered.
use finskool_monorepo.Base.{
  ℕ, suc, ◌+◌, ◌<◌, ◌≡◌, refl, ap, sym, subst, ◌∙◌, Bool, true, false, not, ◌&&◌, ◌||◌, ◌==◌, arith,
  List, [], ◌∷◌, ◌++◌, Option, some, none, Result, ok, err, is_none, is_unique_violation,
  if◌then◌else◌, All, Grows, find_first, any_where, count_where, update_where, Bool-cases, inl, inr,
  length, AppError, ==_refl,
}
use finskool_monorepo.Tickets.{
  Ticket, TicketMessage, Attachment, Env, Store, Action, pure, throw, gets, throw_if, or_throw,
  transaction, attempt, publish, update_tickets, create_message, find_message, find_ticket,
  is_message, is_resolved, ◌>>=◌, not_found,
}
use finskool_monorepo.Tickets.Wire.{await_others, publish_both, tell_admins, tickets_prefix}
use finskool_monorepo.Tickets.Member.{
  SendMessage, member_message, ping_admins, announce_message, message_committed,
  post_member_message, send_new,
}
use finskool_monorepo.Tickets.Moves.{Calm, Reach}
use finskool_monorepo.Tickets.Moves.Past.{Reach-IsPast}
use finskool_monorepo.Tickets.Moves.Answers.{
  answer, bind_answers, find_first-append_new, or_throw_answers,
}
use finskool_monorepo.Tickets.Moves.Rules.{Keeps-await_others}
use finskool_monorepo.Tickets.Moves.Requests.{Keeps-resolve_attachments}
use finskool_monorepo.Tickets.Moves.Constraints.{IsStore, Reach-IsStore}

no_message :
    (n : ℕ) (ms : List TicketMessage)
    → All (λ m. m.id < n) ms
    → any_where (λ m. m.id == n) ms ≡ false
unfolding any_where
no_message n [] h = refl
no_message n (m ∷ ms) h = ground (arith, no_message n ms h.1, h.0)

-- What a look-up finds in the messages of a store is found in every later one.
pub still_found :
    (w : TicketMessage → Bool) (m : TicketMessage)
    → (ms ns : List TicketMessage) → Grows (λ a b. a ≡ b) ms ns
    → find_first w ms ≡ some m
    → find_first w ns ≡ some m
unfolding find_first
still_found w m [] ns g h = cc
still_found w m (x ∷ ms) [] g h = elim g [ ]
still_found w m (x ∷ ms) (y ∷ ns) g h = elim (Bool-cases (w x)) [
  | inl p ↦
      let e : x ≡ m = ground (arith, h, p) in
      let q : w y ≡ true = subst (λ z. w z ≡ true) g.0 p in rw q (ap some (sym g.0 ∙ e))
  | inr n ↦
      let q : w y ≡ false = subst (λ z. w z ≡ false) g.0 n in
      let e : find_first w ms ≡ some m = ground (arith, h, n) in rw q (still_found w m ms ns g.1 e)
]

module _ (env : Env) (user_id id : ℕ) (dto : SendMessage) where
  -- What the transaction answers with is the message that a retry would find.
  abbrev Fits : Result ℕ → Store → Type 0
  Fits (ok i) s =
      (x : TicketMessage) × (find_first (λ m. m.id == i) s.messages ≡ some x)
      × (find_message id dto.client_message_id s ≡ some x)
  Fits (err e) s = Unit

  Fits-later : (r : Result ℕ) (s t : Store) → Reach s t → Fits r s → Fits r t
  Fits-later (err e) s t p f = tt
  Fits-later (ok i) s t p (x, by_id, by_key) =
      let kept = (Reach-IsPast s t p).messages in
      (x, still_found _ x _ _ kept by_id, still_found _ x _ _ kept by_key)

  FitsPair : Result ℕ × Store → Type 0
  FitsPair r = Fits r.0 r.1

  abbrev may_bump : Ticket → Bool
  may_bump t = t.id == id && t.user_id == user_id && not (is_resolved t.status)

  abbrev bump : Ticket → Ticket
  bump t = record t { last_message_at = env.now; admin_unread_count = t.admin_unread_count + 1 }

  -- The two ways in which the transaction ends.
  not_posted :
      (attachments : List Attachment) (s : Store)
      → count_where may_bump s.tickets == 0
          || any_where (is_message id dto.client_message_id) s.messages
        ≡ true
      → FitsPair (transaction (post_member_message env user_id id dto attachments) s)
  unfolding FitsPair post_member_message transaction ◌>>=◌ update_tickets create_message
  not_posted attachments s h = elim (Bool-cases (count_where may_bump s.tickets == 0)) [
    | inl p ↦ rw (p, Fits) tt
    | inr n ↦
        let q : any_where (is_message id dto.client_message_id) s.messages ≡ true =
          ground (arith, h, n) in
        rw (n, q, Fits) tt
  ]

  written :
      (attachments : List Attachment) (s : Store)
      → (count_where may_bump s.tickets == 0) ≡ false
      → any_where (is_message id dto.client_message_id) s.messages ≡ false
      → post_member_message env user_id id dto attachments s ≡ (
        ok s.next_id,
        record s {
          tickets = update_where may_bump bump s.tickets;
          messages = s.messages ++ member_message env s.next_id user_id id dto attachments ∷ [];
          next_id = suc s.next_id;
        },
      )
  unfolding post_member_message ◌>>=◌ update_tickets create_message
  written attachments s n q = rw n (rw q refl)

  posted :
      (attachments : List Attachment) (s : Store)
      → (count_where may_bump s.tickets == 0) ≡ false
      → any_where (is_message id dto.client_message_id) s.messages ≡ false
      → transaction (post_member_message env user_id id dto attachments) s ≡ (
        ok s.next_id,
        record s {
          tickets = update_where may_bump bump s.tickets;
          messages = s.messages ++ member_message env s.next_id user_id id dto attachments ∷ [];
          next_id = suc s.next_id;
        },
      )
  unfolding transaction
  posted attachments s n q =
      ap (λ r. elim r.0 as (λ _. Result ℕ × Store) [ ok a ↦ (ok a, r.1) | err e ↦ (err e, s) ])
        (written attachments s n q)

  posted-FitsPair :
      (attachments : List Attachment) (s : Store)
      → IsStore s
      → FitsPair (transaction (post_member_message env user_id id dto attachments) s)
  unfolding FitsPair
  posted-FitsPair attachments s h =
      let m = member_message env s.next_id user_id id dto attachments in
      elim (Bool-cases (
        count_where may_bump s.tickets == 0
        || any_where (is_message id dto.client_message_id) s.messages)) [
          | inl p ↦ not_posted attachments s p
          | inr n ↦
              subst FitsPair (sym (posted attachments s (ground (arith, n)) (ground (arith, n)))) (
                m,
                find_first-append_new _ m s.messages
                    (no_message s.next_id s.messages h.message_ids_below) (==_refl s.next_id),
                find_first-append_new _ m s.messages (ground (arith, n))
                    (rw (==_refl id, ==_refl dto.client_message_id) refl),
              )
        ]

  announce_message-messages :
      (n : ℕ) (m : TicketMessage) (t : Ticket) (s : Store)
      → ((announce_message env dto n m t s).0 ≡ ok m)
        × ((announce_message env dto n m t s).1.messages ≡ s.messages)
  unfolding announce_message publish_both ping_admins tell_admins publish ◌>>=◌
  announce_message-messages n m t s = elim (Bool-cases (is_none t.assigned_admin_id)) [
    | inl p ↦ rw p (refl, refl)
    | inr q ↦ rw q (refl, refl)
  ]

  announced :
      (n : ℕ) (m' : TicketMessage) (p : Option Ticket) (s : Store) (m : TicketMessage) (t : Store)
      → (do t' ← or_throw p not_found; announce_message env dto n m' t') s ≡ (ok m, t)
      → (some m' ≡ some m) × (t.messages ≡ s.messages)
  unfolding ◌>>=◌
  announced n m' none s m t h = cc
  announced n m' (some t') s m t h =
      let (e, same) = announce_message-messages n m' t' s in
      (ap answer (sym e ∙ ap (λ r. r.0) h), subst (λ r. r.1.messages ≡ s.messages) h same)

  read_back :
      (n : ℕ) (o : Option TicketMessage) (s : Store) (m : TicketMessage) (t : Store)
      → (do
        m' ← or_throw o not_found
        t' ← or_throw (← gets (find_ticket id)) not_found
        announce_message env dto n m' t')
          s
        ≡ (ok m, t)
      → (o ≡ some m) × (t.messages ≡ s.messages)
  unfolding ◌>>=◌
  read_back n none s m t h = cc
  read_back n (some m') s m t h = announced n m' (find_ticket id s) s m t h

  lost :
      (c : Bool) (o : Option TicketMessage) (e : AppError) (s : Store) (m : TicketMessage)
      (t : Store)
      → (if c then or_throw o e else throw e) s ≡ (ok m, t)
      → (o ≡ some m) × (s ≡ t)
  unfolding throw
  lost true o e s m t h = or_throw_answers o e s m t h
  lost false o e s m t h = cc

  committed_finds :
      (attachments : List Attachment) (r : Result ℕ) (s : Store) (m : TicketMessage) (t : Store)
      → Fits r s
      → message_committed env id dto attachments r s ≡ (ok m, t)
      → find_message id dto.client_message_id t ≡ some m
  unfolding message_committed ◌>>=◌
  committed_finds attachments (ok i) s m t (x, by_id, by_key) h =
      let (e, same) =
        read_back (length attachments) (find_first (λ m'. m'.id == i) s.messages) s m t h in
      rw same (by_key ∙ sym by_id ∙ e)
  committed_finds attachments (err e) s m t f h =
      let (found, same) =
        lost (is_unique_violation e) (find_message id dto.client_message_id s) e s m t h in
      rw (← same) found

module _ (env : Env) (calm : Calm env) (user_id : ℕ) (dto : SendMessage) where
  abbrev FitsAnswer : ℕ → Result (Result ℕ) × Store → Type 0
  FitsAnswer id (ok r, s) = Fits env user_id id dto r s
  FitsAnswer id (err e, s) = Unit

  attempted :
      (id : ℕ) (attachments : List Attachment) (s : Store)
      → IsStore s
      → FitsAnswer id (attempt (transaction (post_member_message env user_id id dto attachments)) s)
  unfolding attempt FitsPair
  attempted id attachments s h = posted-FitsPair env user_id id dto attachments s h

  send_new_finds :
      (k : Ticket) (s : Store) (m : TicketMessage) (t : Store)
      → IsStore s
      → send_new env user_id k dto s ≡ (ok m, t)
      → find_message k.id dto.client_message_id t ≡ some m
  unfolding send_new throw_if
  send_new_finds k s m t h run =
      let (a1, s1, e1, r1) = bind_answers _ m t _ s run in
      let h1 : IsStore s1 = subst (λ r. IsStore r.1) e1 h in
      let (attachments, s2, e2, r2) = bind_answers _ m t _ s1 r1 in
      let h2 : IsStore s2 =
        subst (λ r. IsStore r.1) e2
          (Reach-IsStore
            ((Keeps-resolve_attachments env tickets_prefix user_id dto.attachments).path s1) h1) in
      let (a3, s3, e3, r3) = bind_answers _ m t (await_others env) s2 r2 in
      let h3 : IsStore s3 =
        subst (λ r. IsStore r.1) e3 (Reach-IsStore ((Keeps-await_others env calm).path s2) h2) in
      let (r, s4, e4, r4) = bind_answers _ m t _ s3 r3 in
      let fits : Fits env user_id k.id dto r s4 =
        subst (FitsAnswer k.id) e4 (attempted k.id attachments s3 h3) in
      let (a5, s5, e5, r5) = bind_answers _ m t (await_others env) s4 r4 in
      let since : Reach s4 s5 =
        subst (λ r. Reach s4 r.1) e5 ((Keeps-await_others env calm).path s4) in
      committed_finds env user_id k.id dto attachments r s5 m t
        (Fits-later env user_id k.id dto r s4 s5 since fits) r5

  pub replay_finds :
      (k : Ticket) (o : Option TicketMessage) (s : Store) (m : TicketMessage) (t : Store)
      → o ≡ find_message k.id dto.client_message_id s
      → IsStore s
      → elim o as (λ _. Action TicketMessage) [
        | some n ↦ pure n
        | none ↦ send_new env user_id k dto
      ]
          s
        ≡ (ok m, t)
      → find_message k.id dto.client_message_id t ≡ some m
  unfolding pure
  replay_finds k none s m t e h run = send_new_finds k s m t h run
  replay_finds k (some n) s m t e h run =
      subst (λ u. find_message k.id dto.client_message_id u ≡ some m) (ap (λ r. r.1) run)
        (sym e ∙ ap (λ r. answer r.0) run)

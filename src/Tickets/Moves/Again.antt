-- ===== src/Tickets/Moves/Again.antt =====
-- A retried message of a member (`sendMessage` of apps/backend/src/modules/tickets/tickets.service.ts).
mod Stored
use finskool_monorepo.Base.{
  ℕ, suc, ◌+◌, ◌<◌, ◌≡◌, refl, ap, sym, subst, ◌∙◌, Bool, true, false, not, ◌&&◌, ◌||◌, ◌==◌, arith,
  List, [], ◌∷◌, ◌++◌, Option, some, none, Result, ok, err, is_none, is_unique_violation,
  if◌then◌else◌, All, find_first, any_where, count_where, update_where, find_first-holds, Grows,
  any_where-find_first, Bool-cases, Option-cases, inl, inr, length, AppError, ==_refl, ==→eq,
}
use finskool_monorepo.Tickets.{
  Ticket, TicketMessage, Attachment, Env, Store, Action, pure, throw, gets, throw_if, or_throw,
  transaction, attempt, publish, update_tickets, create_message, find_message, find_ticket,
  is_message, is_resolved, ◌>>=◌, not_found,
}
use finskool_monorepo.Tickets.Wire.{
  await_others, get_owned, publish_both, tell_admins, tickets_prefix,
}
use finskool_monorepo.Tickets.Member.{
  SendMessage, member_message, ping_admins, announce_message, message_committed,
  post_member_message, send_new, send_message,
}
use finskool_monorepo.Tickets.Moves.{Reach, Calm}
use finskool_monorepo.Tickets.Moves.Answers.{
  answer, bind_answers, bind_at, find_first-append_new, any_where-Grows, or_throw_answers,
}
use finskool_monorepo.Tickets.Moves.Rules.{Keeps-await_others, Reach-trans}
use finskool_monorepo.Tickets.Moves.Requests.{Keeps-resolve_attachments}
use finskool_monorepo.Tickets.Moves.Requests.Posts.{Keeps-send_message}
use finskool_monorepo.Tickets.Moves.Constraints.{IsStore, Reach-IsStore}
use finskool_monorepo.Tickets.Moves.Past.{IsPast, IsLater, Reach-IsPast}
use finskool_monorepo.Tickets.Moves.Again.Stored.{still_found, replay_finds}

module _ (user_id id : ℕ) where
  abbrev is_owned : Ticket → Bool
  is_owned t = t.id == id && t.user_id == user_id

  owned_row :
      (s : Store) (k : Ticket) (s1 : Store)
      → get_owned user_id id s ≡ (ok k, s1)
      → (find_first is_owned s.tickets ≡ some k) × (s ≡ s1)
  unfolding get_owned ◌>>=◌
  owned_row s k s1 h = or_throw_answers (find_first is_owned s.tickets) not_found s k s1 h

  stays_owned :
      (s t : Store)
      → IsPast s t
      → any_where is_owned s.tickets ≡ true
      → any_where is_owned t.tickets ≡ true
  stays_owned s t past h =
      any_where-Grows is_owned IsLater
        (λ a b later p. rw (← later.identity.0, ← later.identity.1) p) s.tickets t.tickets
        past.tickets h

  owned_again :
      (s : Store)
      → any_where is_owned s.tickets ≡ true
      → (k : Ticket) × (get_owned user_id id s ≡ (ok k, s))
  unfolding get_owned ◌>>=◌
  owned_again s h = elim (Option-cases (find_first is_owned s.tickets)) [
    | inl e ↦
        let f : false ≡ true = ground (arith, any_where-find_first is_owned s.tickets, e, h) in cc
    | inr (k, e) ↦ (k, rw e refl)
  ]

  -- What `sendMessage` does with the ticket.
  abbrev rest : Env → SendMessage → Ticket → Action TicketMessage
  rest env dto k = do
    replay ← gets (find_message id dto.client_message_id)
    elim replay [ some m ↦ pure m | none ↦ send_new env user_id k dto ]

  sent_again :
      (env : Env) (dto : SendMessage) (k : Ticket) (m : TicketMessage) (t : Store)
      → get_owned user_id id t ≡ (ok k, t)
      → find_message id dto.client_message_id t ≡ some m
      → send_message env user_id id dto t ≡ (ok m, t)
  unfolding send_message ◌>>=◌ pure
  sent_again env dto k m t e f =
      bind_at (rest env dto) (get_owned user_id id) t k t e
      ∙ subst
          (λ o.
            elim o as (λ _. Action TicketMessage) [
              | some n ↦ pure n
              | none ↦ send_new env user_id k dto
            ]
              t
            ≡ (ok m, t))
          (sym f) refl

-- A message can be sent again safely. If a member's message was answered with a stored one, in any
-- calm interleaving, then sending it again under the same client id, with whatever text, to any store
-- reached since, is answered with the very same message and changes nothing: nothing is stored and
-- nobody is told twice. The ticket may have been answered, handed on, resolved or rated in between.
pub send_message-send_message :
    (env env' : Env) (user_id id : ℕ) (dto dto' : SendMessage) (s : Store) (m : TicketMessage)
    (t t' : Store)
    → Calm env
    → IsStore s
    → dto'.client_message_id ≡ dto.client_message_id
    → send_message env user_id id dto s ≡ (ok m, t)
    → Reach t t'
    → send_message env' user_id id dto' t' ≡ (ok m, t')
unfolding send_message ◌>>=◌
send_message-send_message env env' user_id id dto dto' s m t t' calm h same run since =
    let (k, s1, e1, r1) = bind_answers (rest user_id id env dto) m t (get_owned user_id id) s run in
    let (row, stay) = owned_row user_id id s k s1 e1 in
    let path = subst (λ r. Reach s r.1) run ((Keeps-send_message env dto calm user_id id).path s) in
    let at : k.id ≡ id =
      ==→eq _ _ (ground (arith, find_first-holds (is_owned user_id id) s.tickets row)) in
    let kept : any_where (is_owned user_id id) t'.tickets ≡ true =
      stays_owned user_id id s t' (Reach-IsPast s t' (Reach-trans path since))
        (ground (arith, any_where-find_first (is_owned user_id id) s.tickets, row)) in
    let found : find_message k.id dto.client_message_id t ≡ some m =
      replay_finds env calm user_id dto k (find_message id dto.client_message_id s1) s1 m t
        (rw at refl) (subst IsStore stay h) r1 in
    let (k', e) = owned_again user_id id t' kept in
    sent_again user_id id env' dto' k' m t' e
      (rw same (still_found _ m _ _ (Reach-IsPast t t' since).messages (rw (← at) found)))

-- ===== src/Tickets/Moves/Requests/Posts.antt =====
-- The moves of `create`, `sendMessage` and `reply` (tickets.service.ts, admin-tickets.service.ts).
use finskool_monorepo.Base.{
  ℕ, ◌+◌, ◌≡◌, ◌≢◌, refl, Bool, true, false, not, ◌&&◌, ◌==◌, arith, List, Bool-cases, inl, inr,
  count_where, any_where, update_where, Result, ok, err, Option, some, none,
}
use finskool_monorepo.Tickets.{
  Ticket, TicketMessage, Attachment, Env, Store, is_resolved, is_message, ◌>>=◌, update_tickets,
  create_message, Action, pure, gets,
}
use finskool_monorepo.Tickets.Create.{
  CreateTicket, is_request, new_ticket, create_ticket, announce_created, create_committed,
  create_new, create,
}
use finskool_monorepo.Tickets.Member.{
  SendMessage, member_message, ping_admins, announce_message, message_committed,
  post_member_message, send_new, send_message,
}
use finskool_monorepo.Tickets.Support.{AdminActor}
use finskool_monorepo.Tickets.Reply.{
  support_message, may_write, refuse, post_support_message, reply_in_tx, announce_reply,
  reply_committed, reply_new, reply,
}
use finskool_monorepo.Tickets.Moves.{
  Move, member_wrote, support_wrote, moved, raised, posted, Reach, here, next, Keeps, Calm,
}
use finskool_monorepo.Tickets.Moves.Rules.{
  Reach-trans, bind_from, Keeps-pure, Keeps-gets, Keeps-bind,
}
use finskool_monorepo.Tickets.Moves.Requests.{basic_rules, Keeps-get_owned, Keeps-get_visible}
use finskool_monorepo.Tickets.Moves.Requests.Ends.{Keeps-claim_if_free}

-- ─── A message is written with the bump of its ticket ───────────────────────

module _ (w : Ticket → Bool) (f : Ticket → Ticket) (s : Store) where
  bumped_only :
      ((a : Ticket) → w a ≡ true → Move a (f a))
      → Reach s (record s { tickets = update_where w f s.tickets })
  bumped_only move = next here (moved w f move refl)

  pub Keeps-bump_message :
      (m : TicketMessage)
      → ((a : Ticket) → w a ≡ true → Move a (f a))
      → ((a : Ticket) → w a ≡ true → (a.id ≡ m.ticket_id) × (is_resolved a.status ≡ false))
      → count_where w s.tickets ≢ 0
      → m.id ≡ s.next_id
      → Reach s (create_message m (record s { tickets = update_where w f s.tickets })).1
  unfolding create_message
  Keeps-bump_message m move at some_row fresh =
      elim (Bool-cases (any_where (is_message m.ticket_id m.client_message_id) s.messages)) [
        | inl p ↦ rw p (bumped_only move)
        | inr n ↦ rw n (next here (posted w f m move at some_row fresh n refl))
      ]

module _ (env : Env) (user_id id : ℕ) where
  bumps :
      (t : Ticket)
      → (t.id == id && t.user_id == user_id && not (is_resolved t.status)) ≡ true
      → Move t
          (record t { last_message_at = env.now; admin_unread_count = t.admin_unread_count + 1 })
  bumps t h = member_wrote env.now (ground arith) refl

  bumps_at :
      (t : Ticket)
      → (t.id == id && t.user_id == user_id && not (is_resolved t.status)) ≡ true
      → (t.id ≡ id) × (is_resolved t.status ≡ false)
  bumps_at t h = (ground arith, ground arith)

  Keeps-post_member_message :
      (dto : SendMessage) (attachments : List Attachment)
      → Keeps (post_member_message env user_id id dto attachments)
  unfolding post_member_message update_tickets ◌>>=◌
  Keeps-post_member_message dto attachments = record {
    path = λ s.
        let w : Ticket → Bool =
          λ t. t.id == id && t.user_id == user_id && not (is_resolved t.status) in
        elim (Bool-cases (count_where w s.tickets == 0)) [
          | inl p ↦ rw p (bumped_only w _ s bumps)
          | inr n ↦ rw n (
              Keeps-bump_message w _ s (member_message env s.next_id user_id id dto attachments)
                bumps bumps_at (λ e. ground (arith, e, n)) refl)
        ];
  }

module _ (env : Env) (a : AdminActor) (id : ℕ) where
  answers :
      (t : Ticket)
      → may_write a id t ≡ true
      → Move t (record t { last_message_at = env.now; user_unread_count = t.user_unread_count + 1 })
  answers t h = support_wrote env.now (ground arith) refl

  answers_at : (t : Ticket) → may_write a id t ≡ true → (t.id ≡ id) × (is_resolved t.status ≡ false)
  answers_at t h = (ground arith, ground arith)

  Keeps-refuse : Keeps (refuse {A = ℕ} id)
  unfolding refuse
  Keeps-refuse = search basic_rules

  Keeps-post_support_message :
      (dto : SendMessage) (attachments : List Attachment)
      → Keeps (post_support_message env a id dto attachments)
  unfolding post_support_message update_tickets ◌>>=◌
  Keeps-post_support_message dto attachments = record {
    path = λ s.
        let w : Ticket → Bool = may_write a id in
        elim (Bool-cases (count_where w s.tickets == 0)) [
          | inl p ↦ rw p (Reach-trans (bumped_only w _ s answers) (Keeps-refuse.path _))
          | inr n ↦ rw n (
              Keeps-bump_message w _ s (support_message env s.next_id a.id id dto attachments)
                answers answers_at (λ e. ground (arith, e, n)) refl)
        ];
  }

-- ─── The member writes ──────────────────────────────────────────────────────

module _ (env : Env) (dto : SendMessage) where
  Keeps-ping_admins : (n : ℕ) (m : TicketMessage) (t : Ticket) → Keeps (ping_admins env dto n m t)
  unfolding ping_admins
  Keeps-ping_admins n m t = search basic_rules

  Keeps-announce_message :
      (n : ℕ) (m : TicketMessage) (t : Ticket) → Keeps (announce_message env dto n m t)
  unfolding announce_message
  Keeps-announce_message n m t = search (basic_rules, Keeps-ping_admins)

  Keeps-message_committed :
      (id : ℕ) (attachments : List Attachment) (r : Result ℕ)
      → Keeps (message_committed env id dto attachments r)
  unfolding message_committed
  Keeps-message_committed id attachments (ok i) =
      search (basic_rules, Keeps-announce_message) depth 9
  Keeps-message_committed id attachments (err e) = search basic_rules depth 9

  Keeps-send_new : Calm env → (user_id : ℕ) (t : Ticket) → Keeps (send_new env user_id t dto)
  unfolding send_new
  Keeps-send_new calm user_id t =
      search (basic_rules, Keeps-post_member_message env user_id t.id dto, Keeps-message_committed)
        depth 12

  replayed :
      Calm env
      → (user_id : ℕ) (t : Ticket) (o : Option TicketMessage)
      → Keeps (elim o as (λ _. Action TicketMessage) [
        | some m ↦ pure m
        | none ↦ send_new env user_id t dto
      ])
  replayed calm user_id t none = Keeps-send_new calm user_id t
  replayed calm user_id t (some m) = Keeps-pure m

  pub Keeps-send_message : Calm env → (user_id id : ℕ) → Keeps (send_message env user_id id dto)
  unfolding send_message
  Keeps-send_message calm user_id id =
      Keeps-bind _ _ (Keeps-get_owned user_id id)
        (λ t. Keeps-bind _ _ (Keeps-gets _) (replayed calm user_id t))

-- ─── The support team replies ───────────────────────────────────────────────

module _ (env : Env) (a : AdminActor) where
  Keeps-announce_reply : (m : TicketMessage) (t : Ticket) → Keeps (announce_reply env m t)
  unfolding announce_reply
  Keeps-announce_reply m t = search basic_rules

  Keeps-reply_committed :
      (id : ℕ) (dto : SendMessage) (r : Result ℕ) → Keeps (reply_committed env a id dto r)
  unfolding reply_committed
  Keeps-reply_committed id dto (ok i) = search (basic_rules, Keeps-announce_reply) depth 9
  Keeps-reply_committed id dto (err e) = search basic_rules depth 9

  Keeps-reply_in_tx :
      (t : Ticket) (dto : SendMessage) (attachments : List Attachment)
      → Keeps (reply_in_tx env a t dto attachments)
  unfolding reply_in_tx
  Keeps-reply_in_tx t dto attachments =
      search (basic_rules, Keeps-claim_if_free, Keeps-post_support_message)

  Keeps-reply_new : Calm env → (t : Ticket) (dto : SendMessage) → Keeps (reply_new env a t dto)
  unfolding reply_new
  Keeps-reply_new calm t dto =
      search (basic_rules, Keeps-reply_in_tx, Keeps-reply_committed) depth 12

  reply_replayed :
      Calm env
      → (t : Ticket) (dto : SendMessage) (o : Option TicketMessage)
      → Keeps
          (elim o as (λ _. Action TicketMessage) [ some m ↦ pure m | none ↦ reply_new env a t dto ])
  reply_replayed calm t dto none = Keeps-reply_new calm t dto
  reply_replayed calm t dto (some m) = Keeps-pure m

  pub Keeps-reply : Calm env → (id : ℕ) (dto : SendMessage) → Keeps (reply env a id dto)
  unfolding reply
  Keeps-reply calm id dto =
      Keeps-bind _ _ (Keeps-get_visible a id)
        (λ t. Keeps-bind _ _ (Keeps-gets _) (reply_replayed calm t dto))

-- ─── A ticket is raised ─────────────────────────────────────────────────────

module _ (env : Env) (user_id request_id : ℕ) (dto : CreateTicket) where
  inserted :
      (attachments : List Attachment) (s : Store)
      → Reach s (create_ticket (new_ticket env s.next_id user_id request_id dto attachments) s).1
  unfolding create_ticket
  inserted attachments s = elim (Bool-cases (any_where (is_request user_id request_id) s.tickets)) [
    | inl p ↦ rw p here
    | inr n ↦ rw n (
        next here (
          raised (new_ticket env s.next_id user_id request_id dto attachments) refl refl refl refl
            refl refl n refl))
  ]

  Keeps-insert :
      (attachments : List Attachment) (k : ℕ → ℕ → Action ℕ)
      → ((i j : ℕ) → Keeps (k i j))
      → Keeps (do
        id ← gets (λ s. s.next_id)
        j ← create_ticket (new_ticket env id user_id request_id dto attachments)
        k id j)
  unfolding ◌>>=◌
  Keeps-insert attachments k rest = record {
    path = λ s.
        bind_from (k s.next_id) s
          (create_ticket (new_ticket env s.next_id user_id request_id dto attachments) s)
          (inserted attachments s) (rest s.next_id);
  }

  Keeps-announce_created : (t : Ticket) → Keeps (announce_created env t)
  unfolding announce_created
  Keeps-announce_created t = search basic_rules depth 9

  Keeps-create_committed : (r : Result ℕ) → Keeps (create_committed env user_id request_id r)
  unfolding create_committed
  Keeps-create_committed (ok i) = search (basic_rules, Keeps-announce_created) depth 9
  Keeps-create_committed (err e) = search basic_rules depth 9

  Keeps-create_new : Calm env → Keeps (create_new env user_id request_id dto)
  unfolding create_new
  Keeps-create_new calm = search (Keeps-insert, basic_rules, Keeps-create_committed) depth 14

  create_replayed :
      Calm env
      → (o : Option Ticket)
      → Keeps (elim o as (λ _. Action Ticket) [
        | some t ↦ pure t
        | none ↦ create_new env user_id request_id dto
      ])
  create_replayed calm none = Keeps-create_new calm
  create_replayed calm (some t) = Keeps-pure t

  pub Keeps-create : Calm env → Keeps (create env user_id request_id dto)
  unfolding create
  Keeps-create calm = search (basic_rules, create_replayed) depth 9

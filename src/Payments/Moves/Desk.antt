-- ===== src/Payments/Moves/Desk.antt =====
-- The writes of the support team's calls (admin-services.service.ts) and of the member's rating and
-- reading (services.service.ts), but for a new quote.
use finskool_monorepo.Base.{
  ℕ, ◌≡◌, refl, Bool, true, false, not, ◌&&◌, ◌||◌, ◌==◌, is_none, is_id, includes, some,
  find_first, count_where, arith, Bool-cases, Option-cases, inl, inr,
}
use finskool_monorepo.Access.{get_all_admin_ids}
use finskool_monorepo.Payments.{
  ServiceRequestStatus, ServiceClosedReason, ServiceQuoteStatus, ServiceRequest, PayStore, PayEnv,
  is_closed, is_active, is_paid_request, find_request,
}
use finskool_monorepo.Payments.Close.{is_cancellable, is_owned}
use finskool_monorepo.Payments.Desk.{
  AdminViewer, can_act, is_free, give_to, claim_in_tx, claim, is_open_row, reassign_in_tx, reassign,
  close_as, is_mine, close_rows, close_by_status, claim_if_free, close,
}
use finskool_monorepo.Payments.Rating.{
  mark_read, mark_read_by_member, is_review, resolve_review, is_rateable, rate,
}
use finskool_monorepo.Payments.Moves.{
  stays, turned_down, delivered, Steps, Write, moved, withdrawn, Reach, here, next, Reach-trans,
}

claim_in_tx-Reach : (id admin_id : ℕ) (s : PayStore) → Reach s (claim_in_tx id admin_id s).1
unfolding claim_in_tx
claim_in_tx-Reach id admin_id s = elim (Bool-cases (count_where (is_free id) s.requests == 0)) [
  | inl p ↦ rw p here
  | inr n ↦ rw n (
      next here (
        moved (is_free id) (give_to admin_id) (λ x p. ((refl, refl), stays refl refl refl)) refl
          refl))
]

pub claim_if_free-Reach :
    (r : ServiceRequest) (id admin_id : ℕ) (s : PayStore) → Reach s (claim_if_free r id admin_id s)
claim_if_free-Reach r id admin_id s = elim (Bool-cases (is_none r.assigned_admin_id)) [
  | inl p ↦ rw p (claim_in_tx-Reach id admin_id s)
  | inr n ↦ rw n here
]

close_rows-Write :
    (env : PayEnv) (a : AdminViewer) (id : ℕ) (reason : ServiceClosedReason)
    (w : ServiceRequest → Bool) (s : PayStore)
    → Steps w (close_as env.now reason)
    → Write s (close_rows env a id reason w s)
unfolding close_rows
close_rows-Write env a id reason w s h =
    withdrawn w (close_as env.now reason) (λ q. q.request_id == id && is_active q.status)
      ServiceQuoteStatus.cancelled h (λ q p. ground (arith, p)) refl refl refl refl

paid_status :
    (st : ServiceRequestStatus) → is_paid_request st ≡ true → st ≡ ServiceRequestStatus.paid
paid_status ServiceRequestStatus.paid h = refl
paid_status ServiceRequestStatus.requested h = cc
paid_status ServiceRequestStatus.quote_sent h = cc
paid_status ServiceRequestStatus.closed h = cc

close_by_status-Reach :
    (env : PayEnv) (a : AdminViewer) (id : ℕ) (s : PayStore)
    → Reach s (close_by_status env a id s).1
unfolding close_by_status
close_by_status-Reach env a id s =
    let paid_row : ServiceRequest → Bool = λ r. is_mine a id r && is_paid_request r.status in
    let waiting : ServiceRequest → Bool = λ r. is_mine a id r && is_cancellable r.status in
    elim (Bool-cases (not (count_where paid_row s.requests == 0))) [
      | inl p ↦ rw p (
          next here (
            close_rows-Write env a id ServiceClosedReason.completed paid_row s (λ x h.
              ((refl, refl), delivered (paid_status x.status (ground (arith, h))) refl refl refl))))
      | inr n ↦ rw n (elim (Bool-cases (not (count_where waiting s.requests == 0))) [
        | inl p ↦ rw p (
            next here (
              close_rows-Write env a id ServiceClosedReason.declined waiting s (λ x h. (
                (refl, refl),
                turned_down ServiceClosedReason.declined (inl refl) (ground (arith, h)) refl refl
                    refl,
              ))))
        | inr m ↦ rw m here
      ])
    ]

reassign_in_tx-Reach :
    (a : AdminViewer) (to_id : ℕ) (r : ServiceRequest) (s : PayStore)
    → Reach s (reassign_in_tx a to_id r s).1
unfolding reassign_in_tx
reassign_in_tx-Reach a to_id r s =
    elim (Bool-cases (count_where (is_open_row r.id) s.requests == 0)) [
      | inl p ↦ rw p here
      | inr n ↦ rw n (
          next here (
            moved (is_open_row r.id) (give_to to_id) (λ x p. ((refl, refl), stays refl refl refl))
              refl refl))
    ]

-- ─── The calls, each with what it may leave behind ──────────────────────────

-- A call leaves the store that it met, or what writes make of the one after the wait.
module _ (env : PayEnv) (P : PayStore → Type 0) (s : PayStore) (same : P s)
    (after : (t : PayStore) → Reach (env.others s) t → P t) where
  pub claim_cases : (a : AdminViewer) (id : ℕ) → P (claim env a id s).1
  unfolding claim
  claim_cases a id = elim (Option-cases (find_request id s)) [
    | inl e ↦ rw (e, claim) same
    | inr (r, e) ↦
        rw (e, claim)
          (elim (Bool-cases (is_closed r.status)) [
            | inl p ↦ rw p same
            | inr n ↦ rw n (elim (Bool-cases (is_id r.assigned_admin_id a.id)) [
              | inl p ↦ rw p same
              | inr m ↦ rw m (after _ (claim_in_tx-Reach id a.id (env.others s)))
            ])
          ])
  ]

  pub close_cases : (a : AdminViewer) (id : ℕ) → P (close env a id s).1
  unfolding close
  close_cases a id = elim (Option-cases (find_request id s)) [
    | inl e ↦ rw (e, close) same
    | inr (r, e) ↦
        rw (e, close)
          (elim (Bool-cases (is_closed r.status)) [
            | inl p ↦ rw p same
            | inr n ↦
                rw n (elim (Bool-cases (is_none r.assigned_admin_id && not a.is_super_admin)) [
                  | inl p ↦ rw p same
                  | inr m ↦ rw m (elim (Bool-cases (not (can_act a r))) [
                    | inl p ↦ rw p same
                    | inr k ↦ rw k (
                        after _ (
                          Reach-trans (claim_if_free-Reach r id a.id (env.others s))
                            (close_by_status-Reach env a id _)))
                  ])
                ])
          ])
  ]

  pub reassign_cases : (a : AdminViewer) (id to_id : ℕ) → P (reassign env a id to_id s).1
  unfolding reassign
  reassign_cases a id to_id = elim (Bool-cases (not a.is_super_admin)) [
    | inl p ↦ rw p same
    | inr u ↦ rw u (elim (Option-cases (find_request id s)) [
      | inl e ↦ rw e same
      | inr (r, e) ↦ rw e (elim (Bool-cases (is_closed r.status)) [
        | inl p ↦ rw p same
        | inr n ↦ rw n (elim (Bool-cases (is_id r.assigned_admin_id to_id)) [
          | inl p ↦ rw p same
          | inr m ↦
              rw m (elim (Bool-cases (not (includes to_id (get_all_admin_ids env.directory)))) [
                | inl p ↦ rw p same
                | inr k ↦ rw k (after _ (reassign_in_tx-Reach a to_id r (env.others s)))
              ])
        ])
      ])
    ])
  ]

  pub mark_read_cases : (a : AdminViewer) (id : ℕ) → P (mark_read env a id s).1
  unfolding mark_read
  mark_read_cases a id = elim (Option-cases (find_request id s)) [
    | inl e ↦ rw (e, mark_read) same
    | inr (r, e) ↦
        rw (e, mark_read)
          (elim (Bool-cases (not (is_id r.assigned_admin_id a.id) || r.admin_unread_count == 0)) [
            | inl p ↦ rw p same
            | inr n ↦ rw n (
                after _ (
                  next here (
                    moved (λ x. x.id == id) (λ x. record x { admin_unread_count = 0 })
                      (λ x p. ((refl, refl), stays refl refl refl)) refl refl)))
          ])
  ]

  pub mark_read_by_member_cases : (u id : ℕ) → P (mark_read_by_member env u id s).1
  unfolding mark_read_by_member
  mark_read_by_member_cases u id = elim (Option-cases (find_first (is_owned u id) s.requests)) [
    | inl e ↦ rw (e, mark_read_by_member) same
    | inr (r, e) ↦
        rw (e, mark_read_by_member)
          (elim (Bool-cases (r.user_unread_count == 0)) [
            | inl p ↦ rw p same
            | inr n ↦ rw n (
                after _ (
                  next here (
                    moved (λ x. x.id == id) (λ x. record x { user_unread_count = 0 })
                      (λ x p. ((refl, refl), stays refl refl refl)) refl refl)))
          ])
  ]

  pub resolve_review_cases : (a : AdminViewer) (id : ℕ) → P (resolve_review env a id s).1
  unfolding resolve_review
  resolve_review_cases a id = elim (Option-cases (find_request id s)) [
    | inl e ↦ rw (e, resolve_review) same
    | inr (r, e) ↦
        rw (e, resolve_review)
          (elim (Bool-cases (not r.requires_review)) [
            | inl p ↦ rw p same
            | inr n ↦
                rw n (elim (Bool-cases (count_where (is_review id) (env.others s).requests == 0)) [
                  | inl p ↦ rw p (after _ here)
                  | inr k ↦ rw k (
                      after _ (
                        next here (
                          moved (is_review id) (λ x. record x { requires_review = false })
                            (λ x p. ((refl, refl), stays refl refl refl)) refl refl)))
                ])
          ])
  ]

pub rate-Write : (u id n : ℕ) (s : PayStore) → Write s (rate u id n s).1
unfolding rate
rate-Write u id n s =
    moved (is_rateable u id) (λ x. record x { rating = some n })
      (λ x p. ((refl, refl), stays refl refl refl)) refl refl

-- ===== src/Payments/Moves/Offers.antt =====
-- The writes of a new quote (sendQuote of admin-services.service.ts).
use finskool_monorepo.Base.{
  ℕ, ◌+◌, ◌<◌, ◌≤◌, ◌≡◌, refl, true, false, not, ◌&&◌, ◌==◌, is_none, Option, none, some, List, [],
  ◌∷◌, find_first, any_where, count_where, update_where, All, All-imp, arith, Bool-cases,
  Option-cases, inl, inr,
}
use finskool_monorepo.Payments.{
  ServiceRequestStatus, ServiceRequest, ServiceQuote, PayStore, PayEnv, find_request,
}
use finskool_monorepo.Payments.Close.{is_cancellable}
use finskool_monorepo.Payments.Desk.{
  AdminViewer, can_act, is_free, give_to, claim_in_tx, claim_if_free,
}
use finskool_monorepo.Payments.Quotes.{
  SendQuote, refused_by_stage, is_being_paid, is_active_of, new_quote_id, latest_version, new_quote,
  supersede, issue_quote, replace_quote, send_quote_in_tx, send_quote,
}
use finskool_monorepo.Payments.Moves.{retire, Write, offered, Reach, here, next}
use finskool_monorepo.Payments.Moves.Desk.{claim_if_free-Reach}

new_id_above : (qs : List ServiceQuote) → All (λ q. q.id < new_quote_id qs) qs
unfolding new_quote_id
new_id_above [] = tt
new_id_above (q ∷ qs) = (omega arith, All-imp _ _ (λ p h. omega (arith, h)) qs (new_id_above qs))

none_at :
    (n : ℕ) (qs : List ServiceQuote)
    → All (λ q. q.id < n) qs
    → any_where (λ q. q.id == n) qs ≡ false
unfolding any_where
none_at n [] h = refl
none_at n (q ∷ qs) h = ground (arith, none_at n qs h.1, h.0)

latest_step :
    (id : ℕ) (q : ServiceQuote) (qs : List ServiceQuote)
    → (latest_version id qs ≤ latest_version id (q ∷ qs))
      × (q.request_id ≡ id → q.version ≤ latest_version id (q ∷ qs))
unfolding latest_version
latest_step id q qs = elim (Bool-cases (q.request_id == id)) [
  | inl p ↦ rw p (omega arith, λ h. omega arith)
  | inr n ↦ rw n (omega arith, λ h. let c : ⊥ = ground (arith, n, h) in elim c [ ])
]

below_latest :
    (id : ℕ) (qs : List ServiceQuote)
    → All (λ q. q.request_id ≡ id → q.version < latest_version id qs + 1) qs
below_latest id [] = tt
below_latest id (q ∷ qs) =
    let (grows, top) = latest_step id q qs in
    (
      λ h. omega (arith, top h),
      All-imp _ _ (λ p f h. omega (arith, f h, grows)) qs (below_latest id qs),
    )

module _ (env : PayEnv) (a : AdminViewer) (id : ℕ) (dto : SendQuote) where
  issue_quote-Write :
      (s t : PayStore) (x : ServiceRequest) (old : Option ServiceQuote)
      → find_request id s ≡ some x
      → is_cancellable x.status ≡ true
      → find_first (is_active_of id) s.quotes ≡ old
      → t.requests ≡ s.requests
      → t.quotes ≡ retire old s.quotes
      → Write s (issue_quote env a id dto t).1
  unfolding issue_quote new_quote
  issue_quote-Write s t x old f c o er eq =
      offered id env.now x old (new_quote env id dto t.quotes) f c o
        (rw (← eq) (none_at _ t.quotes (new_id_above t.quotes))) refl refl
        (rw (← eq) (below_latest id t.quotes)) (rw er refl) (rw (← eq) refl)

  replace_quote-Reach :
      (s claimed : PayStore) (x : ServiceRequest)
      → find_request id claimed ≡ some x
      → is_cancellable x.status ≡ true
      → Reach s claimed
      → Reach s (replace_quote env a id dto s claimed).1
  unfolding replace_quote supersede
  replace_quote-Reach s claimed x f c p =
      elim (Option-cases (find_first (is_active_of id) claimed.quotes)) [
        | inl e ↦
            rw (e, replace_quote)
              (next p (issue_quote-Write claimed claimed x none f c e refl refl))
        | inr (q, e) ↦
            rw (e, replace_quote)
              (elim (Bool-cases (not dto.confirm_replace && is_being_paid env q)) [
                | inl w ↦ rw w here
                | inr n ↦ rw n (
                    next p (
                      issue_quote-Write claimed (supersede a id q claimed) x (some q) f c e refl
                        refl))
              ])
      ]

still_found :
    (id n : ℕ) (rs : List ServiceRequest) (x : ServiceRequest)
    → find_first (λ r. r.id == id) rs ≡ some x
    → is_cancellable x.status ≡ true
    → (y : ServiceRequest) × (find_first
          (λ r. r.id == id)
          (update_where (is_free id) (give_to n) rs)
        ≡ some y)
      × (is_cancellable y.status ≡ true)
unfolding find_first update_where
still_found id n [] x e c = cc
still_found id n (r ∷ rs) x e c = elim (Bool-cases (r.id == id)) [
  | inl p ↦
      let same : r ≡ x = ground (arith, e, p) in
      let able : is_cancellable r.status ≡ true = rw same c in
      elim (Bool-cases (is_free id r)) [
        | inl f ↦ (give_to n r, ground (arith, f, p), able)
        | inr f ↦ (r, ground (arith, f, p), able)
      ]
  | inr m ↦
      let (y, g, able) = still_found id n rs x (ground (arith, e, m)) c in
      (y, ground (arith, g, m), able)
]

claimed_found :
    (r : ServiceRequest) (id n : ℕ) (s : PayStore) (x : ServiceRequest)
    → find_request id s ≡ some x
    → is_cancellable x.status ≡ true
    → (y : ServiceRequest) × (find_request id (claim_if_free r id n s) ≡ some y)
      × (is_cancellable y.status ≡ true)
unfolding claim_in_tx
claimed_found r id n s x e c = elim (Bool-cases (is_none r.assigned_admin_id)) [
  | inr k ↦ rw k (x, e, c)
  | inl k ↦ rw k (elim (Bool-cases (count_where (is_free id) s.requests == 0)) [
    | inl z ↦ rw z (x, e, c)
    | inr z ↦ rw z (still_found id n s.requests x e c)
  ])
]

able_stage : (st : ServiceRequestStatus) → refused_by_stage st ≡ none → is_cancellable st ≡ true
able_stage ServiceRequestStatus.requested h = refl
able_stage ServiceRequestStatus.quote_sent h = refl
able_stage ServiceRequestStatus.paid h = cc
able_stage ServiceRequestStatus.closed h = cc

send_quote_in_tx-Reach :
    (env : PayEnv) (a : AdminViewer) (id : ℕ) (dto : SendQuote) (s : PayStore)
    → Reach s (send_quote_in_tx env a id dto s).1
unfolding send_quote_in_tx
send_quote_in_tx-Reach env a id dto s = elim (Option-cases (find_request id s)) [
  | inl e ↦ rw (e, send_quote_in_tx) here
  | inr (r, e) ↦
      rw (e, send_quote_in_tx)
        (elim (Option-cases (refused_by_stage r.status)) [
          | inr (x, f) ↦ rw f here
          | inl f ↦ rw f (elim (Bool-cases (not (can_act a r))) [
            | inl p ↦ rw p here
            | inr n ↦
                let (y, g, able) = claimed_found r id a.id s r e (able_stage r.status f) in
                rw n (
                  replace_quote-Reach env a id dto s (claim_if_free r id a.id s) y g able
                    (claim_if_free-Reach r id a.id s))
          ])
        ])
]

-- The call leaves the store that it met, or what writes make of the one after the wait.
module _ (env : PayEnv) (P : PayStore → Type 0) (s : PayStore) (same : P s)
    (after : (t : PayStore) → Reach (env.others s) t → P t) where
  pub send_quote_cases :
      (a : AdminViewer) (id : ℕ) (dto : SendQuote) → P (send_quote env a id dto s).1
  unfolding send_quote
  send_quote_cases a id dto = elim (Bool-cases (not env.billing_configured)) [
    | inl p ↦ rw p same
    | inr b ↦ rw b (elim (Option-cases (find_request id s)) [
      | inl e ↦ rw e same
      | inr (r, e) ↦ rw e (elim (Option-cases (refused_by_stage r.status)) [
        | inr (x, f) ↦ rw f same
        | inl f ↦ rw f (elim (Bool-cases (not (can_act a r))) [
          | inl p ↦ rw p same
          | inr n ↦ rw n (after _ (send_quote_in_tx-Reach env a id dto (env.others s)))
        ])
      ])
    ])
  ]

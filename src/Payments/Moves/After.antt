-- ===== src/Payments/Moves/After.antt =====
-- What becomes of a request that is paid or closed (apps/backend/src/modules/services).
use finskool_monorepo.Base.{
  ◌≡◌, refl, sym, ap, subst, ◌∙◌, Bool, true, false, ◌==◌, some, List, find_first-holds,
  update_where, All, Grows, Grows-refl, Grows-trans, Grows-update_where, Grows-update_one, arith,
  inl, inr, ◌⊎◌, ==→eq,
}
use finskool_monorepo.Payments.{
  ServiceRequest, ServiceRequestStatus, ServiceClosedReason, PayStore, PayEnv, is_closed,
  is_paid_request, find_request,
}
use finskool_monorepo.Payments.Close.{is_cancellable}
use finskool_monorepo.Payments.Quotes.{offer}
use finskool_monorepo.Payments.Run.{PayCall, serve_all}
use finskool_monorepo.Payments.Moves.{
  Step, stays, quoted, lapsed, turned_down, delivered, Same, Steps, Write, aside, moved, started,
  withdrawn, offered, granted, Reach, here, next, Calm,
}
use finskool_monorepo.Payments.Moves.Book.{request_id, IsBook, Reach-IsBook}
use finskool_monorepo.Payments.Moves.Served.{serve_all-Reach}

-- A closed request is closed for good, and a paid one can only be delivered.
abbrev pub IsAfter : ServiceRequest → ServiceRequest → Type 0
IsAfter a b =
    Same a b
    × (is_closed a.status ≡ true
        → (b.status ≡ a.status) × (b.closed_reason ≡ a.closed_reason) × (b.paid_at ≡ a.paid_at))
    × (is_paid_request a.status ≡ true
        → (b.paid_at ≡ a.paid_at)
          × ((b.status ≡ ServiceRequestStatus.paid)
              ⊎ ((b.status ≡ ServiceRequestStatus.closed)
                  × (b.closed_reason ≡ some ServiceClosedReason.completed))))

paid_is : (st : ServiceRequestStatus) → is_paid_request st ≡ true → st ≡ ServiceRequestStatus.paid
paid_is st h = ground arith

IsAfter-refl : (a : ServiceRequest) → IsAfter a a
IsAfter-refl a = ((refl, refl), λ h. (refl, refl, refl), λ h. (refl, inl (paid_is a.status h)))

IsAfter-trans : (a b c : ServiceRequest) → IsAfter a b → IsAfter b c → IsAfter a c
IsAfter-trans a b c p q = (
  (q.0.0 ∙ p.0.0, q.0.1 ∙ p.0.1),
  λ h. let (s, r, d) = p.1 h in let (s', r', d') = q.1 (rw s h) in (s' ∙ s, r' ∙ r, d' ∙ d),
  λ h.
      let (d, way) = p.2 h in
      elim way [
        | inl s ↦ let (d', way') = q.2 (rw s refl) in (d' ∙ d, way')
        | inr (s, r) ↦ let (s', r', d') = q.1 (rw s refl) in (d' ∙ d, inr (s' ∙ s, r' ∙ r))
      ],
)

waits_only :
    (st : ServiceRequestStatus)
    → is_cancellable st ≡ true
    → (is_closed st ≡ false) × (is_paid_request st ≡ false)
waits_only ServiceRequestStatus.requested h = (refl, refl)
waits_only ServiceRequestStatus.quote_sent h = (refl, refl)
waits_only ServiceRequestStatus.paid h = cc
waits_only ServiceRequestStatus.closed h = cc

Step-IsAfter_waiting :
    (a b : ServiceRequest) → Same a b → is_cancellable a.status ≡ true → IsAfter a b
Step-IsAfter_waiting a b same c =
    let (o, u) = waits_only a.status c in
    (same, λ h. let no : ⊥ = cc in elim no [ ], λ h. let no : ⊥ = cc in elim no [ ])

Step-IsAfter : (a b : ServiceRequest) → Same a b → Step a b → IsAfter a b
Step-IsAfter a b same (stays s r p) = (same, λ h. (s, r, p), λ h. (p, inl (s ∙ paid_is a.status h)))
Step-IsAfter a b same (quoted c s r p) = Step-IsAfter_waiting a b same c
Step-IsAfter a b same (lapsed c s r p) = Step-IsAfter_waiting a b same (rw c refl)
Step-IsAfter a b same (turned_down reason e c s r p) = Step-IsAfter_waiting a b same c
Step-IsAfter a b same (delivered c s r p) =
    (same, λ h. let no : ⊥ = ground (arith, ap is_closed c, h) in elim no [ ], λ h. (p, inr (s, r)))

abbrev Kept : List ServiceRequest → List ServiceRequest → Type 0
Kept rs ts = Grows IsAfter rs ts

Steps-Kept :
    (w : ServiceRequest → Bool) (f : ServiceRequest → ServiceRequest)
    → Steps w f
    → (rs : List ServiceRequest) → Kept rs (update_where w f rs)
Steps-Kept w f h rs =
    Grows-update_where IsAfter w f IsAfter-refl (λ x p. Step-IsAfter x (f x) (h x p).0 (h x p).1) rs

Write-Kept : (s t : PayStore) → IsBook s → Write s t → Kept s.requests t.requests
Write-Kept s t h (aside er eq) = rw er (Grows-refl IsAfter IsAfter-refl s.requests)
Write-Kept s t h (moved w f st er eq) = rw er (Steps-Kept w f st s.requests)
Write-Kept s t h (started w f kept er eq) = rw er (Grows-refl IsAfter IsAfter-refl s.requests)
Write-Kept s t h (withdrawn w f v st steps act gone unpaid er eq) =
    rw er (Steps-Kept w f steps s.requests)
Write-Kept s t h (offered id now x old q fr able fo fresh parent act newest er eq) = rw er (
    Grows-update_one request_id id (offer now) IsAfter x IsAfter-refl
      (Step-IsAfter_waiting x (offer now x) (refl, refl) able) s.requests h.one_request fr)
Write-Kept s t h (granted k id now q x f fq fr parent act sent kept er eq) =
    let same : x.id ≡ id = ==→eq _ _ (find_first-holds (λ r. r.id == id) s.requests fr) in
    let found : find_request x.id s ≡ some x =
      subst (λ i. find_request i s ≡ some x) (sym same) fr in
    rw er (
      Grows-update_one request_id x.id f IsAfter x IsAfter-refl
        (Step-IsAfter_waiting x (f x) (kept x).0 (rw sent refl)) s.requests h.one_request found)

Reach-Kept : (s t : PayStore) → IsBook s → Reach s t → Kept s.requests t.requests
Reach-Kept s t h here = Grows-refl IsAfter IsAfter-refl s.requests
Reach-Kept s t h (next {t = u} p w) =
    Grows-trans IsAfter IsAfter-trans s.requests u.requests t.requests (Reach-Kept s u h p)
      (Write-Kept u t (Reach-IsBook s u p h) w)

-- From a sound store, whatever calls are made, in whatever order and with calm others in between: every
-- request is still there with its member. One that was closed is closed, with the reason and the date
-- of payment that it had. One that was paid has the same date of payment, and is still paid or was
-- closed as completed: nothing withdraws a request that was paid for.
pub serve_all-IsAfter :
    (cs : List (PayEnv × PayCall))
    → All (λ c. Calm c.0) cs
    → (s : PayStore) → IsBook s
    → Grows IsAfter s.requests (serve_all cs s).requests
serve_all-IsAfter cs calm s h = Reach-Kept s (serve_all cs s) h (serve_all-Reach cs calm s)

-- ===== src/Payments/Moves/Book.antt =====
-- What the rows of the requests and the quotes keep through a run (apps/backend/src/modules/services).
use finskool_monorepo.Base.{
  ℕ, ◌≤◌, ◌≡◌, refl, sym, ap, subst, Bool, true, false, not, ◌||◌, ◌==◌, is_none, Option, none,
  some, List, find_first-holds, update_where, All, All-update_where, All-update_one, arith, inl,
  inr, ==→eq, UniqueKey, UniqueBy-append, UniqueBy-update_where,
}
use finskool_monorepo.Payments.{
  ServiceQuoteStatus, ServiceQuote, ServiceRequest, ServiceRequestStatus, PayStore, PayEnv,
  is_closed, is_paid_request, find_request,
}
use finskool_monorepo.Payments.Close.{is_cancellable}
use finskool_monorepo.Payments.Rating.{is_completed}
use finskool_monorepo.Payments.Quotes.{offer}
use finskool_monorepo.Payments.Run.{PayCall, serve_all}
use finskool_monorepo.Payments.Moves.{
  IsPaidFor, Step, stays, quoted, lapsed, turned_down, delivered, Steps, retire, Write, aside,
  moved, started, withdrawn, offered, granted, Reach, here, next, Calm,
}
use finskool_monorepo.Payments.Money.{update_quotes-UniqueKey}
use finskool_monorepo.Payments.Moves.Served.{serve_all-Reach}
use finskool_monorepo.Payments.Moves.ActiveQuotes.{
  active_count, ended_count, started_count, offered_count,
}

-- A request has a reason exactly when it is closed, and a date of payment exactly when it is paid or was
-- closed as completed.
abbrev pub IsSoundRow : ServiceRequest → Type 0
IsSoundRow r =
    (is_none r.closed_reason ≡ not (is_closed r.status))
    × (is_none r.paid_at ≡ not (is_paid_request r.status || is_completed r.closed_reason))

abbrev pub request_id : ServiceRequest → ℕ
request_id r = r.id

abbrev quote_id : ServiceQuote → ℕ
quote_id q = q.id

pub record IsBook (s : PayStore) : Type 0 where
  pub one_request : UniqueKey request_id s.requests
  pub one_quote : UniqueKey quote_id s.quotes
  pub one_active : (r : ℕ) → active_count r s.quotes ≤ 1
  pub sound : All IsSoundRow s.requests

none_is : {A : Type 0} (x : Option A) → is_none x ≡ true → x ≡ none
none_is none h = refl
none_is (some a) h = cc

waits_open :
    (st : ServiceRequestStatus)
    → is_cancellable st ≡ true
    → (is_closed st ≡ false) × (is_paid_request st ≡ false)
waits_open ServiceRequestStatus.requested h = (refl, refl)
waits_open ServiceRequestStatus.quote_sent h = (refl, refl)
waits_open ServiceRequestStatus.paid h = cc
waits_open ServiceRequestStatus.closed h = cc

-- A request that waits has no reason and no date of payment.
waiting_row :
    (a : ServiceRequest)
    → is_cancellable a.status ≡ true
    → IsSoundRow a
    → (a.closed_reason ≡ none) × (a.paid_at ≡ none)
waiting_row a c h =
    let (o, u) = waits_open a.status c in
    let r : a.closed_reason ≡ none = none_is a.closed_reason (ground (arith, h.0, o)) in
    (r, none_is a.paid_at (ground (arith, h.1, u, ap is_completed r)))

Step-IsSoundRow : (a b : ServiceRequest) → Step a b → IsSoundRow a → IsSoundRow b
Step-IsSoundRow a b (stays s r p) h = rw (s, r, p) h
Step-IsSoundRow a b (quoted c s r p) h =
    let (x, y) = waiting_row a c h in rw (s, r, p, x, y) (refl, refl)
Step-IsSoundRow a b (lapsed c s r p) h =
    let (x, y) = waiting_row a (rw c refl) h in rw (s, r, p, x, y) (refl, refl)
Step-IsSoundRow a b (turned_down reason (inl e) c s r p) h =
    let (x, y) = waiting_row a c h in rw (s, r, p, y, e) (refl, refl)
Step-IsSoundRow a b (turned_down reason (inr e) c s r p) h =
    let (x, y) = waiting_row a c h in rw (s, r, p, y, e) (refl, refl)
Step-IsSoundRow a b (delivered c s r p) h =
    rw (s, r, p) (refl, ground (arith, h.1, ap is_paid_request c))

paid-IsSoundRow :
    (now : ℕ) (a b : ServiceRequest)
    → a.status ≡ ServiceRequestStatus.quote_sent
    → IsPaidFor now a b
    → IsSoundRow a
    → IsSoundRow b
paid-IsSoundRow now a b c (s, r, p) h =
    let (x, y) = waiting_row a (rw c refl) h in rw (s, r, p, x) (refl, refl)

-- ─── Every write ────────────────────────────────────────────────────────────

retire-UniqueKey :
    (old : Option ServiceQuote) (qs : List ServiceQuote)
    → UniqueKey quote_id qs
    → UniqueKey quote_id (retire old qs)
retire-UniqueKey none qs u = u
retire-UniqueKey (some a) qs u = update_quotes-UniqueKey _ _ (λ q. refl) qs u

requests-UniqueKey :
    (w : ServiceRequest → Bool) (f : ServiceRequest → ServiceRequest)
    → ((x : ServiceRequest) → w x ≡ true → (f x).id ≡ x.id)
    → (rs : List ServiceRequest) → UniqueKey request_id rs
    → UniqueKey request_id (update_where w f rs)
requests-UniqueKey w f same rs u =
    UniqueBy-update_where _ w f (λ x y p. rw (same x p) refl) (λ x y p. rw (same y p) refl) rs u

Steps-sound :
    (w : ServiceRequest → Bool) (f : ServiceRequest → ServiceRequest)
    → Steps w f
    → (rs : List ServiceRequest) → All IsSoundRow rs
    → All IsSoundRow (update_where w f rs)
Steps-sound w f h rs = All-update_where IsSoundRow w f (λ x p. Step-IsSoundRow x (f x) (h x p).1) rs

Write-IsBook : (s t : PayStore) → Write s t → IsBook s → IsBook t
Write-IsBook s t (aside er eq) h = record {
  one_request = rw er h.one_request;
  one_quote = rw eq h.one_quote;
  one_active = λ r. rw eq (h.one_active r);
  sound = rw er h.sound;
}
Write-IsBook s t (moved w f st er eq) h = record {
  one_request = rw er (requests-UniqueKey w f (λ x p. (st x p).0.0) s.requests h.one_request);
  one_quote = rw eq h.one_quote;
  one_active = λ r. rw eq (h.one_active r);
  sound = rw er (Steps-sound w f st s.requests h.sound);
}
Write-IsBook s t (started w f kept er eq) h = record {
  one_request = rw er h.one_request;
  one_quote = rw eq (update_quotes-UniqueKey w f (λ q. (kept q).0.0) s.quotes h.one_quote);
  one_active = λ r. rw (eq, started_count r w f s.quotes kept) (h.one_active r);
  sound = rw er h.sound;
}
Write-IsBook s t (withdrawn w f v st steps act gone unpaid er eq) h = record {
  one_request = rw er (requests-UniqueKey w f (λ x p. (steps x p).0.0) s.requests h.one_request);
  one_quote = rw eq (update_quotes-UniqueKey v _ (λ q. refl) s.quotes h.one_quote);
  one_active = λ r. rw eq (omega (arith, ended_count r v st s.quotes gone, h.one_active r));
  sound = rw er (Steps-sound w f steps s.requests h.sound);
}
Write-IsBook s t (offered id now x old q fr able fo fresh parent act newest er eq) h = record {
  one_request = rw er (requests-UniqueKey _ (offer now) (λ x p. refl) s.requests h.one_request);
  one_quote = rw eq (
      UniqueBy-append _ q (λ y. ground arith) (retire old s.quotes) fresh
        (retire-UniqueKey old s.quotes h.one_quote));
  one_active = λ r. rw eq (offered_count id old q s.quotes fo parent h.one_active r);
  sound = rw er (
      All-update_one request_id id (offer now) IsSoundRow x
        (Step-IsSoundRow x (offer now x) (quoted able refl refl refl)) s.requests h.one_request fr
        h.sound);
}
Write-IsBook s t (granted k id now q x f fq fr parent act sent kept er eq) h =
    let found : find_request x.id s ≡ some x =
      subst (λ i. find_request i s ≡ some x)
        (sym (==→eq _ _ (find_first-holds (λ r. r.id == id) s.requests fr))) fr in
    record {
      one_request = rw er (requests-UniqueKey _ f (λ y p. (kept y).0.0) s.requests h.one_request);
      one_quote = rw eq (update_quotes-UniqueKey _ _ (λ p. refl) s.quotes h.one_quote);
      one_active = λ r. rw eq (
          omega (
            arith,
            ended_count r (λ p. p.id == q.id) ServiceQuoteStatus.paid s.quotes refl,
            h.one_active r,
          ));
      sound = rw er (
          All-update_one request_id x.id f IsSoundRow x
            (paid-IsSoundRow now x (f x) sent (kept x).1) s.requests h.one_request found h.sound);
    }

pub Reach-IsBook : (s t : PayStore) → Reach s t → IsBook s → IsBook t
Reach-IsBook s t here h = h
Reach-IsBook s t (next {t = u} p w) h = Write-IsBook u t w (Reach-IsBook s u p h)

-- Whatever calls are made, in whatever order and with calm others in between, the rows stay sound: a
-- request has one active quote at most, it has a reason exactly when it is closed, and it has a date of
-- payment exactly when it is paid or was closed as completed. So no declined or cancelled request was
-- ever paid for.
pub serve_all-IsBook :
    (cs : List (PayEnv × PayCall))
    → All (λ c. Calm c.0) cs
    → (s : PayStore) → IsBook s
    → IsBook (serve_all cs s)
serve_all-IsBook cs calm s = Reach-IsBook s (serve_all cs s) (serve_all-Reach cs calm s)

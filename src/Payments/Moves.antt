-- ===== src/Payments/Moves.antt =====
-- The life of a service request and of its quotes as a step relation: what may be committed to the
-- requests and the quotes. It is the specification that the calls of Run are held to.
pub mod Desk
pub mod Offers
pub mod Kept
pub mod Calls
pub mod Served
pub mod ActiveQuotes
pub mod Book
pub mod After
use finskool_monorepo.Base.{
  ℕ, ◌+◌, ◌<◌, ◌≡◌, ◌⊎◌, Bool, true, false, ◌&&◌, ◌==◌, Option, none, some, List, [], ◌∷◌, ◌++◌,
  find_first, any_where, count_where, update_where, All,
}
use finskool_monorepo.Payments.{
  ServiceRequestStatus, ServiceClosedReason, ServiceQuoteStatus, ServiceRequest, ServiceQuote,
  PayStore, PayEnv, is_active, is_paid_quote, is_closed, find_request, find_quote,
}
use finskool_monorepo.Payments.Close.{is_cancellable}
use finskool_monorepo.Payments.Quotes.{is_active_of, offer}

-- One step of a request: its state, why it ended and when it was paid. `stays` changes other columns. None
-- makes it paid: that takes a quote, and is the write `granted`.
pub data Step (a b : ServiceRequest) : Type 0 where
  stays : b.status ≡ a.status → b.closed_reason ≡ a.closed_reason → b.paid_at ≡ a.paid_at → Step a b
  quoted :
      is_cancellable a.status ≡ true
      → b.status ≡ ServiceRequestStatus.quote_sent
      → b.closed_reason ≡ a.closed_reason
      → b.paid_at ≡ a.paid_at
      → Step a b
  lapsed :
      a.status ≡ ServiceRequestStatus.quote_sent
      → b.status ≡ ServiceRequestStatus.requested
      → b.closed_reason ≡ a.closed_reason
      → b.paid_at ≡ a.paid_at
      → Step a b
  turned_down :
      (reason : ServiceClosedReason)
      → (reason ≡ ServiceClosedReason.declined) ⊎ (reason ≡ ServiceClosedReason.cancelled_by_member)
      → is_cancellable a.status ≡ true
      → b.status ≡ ServiceRequestStatus.closed
      → b.closed_reason ≡ some reason
      → b.paid_at ≡ a.paid_at
      → Step a b
  delivered :
      a.status ≡ ServiceRequestStatus.paid
      → b.status ≡ ServiceRequestStatus.closed
      → b.closed_reason ≡ some ServiceClosedReason.completed
      → b.paid_at ≡ a.paid_at
      → Step a b

abbrev pub Same : ServiceRequest → ServiceRequest → Type 0
Same a b = (b.id ≡ a.id) × (b.user_id ≡ a.user_id)

-- A step on the rows that `w` picks, which keep their id and their member.
abbrev pub Steps : (ServiceRequest → Bool) → (ServiceRequest → ServiceRequest) → Type 0
Steps w f = (x : ServiceRequest) → w x ≡ true → Same x (f x) × Step x (f x)

-- What a quote keeps for its whole life.
abbrev pub SameQuote : ServiceQuote → ServiceQuote → Type 0
SameQuote a b =
    (b.id ≡ a.id)
    × (b.request_id ≡ a.request_id)
    × (b.version ≡ a.version)
    × (b.total_paise ≡ a.total_paise)

abbrev pub end_quote : ServiceQuoteStatus → ServiceQuote → ServiceQuote
end_quote status q = record q { status = status }

-- The active quote that a new one replaces.
abbrev pub retire : Option ServiceQuote → List ServiceQuote → List ServiceQuote
retire none qs = qs
retire (some a) qs = update_where (λ q. q.id == a.id) (end_quote ServiceQuoteStatus.superseded) qs

-- What a grant makes of a request.
abbrev pub IsPaidFor : ℕ → ServiceRequest → ServiceRequest → Type 0
IsPaidFor now a b =
    (b.status ≡ ServiceRequestStatus.paid)
    × (b.closed_reason ≡ a.closed_reason)
    × (b.paid_at ≡ some now)

-- One committed write of the requests and the quotes, from `s` to `t`.
pub data Write (s t : PayStore) : Type 0 where
  aside : t.requests ≡ s.requests → t.quotes ≡ s.quotes → Write s t
  moved :
      (w : ServiceRequest → Bool) (f : ServiceRequest → ServiceRequest)
      → Steps w f
      → t.requests ≡ update_where w f s.requests
      → t.quotes ≡ s.quotes
      → Write s t
  -- A payment begins: the quote keeps its state.
  started :
      (w : ServiceQuote → Bool) (f : ServiceQuote → ServiceQuote)
      → ((q : ServiceQuote) → SameQuote q (f q) × ((f q).status ≡ q.status))
      → t.requests ≡ s.requests
      → t.quotes ≡ update_where w f s.quotes
      → Write s t
  -- Active quotes end unpaid, with what this means for requests.
  withdrawn :
      (w : ServiceRequest → Bool) (f : ServiceRequest → ServiceRequest) (v : ServiceQuote → Bool)
      (status : ServiceQuoteStatus)
      → Steps w f
      → ((q : ServiceQuote) → v q ≡ true → is_active q.status ≡ true)
      → is_active status ≡ false
      → is_paid_quote status ≡ false
      → t.requests ≡ update_where w f s.requests
      → t.quotes ≡ update_where v (end_quote status) s.quotes
      → Write s t
  -- A request that waits gets a new quote in place of its active one.
  offered :
      (id now : ℕ) (x : ServiceRequest) (old : Option ServiceQuote) (q : ServiceQuote)
      → find_request id s ≡ some x
      → is_cancellable x.status ≡ true
      → find_first (is_active_of id) s.quotes ≡ old
      → any_where (λ p. p.id == q.id) (retire old s.quotes) ≡ false
      → q.request_id ≡ id
      → q.status ≡ ServiceQuoteStatus.active
      → All (λ p. p.request_id ≡ id → p.version < q.version) (retire old s.quotes)
      → t.requests ≡ update_where (λ r. r.id == id) (offer now) s.requests
      → t.quotes ≡ retire old s.quotes ++ q ∷ []
      → Write s t
  -- An active quote is paid, and so is its request, which was waiting for that.
  granted :
      (k id now : ℕ) (q : ServiceQuote) (x : ServiceRequest) (f : ServiceRequest → ServiceRequest)
      → find_quote k s ≡ some q
      → find_request id s ≡ some x
      → q.request_id ≡ id
      → is_active q.status ≡ true
      → x.status ≡ ServiceRequestStatus.quote_sent
      → ((y : ServiceRequest) → Same y (f y) × IsPaidFor now y (f y))
      → t.requests ≡ update_where (λ r. r.id == x.id) f s.requests
      → t.quotes ≡ update_where (λ p. p.id == q.id) (end_quote ServiceQuoteStatus.paid) s.quotes
      → Write s t

-- Writes, one after the other.
pub data Reach (s : PayStore) : PayStore → Type 0 where
  here : Reach s s
  next : {t u : PayStore} → Reach s t → Write t u → Reach s u

pub Reach-trans : {s t u : PayStore} → Reach s t → Reach t u → Reach s u
Reach-trans p here = p
Reach-trans p (next q w) = next (Reach-trans p q) w

-- What others commit between a call's reads and its transaction is such writes as well.
abbrev pub Calm : PayEnv → Type 0
Calm env = (s : PayStore) → Reach s (env.others s)

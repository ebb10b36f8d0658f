-- ===== src/Payments/Money/Writes.antt =====
-- The grants of a request under the writes of Moves (apps/backend/src/modules/services).
use finskool_monorepo.Base.{
  ℕ, ◌≤◌, ◌≡◌, refl, sym, ap, subst, ◌∙◌, Bool, true, false, ◌&&◌, ◌==◌, Option, none, some, List,
  [], ◌∷◌, ◌++◌, find_first-holds, update_where, any_where, count_where, arith, Bool-cases, inl,
  inr, ==→eq, UniqueKey, UniqueBy-append, any_where-update_false, count_where-update_cond,
}
use finskool_monorepo.Payments.{
  ServiceQuoteStatus, ServiceQuote, ServiceRequest, ServiceRequestStatus, PayStore, is_active,
  is_paid_quote, find_quote, find_request,
}
use finskool_monorepo.Payments.Close.{is_cancellable}
use finskool_monorepo.Payments.Quotes.{offer}
use finskool_monorepo.Payments.Moves.{
  Step, stays, quoted, lapsed, turned_down, delivered, Same, Steps, end_quote, retire, Write, aside,
  moved, started, withdrawn, offered, granted, Reach, here, next, IsPaidFor,
}
use finskool_monorepo.Payments.Money.{
  paid_count, is_waiting, IsMoney, keep-IsMoney, update_quotes-UniqueKey, paid_count-update_where,
  granted_count, granted_waiting,
}
use finskool_monorepo.Payments.Money.Calls.{active_unpaid}
use finskool_monorepo.Payments.Money.Granted.{found_waiting, moved_bit}

-- No step makes a request wait that did not.
Step-waits :
    (a b : ServiceRequest)
    → Step a b
    → is_cancellable a.status ≡ false
    → is_cancellable b.status ≡ false
Step-waits a b (stays p q r) h = rw p h
Step-waits a b (quoted c p q r) h = cc
Step-waits a b (lapsed c p q r) h = ground (arith, ap is_cancellable c, h)
Step-waits a b (turned_down n c d p q r) h = rw p refl
Step-waits a b (delivered c p q r) h = rw p refl

Steps-waits :
    (w : ServiceRequest → Bool) (f : ServiceRequest → ServiceRequest)
    → Steps w f
    → (rs : List ServiceRequest) (r : ℕ) → is_waiting r rs ≡ false
    → is_waiting r (update_where w f rs) ≡ false
Steps-waits w f h rs r e =
    any_where-update_false _ w f rs
      (λ x p v. by_id x ((h x p).0.0) (Step-waits x (f x) (h x p).1) v) e
  where
    by_id :
        (x : ServiceRequest)
        → (f x).id ≡ x.id
        → (is_cancellable x.status ≡ false → is_cancellable (f x).status ≡ false)
        → (x.id == r && is_cancellable x.status) ≡ false
        → ((f x).id == r && is_cancellable (f x).status) ≡ false
    by_id x same step v = rw same (ground (arith, step, v))

-- ─── A new quote ────────────────────────────────────────────────────────────

retired_count :
    (r k : ℕ) (qs : List ServiceQuote)
    → paid_count r (update_where (λ q. q.id == k) (end_quote ServiceQuoteStatus.superseded) qs)
      ≤ paid_count r qs
unfolding update_where count_where
retired_count r k [] = omega arith
retired_count r k (q ∷ qs) = elim (Bool-cases (q.id == k)) [
  | inl p ↦ rw p (ground (arith, retired_count r k qs))
  | inr n ↦ rw n (ground (arith, retired_count r k qs))
]

retire_count :
    (old : Option ServiceQuote) (r : ℕ) (qs : List ServiceQuote)
    → paid_count r (retire old qs) ≤ paid_count r qs
retire_count none r qs = omega arith
retire_count (some a) r qs = retired_count r a.id qs

abbrev quote_id : ServiceQuote → ℕ
quote_id q = q.id

retire-UniqueKey :
    (old : Option ServiceQuote) (qs : List ServiceQuote)
    → UniqueKey quote_id qs
    → UniqueKey quote_id (retire old qs)
retire-UniqueKey none qs u = u
retire-UniqueKey (some a) qs u = update_quotes-UniqueKey _ _ (λ q. refl) qs u

append_unpaid :
    (r : ℕ) (q : ServiceQuote) (qs : List ServiceQuote)
    → is_paid_quote q.status ≡ false
    → paid_count r (qs ++ q ∷ []) ≡ paid_count r qs
unfolding count_where
append_unpaid r q [] h = ground (arith, h)
append_unpaid r q (p ∷ qs) h = ground (arith, append_unpaid r q qs h)

-- A request that is offered a quote waited before.
offered_waiting :
    (id now r : ℕ) (rs : List ServiceRequest)
    → is_waiting id rs ≡ true
    → is_waiting r rs ≡ false
    → is_waiting r (update_where (λ x. x.id == id) (offer now) rs) ≡ false
offered_waiting id now r rs w e =
    any_where-update_false _ (λ x. x.id == id) (offer now) rs
      (λ x p v. elim (Bool-cases (x.id == r)) [
        | inl q ↦
            let same : id ≡ r = sym (==→eq x.id id p) ∙ ==→eq x.id r q in
            let c : is_waiting r rs ≡ true = subst (λ i. is_waiting i rs ≡ true) same w in
            let no : ⊥ = cc in elim no [ ]
        | inr n ↦ ground (arith, n)
      ])
      e

offered-IsMoney :
    (s t : PayStore) (id now : ℕ) (old : Option ServiceQuote) (q : ServiceQuote)
    → is_waiting id s.requests ≡ true
    → any_where (λ p. p.id == q.id) (retire old s.quotes) ≡ false
    → is_paid_quote q.status ≡ false
    → t.requests ≡ update_where (λ r. r.id == id) (offer now) s.requests
    → t.quotes ≡ retire old s.quotes ++ q ∷ []
    → IsMoney s
    → IsMoney t
offered-IsMoney s t id now old q w u st er eq h = record {
  one_row = rw eq (
      UniqueBy-append _ q (λ x. ground arith) (retire old s.quotes) u
        (retire-UniqueKey old s.quotes h.one_row));
  paid_once = λ r.
      let fewer : paid_count r t.quotes ≤ paid_count r s.quotes =
        rw (eq, append_unpaid r q (retire old s.quotes) st) (retire_count old r s.quotes) in
      elim (Bool-cases (is_waiting r s.requests)) [
        | inl p ↦ ground (arith, fewer, h.paid_once r, p)
        | inr n ↦
            let still : is_waiting r t.requests ≡ false =
              rw er (offered_waiting id now r s.requests w n) in
            ground (arith, fewer, h.paid_once r, n, still)
      ];
}

-- ─── A grant, and every write ───────────────────────────────────────────────

granted-IsMoney :
    (s t : PayStore) (k id now : ℕ) (q : ServiceQuote) (x : ServiceRequest)
    (f : ServiceRequest → ServiceRequest)
    → find_quote k s ≡ some q
    → find_request id s ≡ some x
    → q.request_id ≡ id
    → is_active q.status ≡ true
    → x.status ≡ ServiceRequestStatus.quote_sent
    → ((y : ServiceRequest) → Same y (f y) × IsPaidFor now y (f y))
    → t.requests ≡ update_where (λ r. r.id == x.id) f s.requests
    → t.quotes ≡ update_where (λ p. p.id == q.id) (end_quote ServiceQuoteStatus.paid) s.quotes
    → IsMoney s
    → IsMoney t
granted-IsMoney s t k id now q x f fq fr parent act sent kept er eq h =
    let kk : q.id ≡ k = ==→eq _ _ (find_first-holds (λ p. p.id == k) s.quotes fq) in
    let aa : x.id ≡ id = ==→eq _ _ (find_first-holds (λ r. r.id == id) s.requests fr) in
    let waits = found_waiting id s.requests x fr (rw sent refl) in
    let fq' : find_quote q.id s ≡ some q = subst (λ i. find_quote i s ≡ some q) (sym kk) fq in
    record {
      one_row = rw eq (update_quotes-UniqueKey _ _ (λ p. refl) s.quotes h.one_row);
      paid_once = λ r.
          rw
            (
              eq,
              er,
              granted_count r q.id s.quotes q h.one_row fq' act,
              granted_waiting r x.id f (λ y. (kept y).0.0) (λ y. rw ((kept y).1.0) refl) s.requests,
              parent,
              aa,
            )
            (moved_bit (paid_count r s.quotes) (is_waiting r s.requests) (id == r)
              (λ p. subst (λ i. is_waiting i s.requests ≡ true) (==→eq id r p) waits)
              (h.paid_once r));
    }

Write-IsMoney : (s t : PayStore) → Write s t → IsMoney s → IsMoney t
Write-IsMoney s t (aside er eq) h = record {
  one_row = rw eq h.one_row;
  paid_once = λ i. rw (eq, er) (h.paid_once i);
}
Write-IsMoney s t (moved w f st er eq) h =
    keep-IsMoney s t (rw eq h.one_row) (λ r. rw eq refl)
      (λ r e. rw er (Steps-waits w f st s.requests r e)) h
Write-IsMoney s t (started w f kept er eq) h =
    keep-IsMoney s t (rw eq (update_quotes-UniqueKey w f (λ q. (kept q).0.0) s.quotes h.one_row))
      (λ r.
        rw eq (count_where-update_cond _ w f s.quotes (λ q p. rw ((kept q).0.1, (kept q).1) refl)))
      (λ r e. rw er e) h
Write-IsMoney s t (withdrawn w f v st steps act gone unpaid er eq) h =
    keep-IsMoney s t (rw eq (update_quotes-UniqueKey v _ (λ q. refl) s.quotes h.one_row))
      (λ r. rw eq (
        paid_count-update_where v _ (λ q p. active_unpaid q.status (act q p)) (λ q p. unpaid) r
          s.quotes))
      (λ r e. rw er (Steps-waits w f steps s.requests r e)) h
Write-IsMoney s t (offered id now x old q fr able fo fresh parent act newest er eq) h =
    offered-IsMoney s t id now old q (found_waiting id s.requests x fr able) fresh (rw act refl) er
      eq h
Write-IsMoney s t (granted k id now q x f fq fr parent act sent kept er eq) h =
    granted-IsMoney s t k id now q x f fq fr parent act sent kept er eq h

pub Reach-IsMoney : (s t : PayStore) → Reach s t → IsMoney s → IsMoney t
Reach-IsMoney s t here h = h
Reach-IsMoney s t (next {t = u} p w) h = Write-IsMoney u t w (Reach-IsMoney s u p h)

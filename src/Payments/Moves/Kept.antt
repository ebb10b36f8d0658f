-- ===== src/Payments/Moves/Kept.antt =====
-- What a quote keeps through the writes of a run (apps/backend/src/modules/services).
use finskool_monorepo.Base.{
  ℕ, ◌≡◌, refl, ◌∙◌, Bool, true, false, ◌==◌, Option, none, some, List, [], ◌∷◌, find_first,
  update_where, Grows, Grows-refl, Grows-trans, Grows-append, Grows-update_where, Bool-cases, inl,
  inr, arith,
}
use finskool_monorepo.Payments.{ServiceQuote, ServiceQuoteStatus, PayStore, find_quote}
use finskool_monorepo.Payments.Moves.{
  SameQuote, end_quote, retire, Write, aside, moved, started, withdrawn, offered, granted, Reach,
  here, next,
}

pub SameQuote-refl : (q : ServiceQuote) → SameQuote q q
SameQuote-refl q = (refl, refl, refl, refl)

SameQuote-trans : (a b c : ServiceQuote) → SameQuote a b → SameQuote b c → SameQuote a c
SameQuote-trans a b c p q = (q.0 ∙ p.0, q.1 ∙ p.1, q.2 ∙ p.2, q.3 ∙ p.3)

kept_where :
    (w : ServiceQuote → Bool) (f : ServiceQuote → ServiceQuote)
    → ((q : ServiceQuote) → SameQuote q (f q))
    → (qs : List ServiceQuote) → Grows SameQuote qs (update_where w f qs)
kept_where w f h qs = Grows-update_where SameQuote w f SameQuote-refl (λ q p. h q) qs

ended :
    (w : ServiceQuote → Bool) (st : ServiceQuoteStatus) (qs : List ServiceQuote)
    → Grows SameQuote qs (update_where w (end_quote st) qs)
ended w st qs = kept_where w (end_quote st) (λ q. (refl, refl, refl, refl)) qs

retired : (old : Option ServiceQuote) (qs : List ServiceQuote) → Grows SameQuote qs (retire old qs)
retired none qs = Grows-refl SameQuote SameQuote-refl qs
retired (some a) qs = ended (λ q. q.id == a.id) ServiceQuoteStatus.superseded qs

Write-quotes : (s t : PayStore) → Write s t → Grows SameQuote s.quotes t.quotes
Write-quotes s t (aside r q) = rw q (Grows-refl SameQuote SameQuote-refl s.quotes)
Write-quotes s t (moved w f h r q) = rw q (Grows-refl SameQuote SameQuote-refl s.quotes)
Write-quotes s t (started w f h r q) = rw q (kept_where w f (λ x. (h x).0) s.quotes)
Write-quotes s t (withdrawn w f v st h a b c r q) = rw q (ended v st s.quotes)
Write-quotes s t (offered id now x old new fr ca fo un rq st ve r q) = rw q (
    Grows-trans SameQuote SameQuote-trans s.quotes (retire old s.quotes) _ (retired old s.quotes)
      (Grows-append SameQuote SameQuote-refl (retire old s.quotes) (new ∷ [])))
Write-quotes s t (granted k id now x y f fq fr pa ac se g r q) =
    rw q (ended (λ p. p.id == x.id) ServiceQuoteStatus.paid s.quotes)

-- No quote disappears or changes its id, its request, its version or its amount.
pub Reach-quotes : (s t : PayStore) → Reach s t → Grows SameQuote s.quotes t.quotes
Reach-quotes s t here = Grows-refl SameQuote SameQuote-refl s.quotes
Reach-quotes s t (next {t = u} p w) =
    Grows-trans SameQuote SameQuote-trans s.quotes u.quotes t.quotes (Reach-quotes s u p)
      (Write-quotes u t w)

found_kept :
    (k : ℕ) (xs ys : List ServiceQuote) (x y : ServiceQuote)
    → Grows SameQuote xs ys
    → find_first (λ q. q.id == k) xs ≡ some x
    → find_first (λ q. q.id == k) ys ≡ some y
    → y.request_id ≡ x.request_id
unfolding find_first
found_kept k [] ys x y g e f = cc
found_kept k (a ∷ xs) [] x y g e f = elim g [ ]
found_kept k (a ∷ xs) (b ∷ ys) x y g e f = elim (Bool-cases (a.id == k)) [
  | inl p ↦
      let ax : a ≡ x = ground (arith, e, p) in
      let q : (b.id == k) ≡ true = rw g.0.0 p in
      let by : b ≡ y = ground (arith, f, q) in rw (← ax, ← by) g.0.1
  | inr n ↦
      let q : (b.id == k) ≡ false = rw g.0.0 n in
      found_kept k xs ys x y g.1 (ground (arith, e, n)) (ground (arith, f, q))
]

pub Reach-parents :
    (s t : PayStore)
    → Reach s t
    → (k : ℕ) (q r : ServiceQuote) → find_quote k s ≡ some q
    → find_quote k t ≡ some r
    → r.request_id ≡ q.request_id
Reach-parents s t p k q r e f = found_kept k s.quotes t.quotes q r (Reach-quotes s t p) e f

-- ===== src/Payments/Moves/ActiveQuotes.antt =====
-- How many active quotes a request has, before and after a write (apps/backend/src/modules/services).
use finskool_monorepo.Base.{
  ℕ, ◌+◌, ◌≤◌, ◌≡◌, refl, ap, Bool, true, false, ◌==◌, Option, none, some, List, [], ◌∷◌, ◌++◌,
  find_first, update_where, count_where, arith, Bool-cases, inl, inr, ==→eq,
}
use finskool_monorepo.Payments.{ServiceQuoteStatus, ServiceQuote, is_active}
use finskool_monorepo.Payments.Quotes.{is_active_of}
use finskool_monorepo.Payments.Moves.{SameQuote, end_quote, retire}

abbrev pub active_count : ℕ → List ServiceQuote → ℕ
active_count r qs = count_where (is_active_of r) qs

pub ended_count :
    (r : ℕ) (w : ServiceQuote → Bool) (st : ServiceQuoteStatus) (qs : List ServiceQuote)
    → is_active st ≡ false
    → active_count r (update_where w (end_quote st) qs) ≤ active_count r qs
unfolding update_where count_where
ended_count r w st [] e = omega arith
ended_count r w st (q ∷ qs) e = elim (Bool-cases (w q)) [
  | inl p ↦ rw p (ground (arith, ended_count r w st qs e, e))
  | inr n ↦ rw n (ground (arith, ended_count r w st qs e))
]

pub started_count :
    (r : ℕ) (w : ServiceQuote → Bool) (f : ServiceQuote → ServiceQuote) (qs : List ServiceQuote)
    → ((q : ServiceQuote) → SameQuote q (f q) × ((f q).status ≡ q.status))
    → active_count r (update_where w f qs) ≡ active_count r qs
unfolding update_where count_where
started_count r w f [] h = refl
started_count r w f (q ∷ qs) h = elim (Bool-cases (w q)) [
  | inl p ↦ rw (p, (h q).0.1, (h q).1, started_count r w f qs h) refl
  | inr n ↦ rw (n, started_count r w f qs h) refl
]

-- Retiring the active quote of a request leaves it none.
retired_count :
    (id : ℕ) (a : ServiceQuote) (qs : List ServiceQuote)
    → find_first (is_active_of id) qs ≡ some a
    → active_count id
          (update_where (λ q. q.id == a.id) (end_quote ServiceQuoteStatus.superseded) qs)
        + 1
      ≤ active_count id qs
unfolding find_first update_where count_where
retired_count id a [] e = cc
retired_count id a (q ∷ qs) e = elim (Bool-cases (is_active_of id q)) [
  | inl p ↦
      let same : q ≡ a = ground (arith, e, p) in
      let key : (q.id == a.id) ≡ true = ground (arith, ap (λ x. x.id) same) in
      rw (key, p)
        (ground
          (arith, p, ended_count id (λ q. q.id == a.id) ServiceQuoteStatus.superseded qs refl))
  | inr n ↦
      let ih = retired_count id a qs (ground (arith, e, n)) in
      elim (Bool-cases (q.id == a.id)) [
        | inl p ↦ rw (p, n) (ground (arith, ih, n))
        | inr m ↦ rw (m, n) (ground (arith, ih, n))
      ]
]

no_active :
    (id : ℕ) (qs : List ServiceQuote)
    → find_first (is_active_of id) qs ≡ none
    → active_count id qs ≡ 0
unfolding find_first count_where
no_active id [] e = refl
no_active id (q ∷ qs) e = elim (Bool-cases (is_active_of id q)) [
  | inl p ↦ let no : ⊥ = ground (arith, e, p) in elim no [ ]
  | inr n ↦ rw n (no_active id qs (ground (arith, e, n)))
]

append_active :
    (r : ℕ) (q : ServiceQuote) (qs : List ServiceQuote)
    → active_count r (qs ++ q ∷ []) ≤ active_count r qs + 1
unfolding count_where
append_active r q [] = elim (Bool-cases (is_active_of r q)) [
  | inl p ↦ rw p (omega arith)
  | inr n ↦ rw n (omega arith)
]
append_active r q (p ∷ qs) = elim (Bool-cases (is_active_of r p)) [
  | inl k ↦ rw k (omega (arith, append_active r q qs))
  | inr n ↦ rw n (append_active r q qs)
]

append_other :
    (r : ℕ) (q : ServiceQuote) (qs : List ServiceQuote)
    → is_active_of r q ≡ false
    → active_count r (qs ++ q ∷ []) ≡ active_count r qs
unfolding count_where
append_other r q [] h = rw h refl
append_other r q (p ∷ qs) h = rw (append_other r q qs h) refl

retire_count :
    (old : Option ServiceQuote) (r : ℕ) (qs : List ServiceQuote)
    → active_count r (retire old qs) ≤ active_count r qs
retire_count none r qs = omega arith
retire_count (some a) r qs = ended_count r (λ q. q.id == a.id) ServiceQuoteStatus.superseded qs refl

room :
    (id : ℕ) (old : Option ServiceQuote) (qs : List ServiceQuote)
    → find_first (is_active_of id) qs ≡ old
    → active_count id qs ≤ 1
    → active_count id (retire old qs) ≡ 0
room id none qs e h = no_active id qs e
room id (some a) qs e h = omega (arith, retired_count id a qs e, h)

pub offered_count :
    (id : ℕ) (old : Option ServiceQuote) (q : ServiceQuote) (qs : List ServiceQuote)
    → find_first (is_active_of id) qs ≡ old
    → q.request_id ≡ id
    → ((r : ℕ) → active_count r qs ≤ 1)
    → (r : ℕ) → active_count r (retire old qs ++ q ∷ []) ≤ 1
offered_count id old q qs e parent h r = elim (Bool-cases (id == r)) [
  | inl p ↦
      rw (← ==→eq id r p)
        (omega (arith, append_active id q (retire old qs), room id old qs e (h id)))
  | inr n ↦
      let other : is_active_of r q ≡ false = ground (arith, parent, n) in
      rw (append_other r q (retire old qs) other) (omega (arith, retire_count old r qs, h r))
]

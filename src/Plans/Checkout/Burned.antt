-- ===== src/Plans/Checkout/Burned.antt =====
-- Links of the checkout page that were used (apps/backend/src/modules/payments/payments.checkout.ts).
use finskool_monorepo.Base.{
  ℕ, ◌≡◌, refl, Bool, false, ◌==◌, ltb, none, List, [], ◌∷◌, find_first, find_many, any_where, All,
  arith, Bool-cases, Option-cases, inl, inr, Result, ok, err, Result-cases,
}
use finskool_monorepo.Plans.{find_plan_order}
use finskool_monorepo.Plans.Checkout.{
  TokenEntry, CheckoutStore, CheckoutEnv, find_token, drop_token, issue_link, create_session,
  signed_out, open_session, exchange, order_of_session, verify_in_session, checkout_status,
  paid_with, max_checkouts_per_hour, bumped, find_rate,
}

pub data CheckoutCall : Type 0 where
  open_link : (user_id community_id plan_id : ℕ) → CheckoutCall
  use_link : (handoff_token : ℕ) → CheckoutCall
  pay_in_session : (signature_valid : Bool) (session_token payment_id : ℕ) → CheckoutCall
  ask_status : (session_token : ℕ) → CheckoutCall

unfoldable pub serve_checkout : CheckoutEnv → CheckoutCall → CheckoutStore → CheckoutStore
serve_checkout env (open_link u c p) s = (create_session env u c p s).1
serve_checkout env (use_link t) s = (exchange env t s).1
serve_checkout env (pay_in_session v t p) s = (verify_in_session env v t p s).1
serve_checkout env (ask_status t) s = (checkout_status env t s).1

unfoldable pub serve_checkouts : List (CheckoutEnv × CheckoutCall) → CheckoutStore → CheckoutStore
unfolding serve_checkout
serve_checkouts [] s = s
serve_checkouts ((env, c) ∷ cs) s = serve_checkouts cs (serve_checkout env c s)

abbrev has_hash : ℕ → List TokenEntry → Bool
has_hash h es = any_where (λ e. e.hash == h) es

-- No link with this hash is open.
abbrev IsBurned : ℕ → CheckoutStore → Type 0
IsBurned h s = has_hash h s.handoffs ≡ false

dropped : (h : ℕ) (es : List TokenEntry) → has_hash h (drop_token h es) ≡ false
unfolding any_where find_many
dropped h [] = refl
dropped h (e ∷ es) = elim (Bool-cases (e.hash == h)) [
  | inl p ↦ rw p (dropped h es)
  | inr n ↦ rw n (rw n (dropped h es))
]

still_dropped :
    (h k : ℕ) (es : List TokenEntry) → has_hash h es ≡ false → has_hash h (drop_token k es) ≡ false
unfolding any_where find_many
still_dropped h k [] b = refl
still_dropped h k (e ∷ es) b = elim (Bool-cases (e.hash == k)) [
  | inl p ↦ rw p (still_dropped h k es (ground (arith, b)))
  | inr n ↦ rw n (ground (arith, b, still_dropped h k es))
]

no_token : (h now : ℕ) (es : List TokenEntry) → has_hash h es ≡ false → find_token h now es ≡ none
unfolding any_where find_first
no_token h now [] b = refl
no_token h now (e ∷ es) b = ground (arith, b, no_token h now es)

open_session-handoffs :
    (env : CheckoutEnv) (o : ℕ) (s : CheckoutStore) → (open_session env o s).1.handoffs ≡ s.handoffs
unfolding open_session
open_session-handoffs env o s = elim (Option-cases (find_plan_order o s.plan_store)) [
  | inl f ↦ rw (f, open_session) refl
  | inr (x, f) ↦ rw (f, open_session) refl
]

exchange-handoffs :
    (env : CheckoutEnv) (t : ℕ) (s : CheckoutStore)
    → (exchange env t s).1.handoffs ≡ drop_token (env.hash_of t) s.handoffs
unfolding exchange
exchange-handoffs env t s =
    elim (Option-cases (find_token (env.hash_of t) env.plan_env.now s.handoffs)) [
      | inl e ↦ rw (e, exchange) refl
      | inr (x, e) ↦
          rw (e, exchange)
            (open_session-handoffs env x.plan_order_id
              (record s { handoffs = drop_token (env.hash_of t) s.handoffs }))
    ]

used_up :
    (env : CheckoutEnv) (t : ℕ) (s : CheckoutStore)
    → find_token (env.hash_of t) env.plan_env.now s.handoffs ≡ none
    → ((exchange env t s).0 ≡ err signed_out) × ((exchange env t s).1.sessions ≡ s.sessions)
unfolding exchange
used_up env t s e = rw (e, exchange) (refl, refl)

issue_link-IsBurned :
    (env : CheckoutEnv) (h : ℕ) (r : Result ℕ) (s : CheckoutStore)
    → (env.hash_of env.new_token == h) ≡ false
    → IsBurned h s
    → IsBurned h (issue_link env r s).1
unfolding any_where
issue_link-IsBurned env h (err e) s n b = b
issue_link-IsBurned env h (ok o) s n b =
    rw n (still_dropped h (env.hash_of env.new_token) s.handoffs b)

create_session-IsBurned :
    (env : CheckoutEnv) (h u c p : ℕ) (s : CheckoutStore)
    → (env.hash_of env.new_token == h) ≡ false
    → IsBurned h s
    → IsBurned h (create_session env u c p s).1
unfolding create_session
create_session-IsBurned env h u c p s n b =
    elim (Bool-cases (
      ltb max_checkouts_per_hour
        (bumped u env.plan_env.now (find_rate u env.plan_env.now s.rates)).count)) [
          | inl k ↦ rw k b
          | inr k ↦ rw k (issue_link-IsBurned env h _ _ n b)
        ]

verify_in_session-handoffs :
    (env : CheckoutEnv) (v : Bool) (t p : ℕ) (s : CheckoutStore)
    → (verify_in_session env v t p s).1.handoffs ≡ s.handoffs
unfolding verify_in_session
verify_in_session-handoffs env v t p s = elim (Result-cases (order_of_session env t s)) [
  | inl (e, f) ↦ rw (f, verify_in_session) refl
  | inr (o, f) ↦ rw (f, verify_in_session) refl
]

checkout_status-handoffs :
    (env : CheckoutEnv) (t : ℕ) (s : CheckoutStore)
    → (checkout_status env t s).1.handoffs ≡ s.handoffs
unfolding checkout_status
checkout_status-handoffs env t s = elim (Result-cases (order_of_session env t s)) [
  | inl (e, f) ↦ rw (f, checkout_status) refl
  | inr (o, f) ↦
      rw (f, checkout_status)
        (elim (Option-cases (paid_with o)) [ inl k ↦ rw k refl | inr (p, k) ↦ rw k refl ])
]

serve_checkout-IsBurned :
    (env : CheckoutEnv) (h : ℕ) (c : CheckoutCall) (s : CheckoutStore)
    → (env.hash_of env.new_token == h) ≡ false
    → IsBurned h s
    → IsBurned h (serve_checkout env c s)
unfolding serve_checkout
serve_checkout-IsBurned env h (open_link u c p) s n b = create_session-IsBurned env h u c p s n b
serve_checkout-IsBurned env h (use_link t) s n b =
    rw (exchange-handoffs env t s) (still_dropped h (env.hash_of t) s.handoffs b)
serve_checkout-IsBurned env h (pay_in_session v t p) s n b =
    rw (verify_in_session-handoffs env v t p s) b
serve_checkout-IsBurned env h (ask_status t) s n b = rw (checkout_status-handoffs env t s) b

-- Every call draws a token with another hash.
abbrev pub OtherTokens : ℕ → List (CheckoutEnv × CheckoutCall) → Type 0
OtherTokens h cs = All (λ c. (c.0.hash_of c.0.new_token == h) ≡ false) cs

serve_checkouts-IsBurned :
    (h : ℕ) (cs : List (CheckoutEnv × CheckoutCall)) (s : CheckoutStore)
    → OtherTokens h cs
    → IsBurned h s
    → IsBurned h (serve_checkouts cs s)
unfolding serve_checkouts
serve_checkouts-IsBurned h [] s n b = b
serve_checkouts-IsBurned h ((env, c) ∷ cs) s n b =
    serve_checkouts-IsBurned h cs (serve_checkout env c s) n.1
      (serve_checkout-IsBurned env h c s n.0 b)

-- A link is good for one use: whether the first use opened a session or not, and whatever calls come after
-- it, as long as no new link has its hash, a second use is answered with 401 and opens nothing.
pub exchange-serve_checkouts-exchange :
    (env env' : CheckoutEnv) (t : ℕ) (cs : List (CheckoutEnv × CheckoutCall)) (s : CheckoutStore)
    → env'.hash_of t ≡ env.hash_of t
    → OtherTokens (env.hash_of t) cs
    → let later = serve_checkouts cs (exchange env t s).1 in
      ((exchange env' t later).0 ≡ err signed_out)
      × ((exchange env' t later).1.sessions ≡ later.sessions)
unfolding exchange
exchange-serve_checkouts-exchange env env' t cs s same n =
    let later = serve_checkouts cs (exchange env t s).1 in
    let gone : IsBurned (env.hash_of t) later =
      serve_checkouts-IsBurned (env.hash_of t) cs (exchange env t s).1 n
        (rw (exchange-handoffs env t s) (dropped (env.hash_of t) s.handoffs)) in
    let none_left : find_token (env'.hash_of t) env'.plan_env.now later.handoffs ≡ none =
      rw same (no_token (env.hash_of t) env'.plan_env.now later.handoffs gone) in
    used_up env' t later none_left

-- ===== src/Plans/Checkout/Limit.antt =====
-- How many links a member gets in an hour (apps/backend/src/modules/payments/payments.checkout.ts).
use finskool_monorepo.Base.{
  ℕ, suc, ◌+◌, ◌≤◌, ◌<◌, ◌≡◌, refl, ap, true, ◌&&◌, ◌==◌, ltb, none, some, List, [], ◌∷◌,
  find_first, All, arith, Bool-cases, inl, inr, Result, ok, err, AppError, ErrorCode, max,
  Result-cases, find_first-holds,
}
use native.Mathlib.Decide.{dec_le}
use finskool_monorepo.Plans.Checkout.{
  RateEntry, CheckoutStore, CheckoutEnv, issue_link, create_session, max_checkouts_per_hour, bumped,
  bump, find_rate, hour_ms,
}

abbrev pub SessionCall : Type 0
SessionCall = CheckoutEnv × (ℕ × ℕ)

abbrev pub got : Result ℕ → ℕ
got (ok token) = 1
got (err e) = 0

-- The links that a member gets from attempts, one after the other.
unfoldable pub links : ℕ → List SessionCall → CheckoutStore → ℕ
links user_id [] s = 0
links user_id ((env, c) ∷ cs) s =
    let rest = links user_id cs (create_session env user_id c.0 c.1 s).1 in
    got (create_session env user_id c.0 c.1 s).0 + rest

create_session-rates :
    (env : CheckoutEnv) (u c p : ℕ) (s : CheckoutStore)
    → (create_session env u c p s).1.rates ≡ bump u env.plan_env.now s.rates
unfolding create_session
create_session-rates env u c p s =
    elim (Bool-cases (
      ltb max_checkouts_per_hour
        (bumped u env.plan_env.now (find_rate u env.plan_env.now s.rates)).count)) [
          | inl k ↦ rw k refl
          | inr k ↦ rw k (issued _ _)
        ]
  where
    issued : (r : Result ℕ) (t : CheckoutStore) → (issue_link env r t).1.rates ≡ t.rates
    issued (ok o) t = refl
    issued (err e) t = refl

-- A member over the limit gets none.
create_session-refused :
    (env : CheckoutEnv) (u c p : ℕ) (s : CheckoutStore) (x : RateEntry)
    → find_rate u env.plan_env.now s.rates ≡ some x
    → max_checkouts_per_hour ≤ x.count
    → (create_session env u c p s).0 ≡ err (AppError.too_many_requests ErrorCode.no_code)
unfolding create_session
create_session-refused env u c p s x e h =
    let over : ltb max_checkouts_per_hour (suc x.count) ≡ true = ground (arith, h) in
    rw (e, create_session) (rw over refl)

-- The entry that an attempt leaves, as long as the hour lasts.
rate_after :
    (u now later : ℕ) (rs : List RateEntry) (x : RateEntry)
    → find_rate u now rs ≡ some x
    → later < x.expires_at
    → find_rate u later (bump u now rs) ≡ some (record x { count = suc x.count })
unfolding find_first
rate_after u now later rs x e l =
    let mine : x.user_id ≡ u =
      ground (arith, find_first-holds (λ r. r.user_id == u && ltb now r.expires_at) rs e) in
    rw (e, mine) (ground (arith, l, mine))

-- `x` is the entry of the member at each of the attempts to come.
links_left :
    (u : ℕ) (cs : List SessionCall) (s : CheckoutStore) (x : RateEntry)
    → All (λ c. c.0.plan_env.now < x.expires_at) cs
    → ((now : ℕ) → now < x.expires_at → find_rate u now s.rates ≡ some x)
    → links u cs s + x.count ≤ max max_checkouts_per_hour x.count
unfolding links
links_left u [] s x t f = omega arith
links_left u ((env, (c, p)) ∷ cs) s x t f =
    let now = env.plan_env.now in
    let after = (create_session env u c p s).1 in
    let next : RateEntry = record x { count = suc x.count } in
    let kept : (later : ℕ) → later < next.expires_at → find_rate u later after.rates ≡ some next =
      λ later l.
        rw (create_session-rates env u c p s) (rate_after u now later s.rates x (f now t.0) l) in
    let ih = links_left u cs after next t.1 kept in
    elim (Result-cases (create_session env u c p s).0) [
      | inl (e, k) ↦ omega (arith, ih, ap got k)
      | inr (token, k) ↦ (elim (dec_le max_checkouts_per_hour x.count) [
        | yes over ↦
            let no : ⊥ = ground (arith, create_session-refused env u c p s x (f now t.0) over, k) in
            elim no [ ]
        | no under ↦ omega (arith, ih, under, ap got k)
      ])
    ]

-- Attempts within the hour of the first one get ten links at most, however many they are.
pub links-limit :
    (u : ℕ) (env : CheckoutEnv) (c : ℕ × ℕ) (cs : List SessionCall) (s : CheckoutStore)
    → find_rate u env.plan_env.now s.rates ≡ none
    → All (λ d. d.0.plan_env.now < env.plan_env.now + hour_ms) cs
    → links u ((env, c) ∷ cs) s ≤ max_checkouts_per_hour
unfolding links find_first
links-limit u env (c, p) cs s e t =
    let now = env.plan_env.now in
    let first : RateEntry = record { user_id = u; count = 1; expires_at = now + hour_ms } in
    let after = (create_session env u c p s).1 in
    let kept : (later : ℕ) → later < first.expires_at → find_rate u later after.rates ≡ some first =
      λ later l. rw (create_session-rates env u c p s, e) (ground (arith, l)) in
    let rest = links_left u cs after first t kept in
    elim (Result-cases (create_session env u c p s).0) [
      | inl (x, k) ↦ omega (arith, rest, ap got k)
      | inr (token, k) ↦ omega (arith, rest, ap got k)
    ]

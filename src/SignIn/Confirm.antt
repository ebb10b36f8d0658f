-- ===== src/SignIn/Confirm.antt =====
-- The code of a registration and the account that it makes: `confirmOtp`, `finalizeRegistration` and
-- `linkIdentity` of apps/backend/src/modules/mobile-auth/mobile-auth.service.ts.
use finskool_monorepo.Base.{
  ℕ, suc, Bool, true, not, ◌&&◌, ◌||◌, ◌==◌, leb, is_none, is_id, if◌then◌else◌, Option, none, some,
  [], ◌∷◌, ◌++◌, find_first, find_many, any_where, count_where, update_where, next_id, Result, ok,
  err, ErrorCode, AppError, is_unique_violation,
}
use finskool_monorepo.Access.{UserStatus}
use finskool_monorepo.SignIn.{
  Account, ApprovedPhone, SocialIdentity, PendingRegistration, Timed, SignStore, SignEnv, get_key,
  del_key, set_key, renewed_until, max_otp_attempts, otp_expired, otp_locked, otp_invalid,
  is_active_status, already_registered, phone_inactive, has_email_of_other,
}

-- `ensureFreeSubscription`: any row that is there counts.
abbrev pub ensure_free_subscription : Option ℕ → ℕ → SignStore → SignStore
ensure_free_subscription none user_id s = s
ensure_free_subscription (some community_id) user_id s =
    if any_where (λ m. m.0 == user_id && m.1 == community_id) s.free_members
    then s
    else record s { free_members = s.free_members ++ (user_id, community_id) ∷ [] }

abbrev same_identity : SocialIdentity → SocialIdentity → Bool
same_identity a b = a.provider == b.provider && a.sub == b.sub

-- One account per identity.
abbrev pub link_identity : ℕ → Option SocialIdentity → SignStore → Result SignStore
link_identity user_id none s = ok s
link_identity user_id (some x) s =
    if any_where (λ i. same_identity i.1 x) s.identities
    then err AppError.unique_violation
    else ok (record s { identities = s.identities ++ (user_id, x) ∷ [] })

abbrev pub answer_with : ℕ → Result SignStore → Result (ℕ × SignStore)
answer_with id (err e) = err e
answer_with id (ok s) = ok (id, s)

abbrev pub finish : SignEnv → ℕ → PendingRegistration → SignStore → Result (ℕ × SignStore)
finish env id p s =
    answer_with id (link_identity id p.social (ensure_free_subscription env.free_community id s))

abbrev pub is_unclaimed : ℕ → Account → Bool
is_unclaimed id a = a.id == id && is_none a.password_hash

abbrev pub claim_account : PendingRegistration → Account → Account
claim_account p a = record a {
  name = p.full_name;
  email = some p.email;
  password_hash = some p.password_hash;
}

abbrev pub registered_phone : PendingRegistration → ApprovedPhone → ApprovedPhone
registered_phone p x = record x { name = some p.full_name; email = some p.email; registered = true }

-- The account that an admin added gets its password.
unfoldable pub claim_existing :
    SignEnv → ℕ → PendingRegistration → SignStore → Result (ℕ × SignStore)
claim_existing env id p s = elim (find_first (λ a. a.id == id) s.accounts) [
  | none ↦ err (AppError.not_found ErrorCode.no_code)
  | some current ↦
      if not (is_active_status current.status)
      then err phone_inactive
      else if count_where (is_unclaimed id) s.accounts == 0
      then err already_registered
      else if has_email_of_other id p.email s.accounts
      then err AppError.unique_violation
      else if not (any_where (λ x. x.phone == p.phone) s.approved_phones)
      then err AppError.record_missing
      else finish env id p (record s {
        accounts = update_where (is_unclaimed id) (claim_account p) s.accounts;
        approved_phones =
            update_where (λ x. x.phone == p.phone) (registered_phone p) s.approved_phones;
      })
]

unfoldable pub create_account : SignEnv → PendingRegistration → SignStore → Result (ℕ × SignStore)
create_account env p s =
    if any_where (λ a. a.phone == p.phone || is_id a.email p.email) s.accounts
    then err AppError.unique_violation
    else (let id = next_id (λ a. a.id) s.accounts in
        finish env id p (record s {
          accounts =
              s.accounts
              ++ record {
                id = id;
                name = p.full_name;
                phone = p.phone;
                email = some p.email;
                password_hash = some p.password_hash;
                status = UserStatus.active;
                deleted_at = none;
              }
                ∷ [];
        }))

abbrev pub create_or_claim : SignEnv → PendingRegistration → SignStore → Result (ℕ × SignStore)
create_or_claim env p s = elim p.existing_user_id [
  | none ↦ create_account env p s
  | some id ↦ claim_existing env id p s
]

-- A transaction that fails leaves nothing, and a row that is taken is a conflict.
abbrev pub committed : SignStore → Result (ℕ × SignStore) → Result ℕ × SignStore
committed before (ok (id, after)) = (ok id, after)
committed before (err e) = (err (if is_unique_violation e then already_registered else e), before)

unfoldable pub finalize_registration :
    SignEnv → PendingRegistration → SignStore → Result ℕ × SignStore
unfolding create_account claim_existing
finalize_registration env p s = let t = env.others s in committed t (create_or_claim env p t)

abbrev pub one_more_attempt : Timed PendingRegistration → PendingRegistration
one_more_attempt x = record x.value { otp_attempts = suc x.value.otp_attempts }

-- `confirmOtp` of the password registration.
unfoldable pub confirm_otp : SignEnv → (token otp : ℕ) → Bool → SignStore → Result ℕ × SignStore
unfolding finalize_registration find_many
confirm_otp env token otp social s = elim (get_key env.now token s.pending) [
  | none ↦ (err otp_expired, s)
  | some x ↦
      if is_none x.value.social && social || not (is_none x.value.social) && not social
      then (err otp_expired, s)
      else if leb max_otp_attempts x.value.otp_attempts
      then (err otp_locked, record s { pending = del_key token s.pending })
      else if not (env.hash_otp otp == x.value.otp_hash)
      then (
        err otp_invalid,
        record s {
          pending = set_key token (one_more_attempt x) (renewed_until env.now x) s.pending;
        },
      )
      else finalize_registration env x.value (record s { pending = del_key token s.pending })
]

-- ===== src/SignIn.antt =====
-- Registering from the mobile app: `register`, `storePendingRegistration` and `resendOtp` of
-- apps/backend/src/modules/mobile-auth/mobile-auth.service.ts. A
-- phone, an e-mail address, a name, a code and a hash are numbers, since they are only compared; Redis
-- keeps a value until its time is over, and a call's accesses to it are one step. E-mails and WhatsApp
-- messages are left out, but for the failure to queue a code, and so is the member count of the free
-- community.
pub mod Confirm
pub mod Reset
pub mod Kept
pub mod Locked
mod Examples
use finskool_monorepo.Base.{
  ℕ, suc, ◌+◌, ◌-◌, ◌*◌, ◌/◌, Bool, true, false, not, ◌&&◌, ◌||◌, ◌==◌, ltb, leb, is_none, is_id,
  if◌then◌else◌, Option, none, some, List, [], ◌∷◌, ◌++◌, find_first, find_many, any_where,
  count_where, update_where, next_id, Result, ok, err, ErrorCode, AppError, is_unique_violation,
}
use finskool_monorepo.Access.{UserStatus}

pub record Account : Type 0 where
  pub id : ℕ
  pub name : ℕ
  pub phone : ℕ
  pub email : Option ℕ
  pub password_hash : Option ℕ
  pub status : UserStatus
  pub deleted_at : Option ℕ

pub record ApprovedPhone : Type 0 where
  pub phone : ℕ
  pub name : Option ℕ
  pub email : Option ℕ
  pub registered : Bool

-- The verified identity of "continue with Google / Apple".
pub record SocialIdentity : Type 0 where
  pub provider : ℕ
  pub sub : ℕ

pub record PendingRegistration : Type 0 where
  pub full_name : ℕ
  pub phone : ℕ
  pub email : ℕ
  pub password_hash : ℕ
  pub existing_user_id : Option ℕ
  pub social : Option SocialIdentity
  pub otp_hash : ℕ
  pub otp_attempts : ℕ

-- A value of Redis under its key, and when it is dropped.
pub record Timed (A : Type 0) : Type 0 where
  pub key : ℕ
  pub value : A
  pub expires_at : ℕ

pub record OtpRecord : Type 0 where
  pub hash : ℕ
  pub attempts : ℕ

pub record SignStore : Type 0 where
  pub accounts : List Account
  pub approved_phones : List ApprovedPhone
  pub free_members : List (ℕ × ℕ)
  pub identities : List (ℕ × SocialIdentity)
  pub pending : List (Timed PendingRegistration)
  pub pending_cooldowns : List (Timed Unit)
  pub reset_codes : List (Timed OtpRecord)
  pub reset_cooldowns : List (Timed Unit)
  pub reset_cyphers : List (Timed ℕ)

-- The time, the hash functions, the code and the token that a call draws, the free community, whether the
-- queue takes a message, and what others commit before the transaction.
pub record SignEnv : Type 0 where
  pub now : ℕ
  pub hash_otp : ℕ → ℕ
  pub hash_password : ℕ → ℕ
  pub new_otp : ℕ
  pub new_token : ℕ
  pub free_community : Option ℕ
  pub queue_up : Bool
  pub others : SignStore → SignStore

-- ─── Redis ──────────────────────────────────────────────────────────────────

abbrev pub get_key : {A : Type 0} → ℕ → ℕ → List (Timed A) → Option (Timed A)
get_key now key xs = find_first (λ x. x.key == key && ltb now x.expires_at) xs

abbrev pub del_key : {A : Type 0} → ℕ → List (Timed A) → List (Timed A)
del_key key xs = find_many (λ x. not (x.key == key)) xs

abbrev pub set_key : {A : Type 0} → ℕ → A → ℕ → List (Timed A) → List (Timed A)
set_key key value expires_at xs =
    record { key = key; value = value; expires_at = expires_at } ∷ del_key key xs

-- `TTL`, in whole seconds.
abbrev pub ttl_seconds : {A : Type 0} → ℕ → Timed A → ℕ
ttl_seconds now x = (x.expires_at - now + 500) / 1000

abbrev pub otp_ttl_ms : ℕ
otp_ttl_ms = 10 * 60 * 1000

abbrev pub otp_resend_cooldown_ms : ℕ
otp_resend_cooldown_ms = 60 * 1000

-- `ttl > 0 ? ttl : OTP_TTL_SECONDS`
abbrev pub renewed_until : {A : Type 0} → ℕ → Timed A → ℕ
renewed_until now x =
    let ttl = ttl_seconds now x in now + (if ttl == 0 then otp_ttl_ms else ttl * 1000)

abbrev pub max_otp_attempts : ℕ
max_otp_attempts = 5

abbrev pub otp_expired : AppError
otp_expired = AppError.bad_request ErrorCode.otp_expired

abbrev pub otp_locked : AppError
otp_locked = AppError.too_many_requests ErrorCode.otp_locked

abbrev pub otp_invalid : AppError
otp_invalid = AppError.bad_request ErrorCode.otp_invalid

-- ─── Registering ────────────────────────────────────────────────────────────

abbrev pub is_active_status : UserStatus → Bool
is_active_status UserStatus.active = true
is_active_status _ = false

abbrev pub already_registered : AppError
already_registered = AppError.conflict ErrorCode.already_registered

abbrev pub phone_inactive : AppError
phone_inactive = AppError.forbidden ErrorCode.phone_inactive

abbrev pub email_taken : AppError
email_taken = AppError.conflict ErrorCode.email_taken

-- Another account has this address.
abbrev pub has_email_of_other : ℕ → ℕ → List Account → Bool
has_email_of_other id email rows = any_where (λ a. is_id a.email email && not (a.id == id)) rows

abbrev pub refused_phone : ℕ → Option Account → List Account → Option AppError
refused_phone email none rows =
    if any_where (λ a. is_id a.email email) rows then some email_taken else none
refused_phone email (some existing) rows =
    if not (is_none existing.password_hash)
    then some already_registered
    else if not (is_active_status existing.status)
    then some phone_inactive
    else if not (is_id existing.email email) && has_email_of_other existing.id email rows
    then some email_taken
    else none

abbrev pub id_of : Option Account → Option ℕ
id_of none = none
id_of (some a) = some a.id

-- Writes the record with a new code, and starts the wait for the next one.
unfoldable pub store_pending_registration :
    SignEnv → ℕ → PendingRegistration → SignStore → Result ℕ × SignStore
unfolding find_many
store_pending_registration env token input s =
    let fresh = record input { otp_hash = env.hash_otp env.new_otp; otp_attempts = 0 } in
    let stored : SignStore = record s {
      pending = set_key token fresh (env.now + otp_ttl_ms) s.pending;
      pending_cooldowns = set_key token tt (env.now + otp_resend_cooldown_ms) s.pending_cooldowns;
    } in
    (if env.queue_up then ok token else err (AppError.unavailable ErrorCode.no_code), stored)

unfoldable pub register :
    SignEnv → (name phone email password : ℕ) → SignStore → Result ℕ × SignStore
unfolding store_pending_registration
register env name phone email password s =
    let existing = find_first (λ a. a.phone == phone) s.accounts in
    elim (refused_phone email existing s.accounts) [
      | some e ↦ (err e, s)
      | none ↦
          store_pending_registration env env.new_token
            (record {
              full_name = name;
              phone = phone;
              email = email;
              password_hash = env.hash_password password;
              existing_user_id = id_of existing;
              social = none;
              otp_hash = 0;
              otp_attempts = 0;
            })
            s
    ]

unfoldable pub resend_otp : SignEnv → ℕ → SignStore → Result ℕ × SignStore
unfolding store_pending_registration
resend_otp env token s = elim (get_key env.now token s.pending) [
  | none ↦ (err (AppError.not_found ErrorCode.registration_expired), s)
  | some x ↦
      if is_none (get_key env.now token s.pending_cooldowns)
      then store_pending_registration env token x.value s
      else (err (AppError.too_many_requests ErrorCode.otp_cooldown), s)
]

-- ===== src/SignIn/Reset.antt =====
-- A forgotten password: `forgotPassword`, `verifyResetOtp` and `resetPassword` of
-- apps/backend/src/modules/mobile-auth/mobile-auth.service.ts.
use finskool_monorepo.Base.{
  ℕ, suc, ◌+◌, ◌*◌, Bool, false, not, ◌&&◌, ◌||◌, ◌==◌, leb, is_none, is_id, if◌then◌else◌, Option,
  none, some, find_first, find_many, update_where, Result, ok, err, ErrorCode, AppError,
}
use finskool_monorepo.SignIn.{
  Account, OtpRecord, SignStore, SignEnv, get_key, del_key, set_key, renewed_until, otp_ttl_ms,
  otp_resend_cooldown_ms, max_otp_attempts, is_active_status, otp_locked, otp_invalid,
}

abbrev pub find_by_email : ℕ → SignStore → Option Account
find_by_email email s = find_first (λ a. is_id a.email email) s.accounts

abbrev pub is_usable : Account → Bool
is_usable a = is_none a.deleted_at && is_active_status a.status

abbrev is_eligible : Option Account → Bool
is_eligible none = false
is_eligible (some a) = is_usable a && not (is_none a.password_hash)

-- The same answer in every case.
unfoldable pub forgot_password : SignEnv → ℕ → SignStore → SignStore
unfolding find_many
forgot_password env email s =
    if not (is_eligible (find_by_email email s))
      || not (is_none (get_key env.now email s.reset_cooldowns))
    then s
    else record s {
      reset_codes =
          set_key email (record { hash = env.hash_otp env.new_otp; attempts = 0 })
            (env.now + otp_ttl_ms) s.reset_codes;
      reset_cooldowns = set_key email tt (env.now + otp_resend_cooldown_ms) s.reset_cooldowns;
    }

abbrev pub one_more : OtpRecord → OtpRecord
one_more r = record r { attempts = suc r.attempts }

abbrev pub reset_cypher_ttl_ms : ℕ
reset_cypher_ttl_ms = 10 * 60 * 1000

abbrev pub usable_account : Option Account → Option ℕ
usable_account none = none
usable_account (some a) = if is_usable a then some a.id else none

-- The cypher that `reset_password` trusts.
unfoldable pub issue_cypher : SignEnv → ℕ → SignStore → Result ℕ × SignStore
unfolding find_many
issue_cypher env email s = elim (usable_account (find_by_email email s)) [
  | none ↦ (err otp_invalid, s)
  | some id ↦ (
    ok env.new_token,
    record s {
      reset_cyphers =
          set_key (env.hash_otp env.new_token) id (env.now + reset_cypher_ttl_ms) s.reset_cyphers;
    },
  )
]

unfoldable pub verify_reset_otp : SignEnv → (email otp : ℕ) → SignStore → Result ℕ × SignStore
unfolding issue_cypher
verify_reset_otp env email otp s = elim (get_key env.now email s.reset_codes) [
  | none ↦ (err otp_invalid, s)
  | some x ↦
      if leb max_otp_attempts x.value.attempts
      then (err otp_locked, record s { reset_codes = del_key email s.reset_codes })
      else if not (env.hash_otp otp == x.value.hash)
      then (
        err otp_invalid,
        record s {
          reset_codes = set_key email (one_more x.value) (renewed_until env.now x) s.reset_codes;
        },
      )
      else issue_cypher env email (record s { reset_codes = del_key email s.reset_codes })
]

abbrev reset_invalid : AppError
reset_invalid = AppError.bad_request ErrorCode.reset_token_invalid

-- The cypher is dropped the moment it is redeemed.
unfoldable pub reset_password : SignEnv → (cypher password : ℕ) → SignStore → Result ℕ × SignStore
unfolding find_many
reset_password env cypher password s =
    elim (get_key env.now (env.hash_otp cypher) s.reset_cyphers) [
      | none ↦ (err reset_invalid, s)
      | some x ↦
          let burned : SignStore = record s {
            reset_cyphers = del_key (env.hash_otp cypher) s.reset_cyphers;
          } in
          elim (usable_account (find_first (λ a. a.id == x.value) s.accounts)) [
            | none ↦ (err reset_invalid, burned)
            | some id ↦ (
              ok id,
              record burned {
                accounts =
                    update_where (λ a. a.id == id)
                      (λ a. record a { password_hash = some (env.hash_password password) })
                      s.accounts;
              },
            )
          ]
    ]

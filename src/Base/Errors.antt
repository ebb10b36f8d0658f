-- ===== src/Base/Errors.antt =====
-- The error classes of apps/backend/src/shared/errors/index.ts, and results that may be one.
use Prim.Native.Nat.{ℕ}
use mathlib.Core.Path.{◌≡◌, refl}
use mathlib.Core.Logic.{◌⊎◌, inl, inr}
use mathlib.Core.Bool.{Bool, true, false}

-- The codes that the modelled services throw; `no_code` where the class is thrown with none.
pub data ErrorCode : Type 0 where
  no_code : ErrorCode
  account_inactive community_not_allowed attachment_invalid invalid_cursor : ErrorCode
  ticket_resolved ticket_not_resolved already_rated : ErrorCode
  ticket_already_assigned ticket_not_claimed ticket_assigned_to_other : ErrorCode
  super_admin_required admin_not_eligible : ErrorCode
  service_closed service_already_paid service_not_cancellable : ErrorCode
  service_already_assigned service_not_claimed service_assigned_to_other : ErrorCode
  service_not_completed quote_payment_in_progress : ErrorCode
  quote_not_payable quote_expired order_already_paid : ErrorCode
  already_registered phone_inactive email_taken registration_expired : ErrorCode
  otp_expired otp_locked otp_invalid otp_cooldown reset_token_invalid : ErrorCode
  billing_not_configured payments_not_configured : ErrorCode
  payment_gateway_error payment_signature_invalid : ErrorCode
  community_access_denied member_access_denied rate_limited : ErrorCode

-- `unique_violation` is Prisma's P2002, which `isUniqueViolation` recognises, and `record_missing` its
-- P2025, when a row that must exist does not.
pub data AppError : Type 0 where
  bad_request unauthorized forbidden not_found conflict too_many_requests bad_gateway unavailable :
      ErrorCode → AppError
  unique_violation record_missing : AppError

-- The HTTP status that each class passes to `super`; anything else is answered with 500.
pub status_code : AppError → ℕ
status_code (bad_request _) = 400
status_code (unauthorized _) = 401
status_code (forbidden _) = 403
status_code (not_found _) = 404
status_code (conflict _) = 409
status_code (too_many_requests _) = 429
status_code (bad_gateway _) = 502
status_code (unavailable _) = 503
status_code unique_violation = 500
status_code record_missing = 500

abbrev pub is_unique_violation : AppError → Bool
is_unique_violation unique_violation = true
is_unique_violation _ = false

pub data Result {ℓ} (A : Type ℓ) : Type ℓ where
  ok : A → Result A
  err : AppError → Result A

pub Result-cases {ℓ} :
    {A : Type ℓ} (r : Result A) → ((e : AppError) × (r ≡ err e)) ⊎ ((a : A) × (r ≡ ok a))
Result-cases (ok a) = inr (a, refl)
Result-cases (err e) = inl (e, refl)

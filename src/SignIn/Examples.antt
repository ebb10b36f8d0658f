-- ===== src/SignIn/Examples.antt =====
-- One account with a forgotten password, and one new phone.
use finskool_monorepo.Base.{
  map, find_many, ℕ, ◌+◌, ◌≡◌, ◌⊎◌, refl, true, false, none, some, List, [], ◌∷◌, Grows-refl,
  find_first, arith, err,
}
use finskool_monorepo.Access.{UserStatus}
use finskool_monorepo.SignIn.{Account, SignStore, SignEnv, otp_locked, otp_invalid}
use finskool_monorepo.SignIn.Reset.{verify_reset_otp}
use finskool_monorepo.SignIn.Locked.{guesses, IsWorn, guesses-locked}
use finskool_monorepo.SignIn.Kept.{
  SignCall, serve_signs, KeepsMembers, Members, IsSameMember, serve_signs-Members,
}

abbrev at_time : ℕ → SignEnv
at_time now = record {
  now = now;
  hash_otp = λ x. x + 7;
  hash_password = λ x. x + 9;
  new_otp = 4321;
  new_token = 70;
  free_community = some 30;
  queue_up = true;
  others = λ s. s;
}

abbrev meera : Account
meera = record {
  id = 1;
  name = 11;
  phone = 12;
  email = some 13;
  password_hash = some 14;
  status = UserStatus.active;
  deleted_at = none;
}

abbrev one_code : SignStore
one_code = record {
  accounts = meera ∷ [];
  approved_phones = [];
  free_members = [];
  identities = [];
  pending = [];
  pending_cooldowns = [];
  reset_codes =
      record { key = 13; value = record { hash = 1007; attempts = 0 }; expires_at = 90000 } ∷ [];
  reset_cooldowns = [];
  reset_cyphers = [];
}

abbrev five_guesses : List (SignEnv × ℕ)
five_guesses =
    (at_time 1000, 1)
    ∷ (at_time 2000, 2)
    ∷ (at_time 3000, 3)
    ∷ (at_time 4000, 4)
    ∷ (at_time 5000, 5)
    ∷ []

one_code-IsWorn : IsWorn 0 1007 13 500 one_code
unfolding find_first
one_code-IsWorn now later x e = ground (arith, e)

-- The right code is 1000.
guesses-locked_example :
    ((verify_reset_otp (at_time 6000) 13 1000 (guesses 13 five_guesses one_code)).0
      ≡ err otp_invalid)
    ⊎ ((verify_reset_otp (at_time 6000) 13 1000 (guesses 13 five_guesses one_code)).0
        ≡ err otp_locked)
guesses-locked_example =
    guesses-locked 1007 13 500 five_guesses (at_time 6000) 1000 one_code
      (omega arith, (omega arith, (omega arith, (omega arith, (omega arith, omega arith)))))
      (refl, (refl, (refl, (refl, (refl, tt))))) (omega arith) one_code-IsWorn

abbrev sign_ups : List (SignEnv × SignCall)
sign_ups =
    (at_time 1000, SignCall.sign_up 21 22 23 24)
    ∷ (at_time 2000, SignCall.sign_up 31 12 33 34)
    ∷ (at_time 3000, SignCall.confirm 70 4321 false)
    ∷ []

at_time-KeepsMembers : (now : ℕ) → KeepsMembers (at_time now)
at_time-KeepsMembers now s =
    Grows-refl IsSameMember (λ a. (refl, refl, λ h. (refl, refl))) s.accounts

serve_signs-Members_example : Members one_code (serve_signs sign_ups one_code)
serve_signs-Members_example =
    serve_signs-Members sign_ups
      (at_time-KeepsMembers 1000, (at_time-KeepsMembers 2000, (at_time-KeepsMembers 3000, tt)))
      one_code

-- `TTL` rounds: a miss in the last half second gives the code another ten minutes.
late_guess-renews :
    map (λ x. x.expires_at) (verify_reset_otp (at_time 89700) 13 1 one_code).1.reset_codes
    ≡ 689700 ∷ []
unfolding verify_reset_otp find_first find_many
late_guess-renews = refl

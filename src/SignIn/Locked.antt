-- ===== src/SignIn/Locked.antt =====
-- Guessing the code of a password reset (apps/backend/src/modules/mobile-auth/mobile-auth.service.ts).
use finskool_monorepo.Base.{
  ℕ, suc, ◌+◌, ◌≤◌, ◌≡◌, refl, ap, ◌∙◌, true, false, not, ◌&&◌, ◌==◌, ltb, leb, none, some, List,
  [], ◌∷◌, find_first, find_many, All, length, arith, Bool-cases, Option-cases, inl, inr, err,
  ==_refl, ◌⊎◌,
}
use finskool_monorepo.SignIn.{
  Timed, OtpRecord, SignStore, SignEnv, get_key, del_key, set_key, renewed_until, max_otp_attempts,
  otp_locked, otp_invalid,
}
use finskool_monorepo.SignIn.Reset.{
  verify_reset_otp, issue_cypher, one_more, find_by_email, usable_account,
}

-- Codes that are tried for one address, one after the other.
unfoldable pub guesses : ℕ → List (SignEnv × ℕ) → SignStore → SignStore
guesses email [] s = s
guesses email ((env, otp) ∷ gs) s = guesses email gs (verify_reset_otp env email otp s).1

-- The calls come in the order of time, from `t` to `end`.
abbrev pub InOrder : ℕ → List (SignEnv × ℕ) → ℕ → Type 0
InOrder t [] end = t ≤ end
InOrder t ((env, otp) ∷ gs) end = (t ≤ env.now) × InOrder env.now gs end

-- From time `t` on, the code of the address, if it is still there, has this hash and was missed `n` times.
abbrev pub IsWorn : ℕ → ℕ → ℕ → ℕ → SignStore → Type 0
IsWorn n h email t s =
    (now : ℕ)
    → t ≤ now
    → (x : Timed OtpRecord) → get_key now email s.reset_codes ≡ some x
    → (x.value.hash ≡ h) × (n ≤ x.value.attempts)

module _ {A : Type 0} (key : ℕ) where
  gone_later :
      (t now : ℕ) (xs : List (Timed A))
      → t ≤ now
      → get_key t key xs ≡ none
      → get_key now key xs ≡ none
  unfolding find_first
  gone_later t now [] l e = refl
  gone_later t now (x ∷ xs) l e = elim (Bool-cases (x.key == key && ltb t x.expires_at)) [
    | inl p ↦ let no : ⊥ = ground (arith, e, p) in elim no [ ]
    | inr n ↦
        let over : (x.key == key && ltb now x.expires_at) ≡ false = ground (arith, n, l) in
        rw over (gone_later t now xs l (ground (arith, e, n)))
  ]

  deleted : (now : ℕ) (xs : List (Timed A)) → get_key now key (del_key key xs) ≡ none
  unfolding find_first find_many
  deleted now [] = refl
  deleted now (x ∷ xs) = elim (Bool-cases (x.key == key)) [
    | inl p ↦ rw p (deleted now xs)
    | inr n ↦ rw n (rw n (deleted now xs))
  ]

  set_found :
      (v : A) (until now : ℕ) (xs : List (Timed A)) (x : Timed A)
      → get_key now key (set_key key v until xs) ≡ some x
      → x.value ≡ v
  unfolding find_first
  set_found v until now xs x e = elim (Bool-cases (ltb now until)) [
    | inl p ↦ ground (arith, e, p, ==_refl key)
    | inr n ↦ let no : ⊥ = ground (arith, e, n, deleted now xs) in elim no [ ]
  ]

issue_cypher-codes :
    (env : SignEnv) (email : ℕ) (s : SignStore)
    → (issue_cypher env email s).1.reset_codes ≡ s.reset_codes
unfolding issue_cypher
issue_cypher-codes env email s = elim (Option-cases (usable_account (find_by_email email s))) [
  | inl e ↦ rw (e, issue_cypher) refl
  | inr (id, e) ↦ rw (e, issue_cypher) refl
]

wrong-IsWorn :
    (n h email t otp : ℕ) (env : SignEnv) (s : SignStore)
    → t ≤ env.now
    → (env.hash_otp otp == h) ≡ false
    → IsWorn n h email t s
    → IsWorn (suc n) h email env.now (verify_reset_otp env email otp s).1
unfolding verify_reset_otp
wrong-IsWorn n h email t otp env s l wrong w =
    elim (Option-cases (get_key env.now email s.reset_codes)) [
      | inl e ↦
          rw (e, verify_reset_otp)
            (λ now later x f.
              let gone = gone_later email env.now now s.reset_codes later e in
              let no : ⊥ = ground (arith, f, gone) in elim no [ ])
      | inr (x, e) ↦
          let (same, missed) = w env.now l x e in
          let bad : not (env.hash_otp otp == x.value.hash) ≡ true = rw (same, wrong) refl in
          rw (e, verify_reset_otp)
            (elim (Bool-cases (leb max_otp_attempts x.value.attempts)) [
              | inl p ↦ rw p (λ now later y f.
                  let no : ⊥ = ground (arith, f, deleted email now s.reset_codes) in elim no [ ])
              | inr m ↦
                  rw (m, bad)
                    (λ now later y f.
                      let is =
                        set_found email (one_more x.value) (renewed_until env.now x) now
                          s.reset_codes y f in
                      (ap (λ v. v.hash) is ∙ same, omega (arith, ap (λ v. v.attempts) is, missed)))
            ])
    ]

guesses-IsWorn :
    (n h email t end : ℕ) (gs : List (SignEnv × ℕ)) (s : SignStore)
    → InOrder t gs end
    → All (λ g. (g.0.hash_otp g.1 == h) ≡ false) gs
    → IsWorn n h email t s
    → IsWorn (n + length gs) h email end (guesses email gs s)
unfolding guesses
guesses-IsWorn n h email t end [] s o a w = λ now later x f.
    let (same, missed) = w now (omega (arith, o, later)) x f in (same, omega (arith, missed))
guesses-IsWorn n h email t end ((env, otp) ∷ gs) s o a w =
    let next =
      guesses-IsWorn (suc n) h email env.now end gs (verify_reset_otp env email otp s).1 o.1 a.1
        (wrong-IsWorn n h email t otp env s o.0 a.0 w) in
    λ now later x f. let (same, missed) = next now later x f in (same, omega (arith, missed))

-- A code for a new password that was missed five times, one call after the other, is of no use: whatever is
-- tried afterwards, the right code too, is refused, until a new code is asked for.
pub guesses-locked :
    (h email t : ℕ) (gs : List (SignEnv × ℕ)) (env : SignEnv) (otp : ℕ) (s : SignStore)
    → InOrder t gs env.now
    → All (λ g. (g.0.hash_otp g.1 == h) ≡ false) gs
    → max_otp_attempts ≤ length gs
    → IsWorn 0 h email t s
    → ((verify_reset_otp env email otp (guesses email gs s)).0 ≡ err otp_invalid)
      ⊎ ((verify_reset_otp env email otp (guesses email gs s)).0 ≡ err otp_locked)
unfolding verify_reset_otp
guesses-locked h email t gs env otp s o a many w =
    let later = guesses email gs s in
    let worn = guesses-IsWorn 0 h email t env.now gs s o a w in
    elim (Option-cases (get_key env.now email later.reset_codes)) [
      | inl e ↦ rw (e, verify_reset_otp) (inl refl)
      | inr (x, e) ↦
          let (same, missed) = worn env.now (omega arith) x e in
          let over : leb max_otp_attempts x.value.attempts ≡ true = ground (arith, missed, many) in
          rw (e, verify_reset_otp) (rw over (inr refl))
    ]

-- ===== src/SignIn/Kept.antt =====
-- What becomes of the accounts when members register (apps/backend/src/modules/mobile-auth).
use finskool_monorepo.Base.{
  ℕ, ◌≡◌, refl, ◌∙◌, Bool, false, not, ◌&&◌, ◌||◌, ◌==◌, leb, is_none, is_id, Option, none, some,
  List, [], ◌∷◌, find_first, any_where, count_where, All, Grows, Grows-refl, Grows-trans,
  Grows-append, Grows-update_where, arith, Bool-cases, Option-cases, inl, inr, Result, ok, err,
}
use finskool_monorepo.SignIn.{
  Account, SocialIdentity, PendingRegistration, SignStore, SignEnv, get_key, register, resend_otp,
  store_pending_registration, refused_phone, is_active_status, has_email_of_other, max_otp_attempts,
}
use finskool_monorepo.SignIn.Confirm.{
  ensure_free_subscription, link_identity, answer_with, finish, is_unclaimed, claim_account,
  claim_existing, create_account, create_or_claim, committed, finalize_registration, confirm_otp,
}

-- An account keeps its id and its phone, and once it has a password, its password and its address.
abbrev pub IsSameMember : Account → Account → Type 0
IsSameMember a b =
    (b.id ≡ a.id)
    × (b.phone ≡ a.phone)
    × (is_none a.password_hash ≡ false → (b.password_hash ≡ a.password_hash) × (b.email ≡ a.email))

IsSameMember-refl : (a : Account) → IsSameMember a a
IsSameMember-refl a = (refl, refl, λ h. (refl, refl))

IsSameMember-trans : (a b c : Account) → IsSameMember a b → IsSameMember b c → IsSameMember a c
IsSameMember-trans a b c p q = (
  q.0 ∙ p.0,
  q.1 ∙ p.1,
  λ h. let (w, e) = p.2 h in let (w', e') = q.2 (rw w h) in (w' ∙ w, e' ∙ e),
)

abbrev pub Members : SignStore → SignStore → Type 0
Members s t = Grows IsSameMember s.accounts t.accounts

Members-refl : (s : SignStore) → Members s s
Members-refl s = Grows-refl IsSameMember IsSameMember-refl s.accounts

Members-trans : (s t u : SignStore) → Members s t → Members t u → Members s u
Members-trans s t u p q =
    Grows-trans IsSameMember IsSameMember-trans s.accounts t.accounts u.accounts p q

-- What a transaction leaves when it goes through.
abbrev Leaves : SignStore → Result (ℕ × SignStore) → Type 0
Leaves s (err e) = Unit
Leaves s (ok (id, t)) = Members s t

free-accounts :
    (c : Option ℕ) (id : ℕ) (s : SignStore)
    → (ensure_free_subscription c id s).accounts ≡ s.accounts
free-accounts none id s = refl
free-accounts (some c) id s =
    elim (Bool-cases (any_where (λ m. m.0 == id && m.1 == c) s.free_members)) [
      | inl p ↦ rw p refl
      | inr n ↦ rw n refl
    ]

linked :
    (s t : SignStore) (id : ℕ) (x : Option SocialIdentity)
    → Members s t
    → Leaves s (answer_with id (link_identity id x t))
linked s t id none m = m
linked s t id (some x) m =
    elim (Bool-cases
      (any_where (λ i. i.1.provider == x.provider && i.1.sub == x.sub) t.identities)) [
        | inl p ↦ rw p tt
        | inr n ↦ rw n m
      ]

finish-Leaves :
    (env : SignEnv) (id : ℕ) (p : PendingRegistration) (s t : SignStore)
    → Members s t
    → Leaves s (finish env id p t)
finish-Leaves env id p s t m =
    linked s (ensure_free_subscription env.free_community id t) id p.social
      (rw (free-accounts env.free_community id t) m)

claim_existing-Leaves :
    (env : SignEnv) (id : ℕ) (p : PendingRegistration) (s : SignStore)
    → Leaves s (claim_existing env id p s)
unfolding claim_existing
claim_existing-Leaves env id p s = elim (Option-cases (find_first (λ a. a.id == id) s.accounts)) [
  | inl e ↦ rw (e, claim_existing) tt
  | inr (a, e) ↦
      rw (e, claim_existing)
        (elim (Bool-cases (not (is_active_status a.status))) [
          | inl k ↦ rw k tt
          | inr k ↦ rw k (elim (Bool-cases (count_where (is_unclaimed id) s.accounts == 0)) [
            | inl l ↦ rw l tt
            | inr l ↦ rw l (elim (Bool-cases (has_email_of_other id p.email s.accounts)) [
              | inl m ↦ rw m tt
              | inr m ↦
                  rw m
                    (elim (Bool-cases
                      (not (any_where (λ x. x.phone == p.phone) s.approved_phones))) [
                        | inl n ↦ rw n tt
                        | inr n ↦ rw n (
                            finish-Leaves env id p s _ (
                              Grows-update_where IsSameMember (is_unclaimed id) (claim_account p)
                                IsSameMember-refl
                                (λ b q. (
                                  refl,
                                  refl,
                                  λ h. let no : ⊥ = ground (arith, q, h) in elim no [ ],
                                ))
                                s.accounts))
                      ])
            ])
          ])
        ])
]

create_account-Leaves :
    (env : SignEnv) (p : PendingRegistration) (s : SignStore) → Leaves s (create_account env p s)
unfolding create_account
create_account-Leaves env p s =
    elim (Bool-cases (any_where (λ a. a.phone == p.phone || is_id a.email p.email) s.accounts)) [
      | inl k ↦ rw k tt
      | inr n ↦
          rw n
            (finish-Leaves env _ p s _ (Grows-append IsSameMember IsSameMember-refl s.accounts _))
    ]

create_or_claim-Leaves :
    (env : SignEnv) (p : PendingRegistration) (s : SignStore) → Leaves s (create_or_claim env p s)
create_or_claim-Leaves env p s = by_kind p.existing_user_id
  where
    by_kind : (i : Option ℕ) → Leaves s (create_or_claim env (record p { existing_user_id = i }) s)
    by_kind none = create_account-Leaves env (record p { existing_user_id = none }) s
    by_kind (some id) = claim_existing-Leaves env id (record p { existing_user_id = some id }) s

committed-Members :
    (s : SignStore) (r : Result (ℕ × SignStore)) → Leaves s r → Members s (committed s r).1
committed-Members s (err e) l = Members-refl s
committed-Members s (ok (id, t)) l = l

-- ─── Every call ─────────────────────────────────────────────────────────────

pub data SignCall : Type 0 where
  sign_up : (name phone email password : ℕ) → SignCall
  send_again : (token : ℕ) → SignCall
  confirm : (token otp : ℕ) (social : Bool) → SignCall

unfoldable pub serve_sign : SignEnv → SignCall → SignStore → SignStore
serve_sign env (sign_up n p e w) s = (register env n p e w s).1
serve_sign env (send_again t) s = (resend_otp env t s).1
serve_sign env (confirm t o k) s = (confirm_otp env t o k s).1

unfoldable pub serve_signs : List (SignEnv × SignCall) → SignStore → SignStore
unfolding serve_sign
serve_signs [] s = s
serve_signs ((env, c) ∷ cs) s = serve_signs cs (serve_sign env c s)

-- What others commit keeps the members too.
abbrev pub KeepsMembers : SignEnv → Type 0
KeepsMembers env = (s : SignStore) → Members s (env.others s)

store-Members :
    (env : SignEnv) (t : ℕ) (p : PendingRegistration) (s : SignStore)
    → Members s (store_pending_registration env t p s).1
unfolding store_pending_registration
store-Members env t p s = Members-refl s

module _ (env : SignEnv) (keeps : KeepsMembers env) where
  finalize_registration-Members :
      (p : PendingRegistration) (s : SignStore) → Members s (finalize_registration env p s).1
  unfolding finalize_registration
  finalize_registration-Members p s =
      let t = env.others s in
      Members-trans s t (committed t (create_or_claim env p t)).1 (keeps s)
        (committed-Members t (create_or_claim env p t) (create_or_claim-Leaves env p t))

  register-Members : (n p e w : ℕ) (s : SignStore) → Members s (register env n p e w s).1
  unfolding register store_pending_registration
  register-Members n p e w s =
      elim (Option-cases (refused_phone e (find_first (λ a. a.phone == p) s.accounts) s.accounts)) [
        | inl k ↦ rw (k, register) (Members-refl s)
        | inr (x, k) ↦ rw (k, register) (Members-refl s)
      ]

  resend_otp-Members : (t : ℕ) (s : SignStore) → Members s (resend_otp env t s).1
  unfolding resend_otp
  resend_otp-Members t s = elim (Option-cases (get_key env.now t s.pending)) [
    | inl e ↦ rw (e, resend_otp) (Members-refl s)
    | inr (x, e) ↦
        rw (e, resend_otp)
          (elim (Bool-cases (is_none (get_key env.now t s.pending_cooldowns))) [
            | inl k ↦ rw k (store-Members env t x.value s)
            | inr n ↦ rw n (Members-refl s)
          ])
  ]

  confirm_otp-Members : (t o : ℕ) (k : Bool) (s : SignStore) → Members s (confirm_otp env t o k s).1
  unfolding confirm_otp
  confirm_otp-Members t o k s = elim (Option-cases (get_key env.now t s.pending)) [
    | inl e ↦ rw (e, confirm_otp) (Members-refl s)
    | inr (x, e) ↦
        rw (e, confirm_otp)
          (elim (Bool-cases
            (is_none x.value.social && k || not (is_none x.value.social) && not k)) [
              | inl l ↦ rw l (Members-refl s)
              | inr l ↦ rw l (elim (Bool-cases (leb max_otp_attempts x.value.otp_attempts)) [
                | inl m ↦ rw m (Members-refl s)
                | inr m ↦ rw m (elim (Bool-cases (not (env.hash_otp o == x.value.otp_hash))) [
                  | inl n ↦ rw n (Members-refl s)
                  | inr n ↦ rw n (finalize_registration-Members x.value _)
                ])
              ])
            ])
  ]

  serve_sign-Members : (c : SignCall) (s : SignStore) → Members s (serve_sign env c s)
  unfolding serve_sign
  serve_sign-Members (sign_up n p e w) s = register-Members n p e w s
  serve_sign-Members (send_again t) s = resend_otp-Members t s
  serve_sign-Members (confirm t o k) s = confirm_otp-Members t o k s

-- Nobody takes over an account by registering: whatever calls are made to register, to ask for another
-- code and to confirm one, in whatever order and however they race, every account is still there with its
-- phone, and one that had a password has the same password and the same address.
pub serve_signs-Members :
    (cs : List (SignEnv × SignCall))
    → All (λ c. KeepsMembers c.0) cs
    → (s : SignStore) → Members s (serve_signs cs s)
unfolding serve_signs
serve_signs-Members [] k s = Members-refl s
serve_signs-Members ((env, c) ∷ cs) (k, ks) s =
    Members-trans s (serve_sign env c s) (serve_signs cs (serve_sign env c s))
      (serve_sign-Members env k c s) (serve_signs-Members cs ks (serve_sign env c s))

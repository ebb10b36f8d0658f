-- ===== src/Lifecycle/Once.antt =====
-- A second run of the reminder job (apps/backend/src/lib/subscription-lifecycle.ts).
use finskool_monorepo.Base.{
  ℕ, ◌≡◌, refl, ap, ◌∙◌, Bool, true, Option, none, some, List, [], ◌∷◌, ◌++◌, find_many, All,
}
use finskool_monorepo.Notify.{Inbox}
use finskool_monorepo.Notify.Senders.{NotificationRowParams}
use finskool_monorepo.Notify.Senders.Once.{
  is_saved, notify_once-saves, notify_once_keeps, notify_once_repeated,
}
use finskool_monorepo.Lifecycle.{
  Bucket, SubRow, JobEnv, JobStore, reminder_of, mails_for, tell, bucket_of, remind_as, remind_one,
  remind_all, in_window, run_subscription_lifecycle_sweep,
}

abbrev told_as : JobEnv → SubRow → Option Bucket → Inbox → Bool
told_as env sub none inbox = true
told_as env sub (some bucket) inbox = is_saved (reminder_of env bucket sub) inbox

abbrev is_told : JobEnv → SubRow → Inbox → Bool
is_told env sub inbox = told_as env sub (bucket_of env sub) inbox

nil_right : (xs : List (ℕ × Bucket)) → xs ++ [] ≡ xs
nil_right [] = refl
nil_right (x ∷ xs) = ap (λ ys. x ∷ ys) (nil_right xs)

module _ (env : JobEnv) (sub : SubRow) where
  remind_as-subs : (o : Option Bucket) (s : JobStore) → (remind_as env sub o s).subs ≡ s.subs
  unfolding tell
  remind_as-subs none s = refl
  remind_as-subs (some b) s = refl

  -- What is saved stays saved.
  remind_as_keeps :
      (o : Option Bucket) (p : NotificationRowParams) (s : JobStore)
      → is_saved p s.inbox ≡ true
      → is_saved p (remind_as env sub o s).inbox ≡ true
  unfolding tell
  remind_as_keeps none p s h = h
  remind_as_keeps (some b) p s h =
      notify_once_keeps env.channels p (reminder_of env b sub) s.inbox h

  remind_as-tells :
      (o : Option Bucket) (s : JobStore) → told_as env sub o (remind_as env sub o s).inbox ≡ true
  unfolding tell
  remind_as-tells none s = refl
  remind_as-tells (some b) s = notify_once-saves env.channels (reminder_of env b sub) s.inbox

  -- One who was told is not told again.
  remind_as_again :
      (o : Option Bucket) (s : JobStore)
      → told_as env sub o s.inbox ≡ true
      → remind_as env sub o s ≡ s
  unfolding tell
  remind_as_again none s h = refl
  remind_as_again (some b) s h =
      ap (λ r. record s { inbox = r.1; mails = s.mails ++ mails_for b sub r.0 })
        (notify_once_repeated env.channels (reminder_of env b sub) s.inbox h)
      ∙ ap (λ ms. record s { mails = ms }) (nil_right s.mails)

remind_all_keeps :
    (env : JobEnv) (subs : List SubRow) (p : NotificationRowParams) (s : JobStore)
    → is_saved p s.inbox ≡ true
    → is_saved p (remind_all env subs s).inbox ≡ true
unfolding remind_all remind_one
remind_all_keeps env [] p s h = h
remind_all_keeps env (sub ∷ subs) p s h =
    remind_all_keeps env subs p (remind_one env sub s)
      (remind_as_keeps env sub (bucket_of env sub) p s h)

told_keeps :
    (env : JobEnv) (subs : List SubRow) (sub : SubRow) (o : Option Bucket) (s : JobStore)
    → told_as env sub o s.inbox ≡ true
    → told_as env sub o (remind_all env subs s).inbox ≡ true
told_keeps env subs sub none s h = refl
told_keeps env subs sub (some b) s h = remind_all_keeps env subs (reminder_of env b sub) s h

remind_all-tells :
    (env : JobEnv) (subs : List SubRow) (s : JobStore)
    → All (λ sub. is_told env sub (remind_all env subs s).inbox ≡ true) subs
unfolding remind_all remind_one
remind_all-tells env [] s = tt
remind_all-tells env (sub ∷ subs) s = (
  told_keeps env subs sub (bucket_of env sub) (remind_one env sub s)
      (remind_as-tells env sub (bucket_of env sub) s),
  remind_all-tells env subs (remind_one env sub s),
)

remind_all_again :
    (env : JobEnv) (subs : List SubRow) (s : JobStore)
    → All (λ sub. is_told env sub s.inbox ≡ true) subs
    → remind_all env subs s ≡ s
unfolding remind_all remind_one
remind_all_again env [] s h = refl
remind_all_again env (sub ∷ subs) s (h, hs) =
    rw (remind_as_again env sub (bucket_of env sub) s h) (remind_all_again env subs s hs)

remind_all-subs :
    (env : JobEnv) (subs : List SubRow) (s : JobStore) → (remind_all env subs s).subs ≡ s.subs
unfolding remind_all remind_one
remind_all-subs env [] s = refl
remind_all-subs env (sub ∷ subs) s =
    remind_all-subs env subs (remind_one env sub s) ∙ remind_as-subs env sub (bucket_of env sub) s

-- The reminder job may run any number of times on a day: a second run changes nothing. No member gets
-- a second notification or mail, no live event and no push is repeated.
pub run_sweep-run_sweep :
    (env : JobEnv) (s : JobStore)
    → let once = run_subscription_lifecycle_sweep env s in
      run_subscription_lifecycle_sweep env once ≡ once
unfolding run_subscription_lifecycle_sweep
run_sweep-run_sweep env s =
    let subs = find_many (in_window env) s.subs in
    rw (remind_all-subs env subs s)
      (remind_all_again env subs (remind_all env subs s) (remind_all-tells env subs s))

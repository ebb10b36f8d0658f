-- ===== src/Tickets/Moves/Rules.antt =====
-- The rules by which an action is seen to make moves only: one for each way to build an action.
use finskool_monorepo.Base.{
  ◌≡◌, refl, Bool, true, false, Option, none, some, ◌∷◌, [], ◌++◌, Result, ok, err, AppError,
  if◌then◌else◌,
}
use finskool_monorepo.Notify.{Inbox}
use finskool_monorepo.Tickets.{
  Ticket, TicketEvent, Published, Store, Env, Action, pure, throw, gets, modify, ◌>>=◌, throw_if,
  or_throw, transaction, attempt, update_tickets, add_event, publish,
}
use finskool_monorepo.Tickets.Wire.{await_others}
use finskool_monorepo.Tickets.Moves.{Move, aside, moved, Reach, here, next, Keeps, Calm}

pub Reach-trans : {s t u : Store} → Reach s t → Reach t u → Reach s u
Reach-trans p here = p
Reach-trans p (next q w) = next (Reach-trans p q) w

pub Keeps-throw : {A : Type 0} (e : AppError) → Keeps (throw {A = A} e)
unfolding throw
Keeps-throw e = record { path = λ s. here }

pub Keeps-throw_if : (c : Bool) (e : AppError) → Keeps (throw_if c e)
unfolding throw_if
Keeps-throw_if c e = record { path = λ s. here }

module _ {A : Type 0} where
  pub Keeps-pure : (a : A) → Keeps (pure a)
  unfolding pure
  Keeps-pure a = record { path = λ s. here }

  pub Keeps-gets : (f : Store → A) → Keeps (gets f)
  unfolding gets
  Keeps-gets f = record { path = λ s. here }

  pub Keeps-or_throw : (o : Option A) (e : AppError) → Keeps (or_throw o e)
  unfolding or_throw
  Keeps-or_throw none e = record { path = λ s. here }
  Keeps-or_throw (some a) e = record { path = λ s. here }

  pub Keeps-if : (b : Bool) (m n : Action A) → Keeps m → Keeps n → Keeps (if b then m else n)
  Keeps-if true m n p q = p
  Keeps-if false m n p q = q

  pub Keeps-attempt : (m : Action A) → Keeps m → Keeps (attempt m)
  unfolding attempt
  Keeps-attempt m p = record { path = p.path }

  rolled_back :
      (s : Store) (r : Result A × Store)
      → Reach s r.1
      → Reach s (elim r.0 as (λ _. Result A × Store) [ ok a ↦ (ok a, r.1) | err e ↦ (err e, s) ]).1
  rolled_back s (ok a, t) q = q
  rolled_back s (err e, t) q = here

  pub Keeps-transaction : (m : Action A) → Keeps m → Keeps (transaction m)
  unfolding transaction
  Keeps-transaction m p = record { path = λ s. rolled_back s (m s) (p.path s) }

module _ {A B : Type 0} where
  pub bind_from :
      (f : A → Action B) (s : Store) (r : Result A × Store)
      → Reach s r.1
      → ((a : A) → Keeps (f a))
      → Reach s (elim r.0 as (λ _. Result B × Store) [ ok a ↦ f a r.1 | err e ↦ (err e, r.1) ]).1
  bind_from f s (ok a, t) p q = Reach-trans p ((q a).path t)
  bind_from f s (err e, t) p q = p

  pub Keeps-bind :
      (m : Action A) (f : A → Action B) → Keeps m → ((a : A) → Keeps (f a)) → Keeps (m >>= f)
  unfolding ◌>>=◌
  Keeps-bind m f p q = record { path = λ s. bind_from f s (m s) (p.path s) q }

-- What is written beside the tickets and the messages.
pub Keeps-modify_inbox : (f : Store → Inbox) → Keeps (modify (λ s. record s { inbox = f s }))
unfolding modify
Keeps-modify_inbox f = record {
  path = λ s. next here (aside s.events s.removed_objects s.published (f s) refl);
}

pub Keeps-add_event : (e : TicketEvent) → Keeps (add_event e)
unfolding add_event
Keeps-add_event e = record {
  path = λ s. next here (aside (s.events ++ e ∷ []) s.removed_objects s.published s.inbox refl);
}

pub Keeps-publish : (p : Published) → Keeps (publish p)
unfolding publish
Keeps-publish p = record {
  path = λ s. next here (aside s.events s.removed_objects (s.published ++ p ∷ []) s.inbox refl);
}

pub Keeps-update_tickets :
    (w : Ticket → Bool) (f : Ticket → Ticket)
    → ((a : Ticket) → w a ≡ true → Move a (f a))
    → Keeps (update_tickets w f)
unfolding update_tickets
Keeps-update_tickets w f h = record { path = λ s. next here (moved w f h refl) }

pub Keeps-await_others : (env : Env) → Calm env → Keeps (await_others env)
unfolding modify
Keeps-await_others env calm = record { path = calm }

pub ruleset keeps_rules = (
  Keeps-pure, Keeps-throw, Keeps-throw_if, Keeps-gets, Keeps-or_throw, Keeps-if, Keeps-attempt,
  Keeps-transaction, Keeps-bind, Keeps-modify_inbox, Keeps-add_event, Keeps-publish,
  Keeps-await_others,
)

-- ===== src/Tickets/Moves/Answers.antt =====
-- Reading the answer of an action backwards, part by part.
use finskool_monorepo.Base.{
  ◌≡◌, refl, ap, Bool, true, false, arith, List, [], ◌∷◌, ◌++◌, Option, some, none, Result, ok, err,
  Grows, find_first, any_where, Bool-cases, inl, inr, AppError,
}
use finskool_monorepo.Tickets.{Store, Action, pure, throw, or_throw, ◌>>=◌}

module _ {A B : Type 0} (f : A → Action B) (b : B) (t : Store) where
  abbrev pub Through : Result A × Store → Type 0
  Through r = (a : A) × (u : Store) × (r ≡ (ok a, u)) × (f a u ≡ (ok b, t))

  through :
      (r : Result A) (u : Store)
      → elim r as (λ _. Result B × Store) [ ok a ↦ f a u | err e ↦ (err e, u) ] ≡ (ok b, t)
      → Through (r, u)
  through (ok a) u h = (a, u, refl, h)
  through (err e) u h = cc

  -- A chain that answers has an answer from its first part.
  pub bind_answers : (m : Action A) (s : Store) → (m >>= f) s ≡ (ok b, t) → Through (m s)
  unfolding ◌>>=◌
  bind_answers m s h = through (m s).0 (m s).1 h

abbrev pub answer : {A : Type 0} → Result A → Option A
answer (ok a) = some a
answer (err e) = none

pub bind_at :
    {A B : Type 0} (f : A → Action B) (m : Action A) (s : Store) (a : A) (t : Store)
    → m s ≡ (ok a, t)
    → (m >>= f) s ≡ f a t
unfolding ◌>>=◌
bind_at {B = B} f m s a t e =
    ap (λ r. elim r.0 as (λ _. Result B × Store) [ ok b ↦ f b r.1 | err d ↦ (err d, r.1) ]) e

module _ {A : Type 0} (w : A → Bool) where
  -- The first row that fits is the new one when no older row does.
  pub find_first-append_new :
      (x : A) (xs : List A)
      → any_where w xs ≡ false
      → w x ≡ true
      → find_first w (xs ++ x ∷ []) ≡ some x
  unfolding find_first any_where
  find_first-append_new x [] h p = rw p refl
  find_first-append_new x (y ∷ xs) h p =
      let e : w y ≡ false = ground (arith, h) in
      let k : any_where w xs ≡ false = ground (arith, h) in rw e (find_first-append_new x xs k p)

  pub any_where-Grows :
      (R : A → A → Type 0)
      → ((a b : A) → R a b → w a ≡ true → w b ≡ true)
      → (xs ys : List A) → Grows R xs ys
      → any_where w xs ≡ true
      → any_where w ys ≡ true
  unfolding any_where
  any_where-Grows R f [] ys g h = cc
  any_where-Grows R f (x ∷ xs) (y ∷ ys) g h = elim (Bool-cases (w x)) [
    | inl p ↦ rw (f x y g.0 p) refl
    | inr n ↦ ground (arith, any_where-Grows R f xs ys g.1 (ground (arith, h, n)))
  ]
  any_where-Grows R f (x ∷ xs) [] g h = elim g [ ]

pub or_throw_answers :
    {A : Type 0} (o : Option A) (e : AppError) (s : Store) (a : A) (t : Store)
    → or_throw o e s ≡ (ok a, t)
    → (o ≡ some a) × (s ≡ t)
unfolding or_throw throw pure
or_throw_answers none e s a t h = cc
or_throw_answers (some b) e s a t h = (ap (λ r. answer r.0) h, ap (λ r. r.1) h)

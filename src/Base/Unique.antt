-- ===== src/Base/Unique.antt =====
-- Unique keys: no later row of a table is the same as an earlier one.
use Prim.Native.Nat.{ℕ, suc, max, ◌≤◌, ◌<◌}
use mathlib.Core.Path.{◌≡◌, refl, subst}
use mathlib.Core.Option.{some}
use mathlib.Core.Logic.{inl, inr}
use mathlib.Core.Bool.{Bool, true, false}
use mathlib.Core.List.{List, [], ◌∷◌, ◌++◌}
use native.Mathlib.Omega.{arith}
use finskool_monorepo.Base.Tests.{◌==◌, Bool-cases, ==→eq}
use finskool_monorepo.Base.Lists.{All}
use finskool_monorepo.Base.Table.{
  find_first, any_where, any_where-append, update_where, count_where, UniqueBy, UniqueKey, Grows,
  Grows-refl,
}

module _ {ℓ} {A : Type ℓ} where
  -- An update is judged on the rows that it matches.
  pub any_where-update_cond :
      (v w : A → Bool) (f : A → A) (xs : List A)
      → ((x : A) → w x ≡ true → v (f x) ≡ v x)
      → any_where v (update_where w f xs) ≡ any_where v xs
  unfolding any_where update_where
  any_where-update_cond v w f [] h = refl
  any_where-update_cond v w f (x ∷ xs) h = elim (Bool-cases (w x)) [
    | inl p ↦ rw (p, h x p, any_where-update_cond v w f xs h) refl
    | inr n ↦ rw (n, any_where-update_cond v w f xs h) refl
  ]

  pub any_where-update_false :
      (v w : A → Bool) (f : A → A) (xs : List A)
      → ((x : A) → w x ≡ true → v x ≡ false → v (f x) ≡ false)
      → any_where v xs ≡ false
      → any_where v (update_where w f xs) ≡ false
  unfolding any_where update_where
  any_where-update_false v w f [] h e = refl
  any_where-update_false v w f (x ∷ xs) h e = elim (Bool-cases (w x)) [
    | inl p ↦ rw (p, h x p (ground arith), any_where-update_false v w f xs h (ground arith)) refl
    | inr n ↦ rw (n) (ground (arith, any_where-update_false v w f xs h (ground arith)))
  ]

  pub count_where-update_cond :
      (v w : A → Bool) (f : A → A) (xs : List A)
      → ((x : A) → w x ≡ true → v (f x) ≡ v x)
      → count_where v (update_where w f xs) ≡ count_where v xs
  unfolding count_where update_where
  count_where-update_cond v w f [] h = refl
  count_where-update_cond v w f (x ∷ xs) h = elim (Bool-cases (w x)) [
    | inl p ↦ rw (p, h x p, count_where-update_cond v w f xs h) refl
    | inr n ↦ rw (n, count_where-update_cond v w f xs h) refl
  ]

  any_where-cong :
      (v w : A → Bool) (xs : List A)
      → ((x : A) → v x ≡ w x)
      → any_where w xs ≡ false
      → any_where v xs ≡ false
  unfolding any_where
  any_where-cong v w [] h e = refl
  any_where-cong v w (x ∷ xs) h e = ground (arith, h x, any_where-cong v w xs h)

module _ {ℓ} {A : Type ℓ} (same : A → A → Bool) where
  pub UniqueBy-append :
      (m : A)
      → ((x : A) → same x m ≡ same m x)
      → (xs : List A) → any_where (same m) xs ≡ false
      → UniqueBy same xs
      → UniqueBy same (xs ++ m ∷ [])
  unfolding any_where
  UniqueBy-append m symm [] h u = (refl, tt)
  UniqueBy-append m symm (x ∷ xs) h u = (
    rw (any_where-append (same x) xs (m ∷ [])) (ground (arith, symm x, h, u)),
    UniqueBy-append m symm xs (ground arith) u.1,
  )

  pub UniqueBy-update_where :
      (w : A → Bool) (f : A → A)
      → ((x y : A) → w x ≡ true → same (f x) y ≡ same x y)
      → ((x y : A) → w y ≡ true → same x (f y) ≡ same x y)
      → (xs : List A) → UniqueBy same xs
      → UniqueBy same (update_where w f xs)
  unfolding update_where
  UniqueBy-update_where w f left right [] u = tt
  UniqueBy-update_where w f left right (x ∷ xs) u = elim (Bool-cases (w x)) [
    | inl p ↦ rw p (
      rw (any_where-update_cond (same (f x)) w f xs (right (f x)))
          (any_where-cong _ _ xs (λ y. left x y p) u.0),
      UniqueBy-update_where w f left right xs u.1,
    )
    | inr n ↦ rw n (
      rw (any_where-update_cond (same x) w f xs (right x)) u.0,
      UniqueBy-update_where w f left right xs u.1,
    )
  ]

-- ─── An update of the one row of a key ──────────────────────────────────────

module _ {ℓ} {A : Type ℓ} where
  -- An update that matches no row changes nothing.
  pub update_where-absent :
      (w : A → Bool) (f : A → A) (xs : List A) → any_where w xs ≡ false → update_where w f xs ≡ xs
  unfolding any_where update_where
  update_where-absent w f [] h = refl
  update_where-absent w f (x ∷ xs) h = ground (arith, update_where-absent w f xs)

module _ {ℓ} {A : Type ℓ} (key : A → ℕ) (k : ℕ) (f : A → A) where
  rest_absent :
      (x : A) (xs : List A)
      → (key x == k) ≡ true
      → any_where (λ y. key y == key x) xs ≡ false
      → any_where (λ y. key y == k) xs ≡ false
  rest_absent x xs p h = subst (λ i. any_where (λ y. key y == i) xs ≡ false) (==→eq _ _ p) h

  pub All-update_one {κ} :
      (P : A → Type κ) (a : A)
      → (P a → P (f a))
      → (xs : List A) → UniqueKey key xs
      → find_first (λ y. key y == k) xs ≡ some a
      → All P xs
      → All P (update_where (λ y. key y == k) f xs)
  unfolding find_first update_where
  All-update_one P a step [] u e h = tt
  All-update_one P a step (x ∷ xs) u e h = elim (Bool-cases (key x == k)) [
    | inl p ↦
        let same : a ≡ x = ground (arith, e, p) in
        rw (p, update_where-absent _ f xs (rest_absent x xs p u.0))
          (subst (λ y. P y → P (f y)) same step h.0, h.1)
    | inr n ↦ rw n (h.0, All-update_one P a step xs u.1 (ground (arith, e, n)) h.1)
  ]

  pub Grows-update_one :
      (R : A → A → Type 0) (a : A)
      → ((x : A) → R x x)
      → R a (f a)
      → (xs : List A) → UniqueKey key xs
      → find_first (λ y. key y == k) xs ≡ some a
      → Grows R xs (update_where (λ y. key y == k) f xs)
  unfolding find_first update_where
  Grows-update_one R a r step [] u e = tt
  Grows-update_one R a r step (x ∷ xs) u e = elim (Bool-cases (key x == k)) [
    | inl p ↦
        let same : a ≡ x = ground (arith, e, p) in
        rw (p, update_where-absent _ f xs (rest_absent x xs p u.0))
          (subst (λ y. R y (f y)) same step, Grows-refl R r xs)
    | inr n ↦ rw n (r x, Grows-update_one R a r step xs u.1 (ground (arith, e, n)))
  ]

-- ─── New ids ────────────────────────────────────────────────────────────────

module _ {ℓ} {A : Type ℓ} (key : A → ℕ) where
  -- An id that no row has.
  unfoldable pub next_id : List A → ℕ
  next_id [] = 0
  next_id (x ∷ xs) = max (suc (key x)) (next_id xs)

  above_fresh : (n : ℕ) (xs : List A) → next_id xs ≤ n → any_where (λ x. key x == n) xs ≡ false
  unfolding next_id any_where
  above_fresh n [] h = refl
  above_fresh n (x ∷ xs) h =
      let rest = above_fresh n xs (omega (arith, h)) in
      let apart : key x < n = omega (arith, h) in ground (arith, rest, apart)

  pub next_id-fresh : (xs : List A) → any_where (λ x. key x == next_id xs) xs ≡ false
  next_id-fresh xs = above_fresh (next_id xs) xs (omega arith)

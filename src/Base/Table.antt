-- ===== src/Base/Table.antt =====
-- A database table as a list of rows in insertion order, with the queries that the services send:
-- findFirst / findUnique, count, updateMany, create. A `where` clause is a Boolean test on a row.
use Prim.Native.Nat.{ℕ, suc}
use mathlib.Core.Path.{◌≡◌, refl, subst}
use mathlib.Core.Logic.{inl, inr}
use mathlib.Core.Bool.{Bool, true, false, not, ◌&&◌, ◌||◌}
use mathlib.Core.Option.{Option, none, some}
use mathlib.Core.List.{List, [], ◌∷◌, ◌++◌, map, Memᴰ}
use native.Mathlib.Omega.{arith}
use finskool_monorepo.Base.Tests.{
  ◌==◌, ltb, is_none, if◌then◌else◌, Bool-cases, Bool_ext, &&-true, ==→eq,
}
use finskool_monorepo.Base.Lists.{All, includes}

module _ {ℓ} {A : Type ℓ} where
  unfoldable pub find_first : (A → Bool) → List A → Option A
  find_first w [] = none
  find_first w (x ∷ xs) = if w x then some x else find_first w xs

  unfoldable pub find_many : (A → Bool) → List A → List A
  find_many w [] = []
  find_many w (x ∷ xs) = let rest = find_many w xs in if w x then x ∷ rest else rest

  unfoldable pub count_where : (A → Bool) → List A → ℕ
  count_where w [] = 0
  count_where w (x ∷ xs) = let rest = count_where w xs in if w x then suc rest else rest

  unfoldable pub update_where : (A → Bool) → (A → A) → List A → List A
  update_where w f [] = []
  update_where w f (x ∷ xs) = (if w x then f x else x) ∷ update_where w f xs

module _ {ℓ} {A : Type ℓ} where
  -- `some: { … }` in a relation filter.
  unfoldable pub any_where : (A → Bool) → List A → Bool
  any_where w [] = false
  any_where w (x ∷ xs) = w x || any_where w xs

-- Every row of the first table is still there, in place, and stands in `R` to what it has become.
abbrev pub Grows {ℓ} : {A : Type ℓ} → (A → A → Type 0) → List A → List A → Type 0
Grows R [] ys = Unit
Grows R (x ∷ xs) [] = ⊥
Grows R (x ∷ xs) (y ∷ ys) = R x y × Grows R xs ys

module _ {ℓ} {A : Type ℓ} where
  pub find_first-holds :
      (w : A → Bool) (xs : List A) {a : A} → find_first w xs ≡ some a → w a ≡ true
  unfolding find_first
  find_first-holds w [] h = cc
  find_first-holds w (x ∷ xs) {a} h = elim (Bool-cases (w x)) [
    | inl p ↦ let e : x ≡ a = ground arith in subst (λ y. w y ≡ true) e p
    | inr n ↦ let e : find_first w xs ≡ some a = ground arith in find_first-holds w xs e
  ]

  pub find_first-All {κ} :
      (P : A → Type κ) (w : A → Bool) (xs : List A) {a : A}
      → All P xs
      → find_first w xs ≡ some a
      → P a
  unfolding find_first
  find_first-All P w [] h e = cc
  find_first-All P w (x ∷ xs) {a} h e = elim (Bool-cases (w x)) [
    | inl p ↦ let q : x ≡ a = ground arith in subst P q h.0
    | inr n ↦ let q : find_first w xs ≡ some a = ground arith in find_first-All P w xs h.1 q
  ]

  pub All-update_where {κ} :
      (P : A → Type κ) (w : A → Bool) (f : A → A)
      → ((a : A) → w a ≡ true → P a → P (f a))
      → (xs : List A) → All P xs
      → All P (update_where w f xs)
  unfolding update_where
  All-update_where P w f keep [] h = tt
  All-update_where P w f keep (x ∷ xs) h = elim (Bool-cases (w x)) [
    | inl p ↦ rw p (keep x p h.0, All-update_where P w f keep xs h.1)
    | inr n ↦ rw n (h.0, All-update_where P w f keep xs h.1)
  ]

  -- An update that matches no row changes nothing.
  pub update_where-count_zero :
      (w : A → Bool) (f : A → A) (xs : List A) → count_where w xs ≡ 0 → update_where w f xs ≡ xs
  unfolding update_where count_where
  update_where-count_zero w f [] h = refl
  update_where-count_zero w f (x ∷ xs) h = ground (arith, update_where-count_zero w f xs)

  pub Grows-refl : (R : A → A → Type 0) → ((a : A) → R a a) → (xs : List A) → Grows R xs xs
  Grows-refl R r [] = tt
  Grows-refl R r (x ∷ xs) = (r x, Grows-refl R r xs)

  pub Grows-trans :
      (R : A → A → Type 0)
      → ((a b c : A) → R a b → R b c → R a c)
      → (xs ys zs : List A) → Grows R xs ys
      → Grows R ys zs
      → Grows R xs zs
  Grows-trans R t [] ys zs h k = tt
  Grows-trans R t (x ∷ xs) [] zs h k = elim h [ ]
  Grows-trans R t (x ∷ xs) (y ∷ ys) [] h k = elim k [ ]
  Grows-trans R t (x ∷ xs) (y ∷ ys) (z ∷ zs) h k =
      (t x y z h.0 k.0, Grows-trans R t xs ys zs h.1 k.1)

  pub Grows-append :
      (R : A → A → Type 0) → ((a : A) → R a a) → (xs ys : List A) → Grows R xs (xs ++ ys)
  Grows-append R r [] ys = tt
  Grows-append R r (x ∷ xs) ys = (r x, Grows-append R r xs ys)

  pub Grows-update_where :
      (R : A → A → Type 0) (w : A → Bool) (f : A → A)
      → ((a : A) → R a a)
      → ((a : A) → w a ≡ true → R a (f a))
      → (xs : List A) → Grows R xs (update_where w f xs)
  unfolding update_where
  Grows-update_where R w f r keep [] = tt
  Grows-update_where R w f r keep (x ∷ xs) = elim (Bool-cases (w x)) [
    | inl p ↦ rw p (keep x p, Grows-update_where R w f r keep xs)
    | inr n ↦ rw n (r x, Grows-update_where R w f r keep xs)
  ]

  pub any_where-find_first :
      (w : A → Bool) (xs : List A) → not (is_none (find_first w xs)) ≡ any_where w xs
  unfolding find_first any_where
  any_where-find_first w [] = refl
  any_where-find_first w (x ∷ xs) = ground (arith, any_where-find_first w xs)

  pub any_where-count_where :
      (w : A → Bool) (xs : List A) → ltb 0 (count_where w xs) ≡ any_where w xs
  unfolding count_where any_where
  any_where-count_where w [] = refl
  any_where-count_where w (x ∷ xs) = ground (arith, any_where-count_where w xs)

  pub any_where-witness :
      (w : A → Bool) (xs : List A) → any_where w xs ≡ true → (x : A) × Memᴰ x xs × (w x ≡ true)
  unfolding any_where
  any_where-witness w [] h = cc
  any_where-witness w (x ∷ xs) h = elim (Bool-cases (w x)) [
    | inl p ↦ (x, Memᴰ.head refl, p)
    | inr n ↦ let (y, m, q) = any_where-witness w xs (ground arith) in (y, Memᴰ.tail m, q)
  ]

  pub any_where-of_mem :
      (w : A → Bool) {x : A} (xs : List A) → Memᴰ x xs → w x ≡ true → any_where w xs ≡ true
  unfolding any_where
  any_where-of_mem w [] m h = elim m [ ]
  any_where-of_mem w (y ∷ xs) (Memᴰ.head e) h = rw (← e) (rw h)
  any_where-of_mem w (y ∷ xs) (Memᴰ.tail m) h = ground (arith, any_where-of_mem w xs m h)

  -- Which ids a query returns.
  pub includes-find_many :
      (key : A → ℕ) (w : A → Bool) (a : ℕ) (xs : List A)
      → includes a (map key (find_many w xs)) ≡ any_where (λ x. w x && key x == a) xs
  unfolding find_many any_where
  includes-find_many key w a [] = refl
  includes-find_many key w a (x ∷ xs) = ground (arith, includes-find_many key w a xs)

module _ {ℓ} {A : Type ℓ} where
  pub any_where-false :
      (w : A → Bool) (xs : List A) → ((x : A) → w x ≡ false) → any_where w xs ≡ false
  unfolding any_where
  any_where-false w [] h = refl
  any_where-false w (x ∷ xs) h = ground (arith, h x, any_where-false w xs h)

module _ {ℓ} {A : Type ℓ} (w : A → Bool) where
  pub any_where-append :
      (xs ys : List A) → any_where w (xs ++ ys) ≡ (any_where w xs || any_where w ys)
  unfolding any_where
  any_where-append [] ys = refl
  any_where-append (x ∷ xs) ys = ground (arith, any_where-append xs ys)

  -- An update that leaves the tested columns alone.
  pub any_where-update_where :
      (v : A → Bool) (f : A → A) (xs : List A)
      → ((x : A) → w (f x) ≡ w x)
      → any_where w (update_where v f xs) ≡ any_where w xs
  unfolding any_where update_where
  any_where-update_where v f [] h = refl
  any_where-update_where v f (x ∷ xs) h = ground (arith, h x, any_where-update_where v f xs h)

-- Dropping the later copies of `b` leaves every other id.
pub includes-find_many_ne :
    (a b : ℕ) (xs : List ℕ)
    → (includes a (find_many (λ y. not (y == b)) xs) || b == a) ≡ (includes a xs || b == a)
unfolding find_many
includes-find_many_ne a b [] = refl
includes-find_many_ne a b (x ∷ xs) = ground (arith, includes-find_many_ne a b xs)

-- A semi-join read from either side.
module _ {ℓ κ} {A : Type ℓ} {B : Type κ} where
  any_where-join :
      (p : A → Bool) (q : B → Bool) (k : A → ℕ) (l : B → ℕ) (xs : List A) (ys : List B)
      → any_where (λ x. p x && any_where (λ y. q y && l y == k x) ys) xs ≡ true
      → any_where (λ y. q y && any_where (λ x. p x && k x == l y) xs) ys ≡ true
  any_where-join p q k l xs ys h =
      let (x, mx, hx) =
        any_where-witness (λ x. p x && any_where (λ y. q y && l y == k x) ys) xs h in
      let (px, inner) = &&-true (p x) (any_where (λ y. q y && l y == k x) ys) hx in
      let (y, my, hy) = any_where-witness (λ y. q y && l y == k x) ys inner in
      let found : any_where (λ x. p x && k x == l y) xs ≡ true =
        any_where-of_mem (λ x. p x && k x == l y) xs mx
          (ground (arith, &&-true (q y) (l y == k x))) in
      any_where-of_mem (λ y. q y && any_where (λ x. p x && k x == l y) xs) ys my
        (rw found (ground (arith, &&-true (q y) (l y == k x))))

module _ {ℓ κ} {A : Type ℓ} {B : Type κ} where
  pub any_where-swap :
      (p : A → Bool) (q : B → Bool) (k : A → ℕ) (l : B → ℕ) (xs : List A) (ys : List B)
      → any_where (λ x. p x && any_where (λ y. q y && l y == k x) ys) xs
        ≡ any_where (λ y. q y && any_where (λ x. p x && k x == l y) xs) ys
  any_where-swap p q k l xs ys =
      Bool_ext _ _ (any_where-join p q k l xs ys) (any_where-join q p l k ys xs)

-- No later row is the same as an earlier one.
abbrev pub UniqueBy {ℓ} : {A : Type ℓ} → (A → A → Bool) → List A → Type 0
UniqueBy same [] = Unit
UniqueBy same (x ∷ xs) = (any_where (same x) xs ≡ false) × UniqueBy same xs

-- A primary key.
abbrev pub UniqueKey {ℓ} : {A : Type ℓ} → (A → ℕ) → List A → Type 0
UniqueKey key xs = UniqueBy (λ x y. key y == key x) xs

abbrev pub holds {ℓ} : {A : Type ℓ} → (A → Bool) → Option A → Bool
holds w none = false
holds w (some a) = w a

module _ {ℓ} {A : Type ℓ} (key : A → ℕ) (w : A → Bool) where
  any_where-key_false :
      (a : ℕ) (xs : List A)
      → any_where (λ x. key x == a) xs ≡ false
      → any_where (λ x. w x && key x == a) xs ≡ false
  unfolding any_where
  any_where-key_false a [] h = refl
  any_where-key_false a (x ∷ xs) h = ground (arith, any_where-key_false a xs)

  -- With a primary key, a condition on the rows of one key is a condition on the row found.
  pub any_where-key :
      (a : ℕ) (xs : List A)
      → UniqueKey key xs
      → any_where (λ x. w x && key x == a) xs ≡ holds w (find_first (λ x. key x == a) xs)
  unfolding any_where find_first
  any_where-key a [] h = refl
  any_where-key a (x ∷ xs) h = elim (Bool-cases (key x == a)) [
    | inl p ↦
        let e : key x ≡ a = ==→eq _ _ p in
        let none_left : any_where (λ y. w y && key y == a) xs ≡ false =
          any_where-key_false a xs (subst (λ b. any_where (λ y. key y == b) xs ≡ false) e h.0) in
        rw (p, none_left) (ground arith)
    | inr n ↦ rw (n) (rw (any_where-key a xs h.1) (ground arith))
  ]

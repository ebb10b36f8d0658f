-- ===== src/Billing/Gstin/Letters.antt =====
-- The alphabet, the weighted sum and the shape of a GSTIN (services.billing.ts).
use finskool_monorepo.Base.{
  ℕ, suc, zero, ◌+◌, ◌*◌, ◌%◌, ◌≤◌, ◌<◌, ◌≡◌, refl, ◌∙◌, Bool, true, false, not, ◌&&◌, leb, ltb,
  Text, List, [], ◌∷◌, ◌++◌, get_elem?, length, includes, includes-append, some, arith, All,
  &&-true,
}
use finskool_monorepo.Billing.Gstin.{
  gstin_chars, is_digit, is_letter, is_alnum, matches, gstin_shape, index_of, factor, digit_sum,
  weighted_sum,
}

range : ℕ → ℕ → Text
range a zero = []
range a (suc n) = a ∷ range (suc a) n

includes-range : (c a n : ℕ) → includes c (range a n) ≡ (leb a c && ltb c (a + n))
unfolding range
includes-range c a zero = ground arith
includes-range c a (suc n) = ground (arith, includes-range c (suc a) n)

pub alnum_included : (c : ℕ) → is_alnum c ≡ true → includes c gstin_chars ≡ true
unfolding range
alnum_included c h =
    includes-append c (range 48 10) (range 65 26)
    ∙ rw (includes-range c 48 10, includes-range c 65 26) (ground arith)

abbrev distinct : Text → Bool
distinct [] = true
distinct (x ∷ xs) = not (includes x xs) && distinct xs

get_elem?-includes : (a i : ℕ) (xs : Text) → get_elem? xs i ≡ some a → includes a xs ≡ true
get_elem?-includes a i [] h = cc
get_elem?-includes a zero (x ∷ xs) h = ground arith
get_elem?-includes a (suc i) (x ∷ xs) h = ground (arith, get_elem?-includes a i xs)

pub index_of-get_elem? :
    (a i : ℕ) (xs : Text) → distinct xs ≡ true → get_elem? xs i ≡ some a → index_of a xs ≡ i
index_of-get_elem? a i [] d h = cc
index_of-get_elem? a zero (x ∷ xs) d h = ground arith
index_of-get_elem? a (suc i) (x ∷ xs) d h =
    ground (arith, index_of-get_elem? a i xs, get_elem?-includes a i xs)

pub index_of_bound : (c : ℕ) (xs : Text) → includes c xs ≡ true → index_of c xs < length xs
index_of_bound c [] h = cc
index_of_bound c (x ∷ xs) h = ground (arith, index_of_bound c xs)

pub index_of_inj :
    (c d : ℕ) (xs : Text)
    → includes c xs ≡ true
    → includes d xs ≡ true
    → index_of c xs ≡ index_of d xs
    → c ≡ d
index_of_inj c d [] h k e = cc
index_of_inj c d (x ∷ xs) h k e = ground (arith, index_of_inj c d xs)

-- ─── The sum ────────────────────────────────────────────────────────────────

-- Doubling and adding the base-36 digits sends the 36 values to 36 values.
pub weight_inj :
    (even : Bool) (v w r : ℕ)
    → v < 36
    → w < 36
    → (r + digit_sum (v * factor even)) % 36 ≡ (r + digit_sum (w * factor even)) % 36
    → v ≡ w
weight_inj true v w r hv hw e = omega (arith, hv, hw, e)
weight_inj false v w r hv hw e = omega (arith, hv, hw, e)

-- Two texts that differ in one place: the rest of the sum is the same.
pub record Differ (x y s t : ℕ) : Type 0 where
  pub even : Bool
  pub rest : ℕ
  pub left : s ≡ rest + digit_sum (index_of x gstin_chars * factor even)
  pub right : t ≡ rest + digit_sum (index_of y gstin_chars * factor even)

pub weighted_sum-Differ :
    (even : Bool) (n : ℕ) (p : Text) (x y : ℕ) (q : Text)
    → length p < n
    → Differ x y (weighted_sum even n (p ++ x ∷ q)) (weighted_sum even n (p ++ y ∷ q))
unfolding weighted_sum
weighted_sum-Differ even zero p x y q h = elim h [ ]
weighted_sum-Differ even (suc n) [] x y q h = record {
  even = even;
  rest = weighted_sum (not even) n q;
  left = omega arith;
  right = omega arith;
}
weighted_sum-Differ even (suc n) (c ∷ p) x y q h =
    let d = weighted_sum-Differ (not even) n p x y q (omega (arith, h)) in
    record {
      even = d.even;
      rest = digit_sum (index_of c gstin_chars * factor even) + d.rest;
      left = omega (arith, d.left);
      right = omega (arith, d.right);
    }

pub weighted_sum_same :
    (even : Bool) (n : ℕ) (p : Text) (x y : ℕ) (q : Text)
    → n ≤ length p
    → weighted_sum even n (p ++ x ∷ q) ≡ weighted_sum even n (p ++ y ∷ q)
unfolding weighted_sum
weighted_sum_same even zero p x y q h = refl
weighted_sum_same even (suc n) [] x y q h = elim h [ ]
weighted_sum_same even (suc n) (c ∷ p) x y q h =
    omega (arith, weighted_sum_same (not even) n p x y q (omega (arith, h)))

-- ─── The shape ──────────────────────────────────────────────────────────────

abbrev pub IsNarrow : (ℕ → Bool) → Type 0
IsNarrow p = (c : ℕ) → p c ≡ true → is_alnum c ≡ true

pub shape-IsNarrow : All IsNarrow gstin_shape
shape-IsNarrow =
    let digit : IsNarrow is_digit = λ c h. ground arith in
    let letter : IsNarrow is_letter = λ c h. ground arith in
    (
      digit,
      (
        digit,
        (
          letter,
          (
            letter,
            (
              letter,
              (
                letter,
                (
                  letter,
                  (
                    digit,
                    (
                      digit,
                      (
                        digit,
                        (
                          digit,
                          (
                            letter,
                            ((λ c h. ground arith), ((λ c h. ground arith), ((λ c h. h), tt))),
                          ),
                        ),
                      ),
                    ),
                  ),
                ),
              ),
            ),
          ),
        ),
      ),
    )

pub matches-alnum :
    (ps : List (ℕ → Bool)) (p : Text) (x : ℕ) (q : Text)
    → All IsNarrow ps
    → matches ps (p ++ x ∷ q) ≡ true
    → is_alnum x ≡ true
unfolding matches
matches-alnum [] [] x q n h = cc
matches-alnum [] (c ∷ p) x q n h = cc
matches-alnum (k ∷ ps) [] x q n h = n.0 x (&&-true (k x) _ h).0
matches-alnum (k ∷ ps) (c ∷ p) x q n h = matches-alnum ps p x q n.1 (&&-true (k c) _ h).1

pub matches-length :
    (ps : List (ℕ → Bool)) (cs : Text) → matches ps cs ≡ true → length cs ≡ length ps
unfolding matches
matches-length [] [] h = refl
matches-length [] (c ∷ cs) h = cc
matches-length (p ∷ ps) [] h = cc
matches-length (p ∷ ps) (c ∷ cs) h = omega (arith, matches-length ps cs (&&-true (p c) _ h).1)

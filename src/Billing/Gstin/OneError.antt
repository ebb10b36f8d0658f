-- ===== src/Billing/Gstin/OneError.antt =====
-- The check character of a GSTIN against one wrong character (`isValidGstin` of services.billing.ts).
use finskool_monorepo.Base.{
  ℕ, suc, zero, ◌-◌, ◌%◌, ◌<◌, ◌≡◌, ◌≢◌, refl, sym, ap, ◌∙◌, subst, true, false, ltb, Text, [], ◌∷◌,
  ◌++◌, get_elem?, length, includes, Option, some, none, arith, Bool-cases, inl, inr, length-append,
}
use finskool_monorepo.Billing.Gstin.{
  gstin_chars, matches, gstin_shape, weighted_sum, same_char, is_valid_gstin,
}
use finskool_monorepo.Billing.Gstin.Letters.{
  alnum_included, index_of-get_elem?, index_of_bound, index_of_inj, weight_inj, weighted_sum-Differ,
  weighted_sum_same, shape-IsNarrow, matches-alnum, matches-alnum, matches-alnum, matches-length,
  matches-length, matches-length,
}

-- ─── The check ──────────────────────────────────────────────────────────────

get_elem?-place : (p : Text) (x : ℕ) (q : Text) → get_elem? (p ++ x ∷ q) (length p) ≡ some x
get_elem?-place [] x q = refl
get_elem?-place (c ∷ p) x q = get_elem?-place p x q

get_elem?-after :
    (p : Text) (x y : ℕ) (q : Text) (n : ℕ)
    → length p < n
    → get_elem? (p ++ x ∷ q) n ≡ get_elem? (p ++ y ∷ q) n
get_elem?-after p x y q zero h = elim h [ ]
get_elem?-after [] x y q (suc n) h = refl
get_elem?-after (c ∷ p) x y q (suc n) h = get_elem?-after p x y q n (omega (arith, h))

same_char-eq : (a b : Option ℕ) → same_char a b ≡ true → a ≡ b
same_char-eq none none h = refl
same_char-eq none (some b) h = cc
same_char-eq (some a) none h = cc
same_char-eq (some a) (some b) h = ground arith

abbrev check_place : ℕ → ℕ
check_place sum = (36 - sum % 36) % 36

abbrev check_of : Text → ℕ
check_of g = check_place (weighted_sum true 14 g)

valid_parts :
    (g : Text)
    → is_valid_gstin g ≡ true
    → (matches gstin_shape g ≡ true) × (get_elem? gstin_chars (check_of g) ≡ get_elem? g 14)
unfolding is_valid_gstin
valid_parts g h = (ground arith, same_char-eq _ _ (ground arith))

check_place_inj : (s t : ℕ) → check_place s ≡ check_place t → s % 36 ≡ t % 36
check_place_inj s t h = omega (arith, h)

check_place_bound : (s : ℕ) → check_place s < 36
check_place_bound s = omega arith

-- A place of the alphabet holds one character, so it is read back.
get_elem?_inj :
    (i j c : ℕ) → get_elem? gstin_chars i ≡ some c → get_elem? gstin_chars j ≡ some c → i ≡ j
get_elem?_inj i j c h k =
    sym (index_of-get_elem? c i gstin_chars refl h) ∙ index_of-get_elem? c j gstin_chars refl k

some_inj : (a b : ℕ) → some a ≡ some b → a ≡ b
some_inj a b h = cc

get_elem?_found : (i : ℕ) (xs : Text) → i < length xs → (c : ℕ) × (get_elem? xs i ≡ some c)
get_elem?_found i [] h = elim h [ ]
get_elem?_found zero (x ∷ xs) h = (x, refl)
get_elem?_found (suc i) (x ∷ xs) h = get_elem?_found i xs (omega (arith, h))

-- The wrong place is the check character's own.
last_place :
    (p : Text) (x y : ℕ) (q : Text)
    → length p ≡ 14
    → get_elem? gstin_chars (check_of (p ++ x ∷ q)) ≡ get_elem? (p ++ x ∷ q) 14
    → get_elem? gstin_chars (check_of (p ++ y ∷ q)) ≡ get_elem? (p ++ y ∷ q) 14
    → x ≡ y
last_place p x y q e cx cy =
    let at : (z : ℕ) → get_elem? (p ++ z ∷ q) 14 ≡ some z =
      λ z. subst (λ n. get_elem? (p ++ z ∷ q) n ≡ some z) e (get_elem?-place p z q) in
    let same = weighted_sum_same true 14 p x y q (omega (arith, e)) in
    some_inj x y
      (sym (cx ∙ at x) ∙ ap (λ s. get_elem? gstin_chars (check_place s)) same ∙ cy ∙ at y)

early :
    (p : Text) (x y : ℕ) (q : Text) (c : ℕ)
    → length p < 14
    → includes x gstin_chars ≡ true
    → includes y gstin_chars ≡ true
    → get_elem? gstin_chars (check_of (p ++ x ∷ q)) ≡ some c
    → get_elem? gstin_chars (check_of (p ++ y ∷ q)) ≡ some c
    → x ≡ y
early p x y q c h ix iy hx hy =
    let d = weighted_sum-Differ true 14 p x y q h in
    let same =
      check_place_inj (weighted_sum true 14 (p ++ x ∷ q)) (weighted_sum true 14 (p ++ y ∷ q))
        (get_elem?_inj _ _ c hx hy) in
    index_of_inj x y gstin_chars ix iy (
      weight_inj d.even _ _ d.rest (index_of_bound x gstin_chars ix)
        (index_of_bound y gstin_chars iy) (omega (arith, same, d.left, d.right)))

one_place :
    (p : Text) (x y : ℕ) (q : Text)
    → is_valid_gstin (p ++ x ∷ q) ≡ true
    → is_valid_gstin (p ++ y ∷ q) ≡ true
    → x ≡ y
one_place p x y q hx hy =
    let (mx, cx) = valid_parts (p ++ x ∷ q) hx in
    let (my, cy) = valid_parts (p ++ y ∷ q) hy in
    let size : length p < 15 =
      omega (arith, matches-length gstin_shape _ mx, length-append p (x ∷ q)) in
    let included : (z : ℕ)
        → matches gstin_shape (p ++ z ∷ q) ≡ true
        → includes z gstin_chars ≡ true =
      λ z m. alnum_included z (matches-alnum gstin_shape p z q shape-IsNarrow m) in
    elim (Bool-cases (ltb (length p) 14)) [
      | inr n ↦ last_place p x y q (ground (arith, n, size)) cx cy
      | inl b ↦
          let short : length p < 14 = ground (arith, b) in
          let (c, found) =
            get_elem?_found (check_of (p ++ x ∷ q)) gstin_chars
              (check_place_bound (weighted_sum true 14 (p ++ x ∷ q))) in
          early p x y q c short (included x mx) (included y my) found
            (cy ∙ sym (get_elem?-after p x y q 14 short) ∙ sym cx ∙ found)
    ]

-- The check character finds every single mistake: from a valid GSTIN, a text with another character in
-- one place, wherever that is and whatever it is, is refused.
pub is_valid_gstin_one_error :
    (p : Text) (x y : ℕ) (q : Text)
    → x ≢ y
    → is_valid_gstin (p ++ x ∷ q) ≡ true
    → is_valid_gstin (p ++ y ∷ q) ≡ false
is_valid_gstin_one_error p x y q ne h = elim (Bool-cases (is_valid_gstin (p ++ y ∷ q))) [
  | inl v ↦ elim (ne (one_place p x y q h v)) [ ]
  | inr v ↦ v
]

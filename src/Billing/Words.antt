-- ===== src/Billing/Words.antt =====
-- Amounts in words with Indian numbering: `below1000`, `wholeNumberInWords` and `amountInWords` of
-- apps/backend/src/modules/services/services.billing.ts. A place that the tables do not have, which
-- the code would print as `undefined`, makes the whole result `none`.
use finskool_monorepo.Base.{
  ℕ, suc, zero, ◌/◌, ◌%◌, ◌<◌, ◌≡◌, refl, Bool, true, false, leb, ltb, ◌==◌, text, Text, List, [],
  ◌∷◌, ◌++◌, get_elem?, length, if◌then◌else◌, Option, some, none, is_none, arith,
}

abbrev pub ones : List Text
ones =
    []
    ∷ text "One"
    ∷ text "Two"
    ∷ text "Three"
    ∷ text "Four"
    ∷ text "Five"
    ∷ text "Six"
    ∷ text "Seven"
    ∷ text "Eight"
    ∷ text "Nine"
    ∷ text "Ten"
    ∷ text "Eleven"
    ∷ text "Twelve"
    ∷ text "Thirteen"
    ∷ text "Fourteen"
    ∷ text "Fifteen"
    ∷ text "Sixteen"
    ∷ text "Seventeen"
    ∷ text "Eighteen"
    ∷ text "Nineteen"
    ∷ []

abbrev pub tens : List Text
tens =
    []
    ∷ []
    ∷ text "Twenty"
    ∷ text "Thirty"
    ∷ text "Forty"
    ∷ text "Fifty"
    ∷ text "Sixty"
    ∷ text "Seventy"
    ∷ text "Eighty"
    ∷ text "Ninety"
    ∷ []

-- `parts.join(' ')`
abbrev pub join : List Text → Text
join [] = []
join (p ∷ []) = p
join (p ∷ q ∷ ps) = p ++ text " " ++ join (q ∷ ps)

-- `parts.push(p)` on an empty array.
abbrev pub only : Text → List Text
only p = p ∷ []

infixl 5 ◌>>=◌
abbrev pub ◌>>=◌ : {A B : Type 0} → Option A → (A → Option B) → Option B
none >>= f = none
some a >>= f = f a

unfoldable pub hundreds_part : ℕ → Option (List Text)
hundreds_part n =
    if leb 100 n
    then (do word ← get_elem? ones (n / 100); some (only (word ++ text " Hundred")))
    else some []

unfoldable pub tens_part : ℕ → Option (List Text)
tens_part n =
    if leb 20 n
    then (do
      ten ← get_elem? tens (n / 10)
      one ← get_elem? ones (n % 10)
      some (only (ten ++ (if n % 10 == 0 then [] else text " " ++ one))))
    else if ltb 0 n
    then (do one ← get_elem? ones n; some (only one))
    else some []

unfoldable pub below_1000 : ℕ → Option Text
unfolding hundreds_part tens_part
below_1000 n = do
  hundreds ← hundreds_part n
  rest ← tens_part (if leb 100 n then n % 100 else n)
  some (join (hundreds ++ rest))

-- One turn of the loop over crore, lakh and thousand.
unfoldable pub unit_part : ℕ → Text → ℕ → Option (List Text)
unfolding below_1000
unit_part size name n =
    if leb size n
    then (do words ← below_1000 (n / size); some (only (words ++ text " " ++ name)))
    else some []

abbrev pub left_over : ℕ → ℕ → ℕ
left_over size n = if leb size n then n % size else n

unfoldable pub whole_number_in_words : ℕ → Option Text
unfolding unit_part
whole_number_in_words n = if n == 0 then some (text "Zero") else (do
  crore ← unit_part 10000000 (text "Crore") n
  let below_crore = left_over 10000000 n
  lakh ← unit_part 100000 (text "Lakh") below_crore
  let below_lakh = left_over 100000 below_crore
  thousand ← unit_part 1000 (text "Thousand") below_lakh
  let below_thousand = left_over 1000 below_lakh
  rest ←
      (if ltb 0 below_thousand
        then (do words ← below_1000 below_thousand; some (only words))
        else some [])
  some (join (crore ++ lakh ++ thousand ++ rest)))

unfoldable pub amount_in_words : ℕ → Option Text
unfolding whole_number_in_words
amount_in_words total_paise = do
  rupees ← whole_number_in_words (total_paise / 100)
  let rupee_part = text "Rupees " ++ rupees
  if ltb 0 (total_paise % 100)
      then (do
        paise ← whole_number_in_words (total_paise % 100)
        some (rupee_part ++ text " and " ++ paise ++ text " Paise Only"))
      else some (rupee_part ++ text " Only")

abbrev pub IsSome : {A : Type 0} → Option A → Type 0
IsSome o = is_none o ≡ false

found : (i : ℕ) (xs : List Text) → i < length xs → IsSome (get_elem? xs i)
found i [] h = elim h [ ]
found zero (x ∷ xs) h = refl
found (suc i) (x ∷ xs) h = found i xs (omega (arith, h))

module _ {A B : Type 0} where
  bind-IsSome :
      (o : Option A) (f : A → Option B) → IsSome o → ((a : A) → IsSome (f a)) → IsSome (o >>= f)
  bind-IsSome none f h k = cc
  bind-IsSome (some a) f h k = k a

module _ {A : Type 0} where
  if-IsSome :
      (b : Bool) (o p : Option A)
      → (b ≡ true → IsSome o)
      → (b ≡ false → IsSome p)
      → IsSome (if b then o else p)
  if-IsSome true o p h k = h refl
  if-IsSome false o p h k = k refl

hundreds_part-IsSome : (n : ℕ) → n < 1000 → IsSome (hundreds_part n)
unfolding hundreds_part
hundreds_part-IsSome n h =
    if-IsSome (leb 100 n) _ _
      (λ p. bind-IsSome _ _ (found (n / 100) ones (omega (arith, h))) (λ w. refl)) (λ p. refl)

tens_part-IsSome : (n : ℕ) → n < 100 → IsSome (tens_part n)
unfolding tens_part
tens_part-IsSome n h =
    if-IsSome (leb 20 n) _ _
      (λ p.
        bind-IsSome _ _ (found (n / 10) tens (omega (arith, h)))
          (λ t. bind-IsSome _ _ (found (n % 10) ones (omega arith)) (λ o. refl)))
      (λ p.
        if-IsSome (ltb 0 n) _ _
          (λ q. bind-IsSome _ _ (found n ones (ground (arith, p))) (λ o. refl)) (λ q. refl))

below_1000-IsSome : (n : ℕ) → n < 1000 → IsSome (below_1000 n)
unfolding below_1000
below_1000-IsSome n h =
    bind-IsSome _ _ (hundreds_part-IsSome n h)
      (λ hs. bind-IsSome _ _ (tens_part-IsSome (left_over 100 n) (ground (arith, h))) (λ r. refl))

unit_part-IsSome :
    (size : ℕ) (name : Text) (n : ℕ) → n / size < 1000 → IsSome (unit_part size name n)
unfolding unit_part
unit_part-IsSome size name n h =
    if-IsSome (leb size n) _ _ (λ p. bind-IsSome _ _ (below_1000-IsSome (n / size) h) (λ w. refl))
      (λ p. refl)

whole_number_in_words-IsSome : (n : ℕ) → n < 10000000000 → IsSome (whole_number_in_words n)
unfolding whole_number_in_words
whole_number_in_words-IsSome n h =
    let c = left_over 10000000 n in
    let l = left_over 100000 c in
    let t = left_over 1000 l in
    let hc : c < 10000000 = ground (arith) in
    let hl : l < 100000 = ground (arith) in
    let ht : t < 1000 = ground (arith) in
    if-IsSome (n == 0) _ _ (λ p. refl)
      (λ p. bind-IsSome _ _ (unit_part-IsSome 10000000 _ n (omega (arith, h))) (λ a.
        bind-IsSome _ _ (unit_part-IsSome 100000 _ c (omega (arith, hc))) (λ b.
          bind-IsSome _ _ (unit_part-IsSome 1000 _ l (omega (arith, hl))) (λ d.
            bind-IsSome _ _
              (if-IsSome (ltb 0 t) _ _ (λ q. bind-IsSome _ _ (below_1000-IsSome t ht) (λ w. refl))
                (λ q. refl))
              (λ e. refl)))))

-- Every amount that a Decimal(12,2) column holds, that is fewer than 10¹² paise, can be written out:
-- no step of the conversion looks past the end of the tables of words.
pub amount_in_words-IsSome : (paise : ℕ) → paise < 1000000000000 → IsSome (amount_in_words paise)
unfolding amount_in_words
amount_in_words-IsSome paise h =
    bind-IsSome _ _ (whole_number_in_words-IsSome (paise / 100) (omega (arith, h))) (λ r.
      if-IsSome (ltb 0 (paise % 100)) _ _
        (λ p.
          bind-IsSome _ _ (whole_number_in_words-IsSome (paise % 100) (omega arith)) (λ w. refl))
        (λ p. refl))

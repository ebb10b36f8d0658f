-- ===== src/Billing/Gstin.antt =====
-- The GST identification number and its check character: `isValidGstin` of
-- apps/backend/src/modules/services/services.billing.ts.
pub mod OneError
pub mod Letters
use finskool_monorepo.Base.{
  ℕ, suc, zero, ◌+◌, ◌-◌, ◌*◌, ◌/◌, ◌%◌, ◌≤◌, ◌<◌, ◌≡◌, refl, Bool, true, false, not, ◌&&◌, ◌||◌,
  ◌==◌, leb, ltb, text, text_eq, Text, List, [], ◌∷◌, ◌++◌, take, get_elem?, length, includes,
  any_where, if◌then◌else◌, Option, some, none, arith, Bool-cases, inl, inr,
}

-- The codes of `GST_STATES`: 01 to 38 without 25 and 28, and 97.
unfoldable pub is_gst_state_code : Text → Bool
unfolding any_where text_eq
is_gst_state_code code = any_where (text_eq code) (
    text "01"
    ∷ text "02"
    ∷ text "03"
    ∷ text "04"
    ∷ text "05"
    ∷ text "06"
    ∷ text "07"
    ∷ text "08"
    ∷ text "09"
    ∷ text "10"
    ∷ text "11"
    ∷ text "12"
    ∷ text "13"
    ∷ text "14"
    ∷ text "15"
    ∷ text "16"
    ∷ text "17"
    ∷ text "18"
    ∷ text "19"
    ∷ text "20"
    ∷ text "21"
    ∷ text "22"
    ∷ text "23"
    ∷ text "24"
    ∷ text "26"
    ∷ text "27"
    ∷ text "29"
    ∷ text "30"
    ∷ text "31"
    ∷ text "32"
    ∷ text "33"
    ∷ text "34"
    ∷ text "35"
    ∷ text "36"
    ∷ text "37"
    ∷ text "38"
    ∷ text "97"
    ∷ [])

abbrev pub gstin_chars : Text
gstin_chars = text "0123456789ABCDEFGHIJKLMNOPQRSTUVWXYZ"

-- `[0-9]`, `[A-Z]`, `[0-9A-Z]`, `[1-9A-Z]`
abbrev pub is_digit : ℕ → Bool
is_digit c = leb 48 c && leb c 57

abbrev pub is_letter : ℕ → Bool
is_letter c = leb 65 c && leb c 90

abbrev pub is_alnum : ℕ → Bool
is_alnum c = is_digit c || is_letter c

abbrev pub is_entity : ℕ → Bool
is_entity c = leb 49 c && leb c 57 || is_letter c

-- A pattern of single-character classes, matched from end to end.
unfoldable pub matches : List (ℕ → Bool) → Text → Bool
matches [] [] = true
matches [] (_ ∷ _) = false
matches (_ ∷ _) [] = false
matches (p ∷ ps) (c ∷ cs) = p c && matches ps cs

-- `/^[0-9]{2}[A-Z]{5}[0-9]{4}[A-Z][1-9A-Z]Z[0-9A-Z]$/`
abbrev pub gstin_shape : List (ℕ → Bool)
gstin_shape =
    is_digit
    ∷ is_digit
    ∷ is_letter
    ∷ is_letter
    ∷ is_letter
    ∷ is_letter
    ∷ is_letter
    ∷ is_digit
    ∷ is_digit
    ∷ is_digit
    ∷ is_digit
    ∷ is_letter
    ∷ is_entity
    ∷ (λ c. c == 90)
    ∷ is_alnum
    ∷ []

-- `indexOf`, for a character that is there.
abbrev pub index_of : ℕ → Text → ℕ
index_of c [] = 0
index_of c (x ∷ xs) = if x == c then 0 else suc (index_of c xs)

abbrev pub factor : Bool → ℕ
factor true = 1
factor false = 2

abbrev pub digit_sum : ℕ → ℕ
digit_sum product = product / 36 + product % 36

-- The loop over the first 14 characters; `even` is `i % 2 === 0`.
unfoldable pub weighted_sum : Bool → ℕ → Text → ℕ
weighted_sum even zero cs = 0
weighted_sum even (suc n) [] = 0
weighted_sum even (suc n) (c ∷ cs) =
    digit_sum (index_of c gstin_chars * factor even) + weighted_sum (not even) n cs

abbrev pub same_char : Option ℕ → Option ℕ → Bool
same_char (some a) (some b) = a == b
same_char none none = true
same_char _ _ = false

unfoldable pub is_valid_gstin : Text → Bool
unfolding matches is_gst_state_code weighted_sum
is_valid_gstin gstin =
    if not (matches gstin_shape gstin) || not (is_gst_state_code (take 2 gstin))
    then false
    else (let sum = weighted_sum true 14 gstin in
        same_char (get_elem? gstin_chars ((36 - sum % 36) % 36)) (get_elem? gstin 14))

-- ===== src/Notify/Preview.antt =====
-- The short text of a chat message in a banner: `messagePreview` of
-- apps/backend/src/lib/member-notify.ts.
use mathlib.Core.Bool.{false≢true}
use finskool_monorepo.Base.{
  ℕ, zero, suc, suc-ne_zero, &&-true, ==→eq, ◌≤◌, ◌≡◌, Bool, true, false, not, ◌&&◌, ◌||◌, Option,
  none, some, [], ◌∷◌, ◌++◌, length, take, ltb, leb, ◌==◌, if◌then◌else◌, Text, text, All, arith,
  length-append, All-append, All-take, length-take_full, Bool-cases, inl, inr, sym, ◌∙◌, refl,
}

-- What `\s` and `trim` take for white space.
abbrev pub is_space : ℕ → Bool
is_space c =
    leb 9 c && leb c 13
    || c == 32
    || c == 0xa0
    || c == 0x1680
    || leb 0x2000 c && leb c 0x200a
    || leb 0x2028 c && leb c 0x2029
    || c == 0x202f
    || c == 0x205f
    || c == 0x3000
    || c == 0xfeff

-- `.replace(/\s+/g, ' ')`: `after_space` says that the run has its space already.
collapse : Bool → Text → Text
collapse after_space [] = []
collapse after_space (c ∷ t) =
    let rest = collapse (is_space c) t in
    if is_space c then (if after_space then rest else 32 ∷ rest) else c ∷ rest

abbrev trim_start : Text → Text
trim_start [] = []
trim_start (c ∷ t) = if is_space c then trim_start t else c ∷ t

-- `text.trim()` of a text in which runs are collapsed.
trim_end : Text → Text
trim_end [] = []
trim_end (c ∷ t) = let rest = trim_end t in if length rest == 0 && is_space c then [] else c ∷ rest

abbrev body_text : Option Text → Text
body_text none = []
body_text (some b) = b

clean : Text → Text
unfolding collapse trim_end
clean b = trim_end (trim_start (collapse false b))

shorten : Text → ℕ → Text
shorten t attachments =
    if length t == 0
    then (if ltb 0 attachments then text "Sent you an attachment" else text "New message")
    else if ltb 100 (length t)
    then take 99 t ++ 8230 ∷ []
    else t

unfoldable pub message_preview : Option Text → ℕ → Text
unfolding clean shorten
message_preview body attachments = shorten (clean (body_text body)) attachments

-- The only white space is the plain space.
abbrev pub IsInline : ℕ → Type 0
IsInline c = is_space c ≡ true → c ≡ 32

collapse-IsInline : (b : Bool) (t : Text) → All IsInline (collapse b t)
unfolding collapse
collapse-IsInline b [] = tt
collapse-IsInline b (c ∷ t) = elim (Bool-cases (is_space c)) [
  | inl p ↦ elim (Bool-cases b) [
    | inl q ↦ rw (p, q) (collapse-IsInline true t)
    | inr q ↦ rw (p, q) ((λ _. refl), collapse-IsInline true t)
  ]
  | inr n ↦ rw n ((λ p. absurd (false≢true (sym n ∙ p))), collapse-IsInline false t)
]

All-trim_start : (P : ℕ → Type 0) (t : Text) → All P t → All P (trim_start t)
All-trim_start P [] h = tt
All-trim_start P (c ∷ t) h = elim (Bool-cases (is_space c)) [
  | inl p ↦ rw p (All-trim_start P t h.1)
  | inr n ↦ rw n h
]

All-trim_end : (P : ℕ → Type 0) (t : Text) → All P t → All P (trim_end t)
unfolding trim_end
All-trim_end P [] h = tt
All-trim_end P (c ∷ t) h = elim (Bool-cases (length (trim_end t) == 0 && is_space c)) [
  | inl p ↦ rw p tt
  | inr n ↦ rw n (h.0, All-trim_end P t h.1)
]

clean-IsInline : (b : Text) → All IsInline (clean b)
unfolding clean
clean-IsInline b =
    All-trim_end IsInline (trim_start (collapse false b))
      (All-trim_start IsInline (collapse false b) (collapse-IsInline false b))

abbrev all_inline : Text → Bool
all_inline [] = true
all_inline (c ∷ t) = (not (is_space c) || c == 32) && all_inline t

all_inline-IsInline : (t : Text) → all_inline t ≡ true → All IsInline t
all_inline-IsInline [] h = tt
all_inline-IsInline (c ∷ t) h =
    let (p, q) = &&-true (not (is_space c) || c == 32) (all_inline t) h in
    ((λ sp. ==→eq c 32 (ground arith)), all_inline-IsInline t q)

abbrev Fits : Text → Type 0
Fits t = (1 ≤ length t) × (length t ≤ 100) × All IsInline t

shorten-Fits : (t : Text) (attachments : ℕ) → All IsInline t → Fits (shorten t attachments)
unfolding shorten
shorten-Fits [] zero h = (omega arith, omega arith, all_inline-IsInline (text "New message") refl)
shorten-Fits [] (suc n) h =
    let e : ltb 0 (suc n) ≡ true = ground arith in
    rw e (omega arith, omega arith, all_inline-IsInline (text "Sent you an attachment") refl)
shorten-Fits (c ∷ t) attachments h = elim (Bool-cases (ltb 100 (length (c ∷ t)))) [
  | inl p ↦
      let n : length (take 99 (c ∷ t)) ≡ 99 = length-take_full 99 (c ∷ t) (ground arith) in
      let whole : length (take 99 (c ∷ t) ++ 8230 ∷ []) ≡ 100 =
        omega (arith, length-append (take 99 (c ∷ t)) (8230 ∷ [])) in
      let some_text : (length (c ∷ t) == 0) ≡ false = suc-ne_zero (length t) in
      rw (some_text, p)
        (
          omega arith,
          omega arith,
          All-append IsInline (take 99 (c ∷ t)) (8230 ∷ []) (All-take IsInline 99 (c ∷ t) h)
              ((λ sp. absurd (false≢true sp)), tt),
        )
  | inr n ↦ rw (suc-ne_zero (length t), n) (omega arith, ground arith, h)
]

-- A banner is one line that fits: whatever the message, its preview has between 1 and 100
-- characters, and its only white space is the plain space.
pub message_preview_fits :
    (body : Option Text) (attachments : ℕ)
    → (1 ≤ length (message_preview body attachments))
      × (length (message_preview body attachments) ≤ 100)
      × All IsInline (message_preview body attachments)
unfolding message_preview
message_preview_fits body attachments =
    shorten-Fits (clean (body_text body)) attachments (clean-IsInline (body_text body))

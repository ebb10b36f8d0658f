-- ===== src/Tickets/Listing/Walk.antt =====
-- Following the cursors of a list to its end (apps/backend/src/modules/tickets/tickets.service.ts).
use finskool_monorepo.Base.{
  ℕ, zero, suc, ◌≤◌, ◌<◌, ◌≡◌, refl, sym, ap, subst, ◌∙◌, Bool, true, false, ◌&&◌, ltb, Option,
  none, some, List, [], ◌∷◌, ◌++◌, All, find_many, take, drop, length, Text, UniqueKey, arith,
  Bool-cases, inl, inr, if◌then◌else◌, ok, err,
}
use finskool_monorepo.Tickets.{Ticket}
use finskool_monorepo.Tickets.Listing.{
  CursorCodec, encode_cursor, ListQuery, is_listed, is_older, is_after, newest_first, last_of,
  cursor_of, page_of, find_page, list_tickets,
}
use finskool_monorepo.Tickets.Listing.Cursor.{IsCodec, decode_cursor-encode_cursor}
use finskool_monorepo.Tickets.Listing.Sorted.{
  All-find_many, All-newest_first, key_of, IsDown, ticket_id, newest_first-IsDown,
  find_many-UniqueKey, newest_first-find_many,
}

abbrev join : List Ticket → Option (List Ticket) → Option (List Ticket)
join items none = none
join items (some rest) = some (items ++ rest)

-- A client that asks for page after page, `none` when it gives up before the end.
unfoldable pub walk :
    CursorCodec → ℕ → ListQuery → List Ticket → ℕ → Option Text → Option (List Ticket)
walk codec user_id query tickets zero cursor = none
walk codec user_id query tickets (suc fuel) cursor =
    elim (list_tickets codec user_id query cursor tickets) [
      | err e ↦ none
      | ok (items, next) ↦ elim next [
        | none ↦ some items
        | some c ↦ join items (walk codec user_id query tickets fuel (some c))
      ]
    ]

-- ─── Rows after a row ───────────────────────────────────────────────────────

older_asym : (a b : Ticket) → is_older (key_of a) b ≡ true → is_older (key_of b) a ≡ false
older_asym a b h = ground (arith, h)

older_irrefl : (a : Ticket) → is_older (key_of a) a ≡ false
older_irrefl a = ground arith

find_many_id :
    (w : Ticket → Bool) (ts : List Ticket) → All (λ t. w t ≡ true) ts → find_many w ts ≡ ts
unfolding find_many
find_many_id w [] h = refl
find_many_id w (t ∷ ts) h = rw (h.0, find_many_id w ts h.1) refl

mid : (P : Ticket → Type 0) (r : Ticket) (ps qs : List Ticket) → All P (ps ++ r ∷ qs) → P r
mid P r [] qs h = h.0
mid P r (p ∷ ps) qs h = mid P r ps qs h.1

rest_after :
    (ps : List Ticket) (r : Ticket) (qs : List Ticket)
    → IsDown (ps ++ r ∷ qs)
    → find_many (is_older (key_of r)) (ps ++ r ∷ qs) ≡ qs
unfolding find_many
rest_after [] r qs h = rw (older_irrefl r) (find_many_id (is_older (key_of r)) qs h.0)
rest_after (p ∷ ps) r qs h =
    let older : is_older (key_of p) r ≡ true =
      mid (λ u. is_older (key_of p) u ≡ true) r ps qs h.0 in
    rw (older_asym p r older) (rest_after ps r qs h.1)

find_many-and :
    (v w : Ticket → Bool) (ts : List Ticket)
    → find_many (λ t. v t && w t) ts ≡ find_many w (find_many v ts)
unfolding find_many
find_many-and v w [] = refl
find_many-and v w (t ∷ ts) = elim (Bool-cases (v t)) [
  | inl p ↦ rw p (elim (Bool-cases (w t)) [
    | inl q ↦ rw (q, find_many-and v w ts) refl
    | inr q ↦ rw (q, find_many-and v w ts) refl
  ])
  | inr n ↦ rw n (find_many-and v w ts)
]

-- ─── Pieces of a list ───────────────────────────────────────────────────────

take-take : (n : ℕ) (ts : List Ticket) → take n (take (suc n) ts) ≡ take n ts
take-take zero ts = refl
take-take (suc n) [] = refl
take-take (suc n) (t ∷ ts) = ap (λ x. t ∷ x) (take-take n ts)

more : (n : ℕ) (ts : List Ticket) → ltb n (length (take (suc n) ts)) ≡ ltb n (length ts)
more zero [] = refl
more zero (t ∷ ts) = ground arith
more (suc n) [] = refl
more (suc n) (t ∷ ts) = ground (arith, more n ts)

take-drop : (n : ℕ) (ts : List Ticket) → take n ts ++ drop n ts ≡ ts
take-drop zero ts = refl
take-drop (suc n) [] = refl
take-drop (suc n) (t ∷ ts) = ap (λ x. t ∷ x) (take-drop n ts)

take_all : (n : ℕ) (ts : List Ticket) → length ts ≤ n → take n ts ≡ ts
take_all zero [] h = refl
take_all zero (t ∷ ts) h = let no : ⊥ = omega (arith, h) in elim no [ ]
take_all (suc n) [] h = refl
take_all (suc n) (t ∷ ts) h = ap (λ x. t ∷ x) (take_all n ts (omega (arith, h)))

drop-length : (n : ℕ) (ts : List Ticket) → 1 ≤ n → n < length ts → length (drop n ts) < length ts
drop-length zero ts h k = omega (arith, h)
drop-length (suc n) [] h k = omega (arith, k)
drop-length (suc zero) (t ∷ ts) h k = omega arith
drop-length (suc (suc n)) (t ∷ ts) h k =
    omega (arith, drop-length (suc n) ts (omega arith) (omega (arith, k)))

last_split :
    (t : Ticket) (ts : List Ticket)
    → (ps : List Ticket) × (r : Ticket) × (t ∷ ts ≡ ps ++ r ∷ []) × (last_of (t ∷ ts) ≡ some r)
last_split t [] = ([], t, refl, refl)
last_split t (u ∷ us) = let (ps, r, e, l) = last_split u us in (t ∷ ps, r, ap (λ x. t ∷ x) e, l)

taken_split :
    (n : ℕ) (ts : List Ticket)
    → 1 ≤ n
    → n < length ts
    → (ps : List Ticket) × (r : Ticket) × (take n ts ≡ ps ++ r ∷ [])
      × (last_of (take n ts) ≡ some r)
taken_split zero ts h k = let no : ⊥ = omega (arith, h) in elim no [ ]
taken_split (suc n) [] h k = let no : ⊥ = omega (arith, k) in elim no [ ]
taken_split (suc n) (t ∷ ts) h k = last_split t (take n ts)

-- ─── Every page ─────────────────────────────────────────────────────────────

append_assoc : (xs ys zs : List Ticket) → (xs ++ ys) ++ zs ≡ xs ++ (ys ++ zs)
append_assoc [] ys zs = refl
append_assoc (x ∷ xs) ys zs = ap (λ t. x ∷ t) (append_assoc xs ys zs)

-- The tickets that the list is of, in its order.
abbrev pub listed : ℕ → ListQuery → List Ticket → List Ticket
listed user_id query tickets = newest_first (find_many (is_listed user_id query) tickets)

module _ (codec : CursorCodec) (bound : ℕ) (law : IsCodec codec bound) (user_id : ℕ)
    (query : ListQuery) (tickets : List Ticket) (unique : UniqueKey ticket_id tickets)
    (small : All (λ t. t.id < bound) tickets) where
  rows_after :
      (cursor : Option (ℕ × ℕ))
      → newest_first (find_many (λ t. is_listed user_id query t && is_after cursor t) tickets)
        ≡ find_many (is_after cursor) (listed user_id query tickets)
  rows_after cursor =
      ap newest_first (find_many-and (is_listed user_id query) (is_after cursor) tickets)
      ∙ newest_first-find_many (is_after cursor) (find_many (is_listed user_id query) tickets)
          (find_many-UniqueKey (is_listed user_id query) tickets unique)

  -- The call with this cursor lists the rows from `rows` on.
  abbrev Stands : Option Text → List Ticket → Type 0
  Stands cursor rows =
      list_tickets codec user_id query cursor tickets
      ≡ ok (
        take query.limit rows,
        if ltb query.limit (length rows)
            then cursor_of codec (last_of (take query.limit rows))
            else none,
      )

  page :
      (rows : List Ticket)
      → page_of codec query (take (suc query.limit) rows) ≡ (
        take query.limit rows,
        if ltb query.limit (length rows)
            then cursor_of codec (last_of (take query.limit rows))
            else none,
      )
  page rows = rw (take-take query.limit rows, more query.limit rows) refl

  first_page : Stands none (listed user_id query tickets)
  unfolding list_tickets find_page
  first_page =
      let all =
        find_many_id (is_after none) (listed user_id query tickets)
          (true_of (listed user_id query tickets)) in
      ap (λ rs. ok (page_of codec query (take (suc query.limit) rs))) (rows_after none ∙ all)
      ∙ ap ok (page (listed user_id query tickets))
    where
      true_of : (ts : List Ticket) → All (λ t. is_after none t ≡ true) ts
      true_of [] = tt
      true_of (t ∷ ts) = (refl, true_of ts)

  next_page :
      (ps : List Ticket) (r : Ticket) (rows : List Ticket)
      → listed user_id query tickets ≡ ps ++ r ∷ rows
      → Stands (some (encode_cursor codec r.last_message_at r.id)) rows
  unfolding list_tickets find_page
  next_page ps r rows e =
      let sorted =
        newest_first-IsDown (find_many (is_listed user_id query) tickets)
          (find_many-UniqueKey (is_listed user_id query) tickets unique) in
      let after : find_many (is_older (key_of r)) (listed user_id query tickets) ≡ rows =
        ap (find_many (is_older (key_of r))) e ∙ rest_after ps r rows (subst IsDown e sorted) in
      let small_id : r.id < bound =
        mid (λ t. t.id < bound) r ps rows
          (subst (All (λ t. t.id < bound)) e (
            All-newest_first _ (find_many (is_listed user_id query) tickets)
              (All-find_many _ (is_listed user_id query) tickets small))) in
      rw (decode_cursor-encode_cursor codec bound r.last_message_at r.id law small_id, list_tickets)
        (ap (λ rs. ok (page_of codec query (take (suc query.limit) rs)))
            (rows_after (some (key_of r)) ∙ after)
          ∙ ap ok (page rows))

  module _ (some_rows : 1 ≤ query.limit) where
    walk_on :
        (fuel : ℕ) (ps rows : List Ticket) (cursor : Option Text)
        → listed user_id query tickets ≡ ps ++ rows
        → Stands cursor rows
        → length rows < fuel
        → walk codec user_id query tickets fuel cursor ≡ some rows
    unfolding walk
    walk_on zero ps rows cursor e st l = let no : ⊥ = omega (arith, l) in elim no [ ]
    walk_on (suc fuel) ps rows cursor e st l = elim (Bool-cases (ltb query.limit (length rows))) [
      | inr n ↦
          let all = take_all query.limit rows (ground (arith, n)) in
          rw (st, walk) (rw n (ap some all))
      | inl m ↦
          let more_rows : query.limit < length rows = ground (arith, m) in
          let (qs, r, taken, last) = taken_split query.limit rows some_rows more_rows in
          let whole = take-drop query.limit rows in
          let rest = drop query.limit rows in
          let split : listed user_id query tickets ≡ (ps ++ qs) ++ r ∷ rest =
            e
            ∙ ap (λ x. ps ++ x)
                (sym whole ∙ ap (λ x. x ++ rest) taken ∙ append_assoc qs (r ∷ []) rest)
            ∙ sym (append_assoc ps qs (r ∷ rest)) in
          let next = next_page (ps ++ qs) r rest split in
          let ih =
            walk_on fuel (ps ++ take query.limit rows) rest
              (some (encode_cursor codec r.last_message_at r.id))
              (e
                ∙ ap (λ x. ps ++ x) (sym whole)
                ∙ sym (append_assoc ps (take query.limit rows) rest))
              next (omega (arith, drop-length query.limit rows some_rows more_rows, l)) in
          rw (st, walk) (rw (m, last) (rw ih (ap some whole)))
    ]

-- A client that follows the cursors of its list reaches the end, after one call more than there are tickets
-- at most, and has then seen every ticket that the list is of, once, from the newest to the oldest. It holds
-- for every page size from one on and ids that have a UUID, as long as the tickets do not change.
pub walk-listed :
    (codec : CursorCodec) (bound user_id : ℕ) (query : ListQuery) (tickets : List Ticket) (fuel : ℕ)
    → IsCodec codec bound
    → UniqueKey ticket_id tickets
    → All (λ t. t.id < bound) tickets
    → 1 ≤ query.limit
    → length (listed user_id query tickets) < fuel
    → walk codec user_id query tickets fuel none ≡ some (listed user_id query tickets)
walk-listed codec bound user_id query tickets fuel law unique small some_rows l =
    walk_on codec bound law user_id query tickets unique small some_rows fuel []
      (listed user_id query tickets) none refl
      (first_page codec bound law user_id query tickets unique small) l

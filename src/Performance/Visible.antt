-- ===== src/Performance/Visible.antt =====
-- What a free member sees, said of one trade (performance.visibility.ts).
use finskool_monorepo.Base.{
  ◌-◌, ◌/◌, not, leb, if◌then◌else◌, ℕ, suc, zero, ◌≡◌, refl, sym, ap, subst, ◌∙◌, Bool, true,
  false, ◌&&◌, ◌||◌, ◌==◌, ltb, List, [], ◌∷◌, map, take, arith, includes, includes-append,
  any_where, any_where-key, count_where, find_first, find_many, UniqueKey, Bool-cases, inl, inr,
  Memᴰ, some, ==_refl,
}
use finskool_monorepo.Performance.{
  VisibilityInput, VisibilityRules, newer, sort_newest, is_show, is_auto, is_eligible_trade,
  collect, free_visible_ids,
}
use finskool_monorepo.Performance.Newest.{sort_newest-IsSorted}
use finskool_monorepo.Performance.Ranks.{
  id_of, any_where-sort_newest, sort_newest-UniqueKey, Mem-sort_newest, other_id, rank,
}
use finskool_monorepo.Performance.Newest.{count_where-sort_newest}

-- ─── Queries on a list of trades ────────────────────────────────────────────

module _ (v : VisibilityInput → Bool) where
  count_where-find_many :
      (w : VisibilityInput → Bool) (ts : List VisibilityInput)
      → count_where w (find_many v ts) ≡ count_where (λ t. v t && w t) ts
  unfolding count_where find_many
  count_where-find_many w [] = refl
  count_where-find_many w (t ∷ ts) = ground (arith, count_where-find_many w ts)

  any_where-find_many :
      (w : VisibilityInput → Bool) (ts : List VisibilityInput)
      → any_where w ts ≡ false
      → any_where w (find_many v ts) ≡ false
  unfolding any_where find_many
  any_where-find_many w [] h = refl
  any_where-find_many w (t ∷ ts) h = ground (arith, any_where-find_many w ts)

  find_many-UniqueKey :
      (ts : List VisibilityInput) → UniqueKey id_of ts → UniqueKey id_of (find_many v ts)
  unfolding find_many
  find_many-UniqueKey [] u = tt
  find_many-UniqueKey (t ∷ ts) u = elim (Bool-cases (v t)) [
    | inl p ↦ rw p (any_where-find_many _ ts u.0, find_many-UniqueKey ts u.1)
    | inr n ↦ rw n (find_many-UniqueKey ts u.1)
  ]

  Mem-find_many :
      (x : VisibilityInput) (ts : List VisibilityInput)
      → v x ≡ true
      → Memᴰ x ts
      → Memᴰ x (find_many v ts)
  unfolding find_many
  Mem-find_many x [] h m = m
  Mem-find_many x (t ∷ ts) h (Memᴰ.head e) =
      let p : v t ≡ true = subst (λ y. v y ≡ true) e h in rw p (Memᴰ.head e)
  Mem-find_many x (t ∷ ts) h (Memᴰ.tail m) = elim (Bool-cases (v t)) [
    | inl p ↦ rw p (Memᴰ.tail (Mem-find_many x ts h m))
    | inr n ↦ rw n (Mem-find_many x ts h m)
  ]

find_first-mem :
    (x : VisibilityInput) (ts : List VisibilityInput)
    → UniqueKey id_of ts
    → Memᴰ x ts
    → find_first (λ u. u.id == x.id) ts ≡ some x
unfolding find_first
find_first-mem x [] u m = elim m [ ]
find_first-mem x (t ∷ ts) u (Memᴰ.head e) =
    subst (λ y. find_first (λ u. u.id == y.id) (t ∷ ts) ≡ some y) (sym e) (rw (==_refl t.id) refl)
find_first-mem x (t ∷ ts) u (Memᴰ.tail m) = rw (other_id x t ts u.0 m) (find_first-mem x ts u.1 m)

-- A condition on the rows of one id is the condition on the row that has it.
by_id :
    (w : VisibilityInput → Bool) (x : VisibilityInput) (ts : List VisibilityInput)
    → UniqueKey id_of ts
    → Memᴰ x ts
    → any_where (λ u. w u && u.id == x.id) ts ≡ w x
by_id w x ts u m = any_where-key id_of w x.id ts u ∙ rw (find_first-mem x ts u m) refl

includes-take :
    (a n : ℕ) (ts : List VisibilityInput)
    → any_where (λ u. u.id == a) ts ≡ false
    → includes a (map id_of (take n ts)) ≡ false
unfolding any_where
includes-take a zero ts h = refl
includes-take a (suc n) [] h = refl
includes-take a (suc n) (t ∷ ts) h = ground (arith, includes-take a n ts)

-- ─── The two halves of the answer ───────────────────────────────────────────

any_where-filter :
    (v w : VisibilityInput → Bool) (ts : List VisibilityInput)
    → any_where w (find_many v ts) ≡ any_where (λ t. v t && w t) ts
unfolding any_where find_many
any_where-filter v w [] = refl
any_where-filter v w (t ∷ ts) = ground (arith, any_where-filter v w ts)

module _ (rules : VisibilityRules) (today : ℕ) where
  collect-shown :
      (a : ℕ) (ts : List VisibilityInput)
      → includes a (collect rules today ts).0
        ≡ any_where (λ u. is_show u.visibility && u.id == a) ts
  unfolding collect any_where
  collect-shown a [] = refl
  collect-shown a (t ∷ ts) = ground (arith, collect-shown a ts)

  collect-eligible :
      (ts : List VisibilityInput)
      → (collect rules today ts).1 ≡ find_many (is_eligible_trade rules today) ts
  unfolding collect find_many is_eligible_trade
  collect-eligible [] = refl
  collect-eligible (t ∷ ts) = ground (arith, collect-eligible ts)

  newest_free :
      (x : VisibilityInput) (n : ℕ) (ts : List VisibilityInput)
      → UniqueKey id_of ts
      → Memᴰ x ts
      → includes x.id
          (map id_of (take n (sort_newest (find_many (is_eligible_trade rules today) ts))))
        ≡ (is_eligible_trade rules today x
            && ltb (count_where (λ u. is_eligible_trade rules today u && newer u x) ts) n)
  newest_free x n ts u m =
      let e : VisibilityInput → Bool = is_eligible_trade rules today in
      let es = find_many e ts in
      elim (Bool-cases (e x)) [
        | inl p ↦ rw p (
            rank n (sort_newest es) x (sort_newest-IsSorted es)
              (sort_newest-UniqueKey es (find_many-UniqueKey e ts u))
              (Mem-sort_newest x es (Mem-find_many e x ts p m))
            ∙ ap (λ k. ltb k n)
                (count_where-sort_newest (λ u. newer u x) es
                  ∙ count_where-find_many e (λ u. newer u x) ts))
        | inr q ↦ rw q (
            includes-take x.id n (sort_newest es) (
              any_where-sort_newest (λ u. u.id == x.id) es
              ∙ any_where-filter e (λ u. u.id == x.id) ts
              ∙ by_id e x ts u m
              ∙ q))
      ]

-- ─── The rules, said apart from the code ────────────────────────────────────

-- The whole days that went by since the trade.
abbrev pub days_since : ℕ → VisibilityInput → ℕ
days_since today t = (today - t.trade_date) / 86400000

abbrev pub is_candidate : VisibilityRules → ℕ → VisibilityInput → Bool
is_candidate rules today t =
    is_auto t.visibility
    && leb t.trade_date today
    && not (ltb (days_since today t) rules.hide_newer_than_days)

-- By the day of the trade, then by when it was entered, then by id, the larger being the newer.
abbrev pub comes_first : VisibilityInput → VisibilityInput → Bool
comes_first a b =
    if not (a.trade_date == b.trade_date)
    then ltb b.trade_date a.trade_date
    else if not (a.created_at == b.created_at)
    then ltb b.created_at a.created_at
    else ltb b.id a.id

candidate :
    (rules : VisibilityRules) (today : ℕ) (t : VisibilityInput)
    → is_eligible_trade rules today t ≡ is_candidate rules today t
unfolding is_eligible_trade
candidate rules today t = elim (Bool-cases (leb t.trade_date today)) [
  | inl p ↦ ground (arith, p)
  | inr n ↦ ground (arith, n)
]

first : (a b : VisibilityInput) → newer a b ≡ comes_first a b
unfolding newer
first a b = ground arith

candidates_before :
    (rules : VisibilityRules) (today : ℕ) (t : VisibilityInput) (ts : List VisibilityInput)
    → count_where (λ u. is_eligible_trade rules today u && newer u t) ts
      ≡ count_where (λ u. is_candidate rules today u && comes_first u t) ts
unfolding count_where
candidates_before rules today t [] = refl
candidates_before rules today t (u ∷ ts) =
    rw (candidate rules today u, first u t, candidates_before rules today t ts) refl

-- Free members see exactly what the rules say, trade by trade, when the trades have different ids. A
-- trade marked `show` is visible; one marked `hide` is not; an `auto` trade is visible exactly when it
-- is at least the given number of whole days old and fewer than the allowed number of such trades come
-- before it in the order by day, time of entry and id, the later first. Trades marked `show` use up none
-- of that number.
pub includes-free_visible_ids :
    (trades : List VisibilityInput) (rules : VisibilityRules) (today : ℕ) (t : VisibilityInput)
    → UniqueKey id_of trades
    → Memᴰ t trades
    → includes t.id (free_visible_ids trades rules today) ≡ (
        is_show t.visibility
        || is_candidate rules today t
          && ltb
              (count_where (λ u. is_candidate rules today u && comes_first u t) trades)
              rules.max_free_trades)
unfolding free_visible_ids
includes-free_visible_ids trades rules today t u m =
    includes-append t.id (collect rules today trades).0 _
    ∙ rw
        (
          collect-shown rules today t.id trades,
          by_id (λ u. is_show u.visibility) t trades u m,
          collect-eligible rules today trades,
          newest_free rules today t rules.max_free_trades trades u m,
          candidates_before rules today t trades,
          candidate rules today t,
        )
        refl

-- ===== src/Performance/Ranks.antt =====
-- The place of a trade in the sorted list (performance.visibility.ts).
use finskool_monorepo.Base.{
  ℕ, suc, zero, ◌≡◌, refl, sym, ap, subst, ◌∙◌, Bool, false, ◌==◌, ltb, List, [], ◌∷◌, map, take,
  arith, All, includes, any_where, any_where-count_where, any_where-of_mem, count_where, UniqueKey,
  Bool-cases, inl, inr, Memᴰ, ==_refl,
}
use finskool_monorepo.Performance.{VisibilityInput, newer, insert_sorted, sort_newest}
use finskool_monorepo.Performance.Newest.{
  newer_irrefl, newer_total, IsSorted, count_where-insert_sorted, count_where-sort_newest,
}

abbrev pub id_of : VisibilityInput → ℕ
id_of t = t.id

-- ─── Rows with different ids ────────────────────────────────────────────────

any_where-insert_sorted :
    (w : VisibilityInput → Bool) (t : VisibilityInput) (us : List VisibilityInput)
    → any_where w (insert_sorted t us) ≡ any_where w (t ∷ us)
any_where-insert_sorted w t us =
    sym (any_where-count_where w (insert_sorted t us))
    ∙ ap (ltb 0) (count_where-insert_sorted w t us)
    ∙ any_where-count_where w (t ∷ us)

pub any_where-sort_newest :
    (w : VisibilityInput → Bool) (ts : List VisibilityInput)
    → any_where w (sort_newest ts) ≡ any_where w ts
any_where-sort_newest w ts =
    sym (any_where-count_where w (sort_newest ts))
    ∙ ap (ltb 0) (count_where-sort_newest w ts)
    ∙ any_where-count_where w ts

insert_sorted-UniqueKey :
    (t : VisibilityInput) (us : List VisibilityInput)
    → any_where (λ u. u.id == t.id) us ≡ false
    → UniqueKey id_of us
    → UniqueKey id_of (insert_sorted t us)
unfolding insert_sorted any_where
insert_sorted-UniqueKey t [] h u = (refl, tt)
insert_sorted-UniqueKey t (v ∷ us) h u = elim (Bool-cases (newer t v)) [
  | inl e ↦ rw e (h, u)
  | inr n ↦ rw n (
    any_where-insert_sorted _ t us ∙ ground (arith, h, u.0),
    insert_sorted-UniqueKey t us (ground (arith, h)) u.1,
  )
]

pub sort_newest-UniqueKey :
    (ts : List VisibilityInput) → UniqueKey id_of ts → UniqueKey id_of (sort_newest ts)
unfolding sort_newest
sort_newest-UniqueKey [] u = tt
sort_newest-UniqueKey (t ∷ ts) u =
    insert_sorted-UniqueKey t (sort_newest ts) (any_where-sort_newest _ ts ∙ u.0)
      (sort_newest-UniqueKey ts u.1)

Mem-insert_sorted :
    (t x : VisibilityInput) (us : List VisibilityInput)
    → Memᴰ x (t ∷ us)
    → Memᴰ x (insert_sorted t us)
unfolding insert_sorted
Mem-insert_sorted t x [] m = m
Mem-insert_sorted t x (u ∷ us) (Memᴰ.head e) = elim (Bool-cases (newer t u)) [
  | inl p ↦ rw p (Memᴰ.head e)
  | inr n ↦ rw n (Memᴰ.tail (Mem-insert_sorted t x us (Memᴰ.head e)))
]
Mem-insert_sorted t x (u ∷ us) (Memᴰ.tail (Memᴰ.head e)) = elim (Bool-cases (newer t u)) [
  | inl p ↦ rw p (Memᴰ.tail (Memᴰ.head e))
  | inr n ↦ rw n (Memᴰ.head e)
]
Mem-insert_sorted t x (u ∷ us) (Memᴰ.tail (Memᴰ.tail k)) = elim (Bool-cases (newer t u)) [
  | inl p ↦ rw p (Memᴰ.tail (Memᴰ.tail k))
  | inr n ↦ rw n (Memᴰ.tail (Mem-insert_sorted t x us (Memᴰ.tail k)))
]

pub Mem-sort_newest :
    (x : VisibilityInput) (ts : List VisibilityInput) → Memᴰ x ts → Memᴰ x (sort_newest ts)
unfolding sort_newest
Mem-sort_newest x [] m = m
Mem-sort_newest x (t ∷ ts) (Memᴰ.head e) = Mem-insert_sorted t x _ (Memᴰ.head e)
Mem-sort_newest x (t ∷ ts) (Memᴰ.tail m) =
    Mem-insert_sorted t x _ (Memᴰ.tail (Mem-sort_newest x ts m))

-- ─── The first rows of a sorted list ────────────────────────────────────────

none_newer :
    (x : VisibilityInput) (ts : List VisibilityInput)
    → All (λ u. newer u x ≡ false) ts
    → count_where (λ u. newer u x) ts ≡ 0
unfolding count_where
none_newer x [] h = refl
none_newer x (t ∷ ts) h = rw h.0 (none_newer x ts h.1)

All-mem :
    (P : VisibilityInput → Type 0) (x : VisibilityInput) (ts : List VisibilityInput)
    → All P ts
    → Memᴰ x ts
    → P x
All-mem P x [] h m = elim m [ ]
All-mem P x (t ∷ ts) h (Memᴰ.head e) = subst P (sym e) h.0
All-mem P x (t ∷ ts) h (Memᴰ.tail m) = All-mem P x ts h.1 m

pub other_id :
    (x t : VisibilityInput) (ts : List VisibilityInput)
    → any_where (λ u. u.id == t.id) ts ≡ false
    → Memᴰ x ts
    → (t.id == x.id) ≡ false
other_id x t ts h m = elim (Bool-cases (t.id == x.id)) [
  | inr n ↦ n
  | inl p ↦ let found = any_where-of_mem (λ u. u.id == t.id) ts m (ground (arith, p)) in cc
]

-- A trade is among the first `n` exactly when fewer than `n` are newer.
pub rank :
    (n : ℕ) (ts : List VisibilityInput) (x : VisibilityInput)
    → IsSorted ts
    → UniqueKey id_of ts
    → Memᴰ x ts
    → includes x.id (map id_of (take n ts)) ≡ ltb (count_where (λ u. newer u x) ts) n
unfolding count_where
rank zero ts x s u m = ground arith
rank (suc n) [] x s u m = elim m [ ]
rank (suc n) (t ∷ ts) x s u (Memᴰ.head e) =
    subst
      (λ y.
        includes y.id (map id_of (take (suc n) (t ∷ ts)))
        ≡ ltb (count_where (λ u. newer u y) (t ∷ ts)) (suc n))
      (sym e) (rw (==_refl t.id, newer_irrefl t, none_newer t ts s.0) (ground arith))
rank (suc n) (t ∷ ts) x s u (Memᴰ.tail m) =
    let apart = other_id x t ts u.0 m in
    let later = newer_total x t (ground (arith, apart)) (All-mem _ x ts s.0 m) in
    rw (apart, later) (rank n ts x s.1 u.1 m ∙ ground arith)

-- ===== src/Performance/Newest.antt =====
-- Sorting trades newest first (performance.visibility.ts).
use finskool_monorepo.Base.{
  ◌≡◌, refl, ◌∙◌, Bool, true, false, ◌==◌, List, [], ◌∷◌, arith, All, All-imp, count_where,
  Bool-cases, inl, inr,
}
use finskool_monorepo.Performance.{VisibilityInput, newer, insert_sorted, sort_newest}

pub newer_irrefl : (a : VisibilityInput) → newer a a ≡ false
unfolding newer
newer_irrefl a = ground arith

-- Of two trades one is newer, unless they are the same.
pub newer_total :
    (a b : VisibilityInput) → (a.id == b.id) ≡ false → newer a b ≡ false → newer b a ≡ true
unfolding newer
newer_total a b h k = ground (arith, h, k)

newer_trans : (a b c : VisibilityInput) → newer b a ≡ false → newer c b ≡ false → newer c a ≡ false
unfolding newer
newer_trans a b c h k = ground (arith, h, k)

newer_asym : (a b : VisibilityInput) → newer a b ≡ true → newer b a ≡ false
unfolding newer
newer_asym a b h = ground (arith, h)

abbrev pub IsSorted : List VisibilityInput → Type 0
IsSorted [] = Unit
IsSorted (t ∷ ts) = All (λ u. newer u t ≡ false) ts × IsSorted ts

module _ (w : VisibilityInput → Bool) where
  pub count_where-insert_sorted :
      (t : VisibilityInput) (us : List VisibilityInput)
      → count_where w (insert_sorted t us) ≡ count_where w (t ∷ us)
  unfolding insert_sorted count_where
  count_where-insert_sorted t [] = refl
  count_where-insert_sorted t (u ∷ us) = ground (arith, count_where-insert_sorted t us)

  pub count_where-sort_newest :
      (ts : List VisibilityInput) → count_where w (sort_newest ts) ≡ count_where w ts
  unfolding sort_newest count_where
  count_where-sort_newest [] = refl
  count_where-sort_newest (t ∷ ts) =
      count_where-insert_sorted t (sort_newest ts) ∙ rw (count_where-sort_newest ts) refl

module _ {κ} (P : VisibilityInput → Type κ) where
  All-insert_sorted :
      (t : VisibilityInput) (us : List VisibilityInput)
      → P t
      → All P us
      → All P (insert_sorted t us)
  unfolding insert_sorted
  All-insert_sorted t [] p h = (p, tt)
  All-insert_sorted t (u ∷ us) p h = elim (Bool-cases (newer t u)) [
    | inl e ↦ rw e (p, h)
    | inr n ↦ rw n (h.0, All-insert_sorted t us p h.1)
  ]

insert_sorted-IsSorted :
    (t : VisibilityInput) (us : List VisibilityInput) → IsSorted us → IsSorted (insert_sorted t us)
unfolding insert_sorted
insert_sorted-IsSorted t [] h = (tt, tt)
insert_sorted-IsSorted t (u ∷ us) h = elim (Bool-cases (newer t u)) [
  | inl e ↦
      rw e
        ((newer_asym t u e, All-imp _ _ (λ v k. newer_trans t u v (newer_asym t u e) k) us h.0), h)
  | inr n ↦ rw n (All-insert_sorted _ t us n h.0, insert_sorted-IsSorted t us h.1)
]

pub sort_newest-IsSorted : (ts : List VisibilityInput) → IsSorted (sort_newest ts)
unfolding sort_newest
sort_newest-IsSorted [] = tt
sort_newest-IsSorted (t ∷ ts) = insert_sorted-IsSorted t (sort_newest ts) (sort_newest-IsSorted ts)

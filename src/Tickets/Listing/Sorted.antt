-- ===== src/Tickets/Listing/Sorted.antt =====
-- The tickets of a list in its order (apps/backend/src/modules/tickets/tickets.service.ts).
use finskool_monorepo.Base.{
  ℕ, ◌≡◌, refl, sym, ◌∙◌, Bool, true, false, ◌==◌, List, [], ◌∷◌, All, All-imp, find_many,
  any_where, UniqueKey, arith, Bool-cases, inl, inr, if◌then◌else◌,
}
use finskool_monorepo.Tickets.{Ticket}
use finskool_monorepo.Tickets.Listing.{is_older, insert_newest, newest_first}

abbrev pub key_of : Ticket → ℕ × ℕ
key_of t = (t.last_message_at, t.id)

-- Each ticket is newer than those after it.
abbrev pub IsDown : List Ticket → Type 0
IsDown [] = Unit
IsDown (t ∷ ts) = All (λ u. is_older (key_of t) u ≡ true) ts × IsDown ts

older_trans :
    (a b c : Ticket)
    → is_older (key_of a) b ≡ true
    → is_older (key_of b) c ≡ true
    → is_older (key_of a) c ≡ true
older_trans a b c h k = ground (arith, h, k)

older_total :
    (a b : Ticket)
    → (b.id == a.id) ≡ false
    → is_older (key_of a) b ≡ false
    → is_older (key_of b) a ≡ true
older_total a b n h = ground (arith, n, h)

older_asym : (a b : Ticket) → is_older (key_of a) b ≡ true → is_older (key_of b) a ≡ false
older_asym a b h = ground (arith, h)

older_irrefl : (a : Ticket) → is_older (key_of a) a ≡ false
older_irrefl a = ground arith

All-insert_newest :
    (P : Ticket → Type 0) (t : Ticket) (us : List Ticket)
    → P t
    → All P us
    → All P (insert_newest t us)
unfolding insert_newest
All-insert_newest _ t [] p h = (p, tt)
All-insert_newest _ t (u ∷ us) p h = elim (Bool-cases (is_older (key_of t) u)) [
  | inl e ↦ rw e (p, h)
  | inr n ↦ rw n (h.0, All-insert_newest _ t us p h.1)
]

insert_newest-IsDown :
    (t : Ticket) (us : List Ticket)
    → any_where (λ u. u.id == t.id) us ≡ false
    → IsDown us
    → IsDown (insert_newest t us)
unfolding insert_newest any_where
insert_newest-IsDown t [] n h = (tt, tt)
insert_newest-IsDown t (u ∷ us) n h = elim (Bool-cases (is_older (key_of t) u)) [
  | inl e ↦ rw e ((e, All-imp _ _ (λ v. older_trans t u v e) us h.0), h)
  | inr m ↦
      let above = older_total t u (ground (arith, n)) m in
      rw m (All-insert_newest _ t us above h.0, insert_newest-IsDown t us (ground (arith, n)) h.1)
]

any_where-insert_newest :
    (w : Ticket → Bool) (t : Ticket) (us : List Ticket)
    → any_where w (insert_newest t us) ≡ any_where w (t ∷ us)
unfolding insert_newest any_where
any_where-insert_newest w t [] = refl
any_where-insert_newest w t (u ∷ us) = ground (arith, any_where-insert_newest w t us)

any_where-newest_first :
    (w : Ticket → Bool) (ts : List Ticket) → any_where w (newest_first ts) ≡ any_where w ts
unfolding newest_first any_where
any_where-newest_first w [] = refl
any_where-newest_first w (t ∷ ts) =
    any_where-insert_newest w t (newest_first ts) ∙ rw (any_where-newest_first w ts) refl

pub All-newest_first : (P : Ticket → Type 0) (ts : List Ticket) → All P ts → All P (newest_first ts)
unfolding newest_first
All-newest_first P [] h = tt
All-newest_first P (t ∷ ts) h =
    All-insert_newest P t (newest_first ts) h.0 (All-newest_first P ts h.1)

abbrev pub ticket_id : Ticket → ℕ
ticket_id t = t.id

pub newest_first-IsDown : (ts : List Ticket) → UniqueKey ticket_id ts → IsDown (newest_first ts)
unfolding newest_first
newest_first-IsDown [] u = tt
newest_first-IsDown (t ∷ ts) u =
    insert_newest-IsDown t (newest_first ts) (any_where-newest_first (λ x. x.id == t.id) ts ∙ u.0)
      (newest_first-IsDown ts u.1)

-- ─── Filtering and sorting commute ──────────────────────────────────────────

pub All-find_many :
    (P : Ticket → Type 0) (w : Ticket → Bool) (ts : List Ticket) → All P ts → All P (find_many w ts)
unfolding find_many
All-find_many _ w [] h = tt
All-find_many _ w (t ∷ ts) h = elim (Bool-cases (w t)) [
  | inl p ↦ rw p (h.0, All-find_many _ w ts h.1)
  | inr n ↦ rw n (All-find_many _ w ts h.1)
]

insert_front :
    (t : Ticket) (us : List Ticket)
    → All (λ u. is_older (key_of t) u ≡ true) us
    → insert_newest t us ≡ t ∷ us
unfolding insert_newest
insert_front t [] h = refl
insert_front t (u ∷ us) h = rw h.0 refl

find_many-insert_newest :
    (w : Ticket → Bool) (t : Ticket) (us : List Ticket)
    → IsDown us
    → find_many w (insert_newest t us)
      ≡ (if w t then insert_newest t (find_many w us) else find_many w us)
unfolding insert_newest find_many
find_many-insert_newest w t [] h = elim (Bool-cases (w t)) [ inl p ↦ rw p refl | inr n ↦ rw n refl ]
find_many-insert_newest w t (u ∷ us) h = elim (Bool-cases (is_older (key_of t) u)) [
  | inl e ↦
      let all : All (λ v. is_older (key_of t) v ≡ true) (u ∷ us) =
        (e, All-imp _ _ (λ v. older_trans t u v e) us h.0) in
      let front = insert_front t (find_many w (u ∷ us)) (All-find_many _ w (u ∷ us) all) in
      rw e (elim (Bool-cases (w t)) [ inl p ↦ rw p (sym front) | inr n ↦ rw n refl ])
  | inr m ↦
      let ih = find_many-insert_newest w t us h.1 in
      rw m (elim (Bool-cases (w u)) [
        | inl p ↦
            rw (p, ih) (elim (Bool-cases (w t)) [ inl q ↦ rw (q, m) refl | inr q ↦ rw q refl ])
        | inr p ↦ rw (p, ih) (elim (Bool-cases (w t)) [ inl q ↦ rw q refl | inr q ↦ rw q refl ])
      ])
]

unique_kept :
    (w : Ticket → Bool) (k : ℕ) (ts : List Ticket)
    → any_where (λ t. t.id == k) ts ≡ false
    → any_where (λ t. t.id == k) (find_many w ts) ≡ false
unfolding find_many any_where
unique_kept w k [] h = refl
unique_kept w k (t ∷ ts) h = elim (Bool-cases (w t)) [
  | inl p ↦ rw p (ground (arith, h, unique_kept w k ts))
  | inr n ↦ rw n (unique_kept w k ts (ground (arith, h)))
]

pub find_many-UniqueKey :
    (w : Ticket → Bool) (ts : List Ticket)
    → UniqueKey ticket_id ts
    → UniqueKey ticket_id (find_many w ts)
unfolding find_many
find_many-UniqueKey w [] u = tt
find_many-UniqueKey w (t ∷ ts) u = elim (Bool-cases (w t)) [
  | inl p ↦ rw p (unique_kept w t.id ts u.0, find_many-UniqueKey w ts u.1)
  | inr n ↦ rw n (find_many-UniqueKey w ts u.1)
]

pub newest_first-find_many :
    (w : Ticket → Bool) (ts : List Ticket)
    → UniqueKey ticket_id ts
    → newest_first (find_many w ts) ≡ find_many w (newest_first ts)
unfolding newest_first find_many
newest_first-find_many w [] u = refl
newest_first-find_many w (t ∷ ts) u =
    let ih = newest_first-find_many w ts u.1 in
    let step = find_many-insert_newest w t (newest_first ts) (newest_first-IsDown ts u.1) in
    elim (Bool-cases (w t)) [
      | inl p ↦ rw (p, ih) (sym (step ∙ rw p refl))
      | inr n ↦ rw (n, ih) (sym (step ∙ rw n refl))
    ]

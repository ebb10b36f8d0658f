-- ===== src/Notify/Senders/Admins.antt =====
-- Telling a group of admins about one event (apps/backend/src/lib/admin-notify.ts).
use finskool_monorepo.Base.{
  ℕ, ap, ==→eq, ◌≡◌, refl, ◌∙◌, Bool, true, not, ◌&&◌, ◌||◌, List, [], ◌∷◌, ◌==◌, any_where,
  any_where-append, arith, Bool-cases, inl, inr, includes, ==_refl,
}
use finskool_monorepo.Notify.{Channels, Inbox, has_key, type_tag, publish_live}
use finskool_monorepo.Notify.Senders.{
  AdminNotification, admin_row, add_row, create_many, publish_all, notify_admins,
}

-- The admin `user_id` has the row of this event.
abbrev pub has_row : AdminNotification → Inbox → ℕ → Bool
has_row n inbox user_id = any_where (has_key user_id n.kind n.source_id) inbox.rows

module _ (ch : Channels) (n : AdminNotification) where
  publish_all-rows : (ids : List ℕ) (inbox : Inbox) → (publish_all ch n ids inbox).rows ≡ inbox.rows
  unfolding publish_all publish_live
  publish_all-rows [] inbox = refl
  publish_all-rows (i ∷ ids) inbox = publish_all-rows ids _ ∙ ground arith

  has_row-add_row :
      (i j : ℕ) (inbox : Inbox)
      → has_row n (add_row (admin_row inbox.next_id i n) inbox) j ≡ (has_row n inbox j || i == j)
  unfolding add_row any_where
  has_row-add_row i j inbox =
      any_where-append (has_key j n.kind n.source_id) inbox.rows _
      ∙ ground (arith, ==_refl (type_tag n.kind), ==_refl n.source_id)

  same_row : (i j : ℕ) (inbox : Inbox) → (i == j) ≡ true → has_row n inbox i ≡ has_row n inbox j
  same_row i j inbox e = ap (has_row n inbox) (==→eq i j e)

  -- After the insert the admins with the row are those who had it and those listed.
  has_row-create_many :
      (ids : List ℕ) (inbox : Inbox) (j : ℕ)
      → has_row n (create_many n ids inbox).1 j ≡ (has_row n inbox j || includes j ids)
  unfolding create_many
  has_row-create_many [] inbox j = ground arith
  has_row-create_many (i ∷ ids) inbox j = elim (Bool-cases (has_row n inbox i)) [
    | inl old ↦ rw old (ground (arith, has_row-create_many ids inbox j, same_row i j inbox))
    | inr new ↦
        let added = add_row (admin_row inbox.next_id i n) inbox in
        rw new (ground (arith, has_row-create_many ids added j, has_row-add_row i j inbox))
  ]

  told-create_many :
      (ids : List ℕ) (inbox : Inbox) (j : ℕ)
      → includes j (create_many n ids inbox).0 ≡ (not (has_row n inbox j) && includes j ids)
  unfolding create_many
  told-create_many [] inbox j = ground arith
  told-create_many (i ∷ ids) inbox j = elim (Bool-cases (has_row n inbox i)) [
    | inl old ↦ rw old (ground (arith, told-create_many ids inbox j, same_row i j inbox))
    | inr new ↦
        let added = add_row (admin_row inbox.next_id i n) inbox in
        rw new (
          ground
            (arith, told-create_many ids added j, has_row-add_row i j inbox, same_row i j inbox))
  ]

-- Exactly the listed admins who did not have the event yet are reported as told, and afterwards
-- exactly those who had it or are listed have it, whether or not live events get out.
pub notify_admins_lem :
    (ch : Channels) (n : AdminNotification) (ids : List ℕ) (inbox : Inbox) (j : ℕ)
    → let (told, after) = notify_admins ch n ids inbox in
      (includes j told ≡ (not (has_row n inbox j) && includes j ids))
      × (has_row n after j ≡ (has_row n inbox j || includes j ids))
unfolding notify_admins
notify_admins_lem ch n ids inbox j = (
  told-create_many ch n ids inbox j,
  ap (any_where (has_key j n.kind n.source_id))
        (publish_all-rows ch n (create_many n ids inbox).0 (create_many n ids inbox).1)
      ∙ has_row-create_many ch n ids inbox j,
)

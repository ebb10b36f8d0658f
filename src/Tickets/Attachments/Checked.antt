-- ===== src/Tickets/Attachments/Checked.antt =====
-- What `resolveAttachments` lets through (apps/backend/src/modules/tickets/tickets.shared.ts).
use finskool_monorepo.Base.{
  ℕ, ◌==◌, ◌≤◌, ◌≡◌, refl, ap, subst, Bool, true, false, not, ◌||◌, Option, none, some, List, [],
  ◌∷◌, ◌++◌, map, length, ltb, find_many, Text, text, starts_with, includes_text, take, Result, ok,
  err, All, arith, Bool-cases, Option-cases, inl, inr,
}
use finskool_monorepo.Tickets.{Attachment, Env, Store, ◌>>=◌}
use finskool_monorepo.Tickets.Attachments.{
  AttachmentRef, AttachmentInfo, max_bytes, sniff_mime, own_prefix, inspect_object,
  inspect_attachment, has_duplicate, row_of, check_all, remove_own, resolve_attachments,
  attachment_invalid,
}

-- What holds of a value if there is one.
abbrev Given : {A : Type 0} → (A → Type 0) → Option A → Type 0
Given P none = Unit
Given P (some a) = P a

module _ {A : Type 0} where
  Given-some : (P : A → Type 0) (o : Option A) (a : A) → o ≡ some a → Given P o → P a
  Given-some P o a e h = subst (Given P) e h

  Given-imp : (P Q : A → Type 0) → ((a : A) → P a → Q a) → (o : Option A) → Given P o → Given Q o
  Given-imp P Q f none h = tt
  Given-imp P Q f (some a) h = f a h

module _ (env : Env) (prefix : Text) (id : ℕ) where
  abbrev is_own : Text → Bool
  is_own key = starts_with key (own_prefix env prefix id)

  -- The upload is under the caller's own prefix, is there, and has between 1 byte and 5 MB.
  pub record IsOwnUpload (a : Attachment) : Type 0 where
    pub own : is_own a.object_key ≡ true
    pub no_dots : includes_text a.object_key (text "..") ≡ false
    pub stored : env.storage.stat_object a.object_key ≡ some a.size_bytes
    pub bounds : (1 ≤ a.size_bytes) × (a.size_bytes ≤ max_bytes)

  abbrev IsStored : Text → AttachmentInfo → Type 0
  IsStored key info =
      (env.storage.stat_object key ≡ some info.size) × (1 ≤ info.size) × (info.size ≤ max_bytes)

  inspect_object-Given : (key : Text) → Given (IsStored key) (inspect_object env.storage key)
  unfolding inspect_object
  inspect_object-Given key = elim (Option-cases (env.storage.stat_object key)) [
    | inl e ↦ rw (e, inspect_object) tt
    | inr (n, e) ↦
        rw (e, inspect_object)
          (elim (Bool-cases (n == 0 || ltb max_bytes n)) [
            | inl p ↦ rw p tt
            | inr q ↦ rw q (elim (Option-cases (env.storage.head_bytes key)) [
              | inl f ↦ rw f tt
              | inr (head, f) ↦ rw f (elim (Option-cases (sniff_mime (take 12 head))) [
                | inl g ↦ rw g tt
                | inr (mime, g) ↦ rw g (e, ground (arith, q), ground (arith, q))
              ])
            ])
          ])
  ]

  inspect_attachment-Given :
      (r : AttachmentRef)
      → Given (λ info. IsOwnUpload (row_of r info)) (inspect_attachment env prefix r.object_key id)
  unfolding inspect_attachment
  inspect_attachment-Given r =
      elim (Bool-cases (not (is_own r.object_key) || includes_text r.object_key (text ".."))) [
        | inl p ↦ rw p tt
        | inr q ↦ rw q (
            Given-imp _ _
              (λ info h. record {
                own = ground (arith, q);
                no_dots = ground (arith, q);
                stored = h.0;
                bounds = (h.1, h.2);
              })
              (inspect_object env.storage r.object_key) (inspect_object-Given r.object_key))
      ]

  -- The rows that pass, with their references: every reference is on one side.
  check_all-IsOwnUpload :
      (refs : List AttachmentRef) → All IsOwnUpload (check_all env prefix id refs).0
  unfolding check_all
  check_all-IsOwnUpload [] = tt
  check_all-IsOwnUpload (r ∷ refs) =
      elim (Option-cases (inspect_attachment env prefix r.object_key id)) [
        | inl e ↦ rw (e, check_all) (check_all-IsOwnUpload refs)
        | inr (info, e) ↦
            rw (e, check_all)
              (Given-some _ _ info e (inspect_attachment-Given r), check_all-IsOwnUpload refs)
      ]

  check_all_complete :
      (refs : List AttachmentRef)
      → length (check_all env prefix id refs).1 ≡ 0
      → map (λ a. a.object_key) (check_all env prefix id refs).0 ≡ map (λ r. r.object_key) refs
  unfolding check_all
  check_all_complete [] h = refl
  check_all_complete (r ∷ refs) h =
      elim (Option-cases (inspect_attachment env prefix r.object_key id)) [
        | inl e ↦ ground (arith, h, e)
        | inr (info, e) ↦
            rw (e, check_all)
              (ap (λ ks. r.object_key ∷ ks) (check_all_complete refs (ground (arith, h, e))))
      ]

  removes_own :
      (refs : List AttachmentRef)
      → All
          (λ k. is_own k ≡ true)
          (map
            (λ r. r.object_key)
            (find_many (λ r. starts_with r.object_key (own_prefix env prefix id)) refs))
  unfolding find_many
  removes_own [] = tt
  removes_own (r ∷ refs) = elim (Bool-cases (is_own r.object_key)) [
    | inl p ↦ rw p (p, removes_own refs)
    | inr n ↦ rw n (removes_own refs)
  ]

  -- Checked uploads, or the error with nothing removed but the caller's own uploads.
  pub data IsResolved (refs : List AttachmentRef) (s : Store)
      : Result (List Attachment) × Store → Type 0 where
    accepted :
        (rows : List Attachment)
        → All IsOwnUpload rows
        → map (λ a. a.object_key) rows ≡ map (λ r. r.object_key) refs
        → IsResolved refs s (ok rows, s)
    duplicated : has_duplicate refs ≡ true → IsResolved refs s (err attachment_invalid, s)
    rejected :
        (keys : List Text)
        → All (λ k. is_own k ≡ true) keys
        → IsResolved refs s
            (err attachment_invalid, record s { removed_objects = s.removed_objects ++ keys })

  -- Attachments are never taken on trust. The call either answers with one row for each reference, in
  -- order, each an object under the caller's own prefix that the storage holds with 1 byte to 5 MB and
  -- with the size that the row gives, and leaves the store alone; or it answers `attachment_invalid`, and
  -- has removed objects under the caller's own prefix at most.
  pub resolve_attachments-IsResolved :
      (refs : List AttachmentRef) (s : Store)
      → IsResolved refs s (resolve_attachments env prefix id refs s)
  unfolding resolve_attachments ◌>>=◌ remove_own
  resolve_attachments-IsResolved refs s = elim (Bool-cases (has_duplicate refs)) [
    | inl d ↦ rw d (duplicated d)
    | inr n ↦ rw n (elim (Bool-cases (length (check_all env prefix id refs).1 == 0)) [
      | inl p ↦
          rw p
            (accepted _ (check_all-IsOwnUpload refs) (check_all_complete refs (ground (arith, p))))
      | inr q ↦ rw q (rejected _ (removes_own (check_all env prefix id refs).1))
    ])
  ]

-- ===== src/Tickets/Attachments.antt =====
-- Attachments are checked before a ticket or a message may refer to them: `resolveAttachments` of
-- apps/backend/src/modules/tickets/tickets.shared.ts and `inspectTicketAttachment` of
-- apps/backend/src/lib/minio.ts.
pub mod Checked
use finskool_monorepo.Base.{
  ℕ, ◌*◌, ◌==◌, Bool, false, not, ◌&&◌, ◌||◌, Option, none, some, List, [], ◌∷◌, ◌++◌, map, length,
  ltb, if◌then◌else◌, any_where, find_many, Text, text, text_eq, starts_with, includes_text, take,
  drop, ErrorCode, AppError,
}
use finskool_monorepo.Tickets.{
  Mime, Attachment, Storage, Env, Store, Action, pure, throw, throw_if, modify, ◌>>◌,
}

pub record AttachmentRef : Type 0 where
  pub object_key : Text
  pub file_name : Text

pub record AttachmentInfo : Type 0 where
  pub size : ℕ
  pub mime_type : Mime

-- 5 MB
abbrev pub max_bytes : ℕ
max_bytes = 5 * 1024 * 1024

-- `sniffTicketMime`: the type by the first bytes.
unfoldable pub sniff_mime : List ℕ → Option Mime
unfolding starts_with text_eq
sniff_mime head =
    if starts_with head (0x89 ∷ 0x50 ∷ 0x4e ∷ 0x47 ∷ 0x0d ∷ 0x0a ∷ 0x1a ∷ 0x0a ∷ [])
    then some Mime.png
    else if starts_with head (0xff ∷ 0xd8 ∷ 0xff ∷ [])
    then some Mime.jpeg
    else if starts_with head (text "RIFF") && text_eq (take 4 (drop 8 head)) (text "WEBP")
    then some Mime.webp
    else if starts_with head (text "%PDF")
    then some Mime.pdf
    else none

-- `${prefix}/${uploaderId}/`
abbrev pub own_prefix : Env → Text → ℕ → Text
own_prefix env prefix uploader_id = prefix ++ text "/" ++ env.id_text uploader_id ++ text "/"

-- A missing object or a failed read is `null`, as in the `catch`.
unfoldable pub inspect_object : Storage → Text → Option AttachmentInfo
inspect_object storage key = elim (storage.stat_object key) [
  | none ↦ none
  | some size ↦ if size == 0 || ltb max_bytes size then none else elim (storage.head_bytes key) [
    | none ↦ none
    | some head ↦ elim (sniff_mime (take 12 head)) [
      | none ↦ none
      | some mime ↦ some (record { size = size; mime_type = mime })
    ]
  ]
]

unfoldable pub inspect_attachment : Env → Text → Text → ℕ → Option AttachmentInfo
unfolding inspect_object starts_with includes_text
inspect_attachment env prefix key uploader_id =
    if not (starts_with key (own_prefix env prefix uploader_id)) || includes_text key (text "..")
    then none
    else inspect_object env.storage key

-- `new Set(keys).size !== keys.length`
unfoldable pub has_duplicate : List AttachmentRef → Bool
has_duplicate [] = false
has_duplicate (r ∷ refs) =
    any_where (λ q. text_eq q.object_key r.object_key) refs || has_duplicate refs

abbrev pub row_of : AttachmentRef → AttachmentInfo → Attachment
row_of ref info = record {
  object_key = ref.object_key;
  file_name = ref.file_name;
  mime_type = info.mime_type;
  size_bytes = info.size;
}

-- The rows for the references that pass, with the references that do not.
unfoldable pub check_all :
    Env → Text → ℕ → List AttachmentRef → List Attachment × List AttachmentRef
check_all env prefix uploader_id [] = ([], [])
check_all env prefix uploader_id (r ∷ refs) =
    let (good, bad) = check_all env prefix uploader_id refs in
    elim (inspect_attachment env prefix r.object_key uploader_id) [
      | none ↦ (good, r ∷ bad)
      | some info ↦ (row_of r info ∷ good, bad)
    ]

abbrev pub attachment_invalid : AppError
attachment_invalid = AppError.bad_request ErrorCode.attachment_invalid

-- Removes the rejected uploads under the caller's own prefix.
unfoldable pub remove_own : Env → Text → ℕ → List AttachmentRef → Store → Store
unfolding find_many starts_with
remove_own env prefix uploader_id bad s =
    let own = find_many (λ r. starts_with r.object_key (own_prefix env prefix uploader_id)) bad in
    record s { removed_objects = s.removed_objects ++ map (λ r. r.object_key) own }

unfoldable pub resolve_attachments : Env → Text → ℕ → List AttachmentRef → Action (List Attachment)
unfolding has_duplicate check_all inspect_attachment remove_own
resolve_attachments env prefix uploader_id refs = do
  throw_if (has_duplicate refs) attachment_invalid
  let checked = check_all env prefix uploader_id refs
  if length checked.1 == 0
      then pure checked.0
      else (do modify (remove_own env prefix uploader_id checked.1); throw attachment_invalid)

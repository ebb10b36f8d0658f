-- ===== src/Tickets/Listing/Cursor.antt =====
-- Reading back a cursor (`encodeCursor` and `decodeCursor` of tickets.shared.ts).
use finskool_monorepo.Base.{
  ℕ, ◌<◌, ◌≡◌, refl, Bool, true, false, ◌==◌, some, List, [], ◌∷◌, ◌++◌, All, Text, arith, ok,
}
use finskool_monorepo.Tickets.Listing.{
  CursorCodec, bar, fits, uuid_re, fits_all, is_uuid, split_bar, encode_cursor, decode_cursor,
}

-- What is documented of base64, of ISO dates and of ids: they are read back as they were written, a date
-- has no bar, and an id below the bound (2 ^ 128 for real ids) is written as a UUID.
pub record IsCodec (codec : CursorCodec) (bound : ℕ) : Type 0 where
  pub base64 : (t : Text) → codec.from_base64 (codec.to_base64 t) ≡ t
  pub iso : (at : ℕ) → codec.from_iso (codec.to_iso at) ≡ some at
  pub iso_bar : (at : ℕ) → All (λ c. (c == bar) ≡ false) (codec.to_iso at)
  pub uuid : (id : ℕ) → id < bound → is_uuid (codec.id_text id) ≡ true
  pub id : (id : ℕ) → id < bound → codec.text_id (codec.id_text id) ≡ id

split_at : (t u : Text) → All (λ c. (c == bar) ≡ false) t → split_bar (t ++ bar ∷ u) ≡ (t, some u)
unfolding split_bar
split_at [] u h = refl
split_at (c ∷ t) u h = rw (h.0, split_at t u h.1) refl

unsplit : (t : Text) → All (λ c. (c == bar) ≡ false) t → (split_bar t).0 ≡ t
unfolding split_bar
unsplit [] h = refl
unsplit (c ∷ t) h = rw (h.0, unsplit t h.1) refl

no_bar : (p : Bool) (c : ℕ) → fits p c ≡ true → (c == bar) ≡ false
no_bar true c h = ground (arith, h)
no_bar false c h = ground (arith, h)

uuid_bar : (ps : List Bool) (t : Text) → fits_all ps t ≡ true → All (λ c. (c == bar) ≡ false) t
unfolding fits_all
uuid_bar ps [] h = tt
uuid_bar [] (c ∷ t) h = cc
uuid_bar (p ∷ ps) (c ∷ t) h = (no_bar p c (ground (arith, h)), uuid_bar ps t (ground (arith, h)))

-- A cursor is read back as the time and the id that it was made of, for every id that has a UUID.
pub decode_cursor-encode_cursor :
    (codec : CursorCodec) (bound at id : ℕ)
    → IsCodec codec bound
    → id < bound
    → decode_cursor codec (encode_cursor codec at id) ≡ ok (at, id)
unfolding decode_cursor encode_cursor
decode_cursor-encode_cursor codec bound at id h small =
    let whole = split_at (codec.to_iso at) (codec.id_text id) (h.iso_bar at) in
    let rest = unsplit (codec.id_text id) (uuid_bar uuid_re (codec.id_text id) (h.uuid id small)) in
    rw
      (
        h.base64 (codec.to_iso at ++ bar ∷ codec.id_text id),
        whole,
        h.iso at,
        rest,
        h.uuid id small,
        h.id id small,
      )
      refl

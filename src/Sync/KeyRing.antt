-- ===== src/Sync/KeyRing.antt =====
-- `RotatingCursorSigner` of argo_dt/sync.py.
pub mod Genuine
pub mod RoundTrip
pub mod Bound
use k2s.Prelude.{
  ℕ, String, Bool, true, false, not, ◌&&◌, ◌||◌, List, [], ◌∷◌, ◌++◌, Option, none, some, ◌==◌, ℤ,
  pos, pos_part, ltb, leb_ℤ, ltb_ℤ, length, keep, map, take, contains, find_first,
}
use k2s.Errors.{
  Result, ok, err, ensure, reject_if, or_raise, resume_cursor_rejected, value_error, ◌>>=◌, ◌>>◌,
}
use k2s.Host.{Host}
use k2s.Sync.Position.{StreamPosition}
use k2s.Sync.Cursor.{
  CursorSigner, DecodedCursor, issue, verify_cursor, matches_signature, verify_chain_binding,
}

-- `_by_id` is read off the order.
pub record KeyRing : Type 0 where
  pub active : CursorSigner
  pub verification_order : List CursorSigner

abbrev pub max_keys : ℕ
max_keys = 8

-- len(names) == len(set(names))
unfoldable pub all_distinct : List String → Bool
all_distinct [] = true
all_distinct (x ∷ xs) = not (contains x xs) && all_distinct xs

unfoldable pub key_ids : List CursorSigner → List String
key_ids [] = []
key_ids (s ∷ ss) = s.key_id ∷ key_ids ss

unfoldable pub new_ring : CursorSigner → List CursorSigner → Result KeyRing
new_ring active retiring = do
  reject_if (ltb max_keys (length (active ∷ retiring))) value_error
  ensure (all_distinct (key_ids (active ∷ retiring))) value_error
  ok (record { active = active; verification_order = active ∷ retiring })

unfoldable pub rotate : KeyRing → CursorSigner → ℤ → Result KeyRing
rotate ring new_active retain = do
  reject_if (ltb_ℤ retain (pos 0) || leb_ℤ (pos max_keys) retain) value_error
  new_ring new_active (
      take (pos_part retain)
        (keep (λ s. not (s.key_id == new_active.key_id)) ring.verification_order))

module _ ⦃host : Host⦄ where
  abbrev pub issue_active : KeyRing → StreamPosition → ℕ → String
  issue_active ring position now = issue ring.active position now

  -- The first signer whose MAC the token carries decides.
  unfoldable pub verify_by : List CursorSigner → String → String → ℕ → Result DecodedCursor
  verify_by [] token twin_id now = err resume_cursor_rejected
  verify_by (s ∷ ss) token twin_id now = elim (matches_signature s token) [
    | true ↦ verify_cursor s token twin_id now
    | false ↦ verify_by ss token twin_id now
  ]

  unfoldable pub verify_ring : KeyRing → String → String → ℕ → Result DecodedCursor
  verify_ring ring token twin_id now = verify_by ring.verification_order token twin_id now

  unfoldable pub bind_by :
      Option CursorSigner → DecodedCursor → StreamPosition → Result StreamPosition
  bind_by none cursor position = err resume_cursor_rejected
  bind_by (some signer) cursor position = verify_chain_binding signer cursor position

  unfoldable pub bind_ring : KeyRing → DecodedCursor → StreamPosition → Result StreamPosition
  bind_ring ring cursor position =
      bind_by (find_first (λ s. s.key_id == cursor.signing_key_id) ring.verification_order) cursor
        position

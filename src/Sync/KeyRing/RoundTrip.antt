-- ===== src/Sync/KeyRing/RoundTrip.antt =====
-- A key ring accepts what it issued, also after a rotation that retains its key.
use Prim.Native.String.{◌++◌}
use k2s.Prelude.{
  ℕ, zero, suc, pos_part, leb_ℤ, ltb_ℤ, ◌+◌, ◌≤◌, String, ◌≡◌, ◌≢◌, refl, sym, ap, ◌∙◌, Bool, true,
  false, not, ◌||◌, List, [], ◌∷◌, none, some, ◌==◌, eq_iff, eq_refl, ℤ, pos, arith, ltb, take,
  keep, find_first, is_subset, all, contains,
}
use k2s.Errors.{ok, reject_if-eq-ok}
use k2s.Host.{Host, parse_time}
use k2s.Value.{obj, str, same, require, field_names, find_field}
use k2s.Sync.Text.{split_dots, join_dots, all_codes, is_token_code}
use k2s.Sync.Text.Dots.{split-join, token_code-no_dots, no_dots}
use k2s.Sync.Base64.{b64url_encode}
use k2s.Sync.Base64.RoundTrip.{AreBytes, encode-tokens, b64url_decode_iff}
use k2s.Sync.Utf8.{utf8-All}
use k2s.Sync.Position.{StreamPosition}
use k2s.Sync.Cursor.{
  CursorSigner, DecodedCursor, issue, cursor_payload, chain_tag, sorted_material, two_parts,
  token_bytes, verify_cursor, read_material, check_header, check_window, has_expected_keys,
  same_bytes, as_object, as_int, as_text, has_expired, matches_signature, signed_by,
  verify_chain_binding, compare_digest,
}
use k2s.Sync.KeyRing.{
  KeyRing, max_keys, new_ring, rotate, issue_active, verify_by, verify_ring, bind_by, bind_ring,
}

same_bytes_refl : (xs : List ℕ) → same_bytes xs xs ≡ true
unfolding same_bytes
same_bytes_refl [] = refl
same_bytes_refl (x ∷ xs) = ground (arith, same_bytes_refl xs)

tokens-ascii : (s : String) → all_codes is_token_code s ≡ true → all_codes (λ c. ltb c 128) s ≡ true
unfolding all_codes is_token_code
tokens-ascii String.[] h = refl
tokens-ascii (String.◌∷◌ c s) h = ground (arith, tokens-ascii s)

split-two :
    (a b : String) → no_dots a ≡ true → no_dots b ≡ true → split_dots (a ++ ("." ++ b)) ≡ a ∷ b ∷ []
unfolding join_dots
split-two a b h k = split-join a (b ∷ []) (h, (k, tt))

encode-no_dots : (bs : List ℕ) → AreBytes bs → no_dots (b64url_encode bs) ≡ true
encode-no_dots bs h = token_code-no_dots (b64url_encode bs) (encode-tokens bs h)

new_ring-ok :
    (active : CursorSigner) (retiring : List CursorSigner) (ring : KeyRing)
    → new_ring active retiring ≡ ok ring
    → (ring.active ≡ active) × (ring.verification_order ≡ active ∷ retiring)
unfolding new_ring
new_ring-ok active retiring ring h = ground arith

take-keep_first :
    (p : CursorSigner → Bool) (n : ℕ) (s : CursorSigner) (ss : List CursorSigner)
    → p s ≡ true
    → 1 ≤ n
    → (rest : List CursorSigner) × (take n (keep p (s ∷ ss)) ≡ s ∷ rest)
unfolding keep
take-keep_first p zero s ss h k = absurd (omega arith)
take-keep_first p (suc n) s ss h k = (take n (keep p ss), rw h)

rotate-ok :
    (ring rotated : KeyRing) (active new : CursorSigner) (retiring : List CursorSigner) (retain : ℤ)
    → ring.verification_order ≡ active ∷ retiring
    → rotate ring new retain ≡ ok rotated
    → 1 ≤ pos_part retain
    → (active.key_id == new.key_id) ≡ false
    → (rest : List CursorSigner) × (rotated.verification_order ≡ new ∷ active ∷ rest)
unfolding rotate
rotate-ok ring rotated active new retiring retain order h some_kept other =
    let (bounds, made) =
      reject_if-eq-ok (ltb_ℤ retain (pos 0) || leb_ℤ (pos max_keys) retain) _ _ h in
    let others : CursorSigner → Bool = λ s. not (s.key_id == new.key_id) in
    let (rest, kept) =
      take-keep_first others (pos_part retain) active retiring (rw other) some_kept in
    let kept' : take (pos_part retain) (keep others ring.verification_order) ≡ active ∷ rest =
      rw order kept in
    (
      rest,
      (new_ring-ok new (take (pos_part retain) (keep others ring.verification_order)) rotated
            made).1
          ∙ ap (◌∷◌ new) kept',
    )

module _ ⦃host : Host⦄ (signer : CursorSigner) (p : StreamPosition) (now : ℕ) where
  abbrev pub issued_cursor : DecodedCursor
  issued_cursor = record {
    twin_id = p.twin_id;
    sequence = pos p.sequence;
    chain_tag = chain_tag signer p;
    issued_at = now;
    signing_key_id = signer.key_id;
  }

  -- A digest is a text of bytes that is not empty, an empty text is no JSON, and Python reads back
  -- the time and the material that it has written.
  pub record ReadsBack : Type 0 where
    pub digest_bytes : (m : List ℕ) → AreBytes (host.hmac_sha256 signer.key m)
    pub digest_some : (m : List ℕ) → host.hmac_sha256 signer.key m ≢ []
    pub no_json : host.json_loads [] ≡ none
    pub time : parse_time (host.isoformat_z now) ≡ ok now
    pub loaded :
        host.json_loads (cursor_payload signer p now)
        ≡ some (obj (sorted_material p (chain_tag signer p) (str (host.isoformat_z now))))

  module _ (r : ReadsBack) where
    payload_bytes : AreBytes (cursor_payload signer p now)
    unfolding cursor_payload
    payload_bytes = utf8-All _

    payload_some : cursor_payload signer p now ≢ []
    payload_some e = cc (r.no_json, r.loaded, ap host.json_loads e)

    issue-token_bytes :
        token_bytes (issue signer p now)
        ≡ ok
            (cursor_payload signer p now, host.hmac_sha256 signer.key (cursor_payload signer p now))
    unfolding token_bytes issue two_parts
    issue-token_bytes = simp (
      split-two (b64url_encode (cursor_payload signer p now))
          (b64url_encode (host.hmac_sha256 signer.key (cursor_payload signer p now)))
          (encode-no_dots (cursor_payload signer p now) payload_bytes)
          (encode-no_dots (host.hmac_sha256 signer.key (cursor_payload signer p now))
            (r.digest_bytes (cursor_payload signer p now))),
      (b64url_decode_iff _ (cursor_payload signer p now) payload_bytes).1 (refl, payload_some),
      (b64url_decode_iff _ (host.hmac_sha256 signer.key (cursor_payload signer p now))
            (r.digest_bytes _)).1
          (refl, r.digest_some _),
    )

    matches-issue : matches_signature signer (issue signer p now) ≡ true
    unfolding matches_signature signed_by
    matches-issue = simp (issue-token_bytes, same_bytes_refl)

    tag_ascii : all_codes (λ c. ltb c 128) (chain_tag signer p) ≡ true
    unfolding chain_tag
    tag_ascii = tokens-ascii _ (encode-tokens _ (r.digest_bytes _))

    header_read :
        check_header p.twin_id (sorted_material p (chain_tag signer p) (str (host.isoformat_z now)))
        ≡ ok tt
    unfolding check_header sorted_material has_expected_keys same require field_names is_subset all
        contains find_field
    header_read = simp eq_refl

    module _ (later : ℕ) (in_time : now ≤ later + signer.allowed_clock_skew)
        (fresh : has_expired signer.max_age later now ≡ false) where
      material_read :
          read_material signer p.twin_id later
            (sorted_material p (chain_tag signer p) (str (host.isoformat_z now)))
          ≡ ok issued_cursor
      unfolding read_material sorted_material as_int as_text check_window require find_field
      material_read = ground (arith, r.time, in_time, fresh)

      verify-issue : verify_cursor signer (issue signer p now) p.twin_id later ≡ ok issued_cursor
      unfolding verify_cursor as_object
      verify-issue = simp (issue-token_bytes, same_bytes_refl, r.loaded, header_read, material_read)

      bind-issue : verify_chain_binding signer issued_cursor p ≡ ok p
      unfolding verify_chain_binding compare_digest
      bind-issue = ground (arith, tag_ascii, eq_refl p.twin_id, eq_refl (chain_tag signer p))

      -- A ring whose first signer made the token accepts it, and binds its cursor to the position.
      first-accepts :
          (ring : KeyRing) (rest : List CursorSigner)
          → ring.verification_order ≡ signer ∷ rest
          → (verify_ring ring (issue signer p now) p.twin_id later ≡ ok issued_cursor)
            × (bind_ring ring issued_cursor p ≡ ok p)
      unfolding verify_ring verify_by bind_ring bind_by find_first
      first-accepts ring rest h = (
        rw h (rw (matches-issue, verify_by) verify-issue),
        rw h (rw (eq_refl signer.key_id) bind-issue),
      )

      -- So does one whose second signer made it, if the first has another name and MAC.
      second-accepts :
          (ring : KeyRing) (new : CursorSigner) (rest : List CursorSigner)
          → ring.verification_order ≡ new ∷ signer ∷ rest
          → (signer.key_id == new.key_id) ≡ false
          → matches_signature new (issue signer p now) ≡ false
          → (verify_ring ring (issue signer p now) p.twin_id later ≡ ok issued_cursor)
            × (bind_ring ring issued_cursor p ≡ ok p)
      unfolding verify_ring verify_by bind_ring bind_by find_first
      second-accepts ring new rest h other foreign =
          let other' : (new.key_id == signer.key_id) ≡ false =
            ground (arith, eq_iff new.key_id signer.key_id, eq_iff signer.key_id new.key_id) in
          (
            rw h (rw (foreign, matches-issue, verify_by) verify-issue),
            rw h (rw (other', eq_refl signer.key_id) bind-issue),
          )

      -- If digests are bytes and not empty, and Python reads back the time and the material that it has
      -- written: while the clock has not gone back by more than the allowed skew, and the cursor has not
      -- expired, a ring accepts the token that it issued for a position, for that twin, reads the
      -- cursor of that position from it, and binds the cursor to the position. So does the ring
      -- after a rotation that retains a key, to a key of another name whose MAC the token does not
      -- carry.
      pub issue_active-accepted :
          (ring rotated : KeyRing) (retiring : List CursorSigner) (new : CursorSigner) (retain : ℤ)
          → new_ring signer retiring ≡ ok ring
          → rotate ring new retain ≡ ok rotated
          → 1 ≤ pos_part retain
          → (signer.key_id == new.key_id) ≡ false
          → matches_signature new (issue_active ring p now) ≡ false
          → (verify_ring ring (issue_active ring p now) p.twin_id later ≡ ok issued_cursor)
            × (bind_ring ring issued_cursor p ≡ ok p)
            × (verify_ring rotated (issue_active ring p now) p.twin_id later ≡ ok issued_cursor)
            × (bind_ring rotated issued_cursor p ≡ ok p)
      issue_active-accepted ring rotated retiring new retain made turned some_kept other foreign =
          let (active, order) = new_ring-ok signer retiring ring made in
          let (rest, order') =
            rotate-ok ring rotated signer new retiring retain order turned some_kept other in
          let token = ap (λ s. issue s p now) active in
          let foreign' : matches_signature new (issue signer p now) ≡ false =
            ap (matches_signature new) (sym token) ∙ foreign in
          let (a, b) = first-accepts ring retiring order in
          let (c, d) = second-accepts rotated new rest order' other foreign' in
          (
            ap (λ t. verify_ring ring t p.twin_id later) token ∙ a,
            b,
            ap (λ t. verify_ring rotated t p.twin_id later) token ∙ c,
            d,
          )

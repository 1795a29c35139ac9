-- ===== src/Sync/KeyRing/Genuine.antt =====
-- What a cursor that a key ring accepts is known to be.
use Prim.Native.String.{◌++◌}
use k2s.Prelude.{
  ℕ, ◌+◌, ◌≤◌, String, ◌≡◌, refl, sym, ap, ◌∙◌, true, false, List, [], ◌∷◌, Option, none, some, ℤ,
  arith, Bool-cases, inl, inr, Memᴰ,
}
use k2s.Errors.{Result, ok, err, >>=-eq-ok, ensure-eq-ok, skip-eq-ok}
use k2s.Host.{Host, parse_time}
use k2s.Value.{Value, obj, int, str, Fields, require, same}
use k2s.Value.Laws.{same_text}
use k2s.Sync.Text.{split_dots, join_dots}
use k2s.Sync.Text.Dots.{join-split}
use k2s.Sync.Base64.{b64url_encode, b64url_decode}
use k2s.Sync.Base64.RoundTrip.{b64url_decode_sound}
use k2s.Sync.Cursor.{
  CursorSigner, DecodedCursor, two_parts, token_bytes, verify_cursor, read_material, check_header,
  check_window, has_expected_keys, same_bytes, as_object, as_int, as_text, as_rejected, has_expired,
  cursor_schema, matches_signature,
}
use k2s.Sync.KeyRing.{KeyRing, verify_by, verify_ring}

two_parts-eq-ok : (ps : List String) (a b : String) → two_parts ps ≡ ok (a, b) → ps ≡ a ∷ b ∷ []
unfolding two_parts
two_parts-eq-ok [] a b h = cc
two_parts-eq-ok (p ∷ []) a b h = cc
two_parts-eq-ok (p ∷ q ∷ []) a b h = cc
two_parts-eq-ok (p ∷ q ∷ r ∷ ps) a b h = cc

same_bytes-eq : (xs ys : List ℕ) → same_bytes xs ys ≡ true → xs ≡ ys
unfolding same_bytes
same_bytes-eq [] [] h = refl
same_bytes-eq [] (y ∷ ys) h = cc
same_bytes-eq (x ∷ xs) [] h = cc
same_bytes-eq (x ∷ xs) (y ∷ ys) h = ground (arith, same_bytes-eq xs ys)

module _ ⦃host : Host⦄ where
  -- What a cursor says of its token: that the signer made it, of what, and not too long ago.
  pub record IsGenuine (signer : CursorSigner) (token twin_id : String) (now : ℕ)
      (c : DecodedCursor) : Type 0 where
    pub payload : List ℕ
    pub signed :
        token
        ≡ b64url_encode payload ++ ("." ++ b64url_encode (host.hmac_sha256 signer.key payload))
    pub material : Fields
    pub decoded : host.json_loads payload ≡ some (obj material)
    pub twin : require "twin_id" material ≡ ok (str twin_id)
    pub sequence : require "sequence" material ≡ ok (int c.sequence)
    pub tag : require "chain_tag" material ≡ ok (str c.chain_tag)
    pub version : require "schema_version" material ≡ ok (str cursor_schema)
    pub time_text : String
    pub timed : require "issued_at" material ≡ ok (str time_text)
    pub read_time : parse_time time_text ≡ ok c.issued_at
    pub same_twin : c.twin_id ≡ twin_id
    pub same_key : c.signing_key_id ≡ signer.key_id
    pub not_early : c.issued_at ≤ now + signer.allowed_clock_skew
    pub not_late : has_expired signer.max_age now c.issued_at ≡ false

  as_int-eq-ok : (v : Value) (n : ℤ) → as_int v ≡ ok n → v ≡ int n
  unfolding as_int
  as_int-eq-ok (int m) n h = cc
  as_int-eq-ok _ n h = cc

  as_text-eq-ok : (v : Value) (s : String) → as_text v ≡ ok s → v ≡ str s
  unfolding as_text
  as_text-eq-ok (str t) s h = cc
  as_text-eq-ok _ s h = cc

  as_object-eq-ok : (o : Option Value) (fs : Fields) → as_object o ≡ ok fs → o ≡ some (obj fs)
  unfolding as_object
  as_object-eq-ok none fs h = cc
  as_object-eq-ok (some (obj gs)) fs h = cc
  as_object-eq-ok (some _) fs h = cc

  as_rejected-eq-ok : (m : Result ℕ) (n : ℕ) → as_rejected m ≡ ok n → m ≡ ok n
  as_rejected-eq-ok (ok a) n h = h
  as_rejected-eq-ok (err e) n h = cc

  check_header-ok :
      (twin_id : String) (material : Fields)
      → check_header twin_id material ≡ ok tt
      → (require "twin_id" material ≡ ok (str twin_id))
        × (require "schema_version" material ≡ ok (str cursor_schema))
  unfolding check_header
  check_header-ok twin_id material h =
      let (keys, h1) = ensure-eq-ok (has_expected_keys material) _ _ h in
      let (version, found1, h2) = >>=-eq-ok (require "schema_version" material) _ h1 in
      let (is_v1, h3) = ensure-eq-ok (same version (str cursor_schema)) _ _ h2 in
      let (twin, found2, h4) = >>=-eq-ok (require "twin_id" material) _ h3 in
      (
        found2 ∙ ap ok (same_text twin twin_id (ground arith)),
        found1 ∙ ap ok (same_text version cursor_schema is_v1),
      )

  check_window-ok :
      (signer : CursorSigner) (twin_id : String) (now : ℕ) (n : ℤ) (tag : String) (time : ℕ)
      (c : DecodedCursor)
      → check_window signer twin_id now n tag time ≡ ok c
      → (c.twin_id ≡ twin_id)
        × (c.sequence ≡ n)
        × (c.chain_tag ≡ tag)
        × (c.issued_at ≡ time)
        × (c.signing_key_id ≡ signer.key_id)
        × (c.issued_at ≤ now + signer.allowed_clock_skew)
        × (has_expired signer.max_age now c.issued_at ≡ false)
  unfolding check_window
  check_window-ok signer twin_id now n tag time c h = ground arith

  read_material-ok :
      (signer : CursorSigner) (twin_id : String) (now : ℕ) (material : Fields) (c : DecodedCursor)
      → read_material signer twin_id now material ≡ ok c
      → (n : ℤ) × (tag : String) × (text : String) × (time : ℕ) × (require "sequence" material
          ≡ ok (int n))
        × (require "chain_tag" material ≡ ok (str tag))
        × (require "issued_at" material ≡ ok (str text))
        × (parse_time text ≡ ok time)
        × (check_window signer twin_id now n tag time ≡ ok c)
  unfolding read_material
  read_material-ok signer twin_id now material c h =
      let (raw_sequence, found3, h6) = >>=-eq-ok (require "sequence" material) _ h in
      let (sequence, number, h7) = >>=-eq-ok (as_int raw_sequence) _ h6 in
      let (raw_tag, found4, h8) = >>=-eq-ok (require "chain_tag" material) _ h7 in
      let (tag, text, h9) = >>=-eq-ok (as_text raw_tag) _ h8 in
      let (raw_time, found5, h10) = >>=-eq-ok (require "issued_at" material) _ h9 in
      let (time, time_text, h11) = >>=-eq-ok (as_text raw_time) _ h10 in
      let (issued_at, parsed, h12) = >>=-eq-ok (as_rejected (parse_time time)) _ h11 in
      (
        sequence,
        tag,
        time,
        issued_at,
        found3 ∙ ap ok (as_int-eq-ok raw_sequence sequence number),
        found4 ∙ ap ok (as_text-eq-ok raw_tag tag text),
        found5 ∙ ap ok (as_text-eq-ok raw_time time time_text),
        as_rejected-eq-ok (parse_time time) issued_at parsed,
        h12,
      )

  token_bytes-ok :
      (token : String) (payload signature : List ℕ)
      → token_bytes token ≡ ok (payload, signature)
      → token ≡ b64url_encode payload ++ ("." ++ b64url_encode signature)
  unfolding token_bytes join_dots
  token_bytes-ok token payload signature h =
      let (parts, split, h1) = >>=-eq-ok (two_parts (split_dots token)) _ h in
      let (p, left, h2) = >>=-eq-ok (b64url_decode parts.0) _ h1 in
      let (s, right, h3) = >>=-eq-ok (b64url_decode parts.1) _ h2 in
      let same_p : p ≡ payload = cc in
      let same_s : s ≡ signature = cc in
      sym (join-split token)
      ∙ joined token parts.0 parts.1 split
      ∙ (rw (
        (b64url_decode_sound parts.0 p left).0,
        (b64url_decode_sound parts.1 s right).0,
        same_p,
        same_s,
      ))
    where
      joined :
          (token a b : String)
          → two_parts (split_dots token) ≡ ok (a, b)
          → join_dots (split_dots token) ≡ a ++ ("." ++ b)
      joined token a b h = ap join_dots (two_parts-eq-ok (split_dots token) a b h)

  verify_cursor-IsGenuine :
      (signer : CursorSigner) (token twin_id : String) (now : ℕ) (c : DecodedCursor)
      → verify_cursor signer token twin_id now ≡ ok c
      → IsGenuine signer token twin_id now c
  unfolding verify_cursor
  verify_cursor-IsGenuine signer token twin_id now c h =
      let (bytes, taken, h1) = >>=-eq-ok (token_bytes token) _ h in
      let (made, h2) =
        ensure-eq-ok (same_bytes bytes.1 (host.hmac_sha256 signer.key bytes.0)) _ _ h1 in
      let (material, loaded, h3) = >>=-eq-ok (as_object (host.json_loads bytes.0)) _ h2 in
      let (header, h4) = skip-eq-ok (check_header twin_id material) _ h3 in
      let (n, tag, text, time, at_sequence, at_tag, at_time, parsed, window) =
        read_material-ok signer twin_id now material c h4 in
      let facts = check_window-ok signer twin_id now n tag time c window in
      record {
        payload = bytes.0;
        signed =
            token_bytes-ok token bytes.0 bytes.1 taken
            ∙ ap (λ s. b64url_encode bytes.0 ++ ("." ++ b64url_encode s))
                (same_bytes-eq bytes.1 (host.hmac_sha256 signer.key bytes.0) made);
        material = material;
        decoded = as_object-eq-ok (host.json_loads bytes.0) material loaded;
        twin = (check_header-ok twin_id material header).0;
        sequence = at_sequence ∙ ap (λ m. ok (int m)) (sym facts.1);
        tag = at_tag ∙ ap (λ s. ok (str s)) (sym facts.2);
        version = (check_header-ok twin_id material header).1;
        time_text = text;
        timed = at_time;
        read_time = parsed ∙ ap ok (sym facts.3);
        same_twin = facts.0;
        same_key = facts.4;
        not_early = facts.5;
        not_late = facts.6;
      }

  verify_by-IsGenuine :
      (ss : List CursorSigner) (token twin_id : String) (now : ℕ) (c : DecodedCursor)
      → verify_by ss token twin_id now ≡ ok c
      → (signer : CursorSigner) × Memᴰ signer ss × IsGenuine signer token twin_id now c
  unfolding verify_by
  verify_by-IsGenuine [] token twin_id now c h = cc
  verify_by-IsGenuine (s ∷ ss) token twin_id now c h =
      elim (Bool-cases (matches_signature s token)) [
        | inl yes_ ↦
            (s, Memᴰ.head refl, verify_cursor-IsGenuine s token twin_id now c (ground arith))
        | inr no_ ↦
            let (t, m, g) = verify_by-IsGenuine ss token twin_id now c (ground arith) in
            (t, Memᴰ.tail m, g)
      ]

  -- A cursor that a key ring accepts comes from a token that one of its signers made: the token is
  -- the encoding of a payload with its MAC under that signer's key, the payload is of the
  -- version of cursors that is known, and says the twin that was asked for and the sequence, the tag
  -- and the time of the cursor; and that time is neither ahead of the clock by more than the allowed
  -- skew nor older than the signer allows.
  pub verify_ring-IsGenuine :
      (ring : KeyRing) (token twin_id : String) (now : ℕ) (c : DecodedCursor)
      → verify_ring ring token twin_id now ≡ ok c
      → (signer : CursorSigner) × Memᴰ signer ring.verification_order
        × IsGenuine signer token twin_id now c
  unfolding verify_ring
  verify_ring-IsGenuine ring = verify_by-IsGenuine ring.verification_order

-- ===== src/Sync/Cursor.antt =====
-- `CursorSigner` of argo_dt/sync.py. Its clock is the argument `now`, an instant in UTC; durations
-- are microseconds.
use Prim.Native.String.{◌++◌}
use k2s.Prelude.{
  ℕ, ◌+◌, String, Bool, true, false, not, ◌&&◌, ◌||◌, List, [], ◌∷◌, Option, none, some, ◌==◌, ℤ,
  pos, pos_part, eqb, ltb, ltb_ℤ, leb_ℤ, eqb_ℤ, length, is_subset, if◌then◌else◌,
}
use k2s.Errors.{
  Result, ok, err, ensure, reject_if, resume_cursor_rejected, type_error, value_error, ◌>>=◌, ◌>>◌,
}
use k2s.Value.{Value, int, str, obj, Fields, end, field, same, require, field_names}
use k2s.Host.{Host, parse_time, canonical_json}
use k2s.Sync.Text.{is_token, split_dots, all_codes}
use k2s.Sync.Base64.{b64url_encode, b64url_decode}
use k2s.Sync.Utf8.{utf8}
use k2s.Sync.Position.{StreamPosition}

pub record DecodedCursor : Type 0 where
  pub twin_id : String
  pub sequence : ℤ
  pub chain_tag : String
  pub issued_at : ℕ
  pub signing_key_id : String

pub record CursorSigner : Type 0 where
  pub key : List ℕ
  pub key_id : String
  pub max_age : Option ℕ
  pub allowed_clock_skew : ℕ

abbrev pub cursor_schema : String
cursor_schema = "argo.dt.cursor/v1"

non_positive : Option ℤ → Bool
non_positive none = false
non_positive (some age) = leb_ℤ age (pos 0)

positive_part : Option ℤ → Option ℕ
positive_part none = none
positive_part (some age) = some (pos_part age)

-- The constructor.
unfoldable pub new_signer : List ℕ → String → Option ℤ → ℤ → Result CursorSigner
unfolding non_positive positive_part
new_signer key key_id max_age allowed_clock_skew = do
  reject_if (ltb (length key) 32) value_error
  ensure (is_token key_id) value_error
  reject_if (non_positive max_age) value_error
  reject_if (ltb_ℤ allowed_clock_skew (pos 0)) value_error
  ok (record {
    key = key;
    key_id = key_id;
    max_age = positive_part max_age;
    allowed_clock_skew = pos_part allowed_clock_skew;
  })

-- `hmac.compare_digest` of two texts, which must be ASCII.
unfoldable pub compare_digest : String → String → Result Bool
compare_digest a b =
    if all_codes (λ c. ltb c 128) a && all_codes (λ c. ltb c 128) b
    then ok (a == b)
    else err type_error

-- if len(parts) != 2: raise
unfoldable pub two_parts : List String → Result (String × String)
two_parts (a ∷ b ∷ []) = ok (a, b)
two_parts _ = err resume_cursor_rejected

unfoldable pub same_bytes : List ℕ → List ℕ → Bool
same_bytes [] [] = true
same_bytes (x ∷ xs) (y ∷ ys) = eqb x y && same_bytes xs ys
same_bytes _ _ = false

-- isinstance(value, int) and not isinstance(value, bool)
unfoldable pub as_int : Value → Result ℤ
as_int (int n) = ok n
as_int _ = err resume_cursor_rejected

unfoldable pub as_text : Value → Result String
as_text (str s) = ok s
as_text _ = err resume_cursor_rejected

unfoldable pub as_object : Option Value → Result Fields
as_object (some (obj fs)) = ok fs
as_object _ = err resume_cursor_rejected

-- except …: raise ResumeCursorRejected
abbrev pub as_rejected {ℓ} : {A : Type ℓ} → Result A → Result A
as_rejected (ok a) = ok a
as_rejected (err e) = err resume_cursor_rejected

abbrev pub expected_keys : List String
expected_keys = "schema_version" ∷ "twin_id" ∷ "sequence" ∷ "chain_tag" ∷ "issued_at" ∷ []

-- set(material) == expected_keys
unfoldable pub has_expected_keys : Fields → Bool
has_expected_keys material =
    is_subset (field_names material) expected_keys && is_subset expected_keys (field_names material)

-- now - issued_at > max_age
abbrev pub has_expired : Option ℕ → ℕ → ℕ → Bool
has_expired none now issued_at = false
has_expired (some max_age) now issued_at = ltb (issued_at + max_age) now

unfoldable pub cursor_material : StreamPosition → String → Value → Fields
cursor_material position chain_tag issued_at = field "schema_version" (str cursor_schema) (
    field "twin_id" (str position.twin_id) (
      field "sequence" (int (pos position.sequence))
        (field "chain_tag" (str chain_tag) (field "issued_at" issued_at end))))

-- The same as `json.loads` reads it back from a text with sorted keys.
unfoldable pub sorted_material : StreamPosition → String → Value → Fields
sorted_material position chain_tag issued_at = field "chain_tag" (str chain_tag) (
    field "issued_at" issued_at (
      field "schema_version" (str cursor_schema) (
        field "sequence" (int (pos position.sequence))
          (field "twin_id" (str position.twin_id) end))))

unfoldable pub chain_material : StreamPosition → Fields
chain_material position = field "twin_id" (str position.twin_id) (
    field "sequence" (int (pos position.sequence))
      (field "event_hash" (str position.event_hash) end))

module _ ⦃host : Host⦄ where
  unfoldable pub chain_tag : CursorSigner → StreamPosition → String
  chain_tag signer position =
      b64url_encode
        (host.hmac_sha256 signer.key (utf8 (canonical_json (obj (chain_material position)))))

  unfoldable pub cursor_payload : CursorSigner → StreamPosition → ℕ → List ℕ
  cursor_payload signer position now = utf8 (
      canonical_json
        (obj (cursor_material position (chain_tag signer position) (str (host.isoformat_z now)))))

  unfoldable pub issue : CursorSigner → StreamPosition → ℕ → String
  issue signer position now =
      let payload = cursor_payload signer position now in
      b64url_encode payload ++ ("." ++ b64url_encode (host.hmac_sha256 signer.key payload))

  -- What `verify` asks of the material of an authentic payload.
  unfoldable pub check_header : String → Fields → Result (Unit {0})
  check_header twin_id material = do
    ensure (has_expected_keys material) resume_cursor_rejected
    version ← require "schema_version" material
    ensure (same version (str cursor_schema)) resume_cursor_rejected
    twin ← require "twin_id" material
    ensure (same twin (str twin_id)) resume_cursor_rejected

  unfoldable pub check_window : CursorSigner → String → ℕ → ℤ → String → ℕ → Result DecodedCursor
  check_window signer twin_id now sequence tag issued_at = do
    reject_if (ltb (now + signer.allowed_clock_skew) issued_at) resume_cursor_rejected
    reject_if (has_expired signer.max_age now issued_at) resume_cursor_rejected
    ok (record {
      twin_id = twin_id;
      sequence = sequence;
      chain_tag = tag;
      issued_at = issued_at;
      signing_key_id = signer.key_id;
    })

  unfoldable pub read_material : CursorSigner → String → ℕ → Fields → Result DecodedCursor
  read_material signer twin_id now material = do
    raw_sequence ← require "sequence" material
    sequence ← as_int raw_sequence
    raw_tag ← require "chain_tag" material
    tag ← as_text raw_tag
    raw_time ← require "issued_at" material
    time ← as_text raw_time
    issued_at ← as_rejected (parse_time time)
    check_window signer twin_id now sequence tag issued_at

  -- The payload of a token, and the signature that it comes with.
  unfoldable pub token_bytes : String → Result (List ℕ × List ℕ)
  token_bytes token = do
    parts ← two_parts (split_dots token)
    payload ← b64url_decode parts.0
    signature ← b64url_decode parts.1
    ok (payload, signature)

  unfoldable pub verify_cursor : CursorSigner → String → String → ℕ → Result DecodedCursor
  verify_cursor signer token twin_id now = do
    bytes ← token_bytes token
    ensure (same_bytes bytes.1 (host.hmac_sha256 signer.key bytes.0)) resume_cursor_rejected
    material ← as_object (host.json_loads bytes.0)
    check_header twin_id material
    read_material signer twin_id now material

  unfoldable pub signed_by : CursorSigner → Result (List ℕ × List ℕ) → Bool
  signed_by signer (ok (payload, signature)) =
      same_bytes signature (host.hmac_sha256 signer.key payload)
  signed_by signer (err e) = false

  unfoldable pub matches_signature : CursorSigner → String → Bool
  matches_signature signer token = signed_by signer (token_bytes token)

  unfoldable pub verify_chain_binding :
      CursorSigner → DecodedCursor → StreamPosition → Result StreamPosition
  verify_chain_binding signer cursor position = do
    reject_if
        (not (cursor.twin_id == position.twin_id)
          || not (eqb_ℤ cursor.sequence (pos position.sequence)))
        resume_cursor_rejected
    genuine ← compare_digest cursor.chain_tag (chain_tag signer position)
    ensure genuine resume_cursor_rejected
    ok position

-- ===== src/Tests/Cursors.antt =====
-- A key ring, a batch of records, and a filter of a consumer.
use k2s.Prelude.{
  ℕ, String, ◌≡◌, ◌≢◌, refl, Option, none, some, List, [], ◌∷◌, true, false, All, Memᴰ, arith, ℤ,
  pos, ◌↔◌, ◌==◌,
}
use k2s.Errors.{ok}
use k2s.Value.{Value, int, obj, str}
use k2s.Host.{Host, aware}
use k2s.Types.{plane_value, authoritative, type_name, evidence_ingested}
use k2s.Sync.Position.{StreamPosition}
use k2s.Sync.Base64.{b64url_encode, b64url_decode}
use k2s.Sync.Base64.RoundTrip.{b64url_decode_iff}
use k2s.Sync.Cursor.{
  CursorSigner, DecodedCursor, sorted_material, issue, matches_signature, chain_tag,
}
use k2s.Sync.KeyRing.{KeyRing, new_ring, rotate, issue_active, verify_ring, bind_ring}
use k2s.Sync.KeyRing.Genuine.{IsGenuine, verify_ring-IsGenuine}
use k2s.Sync.KeyRing.RoundTrip.{issued_cursor, ReadsBack, issue_active-accepted}
use k2s.Sync.Limits.{default_limits, validate_batch}
use k2s.Sync.Limits.Batch.{IsWithin, validate_batch_iff}
use k2s.Sync.Subjects.{consumer_filter, event_subject}
use k2s.Sync.Subjects.Routing.{selects, Names, consumer_filter-selects_iff}
use k2s.Tests.Data.{test_host, evidence_event}

abbrev three : List ℕ
three = 0 ∷ 255 ∷ 16 ∷ 7 ∷ []

b64url_decode_iff_example :
    (b64url_decode "AP8QBw" ≡ ok three) ↔ (("AP8QBw" ≡ b64url_encode three) × (three ≢ []))
b64url_decode_iff_example =
    b64url_decode_iff "AP8QBw" three (omega arith, (omega arith, (omega arith, (omega arith, tt))))

abbrev place : StreamPosition
place = record { twin_id = "t1"; sequence = 3; event_hash = "h3" }

abbrev loads : List ℕ → Option Value
loads [] = none
loads (b ∷ bs) = some (obj (sorted_material place "BwgJ" (str "2026-01-01T00:00:00Z")))

-- The digest is the key, and the only text of JSON is that of one cursor.
abbrev cursor_host : Host
cursor_host = record test_host { hmac_sha256 = λ key message. key; json_loads = loads }

abbrev signer : ℕ → String → CursorSigner
signer first key_id = record {
  key = first ∷ 8 ∷ 9 ∷ [];
  key_id = key_id;
  max_age = some 100;
  allowed_clock_skew = 2;
}

abbrev ring : KeyRing
ring = record { active = signer 7 "k7"; verification_order = signer 7 "k7" ∷ signer 6 "k6" ∷ [] }

abbrev rotated : KeyRing
rotated = record { active = signer 5 "k5"; verification_order = signer 5 "k5" ∷ signer 7 "k7" ∷ [] }

ring-made : new_ring (signer 7 "k7") (signer 6 "k6" ∷ []) ≡ ok ring
unfolding new_ring k2s.Sync.KeyRing.all_distinct k2s.Sync.KeyRing.key_ids k2s.Prelude.contains
ring-made = refl

ring-rotated : rotate ring (signer 5 "k5") (pos 1) ≡ ok rotated
unfolding rotate new_ring k2s.Prelude.keep k2s.Sync.KeyRing.all_distinct k2s.Sync.KeyRing.key_ids
    k2s.Prelude.contains
ring-rotated = refl

other_name : ("k7" == "k5") ≡ false
other_name = refl

foreign :
    matches_signature ⦃host = cursor_host⦄
      (signer 5 "k5")
      (issue_active ⦃host = cursor_host⦄ ring place 5)
    ≡ false
unfolding matches_signature k2s.Sync.Cursor.signed_by k2s.Sync.Cursor.token_bytes
    k2s.Sync.Cursor.two_parts k2s.Sync.Text.split_dots issue b64url_encode
    k2s.Sync.Base64.rstrip_equals k2s.Sync.Base64.urlsafe_b64encode k2s.Sync.Cursor.cursor_payload
    k2s.Sync.Utf8.utf8 k2s.Host.canonical_json k2s.Sync.Base64.digit b64url_decode
    k2s.Sync.Base64.b64decode k2s.Sync.Base64.padding k2s.Sync.Text.size k2s.Sync.Base64.digit_value
    k2s.Sync.Base64.equals_signs k2s.Sync.Base64.one_byte k2s.Sync.Base64.three_bytes
    k2s.Sync.Base64.two_bytes k2s.Sync.Cursor.chain_material chain_tag
    k2s.Sync.Cursor.cursor_material k2s.Sync.Cursor.same_bytes k2s.Sync.Utf8.utf8_bytes
foreign = refl

reads : ReadsBack ⦃host = cursor_host⦄ (signer 7 "k7") place 5
unfolding matches_signature k2s.Sync.Cursor.signed_by k2s.Sync.Cursor.token_bytes
    k2s.Sync.Cursor.two_parts k2s.Sync.Text.split_dots issue b64url_encode
    k2s.Sync.Base64.rstrip_equals k2s.Sync.Base64.urlsafe_b64encode k2s.Sync.Cursor.cursor_payload
    k2s.Sync.Utf8.utf8 k2s.Host.canonical_json k2s.Sync.Base64.digit b64url_decode
    k2s.Sync.Base64.b64decode k2s.Sync.Base64.padding k2s.Sync.Text.size k2s.Sync.Base64.digit_value
    k2s.Sync.Base64.equals_signs k2s.Sync.Base64.one_byte k2s.Sync.Base64.three_bytes
    k2s.Sync.Base64.two_bytes k2s.Sync.Cursor.chain_material chain_tag
    k2s.Sync.Cursor.cursor_material k2s.Sync.Cursor.same_bytes k2s.Sync.Utf8.utf8_bytes
    k2s.Host.parse_time
reads = record {
  digest_bytes = λ m. (omega arith, (omega arith, (omega arith, tt)));
  digest_some = λ m e. cc;
  no_json = refl;
  time = refl;
  loaded = refl;
}

abbrev token : String
token = issue ⦃host = cursor_host⦄ (signer 7 "k7") place 5

accepted :
    verify_ring ⦃host = cursor_host⦄ ring token "t1" 6
    ≡ ok (issued_cursor ⦃host = cursor_host⦄ (signer 7 "k7") place 5)
unfolding matches_signature k2s.Sync.Cursor.signed_by k2s.Sync.Cursor.token_bytes
    k2s.Sync.Cursor.two_parts k2s.Sync.Text.split_dots issue b64url_encode
    k2s.Sync.Base64.rstrip_equals k2s.Sync.Base64.urlsafe_b64encode k2s.Sync.Cursor.cursor_payload
    k2s.Sync.Utf8.utf8 k2s.Host.canonical_json k2s.Sync.Base64.digit b64url_decode
    k2s.Sync.Base64.b64decode k2s.Sync.Base64.padding k2s.Sync.Text.size k2s.Sync.Base64.digit_value
    k2s.Sync.Base64.equals_signs k2s.Sync.Base64.one_byte k2s.Sync.Base64.three_bytes
    k2s.Sync.Base64.two_bytes k2s.Sync.Cursor.chain_material chain_tag
    k2s.Sync.Cursor.cursor_material k2s.Sync.Cursor.same_bytes k2s.Sync.Utf8.utf8_bytes verify_ring
    k2s.Sync.KeyRing.verify_by k2s.Sync.Cursor.verify_cursor k2s.Sync.Cursor.as_object
    k2s.Sync.Cursor.check_header k2s.Sync.Cursor.has_expected_keys k2s.Prelude.is_subset
    k2s.Prelude.all k2s.Value.field_names sorted_material k2s.Prelude.contains k2s.Value.require
    k2s.Value.same k2s.Sync.Cursor.read_material k2s.Sync.Cursor.as_int k2s.Sync.Cursor.as_text
    k2s.Host.parse_time k2s.Sync.Cursor.check_window
accepted = refl

verify_ring-IsGenuine_example :
    (s : CursorSigner) × Memᴰ s ring.verification_order
    × IsGenuine ⦃host = cursor_host⦄ s token "t1" 6
        (issued_cursor ⦃host = cursor_host⦄ (signer 7 "k7") place 5)
verify_ring-IsGenuine_example =
    verify_ring-IsGenuine ⦃host = cursor_host⦄ ring token "t1" 6
      (issued_cursor ⦃host = cursor_host⦄ (signer 7 "k7") place 5) accepted

issue_active-accepted_example :
    (verify_ring ⦃host = cursor_host⦄ ring (issue_active ⦃host = cursor_host⦄ ring place 5) "t1" 6
      ≡ ok (issued_cursor ⦃host = cursor_host⦄ (signer 7 "k7") place 5))
    × (bind_ring ⦃host = cursor_host⦄ ring
          (issued_cursor ⦃host = cursor_host⦄ (signer 7 "k7") place 5)
          place
        ≡ ok place)
    × (verify_ring ⦃host = cursor_host⦄ rotated
          (issue_active ⦃host = cursor_host⦄ ring place 5)
          "t1"
          6
        ≡ ok (issued_cursor ⦃host = cursor_host⦄ (signer 7 "k7") place 5))
    × (bind_ring ⦃host = cursor_host⦄ rotated
          (issued_cursor ⦃host = cursor_host⦄ (signer 7 "k7") place 5)
          place
        ≡ ok place)
issue_active-accepted_example =
    issue_active-accepted ⦃host = cursor_host⦄ (signer 7 "k7") place 5 reads 6 (omega arith) refl
      ring rotated (signer 6 "k6" ∷ []) (signer 5 "k5") (pos 1) ring-made ring-rotated (omega arith)
      other_name foreign

validate_batch_iff_example :
    (validate_batch default_limits (int (pos 3) ∷ int (pos 4) ∷ []) (int (pos 9)) ≡ ok tt)
    ↔ IsWithin default_limits (int (pos 3) ∷ int (pos 4) ∷ []) (int (pos 9))
validate_batch_iff_example =
    validate_batch_iff default_limits (int (pos 3) ∷ int (pos 4) ∷ []) (int (pos 9))

abbrev filter : String
filter = "argo.dt.acme.t1.*.EvidenceIngested"

abbrev subject : String
subject = "argo.dt.acme.t1.authoritative.EvidenceIngested"

filter-made : consumer_filter "acme" (some "t1") none (some "EvidenceIngested") ≡ ok filter
unfolding consumer_filter k2s.Sync.Subjects.token k2s.Sync.Text.is_token k2s.Sync.Text.all_codes
    k2s.Sync.Text.is_token_code k2s.Sync.Text.size k2s.Sync.Subjects.token_or_any
    k2s.Sync.Subjects.bounded k2s.Sync.Utf8.utf8 k2s.Sync.Text.join_dots
filter-made = refl

subject-made : event_subject "acme" evidence_event ≡ ok subject
unfolding event_subject k2s.Sync.Subjects.token k2s.Sync.Text.is_token k2s.Sync.Text.all_codes
    k2s.Sync.Text.is_token_code k2s.Sync.Text.size type_name k2s.Sync.Subjects.bounded
    k2s.Sync.Utf8.utf8 k2s.Sync.Text.join_dots
subject-made = refl

consumer_filter-selects_iff_example : (selects filter subject ≡ true) ↔ (
    ◌≡◌ {A = String} "acme" "acme"
    × Names (some "t1") "t1"
    × Names none (plane_value authoritative)
    × Names (some "EvidenceIngested") (type_name evidence_ingested))
consumer_filter-selects_iff_example =
    consumer_filter-selects_iff "acme" "acme" (some "t1") none (some "EvidenceIngested")
      evidence_event filter subject filter-made subject-made

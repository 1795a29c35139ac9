-- ===== src/Service/Streams/Resumed.antt =====
-- Where a state stream that resumes from a token of a key ring starts.
use k2s.Prelude.{
  ℕ, String, ◌≡◌, sym, ap, ◌∙◌, Bool, List, Option, some, ◌==◌, pos, find_first, Memᴰ,
}
use mathlib.Core.Path.{subst}
use k2s.Errors.{ok, >>=-eq-ok, skip-eq-ok, or_raise, or_raise-eq-ok, invariant_violation}
use k2s.Host.{Host}
use k2s.Value.{Value}
use k2s.Types.{ActorContext}
use k2s.Store.{Ledger}
use k2s.Sync.Cursor.{CursorSigner, DecodedCursor, chain_tag}
use k2s.Sync.KeyRing.{KeyRing, verify_ring}
use k2s.Sync.KeyRing.Genuine.{IsGenuine, verify_ring-IsGenuine}
use k2s.Sync.Limits.{negotiate}
use k2s.Sync.Session.{CursorCodec, ring_codec}
use k2s.Sync.Durable.{Durable}
use k2s.Sync.Durable.Opened.{IsOpenedAt, open_at-IsOpenedAt}
use k2s.Sync.KeyRing.Bound.{bind_ring-eq-ok}
use k2s.Service.Streams.{
  StreamConfig, check_reader, resume_at, stream_position, stream_planes, open_state_stream,
}

module _ ⦃host : Host⦄ where
  -- A stream that a token of a ring has resumed.
  pub record Resumes (ring : KeyRing) (db : Ledger) (twin_id token : String) (now : ℕ) (d : Durable)
      : Type 0 where
    pub cursor : DecodedCursor
    pub maker : CursorSigner
    pub accepted : Memᴰ maker ring.verification_order
    pub genuine : IsGenuine maker token twin_id now cursor
    pub twin : d.position.twin_id ≡ twin_id
    pub sequence : cursor.sequence ≡ pos d.position.sequence
    pub binder : CursorSigner
    pub named :
        find_first (λ s. s.key_id == cursor.signing_key_id) ring.verification_order ≡ some binder
    pub tag : cursor.chain_tag ≡ chain_tag binder d.position
    pub opened : IsOpenedAt db d.position d

  -- A state stream that is opened with a token of a key ring is open to the actor, and resumes where
  -- the token says: one of the ring's signers made the token for that twin; the subscription stands
  -- at the sequence of its cursor, at an event of the ledger whose hash the tag of the cursor binds,
  -- or at the origin; it replays up to the head; and nothing is outstanding or out of order.
  pub open_state_stream-Resumes :
      (service : StreamConfig) (ring : KeyRing) (twin_id : String) (actor : ActorContext)
      (token : String) (event_types : List String) (projections : Bool) (window : Option Value)
      (now : ℕ) (db : Ledger) (d : Durable)
      → service.cursor_signer ≡ some (ring_codec ring)
      → open_state_stream service twin_id actor (some token) event_types projections window now db
        ≡ ok d
      → (check_reader actor.subject_id twin_id actor db ≡ ok tt)
        × Resumes ring db twin_id token now d
  unfolding open_state_stream resume_at
  open_state_stream-Resumes service ring twin_id actor token event_types projections window now db d
        configured h =
      let (reader, h1) = skip-eq-ok (check_reader actor.subject_id twin_id actor db) _ h in
      let (codec, have, h2) = >>=-eq-ok (or_raise service.cursor_signer invariant_violation) _ h1 in
      let codec_eq : codec ≡ ring_codec ring =
        some_injective (sym (or_raise-eq-ok service.cursor_signer _ have) ∙ configured) in
      let (start, resumed, h3) = >>=-eq-ok (resume_at codec (some token) twin_id now db) _ h2 in
      let resumed' : resume_at (ring_codec ring) (some token) twin_id now db ≡ ok start =
        ap (λ k. resume_at k (some token) twin_id now db) (sym codec_eq) ∙ resumed in
      let (cursor, verified, r1) = >>=-eq-ok (verify_ring ring token twin_id now) _ resumed' in
      let (position, found, r2) = >>=-eq-ok (stream_position twin_id cursor.sequence db) _ r1 in
      let (same, twin, sequence, (binder, named, tag)) =
        bind_ring-eq-ok ring cursor position start r2 in
      let (maker, member, genuine) = verify_ring-IsGenuine ring token twin_id now cursor verified in
      let (limits, narrowed, h4) = >>=-eq-ok (negotiate service.sync_limits window) _ h3 in
      let opened =
        open_at-IsOpenedAt db service.queue_capacity start limits event_types
          (stream_planes projections) d h4 in
      let at : d.position ≡ position = opened.position ∙ same in
      (
        reader,
        record {
          cursor = cursor;
          maker = maker;
          accepted = member;
          genuine = genuine;
          twin = ap (λ p. p.twin_id) at ∙ sym twin ∙ genuine.same_twin;
          sequence = sequence ∙ ap (λ p. pos p.sequence) (sym at);
          binder = binder;
          named = named;
          tag = tag ∙ ap (chain_tag binder) (sym at);
          opened = subst (λ p. IsOpenedAt db p d) (sym opened.position) opened;
        },
      )
    where
      some_injective : {a b : CursorCodec} → some a ≡ some b → a ≡ b
      some_injective e = cc

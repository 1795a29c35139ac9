-- ===== src/Sync/Session/Echo.antt =====
-- A client that sends the token of the last frame back.
use k2s.Prelude.{
  ℕ, ◌<◌, ◌≡◌, refl, sym, ap, ◌∙◌, false, List, [], ◌∷◌, ◌++◌, some, pos, eq_refl, eqb, ltb,
  find_first, arith,
}
use mathlib.Core.Path.{subst}
use k2s.Errors.{Result, ok, err}
use k2s.Host.{Host}
use k2s.Types.{EventEnvelope}
use k2s.Store.{Ledger}
use k2s.Sync.Position.{StreamPosition, new_position}
use k2s.Sync.Cursor.{DecodedCursor}
use k2s.Sync.Frames.{StateChangeFrame, from_event}
use k2s.Sync.Durable.{
  Durable, Outcome, delivered, raised, stopped, waits, spent, anext, acknowledge, acknowledge_new,
  acknowledgement_candidate, at_sequence, drop_until,
}
use k2s.Sync.Durable.Moves.{position_of, new_position-ok}
use k2s.Sync.Durable.Window.{IsWindowed, Ascending}
use k2s.Sync.Durable.Kept.{HandsOver, anext-HandsOver}
use k2s.Sync.Session.{
  CursorCodec, count_frame, count_acknowledgement, Sent, sent, failed, over, pending, exhausted,
  candidate_at, framed, after_event, next_frame, acknowledge_token,
}

last-Ascending :
    (a : ℕ) (ps : List StreamPosition) (q : StreamPosition) (b : ℕ)
    → Ascending a (ps ++ q ∷ []) b
    → a < q.sequence
last-Ascending a [] q b k = k.0
last-Ascending a (p ∷ ps) q b k = omega (arith, k.0, last-Ascending p.sequence ps q b k.1)

at_sequence-last :
    (a : ℕ) (ps : List StreamPosition) (q : StreamPosition) (b : ℕ)
    → Ascending a (ps ++ q ∷ []) b
    → at_sequence q.sequence (ps ++ q ∷ []) ≡ some q
unfolding find_first
at_sequence-last a [] q b k = ground arith
at_sequence-last a (p ∷ ps) q b k =
    ground (arith, last-Ascending p.sequence ps q b k.1, at_sequence-last p.sequence ps q b k.1)

drop_until-last :
    (a : ℕ) (ps : List StreamPosition) (q : StreamPosition) (b : ℕ)
    → Ascending a (ps ++ q ∷ []) b
    → drop_until q.sequence (ps ++ q ∷ []) ≡ []
unfolding drop_until
drop_until-last a [] q b k = ground arith
drop_until-last a (p ∷ ps) q b k =
    ground (arith, last-Ascending p.sequence ps q b k.1, drop_until-last p.sequence ps q b k.1)

-- What a codec promises of its own token for a position, read at a later time.
pub record Echoes (codec : CursorCodec) (p : StreamPosition) (now later : ℕ) : Type 0 where
  pub cursor : DecodedCursor
  pub verified : codec.verify (codec.issue p now) p.twin_id later ≡ ok cursor
  pub sequence : cursor.sequence ≡ pos p.sequence
  pub bound : codec.verify_chain_binding cursor p ≡ ok p

-- A subscription that has acknowledged all that it handed over.
abbrev pub settled : Durable → Durable
settled d = record d { outstanding = []; acknowledged = d.position }

module _ (d : Durable) (ps : List StreamPosition) (last : d.outstanding ≡ ps ++ d.position ∷ [])
    (w : IsWindowed d) where
  rises : Ascending d.acknowledged.sequence (ps ++ d.position ∷ []) d.position.sequence
  rises = subst (λ qs. Ascending d.acknowledged.sequence qs d.position.sequence) last w.ascending

  last-found : at_sequence d.position.sequence d.outstanding ≡ some d.position
  last-found =
      ap (at_sequence d.position.sequence) last
      ∙ at_sequence-last d.acknowledged.sequence ps d.position d.position.sequence rises

  candidate-last : acknowledgement_candidate d.position.sequence d ≡ ok d.position
  unfolding acknowledgement_candidate
  candidate-last = ground (
    arith,
    last-Ascending d.acknowledged.sequence ps d.position d.position.sequence rises,
    last-found,
  )

  acknowledge-last : acknowledge d.position d ≡ ok (d.position, settled d)
  unfolding acknowledge acknowledge_new
  acknowledge-last =
      let ahead = last-Ascending d.acknowledged.sequence ps d.position d.position.sequence rises in
      let gone : drop_until d.position.sequence d.outstanding ≡ [] =
        ap (drop_until d.position.sequence) last
        ∙ drop_until-last d.acknowledged.sequence ps d.position d.position.sequence rises in
      let regress : ltb d.position.sequence d.acknowledged.sequence ≡ false =
        ground (arith, ahead) in
      let again : eqb d.position.sequence d.acknowledged.sequence ≡ false = ground (arith, ahead) in
      simp (
        eq_refl d.position.twin_id,
        eq_refl d.position.event_hash,
        regress,
        again,
        last-found,
        gone,
      )

module _ ⦃host : Host⦄ (codec : CursorCodec) (now : ℕ) where
  -- What a frame says of the subscription that handed it over.
  record Tells (f : StateChangeFrame) (c : Durable) : Type 0 where
    twin : f.twin_id ≡ c.position.twin_id
    sequence : f.sequence ≡ c.position.sequence
    token : f.resume_token ≡ codec.issue c.position now
    windowed : IsWindowed c
    earlier : List StreamPosition
    last : c.outstanding ≡ earlier ++ c.position ∷ []

  position-Tells :
      (e : EventEnvelope) (p : StreamPosition) (c : Durable) (ps : List StreamPosition)
      → p ≡ position_of e
      → c.position ≡ position_of e
      → c.outstanding ≡ ps ++ position_of e ∷ []
      → IsWindowed c
      → Tells (from_event e (codec.issue p now)) (count_frame c)
  unfolding from_event
  position-Tells e p c ps at here last w = record {
    twin = ap (λ q. q.twin_id) (sym here);
    sequence = ap (λ q. q.sequence) (sym here);
    token = ap (λ q. codec.issue q now) (at ∙ sym here);
    windowed = record { ascending = w.ascending; bounded = w.bounded };
    earlier = ps;
    last = last ∙ ap (λ q. ps ++ q ∷ []) (sym here);
  }

  -- Only `sent` comes with a frame.
  Announces : Sent × Durable → Type 0
  Announces (sent f, c) = Tells f c
  Announces (failed x, c) = Unit
  Announces (over, c) = Unit
  Announces (pending, c) = Unit
  Announces (exhausted, c) = Unit

  framed-Announces :
      (e : EventEnvelope) (r : Result StreamPosition) (c : Durable) (ps : List StreamPosition)
      → new_position e.twin_id (pos e.sequence) e.event_hash ≡ r
      → c.position ≡ position_of e
      → c.outstanding ≡ ps ++ position_of e ∷ []
      → IsWindowed c
      → Announces (framed codec now e r c)
  unfolding framed Announces
  framed-Announces e (err x) c ps h here last w = tt
  framed-Announces e (ok p) c ps h here last w =
      position-Tells e p c ps (new_position-ok e.twin_id e.event_hash e.sequence p h) here last w

  after_event-Announces :
      (r : Outcome × Durable) → HandsOver r → Announces (after_event codec now r)
  unfolding after_event Announces
  after_event-Announces (delivered e source, c) (w, here, (ps, last)) =
      framed-Announces e (new_position e.twin_id (pos e.sequence) e.event_hash) c ps refl here last
        w
  after_event-Announces (raised x, c) w = tt
  after_event-Announces (stopped, c) w = tt
  after_event-Announces (waits, c) w = tt
  after_event-Announces (spent, c) w = tt

  next_frame-Tells :
      (db : Ledger) (d c : Durable) (f : StateChangeFrame)
      → IsWindowed d
      → next_frame codec now db d ≡ (sent f, c)
      → Tells f c
  unfolding next_frame Announces
  next_frame-Tells db d c f w h =
      subst Announces h (after_event-Announces (anext db d) (anext-HandsOver db d w))

  -- If the window of a subscription is in order, a frame names the position at which the subscription
  -- stands after it. If the codec reads its own token at a later time, and binds it to that position,
  -- the token, sent back at that time, is accepted, acknowledges that position, and leaves nothing
  -- outstanding.
  pub next_frame-acknowledge_token :
      (db : Ledger) (d c : Durable) (f : StateChangeFrame) (later : ℕ)
      → IsWindowed d
      → next_frame codec now db d ≡ (sent f, c)
      → Echoes codec c.position now later
      → (f.twin_id ≡ c.position.twin_id)
        × (f.sequence ≡ c.position.sequence)
        × (acknowledge_token codec f.resume_token later c
            ≡ ok (c.position, count_acknowledgement (settled c)))
  unfolding acknowledge_token candidate_at
  next_frame-acknowledge_token db d c f later w h echo =
      let t = next_frame-Tells db d c f w h in
      let verified : codec.verify f.resume_token c.position.twin_id later ≡ ok echo.cursor =
        ap (λ s. codec.verify s c.position.twin_id later) t.token ∙ echo.verified in
      let candidate : candidate_at echo.cursor.sequence c ≡ ok c.position =
        ap (λ n. candidate_at n c) echo.sequence ∙ candidate-last c t.earlier t.last t.windowed in
      (
        t.twin,
        t.sequence,
        simp (verified, candidate, echo.bound, acknowledge-last c t.earlier t.last t.windowed),
      )

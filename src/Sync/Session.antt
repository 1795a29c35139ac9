-- ===== src/Sync/Session.antt =====
-- `StateStreamSession` of argo_dt/sync.py, over any `CursorCodec`. The service gives a session and
-- its subscription the same `SyncMetrics`. Clock readings are arguments.
pub mod Echo
use k2s.Prelude.{ℕ, ◌+◌, String, ℤ, pos, negsuc, List, [], ◌∷◌}
use k2s.Errors.{Error, Result, ok, err, protocol_violation, ◌>>=◌}
use k2s.Host.{Host}
use k2s.Types.{EventEnvelope}
use k2s.Store.{Ledger}
use k2s.Sync.Position.{StreamPosition, new_position}
use k2s.Sync.Cursor.{CursorSigner, DecodedCursor, issue, verify_cursor, verify_chain_binding}
use k2s.Sync.KeyRing.{KeyRing, issue_active, verify_ring, bind_ring}
use k2s.Sync.Frames.{StateChangeFrame, HeartbeatFrame, CloseFrame, new_close_frame, from_event}
use k2s.Sync.Durable.{
  Durable, Outcome, delivered, raised, stopped, waits, spent, Source, anext, acknowledge, aclose,
  acknowledgement_candidate,
}

-- What single keys and rings have in common.
pub record CursorCodec : Type 0 where
  pub issue : StreamPosition → ℕ → String
  pub verify : String → String → ℕ → Result DecodedCursor
  pub verify_chain_binding : DecodedCursor → StreamPosition → Result StreamPosition

module _ ⦃host : Host⦄ where
  abbrev pub signer_codec : CursorSigner → CursorCodec
  signer_codec signer = record {
    issue = issue signer;
    verify = verify_cursor signer;
    verify_chain_binding = verify_chain_binding signer;
  }

  abbrev pub ring_codec : KeyRing → CursorCodec
  ring_codec ring = record {
    issue = issue_active ring;
    verify = verify_ring ring;
    verify_chain_binding = bind_ring ring;
  }

abbrev pub count_frame : Durable → Durable
count_frame d = record d {
  metrics = record d.metrics { emitted_frames = d.metrics.emitted_frames + 1 };
}

abbrev pub count_acknowledgement : Durable → Durable
count_acknowledgement d = record d {
  metrics = record d.metrics { acknowledgements = d.metrics.acknowledgements + 1 };
}

abbrev pub count_heartbeat : Durable → Durable
count_heartbeat d = record d {
  metrics = record d.metrics { heartbeats = d.metrics.heartbeats + 1 };
}

-- What `__anext__` of a session comes to.
pub data Sent : Type 0 where
  sent : StateChangeFrame → Sent
  failed : Error → Sent
  over pending exhausted : Sent

-- A cursor of a negative sequence names no position of the window.
unfoldable pub candidate_at : ℤ → Durable → Result StreamPosition
candidate_at (pos n) d = acknowledgement_candidate n d
candidate_at (negsuc n) d = err protocol_violation

module _ ⦃host : Host⦄ (codec : CursorCodec) where
  unfoldable pub framed : ℕ → EventEnvelope → Result StreamPosition → Durable → Sent × Durable
  framed now e (err x) d = (failed x, d)
  framed now e (ok p) d = (sent (from_event e (codec.issue p now)), count_frame d)

  unfoldable pub after_event : ℕ → Outcome × Durable → Sent × Durable
  after_event now (delivered e source, d) =
      framed now e (new_position e.twin_id (pos e.sequence) e.event_hash) d
  after_event now (raised x, d) = (failed x, d)
  after_event now (stopped, d) = (over, d)
  after_event now (waits, d) = (pending, d)
  after_event now (spent, d) = (exhausted, d)

  -- __anext__
  unfoldable pub next_frame : ℕ → Ledger → Durable → Sent × Durable
  next_frame now db d = after_event now (anext db d)

  unfoldable pub acknowledge_token : String → ℕ → Durable → Result (StreamPosition × Durable)
  acknowledge_token resume_token now d = do
    decoded ← codec.verify resume_token d.position.twin_id now
    candidate ← candidate_at decoded.sequence d
    bound ← codec.verify_chain_binding decoded candidate
    acknowledged ← acknowledge bound d
    ok (acknowledged.0, count_acknowledgement acknowledged.1)

  unfoldable pub heartbeat : ℕ → ℕ → Durable → HeartbeatFrame × Durable
  heartbeat now sent_at d = (
    record {
      twin_id = d.acknowledged.twin_id;
      acknowledged_sequence = d.acknowledged.sequence;
      resume_token = codec.issue d.acknowledged now;
      sent_at = host.isoformat_z sent_at;
    },
    count_heartbeat d,
  )

  -- A frame that is refused leaves the subscription open.
  unfoldable pub close_session : ℤ → String → ℕ → Durable → Result (CloseFrame × Durable)
  close_session close_code reason now d = do
    frame ← new_close_frame (record {
      twin_id = d.acknowledged.twin_id;
      close_code = close_code;
      reason = reason;
      acknowledged_sequence = d.acknowledged.sequence;
      resume_token = codec.issue d.acknowledged now;
    })
    ok (frame, aclose d)

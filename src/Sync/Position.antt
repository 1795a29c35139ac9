-- ===== src/Sync/Position.antt =====
-- `StreamPosition` of argo_dt/sync.py.
use k2s.Prelude.{ℕ, String, not, ◌&&◌, ◌==◌, ℤ, pos, pos_part, eqb, ltb_ℤ, ltb}
use k2s.Errors.{Result, ok, reject_if, resume_cursor_rejected, ◌>>◌}
use k2s.Sync.Text.{is_hash}

pub record StreamPosition : Type 0 where
  pub twin_id : String
  pub sequence : ℕ
  pub event_hash : String

-- The constructor, whose `__post_init__` refuses.
unfoldable pub new_position : String → ℤ → String → Result StreamPosition
new_position twin_id sequence event_hash = do
  reject_if (twin_id == "") resume_cursor_rejected
  reject_if (ltb_ℤ sequence (pos 0)) resume_cursor_rejected
  reject_if (eqb (pos_part sequence) 0 && not (event_hash == "")) resume_cursor_rejected
  reject_if (ltb 0 (pos_part sequence) && not (is_hash event_hash)) resume_cursor_rejected
  ok (record { twin_id = twin_id; sequence = pos_part sequence; event_hash = event_hash })

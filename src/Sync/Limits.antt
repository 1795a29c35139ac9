-- ===== src/Sync/Limits.antt =====
-- `SyncLimits` of argo_dt/sync.py. A negative limit, which is refused as 0 is, is left out.
pub mod Batch
use k2s.Prelude.{
  ℕ, ◌+◌, Bool, true, false, ◌||◌, List, [], ◌∷◌, Option, none, some, ℤ, pos, pos_part, ltb, ltb_ℤ,
  any, length, map,
}
use k2s.Errors.{
  Result, ok, err, reject_if, traverse, protocol_violation, message_too_large, value_error, ◌>>=◌,
  ◌>>◌,
}
use k2s.Value.{Value, int, same}

pub record SyncLimits : Type 0 where
  pub max_record_bytes : ℕ
  pub max_batch_bytes : ℕ
  pub max_batch_records : ℕ
  pub replay_page_size : ℕ
  pub max_in_flight : ℕ
  pub heartbeat_seconds : ℕ

abbrev pub default_limits : SyncLimits
default_limits = record {
  max_record_bytes = 1048576;
  max_batch_bytes = 4194304;
  max_batch_records = 500;
  replay_page_size = 256;
  max_in_flight = 128;
  heartbeat_seconds = 30;
}

-- __post_init__
unfoldable pub check_limits : SyncLimits → Result SyncLimits
check_limits l = do
  reject_if
      (ltb l.max_record_bytes 1
        || ltb l.max_batch_bytes 1
        || ltb l.max_batch_records 1
        || ltb l.replay_page_size 1
        || ltb l.max_in_flight 1
        || ltb l.heartbeat_seconds 1)
      value_error
  reject_if (ltb l.max_batch_bytes l.max_record_bytes) value_error
  ok l

unfoldable pub is_empty {ℓ} : {A : Type ℓ} → List A → Bool
is_empty [] = true
is_empty (x ∷ xs) = false

-- isinstance(value, int) and not isinstance(value, bool)
unfoldable pub int_of : Value → Result ℤ
int_of (int n) = ok n
int_of _ = err protocol_violation

abbrev pub is_negative : ℤ → Bool
is_negative n = ltb_ℤ n (pos 0)

-- sum(record_sizes), of sizes that are not negative
unfoldable pub total : List ℤ → ℕ
total [] = 0
total (n ∷ ns) = pos_part n + total ns

unfoldable pub validate_batch : SyncLimits → List Value → Value → Result (Unit {0})
validate_batch l record_sizes serialized_batch_bytes = do
  reject_if (is_empty record_sizes) protocol_violation
  reject_if (ltb l.max_batch_records (length record_sizes)) message_too_large
  batch ← int_of serialized_batch_bytes
  sizes ← traverse int_of record_sizes
  reject_if (is_negative batch || any is_negative sizes) protocol_violation
  reject_if (ltb (pos_part batch) (total sizes)) protocol_violation
  reject_if (any (λ n. ltb l.max_record_bytes (pos_part n)) sizes) message_too_large
  reject_if (ltb l.max_batch_bytes (pos_part batch)) message_too_large

-- A client's window, which must be at least as strict.
unfoldable pub narrow : SyncLimits → Value → Result SyncLimits
narrow l max_in_flight = do
  n ← int_of max_in_flight
  reject_if (ltb_ℤ n (pos 1) || ltb_ℤ (pos l.max_in_flight) n) protocol_violation
  check_limits (record l { max_in_flight = pos_part n })

unfoldable pub negotiate : SyncLimits → Option Value → Result SyncLimits
negotiate l none = ok l
negotiate l (some max_in_flight) = elim (same max_in_flight (int (pos 0))) [
  | true ↦ ok l
  | false ↦ narrow l max_in_flight
]

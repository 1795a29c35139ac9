-- ===== src/Host.antt =====
-- What the program takes from Python's standard library and does not implement: `str`,
-- `json.dumps` and `json.loads` on JSON values, SHA-256, HMAC, and the text form of an instant. A
-- section's parameter.
use k2s.Prelude.{ℕ, String, List, Option, none, some, if◌then◌else◌, true, false}
use k2s.Value.{Value, null, boolean, str}
use k2s.Errors.{Result, ok, err, invariant_violation, value_error}
use Prim.Native.String.{◌++◌}
use Prim.Native.Char.{code}
use k2s.Prelude.{eqb}

-- A `datetime`: an instant in UTC, or a clock reading with no offset.
pub data DateTime : Type 0 where
  aware : ℕ → DateTime
  naive : ℕ → DateTime

pub record Host : Type 0 where
  -- str(v) for a number, a list or a dict
  pub repr : Value → String
  -- json.dumps(v, sort_keys=True, separators=(",", ":"))
  pub json_dumps : Value → String
  -- hashlib.sha256(text.encode("utf-8")).hexdigest()
  pub sha256_hex : String → String
  -- datetime.isoformat() of an instant in UTC, and the same with "Z" for the offset
  pub isoformat : ℕ → String
  pub isoformat_z : ℕ → String
  -- astimezone(UTC) of a reading with no offset, which it takes for local time
  pub local_time : ℕ → ℕ
  -- datetime.fromisoformat, which may refuse
  pub fromisoformat : String → Option DateTime
  -- json.loads of UTF-8 bytes, which may refuse
  pub json_loads : List ℕ → Option Value
  -- hmac.new(key, message, hashlib.sha256).digest()
  pub hmac_sha256 : List ℕ → List ℕ → List ℕ

-- value.replace("Z", "+00:00")
replace_z : String → String
replace_z String.[] = ""
replace_z (String.◌∷◌ c s) =
    if eqb (code c) b'Z' then "+00:00" ++ replace_z s else String.◌∷◌ c (replace_z s)

offset_required : Option DateTime → Result ℕ
offset_required none = err value_error
offset_required (some (naive t)) = err invariant_violation
offset_required (some (aware t)) = ok t

module _ ⦃host : Host⦄ where
  -- str(v)
  unfoldable pub to_str : Value → String
  to_str (str s) = s
  to_str null = "None"
  to_str (boolean true) = "True"
  to_str (boolean false) = "False"
  to_str v = host.repr v

  unfoldable pub parse_time : String → Result ℕ
  unfolding replace_z offset_required
  parse_time value = offset_required (host.fromisoformat (replace_z value))

  unfoldable pub canonical_json : Value → String
  canonical_json v = host.json_dumps v

  unfoldable pub content_hash : Value → String
  unfolding canonical_json
  content_hash v = "sha256:" ++ host.sha256_hex (canonical_json v)

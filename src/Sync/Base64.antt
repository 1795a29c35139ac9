-- ===== src/Sync/Base64.antt =====
-- `_b64url_encode` and `_b64url_decode` of argo_dt/sync.py, on texts and lists of bytes.
pub mod RoundTrip
use Prim.Native.Nat.{◌/◌, ◌%◌}
use Prim.Native.Char.{Char, code}
use Prim.Native.String.{◌++◌, char_at}
use k2s.Prelude.{
  ℕ, zero, suc, ◌+◌, ◌-◌, ◌*◌, String, Bool, true, false, not, ◌&&◌, ◌||◌, List, [], ◌∷◌, Option,
  none, some, ◌==◌, eqb, leb, if◌then◌else◌,
}
use k2s.Errors.{Result, ok, ensure, reject_if, or_raise, resume_cursor_rejected, ◌>>=◌, ◌>>◌}
use k2s.Sync.Text.{size}

abbrev pub alphabet : String
alphabet = "ABCDEFGHIJKLMNOPQRSTUVWXYZabcdefghijklmnopqrstuvwxyz0123456789-_"

unfoldable pub digit : ℕ → Char
digit n = char_at alphabet n

-- base64.urlsafe_b64encode(value)
unfoldable pub urlsafe_b64encode : List ℕ → String
urlsafe_b64encode [] = ""
urlsafe_b64encode (a ∷ []) = String.◌∷◌ (digit (a / 4)) (String.◌∷◌ (digit (a % 4 * 16)) "==")
urlsafe_b64encode (a ∷ b ∷ []) =
    String.◌∷◌ (digit (a / 4))
      (String.◌∷◌ (digit (a % 4 * 16 + b / 16)) (String.◌∷◌ (digit (b % 16 * 4)) "="))
urlsafe_b64encode (a ∷ b ∷ c ∷ rest) = String.◌∷◌ (digit (a / 4)) (
    String.◌∷◌ (digit (a % 4 * 16 + b / 16)) (
      String.◌∷◌ (digit (b % 16 * 4 + c / 64))
        (String.◌∷◌ (digit (c % 64)) (urlsafe_b64encode rest))))

strip_before : Char → String → String
strip_before c String.[] = if eqb (code c) b'=' then "" else String.◌∷◌ c ""
strip_before c (String.◌∷◌ d s) = String.◌∷◌ c (String.◌∷◌ d s)

-- text.rstrip("=")
unfoldable pub rstrip_equals : String → String
unfolding strip_before
rstrip_equals String.[] = ""
rstrip_equals (String.◌∷◌ c s) = strip_before c (rstrip_equals s)

unfoldable pub b64url_encode : List ℕ → String
b64url_encode value = rstrip_equals (urlsafe_b64encode value)

-- What `b64decode` reads: "-" and "_" are turned into "+" and "/", which it takes as well.
unfoldable pub digit_value : ℕ → Option ℕ
digit_value c =
    if leb b'A' c && leb c b'Z'
    then some (c - b'A')
    else if leb b'a' c && leb c b'z'
    then some (c - b'a' + 26)
    else if leb b'0' c && leb c b'9'
    then some (c - b'0' + 52)
    else if eqb c b'-' || eqb c b'+'
    then some 62
    else if eqb c b'_' || eqb c b'/'
    then some 63
    else none

-- Four digits, three or two: three bytes, two or one.
unfoldable pub three_bytes :
    Option ℕ → Option ℕ → Option ℕ → Option ℕ → Option (List ℕ) → Option (List ℕ)
three_bytes (some p) (some q) (some r) (some s) (some rest) =
    some ((p * 4 + q / 16) ∷ (q % 16 * 16 + r / 4) ∷ (r % 4 * 64 + s) ∷ rest)
three_bytes _ _ _ _ _ = none

unfoldable pub two_bytes : Option ℕ → Option ℕ → Option ℕ → Option (List ℕ)
two_bytes (some p) (some q) (some r) = some ((p * 4 + q / 16) ∷ (q % 16 * 16 + r / 4) ∷ [])
two_bytes _ _ _ = none

unfoldable pub one_byte : Option ℕ → Option ℕ → Option (List ℕ)
one_byte (some p) (some q) = some ((p * 4 + q / 16) ∷ [])
one_byte _ _ = none

-- base64.b64decode(text, altchars=b"-_", validate=True): padding stands at the end only.
unfoldable pub b64decode : String → Option (List ℕ)
b64decode String.[] = some []
b64decode (String.◌∷◌ a (String.◌∷◌ b (String.◌∷◌ c (String.◌∷◌ d s)))) =
    let rest = b64decode s in
    if eqb (code c) b'=' && eqb (code d) b'=' && s == ""
    then one_byte (digit_value (code a)) (digit_value (code b))
    else if eqb (code d) b'=' && s == ""
    then two_bytes (digit_value (code a)) (digit_value (code b)) (digit_value (code c))
    else three_bytes (digit_value (code a)) (digit_value (code b)) (digit_value (code c))
        (digit_value (code d)) rest
b64decode _ = none

has_equals : String → Bool
has_equals String.[] = false
has_equals (String.◌∷◌ c s) = eqb (code c) b'=' || has_equals s

unfoldable pub equals_signs : ℕ → String
equals_signs zero = ""
equals_signs (suc n) = String.◌∷◌ "=" (equals_signs n)

-- "=" * (-len(value) % 4)
unfoldable pub padding : String → String
unfolding equals_signs
padding value = equals_signs ((4 - size value % 4) % 4)

unfoldable pub b64url_decode : String → Result (List ℕ)
unfolding has_equals
b64url_decode value = do
  reject_if (value == "" || has_equals value) resume_cursor_rejected
  decoded ← or_raise (b64decode (value ++ padding value)) resume_cursor_rejected
  ensure (b64url_encode decoded == value) resume_cursor_rejected
  ok decoded

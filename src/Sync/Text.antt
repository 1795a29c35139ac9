-- ===== src/Sync/Text.antt =====
-- The text patterns of argo_dt/sync.py, and Python's `split` and `join` at a full stop.
pub mod Dots
use Prim.Native.Char.{Char, code}
use Prim.Native.String.{◌++◌}
use k2s.Prelude.{
  ℕ, suc, String, Bool, true, false, ◌&&◌, ◌||◌, List, [], ◌∷◌, Option, none, some, eqb, leb,
  if◌then◌else◌,
}

-- len(text)
unfoldable pub size : String → ℕ
size String.[] = 0
size (String.◌∷◌ c s) = suc (size s)

unfoldable pub all_codes : (ℕ → Bool) → String → Bool
all_codes p String.[] = true
all_codes p (String.◌∷◌ c s) = p (code c) && all_codes p s

unfoldable pub is_token_code : ℕ → Bool
is_token_code c =
    (leb b'A' c && leb c b'Z')
    || (leb b'a' c && leb c b'z')
    || (leb b'0' c && leb c b'9')
    || eqb c b'_'
    || eqb c b'-'

-- [A-Za-z0-9_-]{1,64}\Z
unfoldable pub is_token : String → Bool
is_token s = all_codes is_token_code s && leb 1 (size s) && leb (size s) 64

is_hex_code : ℕ → Bool
is_hex_code c = (leb b'a' c && leb c b'f') || (leb b'0' c && leb c b'9')

-- What follows a prefix.
unfoldable pub after_prefix : String → String → Option String
after_prefix String.[] s = some s
after_prefix (String.◌∷◌ c p) String.[] = none
after_prefix (String.◌∷◌ c p) (String.◌∷◌ d s) =
    let rest = after_prefix p s in if eqb (code c) (code d) then rest else none

hex_digits : Option String → Bool
unfolding is_hex_code
hex_digits none = false
hex_digits (some s) = all_codes is_hex_code s && eqb (size s) 64

-- sha256:[a-f0-9]{64}\Z
unfoldable pub is_hash : String → Bool
unfolding hex_digits
is_hash s = hex_digits (after_prefix "sha256:" s)

abbrev pub is_dot : Char → Bool
is_dot c = eqb (code c) b'.'

unfoldable pub begin_with : Char → List String → List String
begin_with c [] = String.◌∷◌ c "" ∷ []
begin_with c (p ∷ ps) = String.◌∷◌ c p ∷ ps

-- text.split(".")
unfoldable pub split_dots : String → List String
unfolding begin_with
split_dots String.[] = "" ∷ []
split_dots (String.◌∷◌ c s) =
    let rest = split_dots s in if is_dot c then "" ∷ rest else begin_with c rest

-- ".".join(parts)
unfoldable pub join_dots : List String → String
join_dots [] = ""
join_dots (p ∷ []) = p
join_dots (p ∷ q ∷ ps) = p ++ ("." ++ join_dots (q ∷ ps))

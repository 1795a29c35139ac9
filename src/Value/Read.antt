-- ===== src/Value/Read.antt =====
-- Reading a payload: `payload.get(k)`, `payload[k]`, `k in payload`, truth and iteration.
use Prim.Native.Char.{code}
use k2s.Prelude.{
  ℕ, Bool, true, false, not, ◌&&◌, ◌||◌, String, pos, negsuc, List, [], ◌∷◌, Option, none, some,
  ◌==◌, if◌then◌else◌, eqb, leb, is_some, contains,
}
use k2s.Errors.{Error, Result, ok, err, key_error, type_error, or_raise}
use k2s.Value.Defs.{
  Value, null, boolean, int, float, str, arr, obj, nil, cons, Fields, end, field, to_list,
}

-- bool(v)
unfoldable pub truthy : Value → Bool
truthy null = false
truthy (boolean b) = b
truthy (int (pos n)) = not (eqb n 0)
truthy (int (negsuc n)) = true
truthy (float (pos m) k) = not (eqb m 0)
truthy (float (negsuc m) k) = true
truthy (str s) = not (s == "")
truthy (arr nil) = false
truthy (arr (cons v xs)) = true
truthy (obj end) = false
truthy (obj (field k v fs)) = true

unfoldable pub find_field : String → Fields → Option Value
find_field k end = none
find_field k (field j v fs) = if j == k then some v else find_field k fs

-- k in d
unfoldable pub has_field : String → Fields → Bool
unfolding find_field
has_field k fs = is_some (find_field k fs)

abbrev or_else : Option Value → Value → Value
or_else none d = d
or_else (some v) d = v

-- d.get(k, default)
unfoldable pub get_default : String → Value → Fields → Value
unfolding find_field
get_default k d fs = or_else (find_field k fs) d

-- d.get(k)
unfoldable pub get : String → Fields → Value
unfolding get_default
get k fs = get_default k null fs

-- d[k]
unfoldable pub require : String → Fields → Result Value
unfolding find_field
require k fs = or_raise (find_field k fs) key_error

-- d[k] = v
unfoldable pub put_field : String → Value → Fields → Fields
put_field k v end = field k v end
put_field k v (field j w fs) =
    let rest = put_field k v fs in if j == k then field j v fs else field j w rest

unfoldable pub field_names : Fields → List String
field_names end = []
field_names (field k v fs) = k ∷ field_names fs

-- The characters of a text, each as a text.
characters : String → List Value
characters String.[] = []
characters (String.◌∷◌ c s) = str (String.◌∷◌ c String.[]) ∷ characters s

names : List String → List Value
names [] = []
names (k ∷ ks) = str k ∷ names ks

-- iter(v): a list's items, a dict's keys, a text's characters.
unfoldable pub iterate : Value → Result (List Value)
unfolding to_list characters names field_names
iterate (arr xs) = ok (to_list xs)
iterate (obj fs) = ok (names (field_names fs))
iterate (str s) = ok (characters s)
iterate _ = err type_error

-- v.get(…) and v[…] on what is no dict.
unfoldable pub as_dict : Error → Value → Result Fields
as_dict e (obj fs) = ok fs
as_dict e _ = err e

unfoldable pub is_dict : Value → Bool
is_dict (obj fs) = true
is_dict _ = false

unfoldable pub is_text : Value → Bool
is_text (str s) = true
is_text _ = false

-- `x in s` for a set of texts: only a text can be a member.
unfoldable pub member : Value → List String → Bool
unfolding contains
member (str s) xs = contains s xs
member _ xs = false

is_space_code : ℕ → Bool
is_space_code c =
    (leb 9 c && leb c 13)
    || (leb 28 c && leb c 32)
    || eqb c 133
    || eqb c 160
    || eqb c 5760
    || (leb 8192 c && leb c 8202)
    || eqb c 8232
    || eqb c 8233
    || eqb c 8239
    || eqb c 8287
    || eqb c 12288

-- not s.strip()
unfoldable pub is_blank : String → Bool
unfolding is_space_code
is_blank String.[] = true
is_blank (String.◌∷◌ c s) = is_space_code (code c) && is_blank s

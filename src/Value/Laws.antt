-- ===== src/Value/Laws.antt =====
-- Laws of reading a payload.
use k2s.Prelude.{String, ◌≡◌, refl, true, false, some, ◌==◌, eq_iff, arith, if◌then◌else◌}
use k2s.Value.Defs.{Value, boolean, str, Fields, end, field}
use k2s.Value.Equal.{same}
use k2s.Value.Read.{find_field, put_field, get_default, get}

-- Only a text is equal to a text.
pub same_text : (v : Value) (s : String) → same v (str s) ≡ true → v ≡ str s
unfolding same
same_text (str t) s h = ground (arith, eq_iff t s)
same_text (boolean true) s h = ground arith
same_text (boolean false) s h = ground arith
same_text _ s h = ground arith

pub find_field-put_field :
    (k j : String) (v : Value) (fs : Fields)
    → find_field j (put_field k v fs) ≡ (if k == j then some v else find_field j fs)
unfolding find_field put_field
find_field-put_field k j v end = refl
find_field-put_field k j v (field i w fs) =
    ground (arith, eq_iff k j, eq_iff i k, eq_iff i j, find_field-put_field k j v fs)

pub get_default-put_field :
    (k j : String) (d v : Value) (fs : Fields)
    → get_default j d (put_field k v fs) ≡ (if k == j then v else get_default j d fs)
unfolding get_default
get_default-put_field k j d v fs = ground (arith, find_field-put_field k j v fs)

pub find_of_get : (k s : String) (fs : Fields) → get k fs ≡ str s → find_field k fs ≡ some (str s)
unfolding get
find_of_get k s fs h = ground arith

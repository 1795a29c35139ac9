-- ===== src/Sync/Base64/RoundTrip.antt =====
-- Encoding and decoding of bytes are inverse to each other.
use Prim.Native.Nat.{◌/◌, ◌%◌}
use Prim.Native.Char.{Char, code}
use Prim.Native.String.{◌++◌}
use text.Mathlib.TextLemmas.{nil-append, cons-append}
use k2s.Prelude.{
  ℕ, zero, suc, ◌+◌, ◌*◌, ◌<◌, String, ◌≡◌, ◌≢◌, ◌↔◌, refl, sym, ap, ◌∙◌, Bool, true, false, not,
  ◌&&◌, List, [], ◌∷◌, Option, none, some, ◌==◌, eq_iff, eq_refl, ◌||◌, Bool-cases, inl, inr, eqb,
  arith, All,
}
use k2s.Errors.{ok, or_raise, >>=-eq-ok, ensure-eq-ok, reject_if-eq-ok}
use k2s.Sync.Text.{size, all_codes, is_token_code}
use k2s.Sync.Base64.{
  digit, urlsafe_b64encode, rstrip_equals, strip_before, b64url_encode, digit_value, b64decode,
  three_bytes, two_bytes, one_byte, has_equals, padding, equals_signs, b64url_decode,
}

abbrev pub AreBytes : List ℕ → Type 0
AreBytes bs = All (λ b. b < 256) bs

-- What holds of a digit, checked for all sixty-four.
is_value : Option ℕ → ℕ → Bool
is_value none n = false
is_value (some m) n = eqb m n

is_good : ℕ → Bool
unfolding is_value
is_good n =
    is_value (digit_value (code (digit n))) n
    && not (eqb (code (digit n)) b'=')
    && is_token_code (code (digit n))

-- The first digits are good.
goods : ℕ → Bool
goods zero = true
goods (suc count) = goods count && is_good count

goods-good : (n count : ℕ) → n < count → goods count ≡ true → is_good n ≡ true
unfolding goods
goods-good n zero below checked = absurd (omega arith)
goods-good n (suc count) below checked = ground (arith, goods-good n count)

all_goods : goods 64 ≡ true
unfolding goods is_good digit_value digit is_token_code
all_goods = refl

value_of_is_value : (o : Option ℕ) (n : ℕ) → is_value o n ≡ true → o ≡ some n
unfolding is_value
value_of_is_value none n h = cc
value_of_is_value (some m) n h = ground arith

good : (n : ℕ) → n < 64 → is_good n ≡ true
good n h = goods-good n 64 h all_goods

digit_value-digit : (n : ℕ) → n < 64 → digit_value (code (digit n)) ≡ some n
unfolding is_good
digit_value-digit n h =
    value_of_is_value (digit_value (code (digit n))) n (ground (arith, good n h))

digit_no_equals : (n : ℕ) → n < 64 → eqb (code (digit n)) b'=' ≡ false
unfolding is_good
digit_no_equals n h = ground (arith, good n h)

digit_token : (n : ℕ) → n < 64 → is_token_code (code (digit n)) ≡ true
unfolding is_good
digit_token n h = ground (arith, good n h)

strip_before-other :
    (c : Char) (t : String) → eqb (code c) b'=' ≡ false → strip_before c t ≡ String.◌∷◌ c t
unfolding strip_before
strip_before-other c String.[] h = rw h
strip_before-other c (String.◌∷◌ d t) h = refl

-- The digits, with no padding.
bare : List ℕ → String
bare [] = ""
bare (a ∷ []) = String.◌∷◌ (digit (a / 4)) (String.◌∷◌ (digit (a % 4 * 16)) "")
bare (a ∷ b ∷ []) =
    String.◌∷◌ (digit (a / 4))
      (String.◌∷◌ (digit (a % 4 * 16 + b / 16)) (String.◌∷◌ (digit (b % 16 * 4)) ""))
bare (a ∷ b ∷ c ∷ rest) = String.◌∷◌ (digit (a / 4)) (
    String.◌∷◌ (digit (a % 4 * 16 + b / 16))
      (String.◌∷◌ (digit (b % 16 * 4 + c / 64)) (String.◌∷◌ (digit (c % 64)) (bare rest))))

strip-digit : (n : ℕ) (t : String) → n < 64 → strip_before (digit n) t ≡ String.◌∷◌ (digit n) t
strip-digit n t h = strip_before-other (digit n) t (digit_no_equals n h)

rstrip-encode : (bs : List ℕ) → AreBytes bs → rstrip_equals (urlsafe_b64encode bs) ≡ bare bs
unfolding rstrip_equals urlsafe_b64encode bare
rstrip-encode [] h = refl
rstrip-encode (a ∷ []) h =
    simp (strip-digit (a / 4) _ (omega arith), strip-digit (a % 4 * 16) _ (omega arith))
rstrip-encode (a ∷ b ∷ []) h = simp (
  strip-digit (a / 4) _ (omega arith),
  strip-digit (a % 4 * 16 + b / 16) _ (omega arith),
  strip-digit (b % 16 * 4) _ (omega arith),
)
rstrip-encode (a ∷ b ∷ c ∷ rest) h = simp (
  rstrip-encode rest h.1.1.1,
  strip-digit (a / 4) _ (omega arith),
  strip-digit (a % 4 * 16 + b / 16) _ (omega arith),
  strip-digit (b % 16 * 4 + c / 64) _ (omega arith),
  strip-digit (c % 64) _ (omega arith),
)

padding-four :
    (a b c d : Char) (s : String)
    → padding (String.◌∷◌ a (String.◌∷◌ b (String.◌∷◌ c (String.◌∷◌ d s)))) ≡ padding s
unfolding padding size
padding-four a b c d s = ap equals_signs (omega arith)

padding-two : (a b : Char) → padding (String.◌∷◌ a (String.◌∷◌ b "")) ≡ "=="
unfolding padding size equals_signs
padding-two a b = refl

padding-three : (a b c : Char) → padding (String.◌∷◌ a (String.◌∷◌ b (String.◌∷◌ c ""))) ≡ "="
unfolding padding size equals_signs
padding-three a b c = refl

padding_nil : padding "" ≡ ""
unfolding padding size equals_signs
padding_nil = refl

bare-padding : (bs : List ℕ) → bare bs ++ padding (bare bs) ≡ urlsafe_b64encode bs
unfolding bare urlsafe_b64encode
bare-padding [] = simp (padding_nil, nil-append)
bare-padding (a ∷ []) = simp (padding-two, cons-append, nil-append)
bare-padding (a ∷ b ∷ []) = simp (padding-three, cons-append, nil-append)
bare-padding (a ∷ b ∷ c ∷ rest) = simp (padding-four, cons-append, bare-padding rest)

decode-encode : (bs : List ℕ) → AreBytes bs → b64decode (urlsafe_b64encode bs) ≡ some bs
unfolding b64decode urlsafe_b64encode three_bytes two_bytes one_byte
decode-encode [] h = refl
decode-encode (a ∷ []) h =
    simp (digit_value-digit (a / 4) (omega arith), digit_value-digit (a % 4 * 16) (omega arith))
      (ground arith)
decode-encode (a ∷ b ∷ []) h =
    simp
      (
        digit_value-digit (a / 4) (omega arith),
        digit_no_equals (b % 16 * 4) (omega arith),
        digit_value-digit (a % 4 * 16 + b / 16) (omega arith),
        digit_value-digit (b % 16 * 4) (omega arith),
      )
      (ground arith)
decode-encode (a ∷ b ∷ c ∷ rest) h =
    simp
      (
        decode-encode rest h.1.1.1,
        digit_no_equals (c % 64) (omega arith),
        digit_value-digit (a / 4) (omega arith),
        digit_value-digit (a % 4 * 16 + b / 16) (omega arith),
        digit_value-digit (b % 16 * 4 + c / 64) (omega arith),
        digit_value-digit (c % 64) (omega arith),
      )
      (ground arith)

bare-no_equals : (bs : List ℕ) → AreBytes bs → has_equals (bare bs) ≡ false
unfolding bare has_equals
bare-no_equals [] h = refl
bare-no_equals (a ∷ []) h =
    simp (digit_no_equals (a / 4) (omega arith), digit_no_equals (a % 4 * 16) (omega arith))
bare-no_equals (a ∷ b ∷ []) h = simp (
  digit_no_equals (a / 4) (omega arith),
  digit_no_equals (a % 4 * 16 + b / 16) (omega arith),
  digit_no_equals (b % 16 * 4) (omega arith),
)
bare-no_equals (a ∷ b ∷ c ∷ rest) h = simp (
  bare-no_equals rest h.1.1.1,
  digit_no_equals (a / 4) (omega arith),
  digit_no_equals (a % 4 * 16 + b / 16) (omega arith),
  digit_no_equals (b % 16 * 4 + c / 64) (omega arith),
  digit_no_equals (c % 64) (omega arith),
)

bare-tokens : (bs : List ℕ) → AreBytes bs → all_codes is_token_code (bare bs) ≡ true
unfolding bare all_codes
bare-tokens [] h = refl
bare-tokens (a ∷ []) h =
    simp (digit_token (a / 4) (omega arith), digit_token (a % 4 * 16) (omega arith))
bare-tokens (a ∷ b ∷ []) h = simp (
  digit_token (a / 4) (omega arith),
  digit_token (a % 4 * 16 + b / 16) (omega arith),
  digit_token (b % 16 * 4) (omega arith),
)
bare-tokens (a ∷ b ∷ c ∷ rest) h = simp (
  bare-tokens rest h.1.1.1,
  digit_token (a / 4) (omega arith),
  digit_token (a % 4 * 16 + b / 16) (omega arith),
  digit_token (b % 16 * 4 + c / 64) (omega arith),
  digit_token (c % 64) (omega arith),
)

encode-bare : (bs : List ℕ) → AreBytes bs → b64url_encode bs ≡ bare bs
unfolding b64url_encode
encode-bare bs h = rstrip-encode bs h

-- The texts that encoding gives have no full stop, and no other sign than those of a token.
pub encode-tokens : (bs : List ℕ) → AreBytes bs → all_codes is_token_code (b64url_encode bs) ≡ true
encode-tokens bs h = rw (encode-bare bs h) (bare-tokens bs h)

cons-eq-nil : (c : Char) (t : String) → (String.◌∷◌ c t == "") ≡ false
cons-eq-nil c t = elim (Bool-cases (String.◌∷◌ c t == "")) [
  | inl same ↦ cc ((eq_iff (String.◌∷◌ c t) "").0 same)
  | inr other ↦ other
]

encode_nil : b64url_encode [] ≡ ""
unfolding b64url_encode rstrip_equals urlsafe_b64encode
encode_nil = refl

bare-ne-nil : (bs : List ℕ) → bs ≢ [] → (bare bs == "") ≡ false
unfolding bare
bare-ne-nil [] h = absurd (h refl)
bare-ne-nil (a ∷ []) h = cons-eq-nil _ _
bare-ne-nil (a ∷ b ∷ []) h = cons-eq-nil _ _
bare-ne-nil (a ∷ b ∷ c ∷ rest) h = cons-eq-nil _ _

decode-encode_ok : (bs : List ℕ) → AreBytes bs → bs ≢ [] → b64url_decode (b64url_encode bs) ≡ ok bs
unfolding b64url_decode
decode-encode_ok bs h ne = simp (
  encode-bare bs h,
  bare-ne-nil bs ne,
  bare-no_equals bs h,
  bare-padding bs,
  decode-encode bs h,
  eq_refl,
)

pub b64url_decode_sound :
    (text : String) (bs : List ℕ)
    → b64url_decode text ≡ ok bs
    → (text ≡ b64url_encode bs) × (bs ≢ [])
unfolding b64url_decode b64url_encode
b64url_decode_sound text bs h =
    let (filled, h1) = reject_if-eq-ok (text == "" || has_equals text) _ _ h in
    let (decoded, read, h2) = >>=-eq-ok (or_raise (b64decode (text ++ padding text)) _) _ h1 in
    let (same, h3) = ensure-eq-ok (rstrip_equals (urlsafe_b64encode decoded) == text) _ _ h2 in
    let eq : decoded ≡ bs = ground arith in
    let canonical : rstrip_equals (urlsafe_b64encode bs) ≡ text = rw (← eq) ((eq_iff _ _).0 same) in
    (
      sym canonical,
      λ e.
          let empty : text ≡ "" = sym canonical ∙ ap b64url_encode e ∙ encode_nil in
          ground (arith, eq_iff text ""),
    )

-- `_b64url_decode` answers with given bytes for exactly one text, the one that `_b64url_encode`
-- makes of them, and no text stands for no bytes.
pub b64url_decode_iff :
    (text : String) (bs : List ℕ)
    → AreBytes bs
    → (b64url_decode text ≡ ok bs) ↔ ((text ≡ b64url_encode bs) × (bs ≢ []))
b64url_decode_iff text bs h =
    (b64url_decode_sound text bs, λ (eq, ne). ap b64url_decode eq ∙ decode-encode_ok bs h ne)

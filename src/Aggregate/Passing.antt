-- ===== src/Aggregate/Passing.antt =====
-- The filter of `accepted_claims` of argo_dt/aggregate.py, read off the fields of a claim.
use mathlib.Core.Path.{subst}
use k2s.Prelude.{
  ℕ, ◌≤◌, ◌<◌, String, ◌≡◌, refl, ap, ◌∙◌, ◌⊎◌, inl, inr, ◌↔◌, Bool, true, false, Option, none,
  some, leb, arith, Bool-cases,
}
use k2s.Errors.{or_raise, Result, ok, err, or_raise-eq-ok, >>=-eq-ok, value_error, ◌>>=◌}
use k2s.Host.{Host, parse_time}
use k2s.Types.{Sensitivity, sensitivity_of, rank}
use k2s.Value.{Value, str, Fields, truthy, get, get_default, require}
use k2s.Aggregate.View.{
  ClaimFilter, before_end, not_after, sensitivity_value, parse_value, parse_optional,
  within_sensitivity, valid_then, known_then, admits,
}

-- A test, and behind it another.
both_true :
    (m k : Result Bool)
    → (m >>= elim [ false ↦ ok false | true ↦ k ]) ≡ ok true
    → (m ≡ ok true) × (k ≡ ok true)
both_true (ok true) k h = (refl, h)
both_true (ok false) k h = cc
both_true (err e) k h = cc

module _ ⦃host : Host⦄ where
  -- A field that is not set, or the text of a time of which something is so.
  abbrev pub IsUnsetOr : (ℕ → Type 0) → Value → Type 0
  IsUnsetOr P v =
      (truthy v ≡ false)
      ⊎ ((text : String) × (time : ℕ) × (v ≡ str text) × (parse_time text ≡ ok time) × P time)

  parse_value-eq-ok :
      (v : Value) (n : ℕ)
      → parse_value v ≡ ok n
      → (text : String) × (v ≡ str text) × (parse_time text ≡ ok n)
  unfolding parse_value
  parse_value-eq-ok (str s) n h = (s, refl, h)
  parse_value-eq-ok _ n h = cc

  parse_optional-IsUnsetOr :
      (P : ℕ → Type 0) (v : Value) (o : Option ℕ)
      → parse_optional v ≡ ok o
      → ((n : ℕ) → o ≡ some n → P n)
      → IsUnsetOr P v
  unfolding parse_optional
  parse_optional-IsUnsetOr P v o h keep = by_truth (truthy v) refl h
    where
      by_truth :
          (b : Bool)
          → truthy v ≡ b
          → (elim b [ true ↦ (parse_value v >>= λ t. ok (some t)) | false ↦ ok none ]) ≡ ok o
          → IsUnsetOr P v
      by_truth false t k = inl t
      by_truth true t k =
          let (n, parsed, k1) = >>=-eq-ok (parse_value v) _ k in
          let (text, is_text, read) = parse_value-eq-ok v n parsed in
          inr (text, n, is_text, read, keep n (cc))

  -- What the filter of a query asks of a claim, for each keyword that is given.
  abbrev pub HasSensitivity : Option Sensitivity → Fields → Type 0
  HasSensitivity none c = Unit
  HasSensitivity (some bound) c =
      (text : String) × (s : Sensitivity) × (get_default "sensitivity" (str "internal") c
        ≡ str text)
      × (sensitivity_of text ≡ some s)
      × (rank s ≤ rank bound)

  abbrev pub WasValid : Option ℕ → Fields → Type 0
  WasValid none c = Unit
  WasValid (some instant) c =
      ((text : String) × (start : ℕ) × (require "valid_from" c ≡ ok (str text))
        × (parse_time text ≡ ok start)
        × (start ≤ instant))
      × IsUnsetOr (λ end_time. instant < end_time) (get "valid_until" c)

  abbrev pub WasKnown : Option ℕ → Fields → Type 0
  WasKnown none c = Unit
  WasKnown (some instant) c = IsUnsetOr (λ recorded. recorded ≤ instant) (get "recorded_at" c)

  pub record Passes (f : ClaimFilter) (c : Fields) : Type 0 where
    pub sensitivity : HasSensitivity f.max_sensitivity c
    pub valid : WasValid f.valid_at c
    pub known : WasKnown f.known_at c

  sensitivity_value-eq-ok :
      (v : Value) (s : Sensitivity)
      → sensitivity_value v ≡ ok s
      → (text : String) × (v ≡ str text) × (sensitivity_of text ≡ some s)
  unfolding sensitivity_value
  sensitivity_value-eq-ok (str t) s h = (t, refl, or_raise-eq-ok (sensitivity_of t) value_error h)
  sensitivity_value-eq-ok _ s h = cc

  within_sensitivity-HasSensitivity :
      (o : Option Sensitivity) (c : Fields) → within_sensitivity o c ≡ ok true → HasSensitivity o c
  unfolding within_sensitivity
  within_sensitivity-HasSensitivity none c h = tt
  within_sensitivity-HasSensitivity (some bound) c h =
      let (s, read, h1) =
        >>=-eq-ok (sensitivity_value (get_default "sensitivity" (str "internal") c)) _ h in
      let (text, is_text, known) = sensitivity_value-eq-ok _ s read in
      (text, s, is_text, known, ground arith)

  valid_then-WasValid : (o : Option ℕ) (c : Fields) → valid_then o c ≡ ok true → WasValid o c
  unfolding valid_then
  valid_then-WasValid none c h = tt
  valid_then-WasValid (some instant) c h =
      let (raw, found, h1) = >>=-eq-ok (require "valid_from" c) _ h in
      let (start, parsed, h2) = >>=-eq-ok (parse_value raw) _ h1 in
      let (end_time, ends, h3) = >>=-eq-ok (parse_optional (get "valid_until" c)) _ h2 in
      let (text, is_text, read) = parse_value-eq-ok raw start parsed in
      (
        (text, start, found ∙ ap ok is_text, read, ground arith),
        parse_optional-IsUnsetOr (λ n. instant < n) (get "valid_until" c) end_time ends
            (λ n e. ground arith),
      )

  known_then-WasKnown : (o : Option ℕ) (c : Fields) → known_then o c ≡ ok true → WasKnown o c
  unfolding known_then
  known_then-WasKnown none c h = tt
  known_then-WasKnown (some instant) c h =
      let (recorded, read, h1) = >>=-eq-ok (parse_optional (get "recorded_at" c)) _ h in
      parse_optional-IsUnsetOr (λ n. n ≤ instant) (get "recorded_at" c) recorded read
        (λ n e. ground arith)

  -- A claim that the code admits passes.
  pub admits-Passes : (f : ClaimFilter) (c : Fields) → admits f c ≡ ok true → Passes f c
  unfolding admits
  admits-Passes f c h =
      let (a, h1) = both_true (within_sensitivity f.max_sensitivity c) _ h in
      let (b, k) = both_true (valid_then f.valid_at c) _ h1 in
      record {
        sensitivity = within_sensitivity-HasSensitivity f.max_sensitivity c a;
        valid = valid_then-WasValid f.valid_at c b;
        known = known_then-WasKnown f.known_at c k;
      }

  IsUnsetOr-parse_optional :
      (P : ℕ → Type 0) (v : Value)
      → IsUnsetOr P v
      → (o : Option ℕ) × (parse_optional v ≡ ok o) × ((n : ℕ) → o ≡ some n → P n)
  unfolding parse_optional parse_value
  IsUnsetOr-parse_optional P v (inl unset) =
      (none, rw (parse_optional, unset) refl, λ n e. absurd (ground arith))
  IsUnsetOr-parse_optional P v (inr (text, time, is_text, read, p)) =
      let parsed : parse_value v ≡ ok time = ap parse_value is_text ∙ read in
      elim (Bool-cases (truthy v)) [
        | inl is_set ↦ (
          some time,
          rw (parse_optional, is_set, parsed) refl,
          λ n e. let same : time ≡ n = cc in subst P same p,
        )
        | inr unset ↦ (none, rw (parse_optional, unset) refl, λ n e. absurd (ground arith))
      ]

  HasSensitivity-within_sensitivity :
      (o : Option Sensitivity) (c : Fields) → HasSensitivity o c → within_sensitivity o c ≡ ok true
  unfolding within_sensitivity sensitivity_value
  HasSensitivity-within_sensitivity none c h = refl
  HasSensitivity-within_sensitivity (some bound) c (text, s, is_text, known, below) =
      let read : sensitivity_value (get_default "sensitivity" (str "internal") c) ≡ ok s =
        ap sensitivity_value is_text ∙ ap (λ o. or_raise o value_error) known in
      let fits : leb (rank s) (rank bound) ≡ true = ground arith in rw (read, fits) refl

  ends-before_end :
      (instant : ℕ) (o : Option ℕ)
      → ((n : ℕ) → o ≡ some n → instant < n)
      → before_end instant o ≡ true
  ends-before_end instant none h = refl
  ends-before_end instant (some n) h = let later = h n refl in ground arith

  WasValid-valid_then : (o : Option ℕ) (c : Fields) → WasValid o c → valid_then o c ≡ ok true
  unfolding valid_then parse_value
  WasValid-valid_then none c h = refl
  WasValid-valid_then (some instant) c ((text, start, found, read, past), until) =
      let (o, ends, later) =
        IsUnsetOr-parse_optional (λ n. instant < n) (get "valid_until" c) until in
      let begun : leb start instant ≡ true = ground arith in
      let open_end = ends-before_end instant o later in rw (found, read, ends, begun, open_end) refl

  known-not_after :
      (instant : ℕ) (o : Option ℕ)
      → ((n : ℕ) → o ≡ some n → n ≤ instant)
      → not_after o instant ≡ true
  known-not_after instant none h = refl
  known-not_after instant (some n) h = let past = h n refl in ground arith

  WasKnown-known_then : (o : Option ℕ) (c : Fields) → WasKnown o c → known_then o c ≡ ok true
  unfolding known_then
  WasKnown-known_then none c h = refl
  WasKnown-known_then (some instant) c h =
      let (o, read, past) = IsUnsetOr-parse_optional (λ n. n ≤ instant) (get "recorded_at" c) h in
      let early = known-not_after instant o past in rw (read, early) refl

  Passes-admits : (f : ClaimFilter) (c : Fields) → Passes f c → admits f c ≡ ok true
  unfolding admits
  Passes-admits f c p =
      let a = HasSensitivity-within_sensitivity f.max_sensitivity c p.sensitivity in
      let b = WasValid-valid_then f.valid_at c p.valid in
      let d = WasKnown-known_then f.known_at c p.known in rw (a, b, d) refl

  -- The code admits exactly the claims that pass.
  pub admits_iff : (f : ClaimFilter) (c : Fields) → (admits f c ≡ ok true) ↔ Passes f c
  admits_iff f c = (admits-Passes f c, Passes-admits f c)

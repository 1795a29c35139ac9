-- ===== src/Aggregate/Validity.antt =====
-- `TwinState._valid_at` of argo_dt/aggregate.py, read off the fields of a record.
use k2s.Prelude.{
  ℕ, ◌≤◌, ◌<◌, ◌≡◌, refl, ◌⊎◌, inl, inr, ◌↔◌, Bool, true, false, ◌&&◌, Option, none, some, leb,
  arith, Bool-cases,
}
use k2s.Errors.{ok, >>=-eq-ok, ◌>>=◌}
use k2s.Host.{Host, parse_time, to_str}
use k2s.Value.{Value, Fields, truthy, get}
use k2s.Aggregate.View.{before_end, parse_text_optional, is_valid_at}

module _ ⦃host : Host⦄ where
  -- The texts of two fields say that a record was valid: from a time that is not set or past, and
  -- until one that is not set or to come.
  abbrev pub IsValidUntil : ℕ → Value → Type 0
  IsValidUntil instant v =
      (truthy v ≡ false)
      ⊎ ((end_time : ℕ) × (parse_time (to_str v) ≡ ok end_time) × (instant < end_time))

  abbrev pub IsValidAt : ℕ → Fields → Type 0
  IsValidAt instant r =
      (truthy (get "valid_from" r) ≡ false)
      ⊎ ((start : ℕ) × (parse_time (to_str (get "valid_from" r)) ≡ ok start)
          × (start ≤ instant)
          × IsValidUntil instant (get "valid_until" r))

  ends-IsValidUntil :
      (instant : ℕ) (v : Value) (o : Option ℕ)
      → parse_text_optional v ≡ ok o
      → before_end instant o ≡ true
      → IsValidUntil instant v
  unfolding parse_text_optional
  ends-IsValidUntil instant v o h b = by_truth (truthy v) refl h
    where
      by_truth :
          (t : Bool)
          → truthy v ≡ t
          → (elim t [ true ↦ (parse_time (to_str v) >>= λ n. ok (some n)) | false ↦ ok none ])
            ≡ ok o
          → IsValidUntil instant v
      by_truth false t k = inl t
      by_truth true t k =
          let (n, parsed, k1) = >>=-eq-ok (parse_time (to_str v)) _ k in
          let eq : some n ≡ o = cc in inr (n, parsed, ground (arith, eq, b))

  IsValidUntil-ends :
      (instant : ℕ) (v : Value)
      → IsValidUntil instant v
      → (o : Option ℕ) × (parse_text_optional v ≡ ok o) × (before_end instant o ≡ true)
  unfolding parse_text_optional
  IsValidUntil-ends instant v (inl unset) = (none, rw (parse_text_optional, unset) refl, refl)
  IsValidUntil-ends instant v (inr (n, parsed, later)) = elim (Bool-cases (truthy v)) [
    | inl is_set ↦ (some n, rw (parse_text_optional, is_set, parsed) refl, ground arith)
    | inr unset ↦ (none, rw (parse_text_optional, unset) refl, refl)
  ]

  is_valid_at-IsValidAt :
      (instant : ℕ) (r : Fields) → is_valid_at instant r ≡ ok true → IsValidAt instant r
  unfolding is_valid_at
  is_valid_at-IsValidAt instant r h = by_truth (truthy (get "valid_from" r)) refl h
    where
      by_truth :
          (t : Bool)
          → truthy (get "valid_from" r) ≡ t
          → (elim t [
            | false ↦ ok true
            | true ↦
                (parse_time (to_str (get "valid_from" r)) >>= λ start.
                parse_text_optional (get "valid_until" r) >>= λ end_time.
                ok (leb start instant && before_end instant end_time))
          ])
            ≡ ok true
          → IsValidAt instant r
      by_truth false t k = inl t
      by_truth true t k =
          let (start, parsed, k1) = >>=-eq-ok (parse_time (to_str (get "valid_from" r))) _ k in
          let (o, ends, k2) = >>=-eq-ok (parse_text_optional (get "valid_until" r)) _ k1 in
          let both : (leb start instant && before_end instant o) ≡ true = ground arith in
          inr (
            start,
            parsed,
            ground (arith, both),
            ends-IsValidUntil instant (get "valid_until" r) o ends (ground (arith, both)),
          )

  IsValidAt-is_valid_at :
      (instant : ℕ) (r : Fields) → IsValidAt instant r → is_valid_at instant r ≡ ok true
  unfolding is_valid_at
  IsValidAt-is_valid_at instant r (inl unset) = rw (is_valid_at, unset) refl
  IsValidAt-is_valid_at instant r (inr (start, parsed, past, until)) =
      let (o, ends, later) = IsValidUntil-ends instant (get "valid_until" r) until in
      let begun : leb start instant ≡ true = ground arith in
      elim (Bool-cases (truthy (get "valid_from" r))) [
        | inl is_set ↦ rw (is_valid_at, is_set, parsed, ends, begun, later) refl
        | inr unset ↦ rw (is_valid_at, unset) refl
      ]

  pub is_valid_at_iff :
      (instant : ℕ) (r : Fields) → (is_valid_at instant r ≡ ok true) ↔ IsValidAt instant r
  is_valid_at_iff instant r = (is_valid_at-IsValidAt instant r, IsValidAt-is_valid_at instant r)

-- ===== src/Policy/Projection.antt =====
-- When `evaluate_projection` discloses, and which fields.
use k2s.Prelude.{
  ℕ, ◌≤◌, String, ◌≡◌, refl, ap, sym, ◌∙◌, ◌≢◌, ◌⊎◌, inl, inr, Bool-cases, true, false, some, List,
  [], ◌∷◌, eq_iff, contains, is_subset, intersection, keep, all, arith,
}
use k2s.Types.{ConsentGrant, ProjectionRequest, rank, active_at}
use k2s.Policy.Defs.{projection_reasons, projection_answer, evaluate_projection}

-- What a grant must say for a request to be answered.
pub record Permits (request : ProjectionRequest) (consent : ConsentGrant) (available : List String)
    (now : ℕ) : Type 0 where
  pub is_active : active_at consent.window now ≡ true
  pub subject : consent.subject_id ≡ request.subject_id
  pub recipient : consent.recipient_id ≡ request.recipient_id
  pub purpose : contains request.purpose consent.purposes ≡ true
  pub sensitivity : rank request.maximum_sensitivity ≤ rank consent.max_sensitivity
  pub supported : is_subset request.requested_fields available ≡ true
  pub granted : is_subset request.requested_fields consent.allowed_fields ≡ true
  pub nonempty : request.requested_fields ≢ []

intersection_subset : (xs ys : List String) → is_subset xs ys ≡ true → intersection xs ys ≡ xs
unfolding is_subset intersection all keep
intersection_subset [] ys h = refl
intersection_subset (x ∷ xs) ys h = ground (arith, intersection_subset xs ys)

answer_allowed : (rs fs : List String) → (projection_answer rs fs).0 ≡ true → (rs ≡ []) × (fs ≢ [])
answer_allowed [] [] h = absurd (ground arith)
answer_allowed [] (f ∷ fs) h = (refl, λ e. ground arith)
answer_allowed (r ∷ rs) fs h = absurd (ground arith)

answer_given :
    (rs fs : List String)
    → rs ≡ []
    → fs ≢ []
    → ((projection_answer rs fs).0 ≡ true) × ((projection_answer rs fs).2 ≡ fs)
answer_given [] [] e n = absurd (n refl)
answer_given [] (f ∷ fs) e n = (refl, refl)
answer_given (r ∷ rs) fs e n = absurd (ground arith)

answer_denied :
    (rs fs : List String)
    → (projection_answer rs fs).0 ≡ false
    → ((projection_answer rs fs).2 ≡ []) × ((projection_answer rs fs).1 ≢ [])
answer_denied [] [] h = (refl, λ e. ground arith)
answer_denied [] (f ∷ fs) h = absurd (ground arith)
answer_denied (r ∷ rs) fs h = (refl, λ e. ground arith)

-- No field is left of an empty request.
none_of_empty : (xs ys zs : List String) → xs ≡ [] → intersection (intersection xs ys) zs ≡ []
unfolding intersection keep
none_of_empty [] ys zs e = refl
none_of_empty (x ∷ xs) ys zs e = absurd (ground arith)

module _ (request : ProjectionRequest) (consent : ConsentGrant) (available : List String)
    (now : ℕ) where
  reasons-Permits :
      request.requested_fields ≢ []
      → projection_reasons request consent available now ≡ []
      → Permits request consent available now
  unfolding projection_reasons
  reasons-Permits n h = ground (
    arith,
    eq_iff consent.subject_id request.subject_id,
    eq_iff consent.recipient_id request.recipient_id,
  )

  Permits-reasons :
      Permits request consent available now → projection_reasons request consent available now ≡ []
  unfolding projection_reasons
  Permits-reasons p = ground (
    arith,
    eq_iff consent.subject_id request.subject_id,
    eq_iff consent.recipient_id request.recipient_id,
  )

  answer-Permits :
      Permits request consent available now
      → intersection (intersection request.requested_fields consent.allowed_fields) available
        ≡ request.requested_fields
  answer-Permits p =
      ap (λ xs. intersection xs available)
        (intersection_subset request.requested_fields consent.allowed_fields p.granted)
      ∙ intersection_subset request.requested_fields available p.supported

  -- A projection is either permitted by the grant, and then allowed with exactly the requested
  -- fields, or it is not permitted, and then denied with no field and at least one reason.
  pub evaluate_projection_cases :
      let (allowed, reasons, fields) = evaluate_projection request (some consent) available now in
      ((allowed ≡ true)
        × Permits request consent available now
        × (fields ≡ request.requested_fields))
      ⊎ ((allowed ≡ false)
          × (¬ Permits request consent available now)
          × (fields ≡ [])
          × (reasons ≢ []))
  unfolding evaluate_projection
  evaluate_projection_cases = elim (Bool-cases (projection_answer reasons kept).0) [
    | inl y ↦ inl (y, sound y, fields y)
    | inr n ↦
        let (none_left, some_reason) = answer_denied reasons kept n in
        inr (n, (λ p. ground (arith, complete p)), none_left, some_reason)
  ]
    where
      reasons : List String
      reasons = projection_reasons request consent available now

      kept : List String
      kept = intersection (intersection request.requested_fields consent.allowed_fields) available

      sound : (projection_answer reasons kept).0 ≡ true → Permits request consent available now
      sound h =
          let (none_against, some_left) = answer_allowed reasons kept h in
          reasons-Permits (λ e. some_left (none_of_empty _ _ _ e)) none_against

      given :
          Permits request consent available now
          → ((projection_answer reasons kept).0 ≡ true)
            × ((projection_answer reasons kept).2 ≡ kept)
      given p =
          answer_given reasons kept (Permits-reasons p)
            (λ e. p.nonempty (sym (answer-Permits p) ∙ e))

      complete : Permits request consent available now → (projection_answer reasons kept).0 ≡ true
      complete p = (given p).0

      fields :
          (projection_answer reasons kept).0 ≡ true
          → (projection_answer reasons kept).2 ≡ request.requested_fields
      fields h = (given (sound h)).1 ∙ answer-Permits (sound h)

-- ===== src/Aggregate/Accepted.antt =====
-- `accepted_claims` against the invariant: what it returns, and that it returns.
use mathlib.Core.Path.{subst}
use k2s.Prelude.{
  Memᴰ, All-Memᴰ, ap, ◌↔◌, String, ◌≡◌, refl, sym, ◌∙◌, inl, inr, true, false, ◌||◌, none, some,
  List, [], ◌∷◌, ◌==◌, eq_iff, arith, All, contains, has, lookup, lookup_of_has, Bool-cases,
  if◌then◌else◌,
}
use k2s.Errors.{ok, or_raise, or_raise-eq-ok, >>=-eq-ok, key_error, ◌>>=◌}
use k2s.Host.{Host}
use k2s.Value.{Fields}
use k2s.Aggregate.State.{TwinState}
use k2s.Aggregate.Citations.{Cites, Cites-cites}
use k2s.Aggregate.Passing.{Passes, admits-Passes, admits_iff}
use k2s.Aggregate.Reviews.{is_closed}
use k2s.Aggregate.View.{
  ClaimFilter, sorted, insert_sorted, admits, is_hidden, accepted_loop, accepted_claims,
}
use k2s.Aggregate.Replay.{IsWellFormed}

contains-insert_sorted :
    (k s : String) (xs : List String) → contains k (insert_sorted s xs) ≡ (s == k || contains k xs)
unfolding contains insert_sorted
contains-insert_sorted k s [] = refl
contains-insert_sorted k s (x ∷ xs) = ground (arith, contains-insert_sorted k s xs)

contains-sorted : (k : String) (xs : List String) → contains k (sorted xs) ≡ contains k xs
unfolding contains sorted
contains-sorted k [] = refl
contains-sorted k (x ∷ xs) =
    ground (arith, contains-insert_sorted k x (sorted xs), contains-sorted k xs)

All-of_contains :
    (xs ys : List String)
    → ((k : String) → contains k xs ≡ true → contains k ys ≡ true)
    → All (λ k. contains k ys ≡ true) xs
unfolding contains
All-of_contains [] ys h = tt
All-of_contains (x ∷ xs) ys h =
    (h x (ground (arith, eq_iff x x)), All-of_contains xs ys (λ k m. h k (ground arith)))

-- A claim that may be relied on: accepted and undisputed, neither retired nor superseded nor stale,
-- with every piece of evidence that its provenance names by a text still there.
pub record IsReliable (s : TwinState) (c : Fields) : Type 0 where
  pub id : String
  pub at : lookup id s.claims ≡ some c
  pub accepted : contains id s.accepted_claim_ids ≡ true
  pub undisputed : contains id s.contested_claim_ids ≡ false
  pub is_open : is_closed id s ≡ false
  pub current : contains id s.stale_claim_ids ≡ false
  pub grounded : (e : String) → Cites e c → has e s.evidence ≡ true

visible-IsReliable :
    (s : TwinState) (id : String) (c : Fields)
    → IsWellFormed s
    → lookup id s.claims ≡ some c
    → contains id s.accepted_claim_ids ≡ true
    → is_hidden id s ≡ false
    → IsReliable s c
visible-IsReliable s id c w at accepted visible = record {
  id = id;
  at = at;
  accepted = accepted;
  undisputed = w.claims.undisputed id accepted;
  is_open = w.claims.accepted_open id accepted;
  current = ground (arith, visible);
  grounded = λ e cited. elim (Bool-cases (has e s.evidence)) [
    | inl there ↦ there
    | inr gone ↦ ground (arith, w.lineage.claims_traced id e c at (Cites-cites e c cited) gone)
  ];
}

module _ ⦃host : Host⦄ (f : ClaimFilter) (s : TwinState) (w : IsWellFormed s) where
  accepted_loop-All :
      (ids : List String) (out : List Fields)
      → All (λ k. contains k s.accepted_claim_ids ≡ true) ids
      → accepted_loop f s ids ≡ ok out
      → All (λ c. IsReliable s c × Passes f c) out
  unfolding accepted_loop
  accepted_loop-All [] [] known h = tt
  accepted_loop-All [] (c ∷ cs) known h = absurd (ground arith)
  accepted_loop-All (id ∷ ids) out known h = elim (Bool-cases (is_hidden id s)) [
    | inl hidden ↦ accepted_loop-All ids out known.1 (ground arith)
    | inr visible ↦
        let chain : (or_raise (lookup id s.claims) key_error >>= λ claim. admits f claim >>= λ hit.
        accepted_loop f s ids >>= λ others. ok (if hit then claim ∷ others else others))
            ≡ ok out =
          ground arith in
        let (c, found, h1) = >>=-eq-ok (or_raise (lookup id s.claims) key_error) _ chain in
        let (hit, tested, h2) = >>=-eq-ok (admits f c) _ h1 in
        let (others, rest, h3) = >>=-eq-ok (accepted_loop f s ids) _ h2 in
        let tail = accepted_loop-All ids others known.1 rest in
        elim (Bool-cases hit) [
          | inl y ↦
              let eq : c ∷ others ≡ out = ground arith in
              subst (All (λ c. IsReliable s c × Passes f c)) eq (
                (
                  visible-IsReliable s id c w (or_raise-eq-ok _ _ found) known.0 visible,
                  admits-Passes f c (ground arith),
                ),
                tail,
              )
          | inr n ↦
              let eq : others ≡ out = ground arith in
              subst (All (λ c. IsReliable s c × Passes f c)) eq tail
        ]
  ]

  accepted_loop-Memᴰ :
      (ids : List String) (out : List Fields)
      → accepted_loop f s ids ≡ ok out
      → (id : String) (c : Fields) → contains id ids ≡ true
      → lookup id s.claims ≡ some c
      → is_hidden id s ≡ false
      → admits f c ≡ ok true
      → Memᴰ c out
  unfolding accepted_loop contains
  accepted_loop-Memᴰ [] out h id c m at visible hit = absurd (ground arith)
  accepted_loop-Memᴰ (i ∷ ids) out h id c m at visible hit = elim (Bool-cases (i == id)) [
    | inl here ↦
        let same = (eq_iff i id).0 here in
        let shown : is_hidden i s ≡ false = ap (λ k. is_hidden k s) same ∙ visible in
        let found : lookup i s.claims ≡ some c = ap (λ k. lookup k s.claims) same ∙ at in
        let chain : (accepted_loop f s ids >>= λ others. ok (c ∷ others)) ≡ ok out =
          ground (arith, shown, found, hit) in
        let (others, rest, h1) = >>=-eq-ok (accepted_loop f s ids) _ chain in
        let eq : c ∷ others ≡ out = cc in subst (Memᴰ c) eq (Memᴰ.head refl)
    | inr there ↦
        let later : contains id ids ≡ true = ground arith in
        elim (Bool-cases (is_hidden i s)) [
          | inl hidden ↦ accepted_loop-Memᴰ ids out (ground arith) id c later at visible hit
          | inr shown ↦
              let chain : (or_raise (lookup i s.claims) key_error >>= λ claim.
              admits f claim >>= λ kept.
              accepted_loop f s ids >>= λ others. ok (if kept then claim ∷ others else others))
                  ≡ ok out =
                ground arith in
              let (d, found, h1) = >>=-eq-ok (or_raise (lookup i s.claims) key_error) _ chain in
              let (kept, tested, h2) = >>=-eq-ok (admits f d) _ h1 in
              let (others, rest, h3) = >>=-eq-ok (accepted_loop f s ids) _ h2 in
              let tail = accepted_loop-Memᴰ ids others rest id c later at visible hit in
              elim (Bool-cases kept) [
                | inl y ↦
                    let eq : d ∷ others ≡ out = ground arith in subst (Memᴰ c) eq (Memᴰ.tail tail)
                | inr n ↦ let eq : others ≡ out = ground arith in subst (Memᴰ c) eq tail
              ]
        ]
  ]

  -- On a well-formed state, the claims that a query returns are exactly those that are accepted and
  -- undisputed, neither retired nor superseded nor stale, with all the evidence still there that
  -- their provenance, a sequence of objects, names by a text, and that are within the sensitivity,
  -- valid at the time and not recorded after the time that are asked for.
  pub accepted_claims_iff :
      (out : List Fields)
      → accepted_claims f s ≡ ok out
      → (c : Fields) → Memᴰ c out ↔ (IsReliable s c × Passes f c)
  unfolding accepted_claims
  accepted_claims_iff out h c = (
    (λ m.
        All-Memᴰ _ out c
          (accepted_loop-All (sorted s.accepted_claim_ids) out
            (All-of_contains (sorted s.accepted_claim_ids) s.accepted_claim_ids
              (λ k n. sym (contains-sorted k s.accepted_claim_ids) ∙ n))
            h)
          m),
    (λ both.
        let r = both.0 in
        accepted_loop-Memᴰ (sorted s.accepted_claim_ids) out h r.id c
          (contains-sorted r.id s.accepted_claim_ids ∙ r.accepted) r.at
          (ground (arith, r.current, r.is_open)) ((admits_iff f c).1 both.1)),
  )

  loop-total :
      f ≡ record { valid_at = none; known_at = none; max_sensitivity = none }
      → (ids : List String) → All (λ k. contains k s.accepted_claim_ids ≡ true) ids
      → (out : List Fields) × (accepted_loop f s ids ≡ ok out)
  unfolding accepted_loop admits
  loop-total plain [] known = ([], refl)
  loop-total plain (id ∷ ids) known =
      let (others, rest) = loop-total plain ids known.1 in
      let (c, found) = lookup_of_has id s.claims (w.claims.accepted_known id known.0) in
      elim (Bool-cases (is_hidden id s)) [
        | inl hidden ↦ (others, ground (arith, rest))
        | inr visible ↦ (c ∷ others, ground (arith, rest, found))
      ]

  -- On a well-formed state the query with no keyword given returns, and raises nothing.
  accepted_claims-total :
      f ≡ record { valid_at = none; known_at = none; max_sensitivity = none }
      → (out : List Fields) × (accepted_claims f s ≡ ok out)
  unfolding accepted_claims
  accepted_claims-total plain = loop-total plain (sorted s.accepted_claim_ids) (
      All-of_contains (sorted s.accepted_claim_ids) s.accepted_claim_ids
        (λ k m. sym (contains-sorted k s.accepted_claim_ids) ∙ m))

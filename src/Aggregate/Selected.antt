-- ===== src/Aggregate/Selected.antt =====
-- What `TwinState.select_valid_at` of argo_dt/aggregate.py selects.
use mathlib.Core.Path.{subst}
use mathlib.Core.List.Memᴰ
use k2s.Prelude.{
  ℕ, String, Bool, true, ◌≡◌, refl, sym, ap, ◌∙◌, ◌↔◌, ◌&&◌, List, [], ◌∷◌, Memᴰ, All, arith,
  contains, keys, Dict, all, Bool-cases, inl, inr, is_subset, contains-intersection,
}
use k2s.Errors.{Result, ok, >>=-eq-ok, ◌>>=◌}
use k2s.Host.{Host, aware, to_str}
use k2s.Value.{Fields, str, get_default}
use k2s.Aggregate.State.{TwinState}
use k2s.Aggregate.Handlers.{texts_at}
use k2s.Aggregate.View.{select, is_valid_at, select_valid_at}
use k2s.Aggregate.Validity.{IsValidAt, is_valid_at_iff}

same : {d out : Dict Fields} → ok d ≡ ok out → d ≡ out
same h = cc

-- What one dictionary keeps of another: the entries of which something is so, and no other.
abbrev pub Selects : (Fields → Type 0) → Dict Fields → Dict Fields → Type 0
Selects P d out = (id : String) (r : Fields) → Memᴰ (id, r) out ↔ (Memᴰ (id, r) d × P r)

select_sound :
    (test : Fields → Result Bool) (d out : Dict Fields)
    → select test d ≡ ok out
    → (id : String) (r : Fields) → Memᴰ (id, r) out
    → Memᴰ (id, r) d × (test r ≡ ok true)
unfolding select
select_sound test [] out h id r m = elim (subst (Memᴰ (id, r)) (sym (same h)) m) [ ]
select_sound test ((key, q) ∷ rest) out h id r m =
    let (hit, tested, h1) = >>=-eq-ok (test q) _ h in
    let (others, selected, h2) = >>=-eq-ok (select test rest) _ h1 in
    let later : Memᴰ (id, r) others → Memᴰ (id, r) ((key, q) ∷ rest) × (test r ≡ ok true) =
      λ n. let (a, b) = select_sound test rest others selected id r n in (Memᴰ.tail a, b) in
    elim (Bool-cases hit) [
      | inl y ↦
          let eq : out ≡ (key, q) ∷ others = ground (arith, h2, y) in
          elim (Memᴰ.cases_cons (subst (Memᴰ (id, r)) eq m)) [
            | inl here ↦ (Memᴰ.head here, ap (λ e. test e.1) here ∙ tested ∙ ap ok y)
            | inr n ↦ later n
          ]
      | inr n ↦ let eq : out ≡ others = ground (arith, h2, n) in later (subst (Memᴰ (id, r)) eq m)
    ]

select_complete :
    (test : Fields → Result Bool) (d out : Dict Fields)
    → select test d ≡ ok out
    → (id : String) (r : Fields) → Memᴰ (id, r) d
    → test r ≡ ok true
    → Memᴰ (id, r) out
unfolding select
select_complete test [] out h id r m t = elim m [ ]
select_complete test ((key, q) ∷ rest) out h id r m t =
    let (hit, tested, h1) = >>=-eq-ok (test q) _ h in
    let (others, selected, h2) = >>=-eq-ok (select test rest) _ h1 in
    let on : Memᴰ (id, r) rest → Memᴰ (id, r) others =
      λ n. select_complete test rest others selected id r n t in
    elim (Bool-cases hit) [
      | inl y ↦
          let eq : (key, q) ∷ others ≡ out = ground (arith, h2, y) in
          subst (Memᴰ (id, r)) eq
            (elim (Memᴰ.cases_cons m) [ inl here ↦ Memᴰ.head here | inr n ↦ Memᴰ.tail (on n) ])
      | inr n ↦
          let eq : others ≡ out = ground (arith, h2, n) in
          subst (Memᴰ (id, r)) eq (elim (Memᴰ.cases_cons m) [
            | inl here ↦
                let clash : ok hit ≡ ok true = sym tested ∙ sym (ap (λ e. test e.1) here) ∙ t in cc
            | inr n ↦ on n
          ])
    ]

select-Selects :
    (test : Fields → Result Bool) (P : Fields → Type 0)
    → ((r : Fields) → (test r ≡ ok true) ↔ P r)
    → (d out : Dict Fields) → select test d ≡ ok out
    → Selects P d out
select-Selects test P spec d out h id r = (
  (λ m. let (a, b) = select_sound test d out h id r m in (a, (spec r).0 b)),
  (λ m. select_complete test d out h id r m.0 ((spec r).1 m.1)),
)

same_value : {s t : TwinState} → ok s ≡ ok t → s ≡ t
same_value h = cc

-- A mark of the first state is kept exactly on what was selected.
abbrev pub AreKept : List String → Dict Fields → List String → Type 0
AreKept before selected after =
    (id : String) → contains id after ≡ (contains id (keys selected) && contains id before)

is_subset-All : (xs ys : List String) → is_subset xs ys ≡ true → All (λ x. contains x ys ≡ true) xs
unfolding is_subset all
is_subset-All [] ys h = tt
is_subset-All (x ∷ xs) ys h = (ground arith, is_subset-All xs ys (ground arith))

All-is_subset : (xs ys : List String) → All (λ x. contains x ys ≡ true) xs → is_subset xs ys ≡ true
unfolding is_subset all
All-is_subset [] ys h = refl
All-is_subset (x ∷ xs) ys (h, hs) = ground (arith, h, All-is_subset xs ys hs)

module _ ⦃host : Host⦄ where
  -- Every claim that a contradiction names is among those given.
  abbrev pub IsBetween : Dict Fields → Fields → Type 0
  IsBetween claims r =
      (ids : List String) × (texts_at "claim_ids" r ≡ ok ids)
      × All (λ id. contains id (keys claims) ≡ true) ids

  IsBetween-iff :
      (claims : Dict Fields) (r : Fields)
      → ((texts_at "claim_ids" r >>= λ ids. ok (is_subset ids (keys claims))) ≡ ok true)
        ↔ IsBetween claims r
  IsBetween-iff claims r = (
    (λ h.
        let (ids, read, h1) = >>=-eq-ok (texts_at "claim_ids" r) _ h in
        (ids, read, is_subset-All ids (keys claims) (ground arith))),
    (λ h.
        let (ids, read, every) = h in
        let eq = All-is_subset ids (keys claims) every in rw (read, eq) refl),
  )

  -- The contradiction that an adjudication names is among those given.
  abbrev pub IsOver : Dict Fields → Fields → Type 0
  IsOver contradictions r =
      contains (to_str (get_default "contradiction_id" (str "") r)) (keys contradictions) ≡ true

  IsOver-iff :
      (contradictions : Dict Fields) (r : Fields)
      → (ok (contains (to_str (get_default "contradiction_id" (str "") r)) (keys contradictions))
          ≡ ok true)
        ↔ IsOver contradictions r
  IsOver-iff contradictions r = ((λ h. ground arith), (λ h. ap ok h))

  pub record IsSelected (instant : ℕ) (s out : TwinState) : Type 0 where
    pub evidence : Selects (IsValidAt instant) s.evidence out.evidence
    pub entity_links : Selects (IsValidAt instant) s.entity_links out.entity_links
    pub claims : Selects (IsValidAt instant) s.claims out.claims
    pub contradictions : Selects (IsBetween out.claims) s.contradictions out.contradictions
    pub adjudications : Selects (IsOver out.contradictions) s.adjudications out.adjudications
    pub accepted : AreKept s.accepted_claim_ids out.claims out.accepted_claim_ids
    pub contested : AreKept s.contested_claim_ids out.claims out.contested_claim_ids
    pub retired : AreKept s.retired_claim_ids out.claims out.retired_claim_ids
    pub superseded : AreKept s.superseded_claim_ids out.claims out.superseded_claim_ids
    pub stale : AreKept s.stale_claim_ids out.claims out.stale_claim_ids
    pub stale_links : AreKept s.stale_entity_link_ids out.entity_links out.stale_entity_link_ids
    pub unlinked : AreKept s.unlinked_entity_ids out.entity_links out.unlinked_entity_ids
    pub resolved :
        AreKept s.resolved_contradiction_ids out.contradictions out.resolved_contradiction_ids

  -- If `select_valid_at` returns, the state that it returns holds exactly the evidence, entity
  -- links and claims whose `valid_from` is not set, or is the text of a time not after the instant
  -- while their `valid_until` is not set or the text of a time after it; exactly the contradictions
  -- all of whose claims are there, and the adjudications whose contradiction is. A claim is
  -- accepted, contested, retired, superseded or stale there, an entity link unlinked or stale, and
  -- a contradiction resolved, exactly if it was so before and is there.
  pub select_valid_at-IsSelected :
      (instant : ℕ) (s out : TwinState)
      → select_valid_at (aware instant) s ≡ ok out
      → IsSelected instant s out
  unfolding select_valid_at
  select_valid_at-IsSelected instant s out h =
      let (evidence, h1, k1) = >>=-eq-ok (select (is_valid_at instant) s.evidence) _ h in
      let (links, h2, k2) = >>=-eq-ok (select (is_valid_at instant) s.entity_links) _ k1 in
      let (claims, h3, k3) = >>=-eq-ok (select (is_valid_at instant) s.claims) _ k2 in
      let (contradictions, h4, k4) = >>=-eq-ok (select _ s.contradictions) _ k3 in
      let (adjudications, h5, k5) = >>=-eq-ok (select _ s.adjudications) _ k4 in
      subst (IsSelected instant s) (same_value k5) (record {
        evidence =
            select-Selects (is_valid_at instant) (IsValidAt instant) (is_valid_at_iff instant)
              s.evidence evidence h1;
        entity_links =
            select-Selects (is_valid_at instant) (IsValidAt instant) (is_valid_at_iff instant)
              s.entity_links links h2;
        claims =
            select-Selects (is_valid_at instant) (IsValidAt instant) (is_valid_at_iff instant)
              s.claims claims h3;
        contradictions =
            select-Selects _ (IsBetween claims) (IsBetween-iff claims) s.contradictions
              contradictions h4;
        adjudications =
            select-Selects _ (IsOver contradictions) (IsOver-iff contradictions) s.adjudications
              adjudications h5;
        accepted = λ id. contains-intersection id s.accepted_claim_ids (keys claims);
        contested = λ id. contains-intersection id s.contested_claim_ids (keys claims);
        retired = λ id. contains-intersection id s.retired_claim_ids (keys claims);
        superseded = λ id. contains-intersection id s.superseded_claim_ids (keys claims);
        stale = λ id. contains-intersection id s.stale_claim_ids (keys claims);
        stale_links = λ id. contains-intersection id s.stale_entity_link_ids (keys links);
        unlinked = λ id. contains-intersection id s.unlinked_entity_ids (keys links);
        resolved =
            λ id. contains-intersection id s.resolved_contradiction_ids (keys contradictions);
      })

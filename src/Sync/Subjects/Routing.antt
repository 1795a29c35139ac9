-- ===== src/Sync/Subjects/Routing.antt =====
-- Which events the filter of a consumer selects.
use k2s.Prelude.{
  String, ◌≡◌, ◌↔◌, refl, sym, ap, ◌∙◌, Bool, true, false, ◌&&◌, ◌||◌, List, [], ◌∷◌, Option, none,
  some, ◌==◌, eq_iff, arith, Bool-cases, inl, inr,
}
use k2s.Errors.{ok, >>=-eq-ok}
use k2s.Types.{EventEnvelope, plane_value, type_name}
use k2s.Sync.Text.{is_token, join_dots, split_dots, all_codes, is_token_code}
use k2s.Sync.Text.Dots.{no_dots, split-join, is_token-no_dots}
use k2s.Sync.Subjects.{token, bounded, event_subject, token_or_any, consumer_filter}

-- How NATS matches the tokens of a filter with those of a subject: `*` stands for one token.
unfoldable pub tokens_match : List String → List String → Bool
tokens_match [] [] = true
tokens_match (f ∷ fs) (s ∷ ss) = (f == "*" || f == s) && tokens_match fs ss
tokens_match _ _ = false

unfoldable pub selects : String → String → Bool
selects filter subject = tokens_match (split_dots filter) (split_dots subject)

-- A part of a filter, if it is given, is the part of the event.
abbrev pub Names : Option String → String → Type 0
Names none x = Unit
Names (some y) x = y ≡ x

token-ok : (v t : String) → token v ≡ ok t → (is_token v ≡ true) × (t ≡ v)
unfolding token
token-ok v t h = ground arith

bounded-ok : (s t : String) → bounded s ≡ ok t → t ≡ s
unfolding bounded
bounded-ok s t h = ground arith

star_not_token : is_token "*" ≡ false
unfolding is_token all_codes is_token_code
star_not_token = refl

token_or_any-match :
    (o : Option String) (t x : String)
    → token_or_any o ≡ ok t
    → (no_dots t ≡ true) × (((t == "*" || t == x) ≡ true) ↔ Names o x)
unfolding token_or_any all_codes
token_or_any-match none t x h =
    let star : t ≡ "*" = cc in (rw star, (λ _. tt, λ _. ground (arith, eq_iff t "*", star)))
token_or_any-match (some v) t x h =
    let (valid, same) = token-ok v t h in
    let no_star : (t == "*") ≡ false = elim (Bool-cases (t == "*")) [
      | inl star ↦ cc (valid, star_not_token, same, (eq_iff t "*").0 star)
      | inr other ↦ other
    ] in
    (
      rw same (is_token-no_dots v valid),
      (
        λ e. ground (arith, no_star, same, eq_iff t x),
        λ e. ground (arith, no_star, same, eq_iff t x),
      ),
    )

subject_parts :
    (p q r t : String)
    → no_dots p ≡ true
    → no_dots q ≡ true
    → no_dots r ≡ true
    → no_dots t ≡ true
    → split_dots (join_dots ("argo" ∷ "dt" ∷ p ∷ q ∷ r ∷ t ∷ []))
      ≡ "argo" ∷ "dt" ∷ p ∷ q ∷ r ∷ t ∷ []
unfolding all_codes
subject_parts p q r t hp hq hr ht =
    split-join "argo" ("dt" ∷ p ∷ q ∷ r ∷ t ∷ []) (refl, (refl, (hp, (hq, (hr, (ht, tt))))))

event_subject-parts :
    (tenant : String) (e : EventEnvelope) (s : String)
    → event_subject tenant e ≡ ok s
    → split_dots s
      ≡ "argo" ∷ "dt" ∷ tenant ∷ e.twin_id ∷ plane_value e.plane ∷ type_name e.event_type ∷ []
unfolding event_subject
event_subject-parts tenant e s h =
    let (a, ha, h1) = >>=-eq-ok (token tenant) _ h in
    let (b, hb, h2) = >>=-eq-ok (token e.twin_id) _ h1 in
    let (c, hc, h3) = >>=-eq-ok (token (plane_value e.plane)) _ h2 in
    let (d, hd, h4) = >>=-eq-ok (token (type_name e.event_type)) _ h3 in
    let (va, ea) = token-ok tenant a ha in
    let (vb, eb) = token-ok e.twin_id b hb in
    let (vc, ec) = token-ok (plane_value e.plane) c hc in
    let (vd, ed) = token-ok (type_name e.event_type) d hd in
    ap split_dots (bounded-ok _ s h4)
    ∙ ap (λ ps. split_dots (join_dots ps))
        (same_parts a tenant b e.twin_id c (plane_value e.plane) d (type_name e.event_type) ea eb ec
          ed)
    ∙ subject_parts tenant e.twin_id (plane_value e.plane) (type_name e.event_type)
        (is_token-no_dots _ va) (is_token-no_dots _ vb) (is_token-no_dots _ vc)
        (is_token-no_dots _ vd)
  where
    same_parts :
        (a a' b b' c c' d d' : String)
        → a ≡ a'
        → b ≡ b'
        → c ≡ c'
        → d ≡ d'
        → "argo" ∷ "dt" ∷ a ∷ b ∷ c ∷ d ∷ [] ≡ "argo" ∷ "dt" ∷ a' ∷ b' ∷ c' ∷ d' ∷ []
    same_parts a a' b b' c c' d d' h i j k = cc

all_four :
    (p q r t : Bool)
    → ((p && (q && (r && (t && true)))) ≡ true)
      ↔ ((p ≡ true) × (q ≡ true) × (r ≡ true) × (t ≡ true))
all_four p q r t = ground arith

-- A filter selects the subject of an event, where both are built, exactly if the tenants are the
-- same and each part that the filter gives is the event's.
pub consumer_filter-selects_iff :
    (tenant own : String) (twin_id plane event_type : Option String) (e : EventEnvelope)
    (filter subject : String)
    → consumer_filter tenant twin_id plane event_type ≡ ok filter
    → event_subject own e ≡ ok subject
    → (selects filter subject ≡ true) ↔ (
        (tenant ≡ own)
        × Names twin_id e.twin_id
        × Names plane (plane_value e.plane)
        × Names event_type (type_name e.event_type))
unfolding consumer_filter selects tokens_match token_or_any
consumer_filter-selects_iff tenant own twin_id plane event_type e filter subject h k =
    let (a, ha, h1) = >>=-eq-ok (token tenant) _ h in
    let (b, hb, h2) = >>=-eq-ok (token_or_any twin_id) _ h1 in
    let (c, hc, h3) = >>=-eq-ok (token_or_any plane) _ h2 in
    let (d, hd, h4) = >>=-eq-ok (token_or_any event_type) _ h3 in
    let (na, ma) = token_or_any-match (some tenant) a own ha in
    let (nb, mb) = token_or_any-match twin_id b e.twin_id hb in
    let (nc, mc) = token_or_any-match plane c (plane_value e.plane) hc in
    let (nd, md) = token_or_any-match event_type d (type_name e.event_type) hd in
    let parts = ap split_dots (bounded-ok _ filter h4) ∙ subject_parts a b c d na nb nc nd in
    let goal : tokens_match (split_dots filter) (split_dots subject) ≡ (
        (a == "*" || a == own)
        && ((b == "*" || b == e.twin_id)
            && ((c == "*" || c == plane_value e.plane)
                && ((d == "*" || d == type_name e.event_type) && true)))) =
      rw (parts, event_subject-parts own e subject k) in
    (
      λ selected.
          let (p, q, r, t) = (all_four _ _ _ _).0 (sym goal ∙ selected) in
          (ma.0 p, mb.0 q, mc.0 r, md.0 t),
      λ (p, q, r, t). goal ∙ (all_four _ _ _ _).1 (ma.1 p, mb.1 q, mc.1 r, md.1 t),
    )

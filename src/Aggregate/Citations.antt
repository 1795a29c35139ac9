-- ===== src/Aggregate/Citations.antt =====
-- What a record of a twin rests on, read off its fields.
use mathlib.Core.Path.{subst}
use k2s.Prelude.{
  Bool, String, ◌≡◌, refl, sym, ap, ◌∙◌, true, List, [], ◌∷◌, Memᴰ, map, any, all, contains,
  eq_refl, arith, Bool-cases, inl, inr,
}
use k2s.Errors.{Result, ok, any_of, >>=-eq-ok, ensure-eq-ok}
use k2s.Value.{
  Value, str, arr, obj, nil, Fields, get, get_default, iterate, same, same-str, hashable, member,
}
use k2s.Aggregate.Handlers.{refers_to, cites, sources_meet}

-- The provenance of a record is a sequence of objects, of which one names the evidence by a text.
pub record Cites (evidence_id : String) (r : Fields) : Type 0 where
  pub references : List Fields
  pub provenance : iterate (get_default "provenance" (arr nil) r) ≡ ok (map obj references)
  pub reference : Fields
  pub listed : Memᴰ reference references
  pub names : get "evidence_id" reference ≡ str evidence_id

-- The sources of a projection are a sequence of texts, of which one is in a set.
pub record Draws (ids : List String) (projection : Fields) : Type 0 where
  pub sources : List String
  pub claims : iterate (get_default "source_claim_ids" (arr nil) projection) ≡ ok (map str sources)
  pub source : String
  pub listed : Memᴰ source sources
  pub found : contains source ids ≡ true

any_of-refers_to :
    (id : String) (refs : List Fields) (ref : Fields)
    → Memᴰ ref refs
    → get "evidence_id" ref ≡ str id
    → any_of (refers_to id) (map obj refs) ≡ ok true
unfolding any_of refers_to same k2s.Value.as_dict
any_of-refers_to id [] ref m h = elim m [ ]
any_of-refers_to id (x ∷ refs) ref (Memᴰ.head e) h =
    let here : get "evidence_id" x ≡ str id = ap (get "evidence_id") (sym e) ∙ h in
    rw here (rw (eq_refl id) refl)
any_of-refers_to id (x ∷ refs) ref (Memᴰ.tail m) h =
    let rest = any_of-refers_to id refs ref m h in
    elim (Bool-cases (same (get "evidence_id" x) (str id))) [
      | inl hit ↦ rw hit refl
      | inr miss ↦ rw (miss) rest
    ]

-- The code finds what is cited by a text.
pub Cites-cites : (id : String) (r : Fields) → Cites id r → cites id r ≡ ok true
unfolding cites
Cites-cites id r c = rw c.provenance (any_of-refers_to id c.references c.reference c.listed c.names)

all-hashable : (xs : List String) → all hashable (map str xs) ≡ true
unfolding all hashable
all-hashable [] = refl
all-hashable (x ∷ xs) = all-hashable xs

any-member :
    (ids xs : List String) (x : String)
    → Memᴰ x xs
    → contains x ids ≡ true
    → any (λ v. member v ids) (map str xs) ≡ true
unfolding any member
any-member ids [] x m h = elim m [ ]
any-member ids (y ∷ xs) x (Memᴰ.head e) h =
    let here : contains y ids ≡ true = ap (λ z. contains z ids) (sym e) ∙ h in ground (arith, here)
any-member ids (y ∷ xs) x (Memᴰ.tail m) h = ground (arith, any-member ids xs x m h)

pub Draws-sources_meet :
    (ids : List String) (p : Fields) → Draws ids p → sources_meet ids p ≡ ok true
unfolding sources_meet
Draws-sources_meet ids p d =
    rw (d.claims, all-hashable d.sources, any-member ids d.sources d.source d.listed d.found) refl

-- One of the objects in the provenance of a record names the evidence.
pub record Names (evidence_id : String) (r : Fields) : Type 0 where
  pub references : List Value
  pub provenance : iterate (get_default "provenance" (arr nil) r) ≡ ok references
  pub reference : Fields
  pub listed : Memᴰ (obj reference) references
  pub names : get "evidence_id" reference ≡ str evidence_id

-- One of the sources of a projection is in a set.
pub record Rests (ids : List String) (projection : Fields) : Type 0 where
  pub sources : List Value
  pub claims : iterate (get_default "source_claim_ids" (arr nil) projection) ≡ ok sources
  pub source : String
  pub listed : Memᴰ (str source) sources
  pub found : contains source ids ≡ true

refers_to-ok :
    (id : String) (v : Value)
    → refers_to id v ≡ ok true
    → (ref : Fields) × (v ≡ obj ref) × (get "evidence_id" ref ≡ str id)
unfolding refers_to k2s.Value.as_dict
refers_to-ok id (obj ref) h =
    let eq : same (get "evidence_id" ref) (str id) ≡ true = cc in
    (ref, refl, same-str (get "evidence_id" ref) id eq)
refers_to-ok id _ h = cc

any_of-ok :
    (f : Value → Result Bool) (xs : List Value)
    → any_of f xs ≡ ok true
    → (x : Value) × Memᴰ x xs × (f x ≡ ok true)
unfolding any_of
any_of-ok f [] h = cc
any_of-ok f (x ∷ xs) h =
    let (hit, tested, h1) = >>=-eq-ok (f x) _ h in
    elim (Bool-cases hit) [
      | inl y ↦ (x, Memᴰ.head refl, tested ∙ ap ok y)
      | inr n ↦ let (z, m, t) = any_of-ok f xs (ground (arith, h1, n)) in (z, Memᴰ.tail m, t)
    ]

-- What the code takes for a citation names the evidence.
pub cites-Names : (id : String) (r : Fields) → cites id r ≡ ok true → Names id r
unfolding cites
cites-Names id r h =
    let (references, read, h1) = >>=-eq-ok (iterate (get_default "provenance" (arr nil) r)) _ h in
    let (v, m, t) = any_of-ok (refers_to id) references h1 in
    let (ref, is_obj, named) = refers_to-ok id v t in
    record {
      references = references;
      provenance = read;
      reference = ref;
      listed = subst (λ w. Memᴰ w references) is_obj m;
      names = named;
    }

member-ok :
    (ids : List String) (v : Value)
    → member v ids ≡ true
    → (x : String) × (v ≡ str x) × (contains x ids ≡ true)
unfolding member
member-ok ids (str x) h = (x, refl, h)
member-ok ids _ h = absurd (ground arith)

any-found :
    (p : Value → Bool) (xs : List Value) → any p xs ≡ true → (x : Value) × Memᴰ x xs × (p x ≡ true)
unfolding any
any-found p [] h = absurd (ground arith)
any-found p (x ∷ xs) h = elim (Bool-cases (p x)) [
  | inl y ↦ (x, Memᴰ.head refl, y)
  | inr n ↦ let (z, m, t) = any-found p xs (ground (arith, h, n)) in (z, Memᴰ.tail m, t)
]

pub sources_meet-Rests :
    (ids : List String) (p : Fields) → sources_meet ids p ≡ ok true → Rests ids p
unfolding sources_meet
sources_meet-Rests ids p h =
    let (sources, read, h1) =
      >>=-eq-ok (iterate (get_default "source_claim_ids" (arr nil) p)) _ h in
    let (_, h2) = ensure-eq-ok (all hashable sources) _ _ h1 in
    let (v, m, t) = any-found (λ w. member w ids) sources (ground (arith, h2)) in
    let (x, is_text, found) = member-ok ids v t in
    record {
      sources = sources;
      claims = read;
      source = x;
      listed = subst (λ w. Memᴰ w sources) is_text m;
      found = found;
    }

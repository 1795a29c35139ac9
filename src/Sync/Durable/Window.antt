-- ===== src/Sync/Durable/Window.antt =====
-- The window of delivered and unacknowledged positions of `DurableSubscription` of argo_dt/sync.py.
use k2s.Prelude.{
  ℕ, ◌≤◌, ◌<◌, ◌≡◌, refl, sym, ap, ◌∙◌, ◌⊎◌, inl, inr, Bool, true, false, List, [], ◌∷◌, ◌++◌, some,
  ◌==◌, eq_iff, eqb, ltb, leb, keep, length, find_first, arith, Bool-cases, if◌then◌else◌,
}
use mathlib.Core.Path.{subst}
use k2s.Errors.{
  ok, or_raise, ensure-eq-ok, reject_if-eq-ok, >>=-eq-ok, or_raise-eq-ok, protocol_violation,
}
use k2s.Sync.Position.{StreamPosition}
use k2s.Sync.Durable.State.{Durable}
use k2s.Sync.Durable.Acks.{at_sequence, drop_until, acknowledge, acknowledge_again, acknowledge_new}

-- Sequences that rise above a first one and end at a last one or before it.
abbrev pub Ascending : ℕ → List StreamPosition → ℕ → Type 0
Ascending a [] b = a ≤ b
Ascending a (p ∷ ps) b = (a < p.sequence) × Ascending p.sequence ps b

pub Ascending-le :
    (a : ℕ) (ps : List StreamPosition) (b c : ℕ) → b ≤ c → Ascending a ps b → Ascending a ps c
Ascending-le a [] b c h k = omega arith
Ascending-le a (p ∷ ps) b c h k = (k.0, Ascending-le p.sequence ps b c h k.1)

pub Ascending-append :
    (a : ℕ) (ps : List StreamPosition) (b : ℕ) (q : StreamPosition)
    → b < q.sequence
    → Ascending a ps b
    → Ascending a (ps ++ q ∷ []) q.sequence
Ascending-append a [] b q h k = (omega arith, omega arith)
Ascending-append a (p ∷ ps) b q h k = (k.0, Ascending-append p.sequence ps b q h k.1)

pub Ascending-ends : (a : ℕ) (ps : List StreamPosition) (b : ℕ) → Ascending a ps b → a ≤ b
Ascending-ends a [] b k = k
Ascending-ends a (p ∷ ps) b k = omega (arith, Ascending-ends p.sequence ps b k.1, k.0)

-- The positions after an acknowledged one.
abbrev pub after : ℕ → List StreamPosition → List StreamPosition
after n ps = keep (λ p. ltb n p.sequence) ps

after_all :
    (a n : ℕ) (ps : List StreamPosition) (b : ℕ) → n ≤ a → Ascending a ps b → after n ps ≡ ps
unfolding keep
after_all a n [] b h k = refl
after_all a n (p ∷ ps) b h k =
    ground (arith, k.0, after_all p.sequence n ps b (omega (arith, k.0)) k.1)

drop_until-after :
    (a n : ℕ) (ps : List StreamPosition) (b : ℕ) → Ascending a ps b → drop_until n ps ≡ after n ps
unfolding drop_until keep
drop_until-after a n [] b k = refl
drop_until-after a n (p ∷ ps) b k = elim (Bool-cases (leb p.sequence n)) [
  | inl passed ↦ ground (arith, passed, drop_until-after p.sequence n ps b k.1)
  | inr ahead ↦ ground (arith, ahead, after_all p.sequence n ps b (ground arith) k.1)
]

-- What stays behind a position of the window rises above it.
at_sequence-Ascending :
    (a n : ℕ) (ps : List StreamPosition) (b : ℕ) (m : StreamPosition)
    → Ascending a ps b
    → at_sequence n ps ≡ some m
    → (a < n) × Ascending n (drop_until n ps) b
unfolding find_first drop_until
at_sequence-Ascending a n [] b m k h = cc
at_sequence-Ascending a n (p ∷ ps) b m k h = elim (Bool-cases (eqb p.sequence n)) [
  | inl here ↦
      let eq : p.sequence ≡ n = ground arith in
      let above : Ascending n ps b = subst (λ s. Ascending s ps b) eq k.1 in
      let kept : drop_until n ps ≡ ps =
        drop_until-after n n ps b above ∙ after_all n n ps b (omega arith) above in
      let drops : drop_until n (p ∷ ps) ≡ ps = ground (arith, here, kept) in
      (omega (arith, eq, k.0), subst (λ qs. Ascending n qs b) (sym drops) above)
  | inr there ↦
      let later : at_sequence n ps ≡ some m = ground (arith, there, h) in
      let (behind, rest) = at_sequence-Ascending p.sequence n ps b m k.1 later in
      let drops : drop_until n (p ∷ ps) ≡ drop_until n ps = ground (arith, behind) in
      (omega (arith, behind, k.0), subst (λ qs. Ascending n qs b) (sym drops) rest)
]

-- The acknowledged position, those outstanding and the position rise, and the window is kept.
pub record IsWindowed (d : Durable) : Type 0 where
  pub ascending : Ascending d.acknowledged.sequence d.outstanding d.position.sequence
  pub bounded : length d.outstanding ≤ d.limits.max_in_flight

-- What an acknowledgement may do: nothing, for the position that is acknowledged already, or move
-- to a position that was handed over and is outstanding.
pub record Acknowledges (p q : StreamPosition) (d c : Durable) : Type 0 where
  pub answers : q ≡ c.acknowledged
  pub named : (q.sequence ≡ p.sequence) × (q.event_hash ≡ p.event_hash)
  pub monotone : d.acknowledged.sequence ≤ c.acknowledged.sequence
  pub issued :
      (q ≡ d.acknowledged)
      ⊎ ((m : StreamPosition) × (at_sequence q.sequence d.outstanding ≡ some m)
          × (m.event_hash ≡ q.event_hash))
  pub left : c.outstanding ≡ after q.sequence d.outstanding
  pub same_position : c.position ≡ d.position
  pub keeps : IsWindowed c

length-keep-window : (n : ℕ) (ps : List StreamPosition) → length (after n ps) ≤ length ps
unfolding keep
length-keep-window n [] = omega arith
length-keep-window n (p ∷ ps) = ground (arith, length-keep-window n ps)

acknowledge_again-Acknowledges :
    (p q : StreamPosition) (d c : Durable)
    → IsWindowed d
    → p.sequence ≡ d.acknowledged.sequence
    → acknowledge_again p d ≡ ok (q, c)
    → Acknowledges p q d c
unfolding acknowledge_again
acknowledge_again-Acknowledges p q d c w at h =
    let (same, h1) = ensure-eq-ok (p.event_hash == d.acknowledged.event_hash) _ _ h in
    let hash = (eq_iff p.event_hash d.acknowledged.event_hash).0 same in
    let q_eq : d.acknowledged ≡ q = cc in
    let c_eq : d ≡ c = cc in
    subst (λ r. Acknowledges p r d c) q_eq
      (subst (Acknowledges p d.acknowledged d) c_eq (record {
        answers = refl;
        named = (sym at, sym hash);
        monotone = omega arith;
        issued = inl refl;
        left = sym (
            after_all d.acknowledged.sequence d.acknowledged.sequence d.outstanding
              d.position.sequence (omega arith) w.ascending);
        same_position = refl;
        keeps = w;
      }))

acknowledge_new-Acknowledges :
    (p q : StreamPosition) (d c : Durable)
    → IsWindowed d
    → acknowledge_new p d ≡ ok (q, c)
    → Acknowledges p q d c
unfolding acknowledge_new
acknowledge_new-Acknowledges p q d c w h =
    let (m, found, h1) =
      >>=-eq-ok (or_raise (at_sequence p.sequence d.outstanding) protocol_violation) _ h in
    let (same, h2) = ensure-eq-ok (m.event_hash == p.event_hash) _ _ h1 in
    let hash = (eq_iff m.event_hash p.event_hash).0 same in
    let at = or_raise-eq-ok (at_sequence p.sequence d.outstanding) protocol_violation found in
    let (behind, rest) =
      at_sequence-Ascending d.acknowledged.sequence p.sequence d.outstanding d.position.sequence m
        w.ascending at in
    let gone =
      drop_until-after d.acknowledged.sequence p.sequence d.outstanding d.position.sequence
        w.ascending in
    let moved : Durable = record d {
      outstanding = drop_until p.sequence d.outstanding;
      acknowledged = p;
    } in
    let q_eq : p ≡ q = cc in
    let c_eq : moved ≡ c = cc in
    subst (λ r. Acknowledges p r d c) q_eq
      (subst (Acknowledges p p d) c_eq (record {
        answers = refl;
        named = (refl, refl);
        monotone = omega (arith, behind);
        issued = inr (m, at, hash);
        left = gone;
        same_position = refl;
        keeps = record {
          ascending = rest;
          bounded =
              omega (arith, ap length gone, length-keep-window p.sequence d.outstanding, w.bounded);
        };
      }))

-- If the outstanding positions rise from the acknowledged one to the current one, and are no more than
-- the window allows, an acknowledgement that is accepted answers with the acknowledged position, which has the sequence
-- and the hash that were sent; it is the one that was acknowledged before, or one that was handed
-- over and is outstanding; the sequence does not fall; and what stays outstanding is what comes
-- after it, again in order and within the window.
pub acknowledge-Acknowledges :
    (p q : StreamPosition) (d c : Durable)
    → IsWindowed d
    → acknowledge p d ≡ ok (q, c)
    → Acknowledges p q d c
unfolding acknowledge
acknowledge-Acknowledges p q d c w h =
    let (twin, h1) = ensure-eq-ok (p.twin_id == d.position.twin_id) _ _ h in
    let (ahead, h2) = reject_if-eq-ok (ltb p.sequence d.acknowledged.sequence) _ _ h1 in
    by_sequence (eqb p.sequence d.acknowledged.sequence) refl h2
  where
    by_sequence :
        (b : Bool)
        → eqb p.sequence d.acknowledged.sequence ≡ b
        → (if b then acknowledge_again p d else acknowledge_new p d) ≡ ok (q, c)
        → Acknowledges p q d c
    by_sequence true e h = acknowledge_again-Acknowledges p q d c w (ground arith) h
    by_sequence false e h = acknowledge_new-Acknowledges p q d c w h

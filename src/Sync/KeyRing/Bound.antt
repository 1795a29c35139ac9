-- ===== src/Sync/KeyRing/Bound.antt =====
-- A cursor that a key ring binds to a position.
use k2s.Prelude.{
  ℕ, String, ◌≡◌, refl, ap, ◌∙◌, true, not, ◌||◌, Option, none, some, ◌==◌, eq_iff, ℤ, pos, negsuc,
  eqb_ℤ, find_first, arith,
}
use k2s.Errors.{ok, >>=-eq-ok, ensure-eq-ok, reject_if-eq-ok}
use k2s.Host.{Host}
use k2s.Sync.Position.{StreamPosition}
use k2s.Sync.Cursor.{CursorSigner, DecodedCursor, verify_chain_binding, compare_digest, chain_tag}
use k2s.Sync.KeyRing.{KeyRing, bind_ring, bind_by}

eqb_ℤ-pos : (x : ℤ) (n : ℕ) → eqb_ℤ x (pos n) ≡ true → x ≡ pos n
eqb_ℤ-pos (pos m) n h = ground arith
eqb_ℤ-pos (negsuc m) n h = ground arith

module _ ⦃host : Host⦄ where
  compare_digest-eq-ok : (a b : String) → compare_digest a b ≡ ok true → a ≡ b
  unfolding compare_digest
  compare_digest-eq-ok a b h = ground (arith, eq_iff a b)

  verify_chain_binding-eq-ok :
      (s : CursorSigner) (c : DecodedCursor) (p q : StreamPosition)
      → verify_chain_binding s c p ≡ ok q
      → (q ≡ p)
        × (c.twin_id ≡ p.twin_id)
        × (c.sequence ≡ pos p.sequence)
        × (c.chain_tag ≡ chain_tag s p)
  unfolding verify_chain_binding
  verify_chain_binding-eq-ok s c p q h =
      let (named, h1) =
        reject_if-eq-ok (not (c.twin_id == p.twin_id) || not (eqb_ℤ c.sequence (pos p.sequence))) _
          _ h in
      let (genuine, same, h2) = >>=-eq-ok (compare_digest c.chain_tag (chain_tag s p)) _ h1 in
      let (is_true, h3) = ensure-eq-ok genuine _ _ h2 in
      (
        cc,
        (eq_iff c.twin_id p.twin_id).0 (ground arith),
        eqb_ℤ-pos c.sequence p.sequence (ground arith),
        compare_digest-eq-ok c.chain_tag (chain_tag s p) (same ∙ ap ok is_true),
      )

  pub bind_ring-eq-ok :
      (ring : KeyRing) (c : DecodedCursor) (p q : StreamPosition)
      → bind_ring ring c p ≡ ok q
      → (q ≡ p)
        × (c.twin_id ≡ p.twin_id)
        × (c.sequence ≡ pos p.sequence)
        × ((s : CursorSigner) × (find_first
                (λ t. t.key_id == c.signing_key_id)
                ring.verification_order
              ≡ some s)
            × (c.chain_tag ≡ chain_tag s p))
  unfolding bind_ring bind_by
  bind_ring-eq-ok ring c p q h = by_signer _ refl h
    where
      by_signer :
          (o : Option CursorSigner)
          → find_first (λ t. t.key_id == c.signing_key_id) ring.verification_order ≡ o
          → bind_by o c p ≡ ok q
          → (q ≡ p)
            × (c.twin_id ≡ p.twin_id)
            × (c.sequence ≡ pos p.sequence)
            × ((s : CursorSigner) × (find_first
                    (λ t. t.key_id == c.signing_key_id)
                    ring.verification_order
                  ≡ some s)
                × (c.chain_tag ≡ chain_tag s p))
      by_signer none e k = cc
      by_signer (some s) e k =
          let (same, twin, sequence, tag) = verify_chain_binding-eq-ok s c p q k in
          (same, twin, sequence, (s, e, tag))

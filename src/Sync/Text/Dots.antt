-- ===== src/Sync/Text/Dots.antt =====
-- Splitting at full stops what was joined by them.
use Prim.Native.Char.{Char}
use Prim.Native.String.{◌++◌}
use text.Mathlib.TextLemmas.{nil-append, cons-append}
use text.Mathlib.TextEquality.{Char-path}
use k2s.Prelude.{
  String, ◌≡◌, ◌≢◌, refl, ◌∙◌, ap, Bool, true, not, List, [], ◌∷◌, eqb, arith, All, Bool-cases, inl,
  inr,
}
use k2s.Sync.Text.{all_codes, split_dots, join_dots, begin_with, is_dot, is_token_code, is_token}

abbrev pub no_dots : String → Bool
no_dots s = all_codes (λ c. not (eqb c b'.')) s

split-whole : (p : String) → no_dots p ≡ true → split_dots p ≡ p ∷ []
unfolding split_dots all_codes
split-whole String.[] h = refl
split-whole (String.◌∷◌ c p) h = ground (arith, split-whole p)

dot-append : (t : String) → "." ++ t ≡ String.◌∷◌ "." t
dot-append t = cons-append "." "" t ∙ ap (String.◌∷◌ ".") (nil-append t)

split-append : (p t : String) → no_dots p ≡ true → split_dots (p ++ ("." ++ t)) ≡ p ∷ split_dots t
unfolding split_dots all_codes
split-append String.[] t h = rw (nil-append ("." ++ t), dot-append t)
split-append (String.◌∷◌ c p) t h =
    rw (cons-append c p ("." ++ t)) (ground (arith, split-append p t))

-- `split` undoes `join` of texts with no full stop.
pub split-join :
    (p : String) (ps : List String)
    → All (λ q. no_dots q ≡ true) (p ∷ ps)
    → split_dots (join_dots (p ∷ ps)) ≡ p ∷ ps
unfolding join_dots
split-join p [] a = split-whole p a.0
split-join p (q ∷ qs) a = split-append p (join_dots (q ∷ qs)) a.0 ∙ ap (◌∷◌ p) (split-join q qs a.1)

pub token_code-no_dots : (s : String) → all_codes is_token_code s ≡ true → no_dots s ≡ true
unfolding all_codes is_token_code
token_code-no_dots String.[] h = refl
token_code-no_dots (String.◌∷◌ c s) h = ground (arith, token_code-no_dots s)

pub is_token-no_dots : (s : String) → is_token s ≡ true → no_dots s ≡ true
unfolding is_token
is_token-no_dots s h = token_code-no_dots s (ground arith)

join-begin_with :
    (c : Char) (ps : List String) → join_dots (begin_with c ps) ≡ String.◌∷◌ c (join_dots ps)
unfolding join_dots begin_with
join-begin_with c [] = refl
join-begin_with c (p ∷ []) = refl
join-begin_with c (p ∷ q ∷ ps) = cons-append c p _

split-ne-nil : (s : String) → split_dots s ≢ []
unfolding split_dots
split-ne-nil String.[] h = cc
split-ne-nil (String.◌∷◌ c s) h = elim (Bool-cases (is_dot c)) [
  | inl dot ↦ ground arith
  | inr other ↦ begin_with-ne-nil c (split_dots s) (ground arith)
]
  where
    begin_with-ne-nil : (c : Char) (ps : List String) → begin_with c ps ≢ []
    begin_with-ne-nil c [] h = cc
    begin_with-ne-nil c (p ∷ ps) h = cc

join-empty : (ps : List String) → ps ≢ [] → join_dots ("" ∷ ps) ≡ String.◌∷◌ "." (join_dots ps)
unfolding join_dots
join-empty [] h = absurd (h refl)
join-empty (p ∷ ps) h = nil-append _ ∙ dot-append _

-- `join` undoes `split`.
pub join-split : (s : String) → join_dots (split_dots s) ≡ s
unfolding split_dots join_dots
join-split String.[] = refl
join-split (String.◌∷◌ c s) = elim (Bool-cases (is_dot c)) [
  | inl dot ↦ rw dot (
      join-empty (split_dots s) (split-ne-nil s)
      ∙ ap (String.◌∷◌ ".") (join-split s)
      ∙ ap (λ d. String.◌∷◌ d s) (Char-path "." c (ground arith)))
  | inr other ↦ rw other (join-begin_with c (split_dots s) ∙ ap (String.◌∷◌ c) (join-split s))
]

-- ===== src/Sync/Limits/Batch.antt =====
-- Which batches and which windows the limits let through.
use k2s.Prelude.{
  ℕ, ◌+◌, ◌≤◌, ◌≡◌, ◌≢◌, ◌↔◌, refl, ap, ◌∙◌, false, ◌||◌, List, [], ◌∷◌, ℤ, pos, pos_part, negsuc,
  ltb, any, length, map, All, arith,
}
use mathlib.Core.Path.{subst}
use k2s.Errors.{ok, traverse, reject_if-eq-ok, >>=-eq-ok}
use k2s.Value.{Value, int}
use k2s.Sync.Limits.{SyncLimits, is_empty, int_of, is_negative, total, validate_batch}

abbrev pub sum : List ℕ → ℕ
sum [] = 0
sum (n ∷ ns) = n + sum ns

abbrev pub as_size : ℕ → Value
as_size n = int (pos n)

-- A batch of records with these sizes is within the limits.
pub record IsWithin (l : SyncLimits) (record_sizes : List Value) (serialized : Value) : Type 0 where
  pub sizes : List ℕ
  pub bytes : ℕ
  pub are_sizes : record_sizes ≡ map as_size sizes
  pub is_size : serialized ≡ as_size bytes
  pub some_record : sizes ≢ []
  pub few : length sizes ≤ l.max_batch_records
  pub covered : sum sizes ≤ bytes
  pub each_small : All (λ n. n ≤ l.max_record_bytes) sizes
  pub small : bytes ≤ l.max_batch_bytes

int_of-eq-ok : (v : Value) (n : ℤ) → int_of v ≡ ok n → v ≡ int n
unfolding int_of
int_of-eq-ok (int m) n h = cc
int_of-eq-ok _ n h = cc

not_negative : (n : ℤ) → is_negative n ≡ false → n ≡ pos (pos_part n)
not_negative (pos n) h = refl
not_negative (negsuc n) h = ground arith

-- Integers that were read, none of them negative, as natural numbers.
abbrev AreSized : List Value → List ℤ → Type 0
AreSized vs ns =
    (vs ≡ map as_size (map pos_part ns))
    × (total ns ≡ sum (map pos_part ns))
    × (length vs ≡ length (map pos_part ns))

AreSized-cons :
    (v : Value) (n : ℤ) (vs : List Value) (ns : List ℤ)
    → v ≡ int n
    → is_negative n ≡ false
    → AreSized vs ns
    → AreSized (v ∷ vs) (n ∷ ns)
unfolding total
AreSized-cons v n vs ns read h (a, b, c) = (
  ap (λ w. w ∷ vs) (read ∙ ap int (not_negative n h)) ∙ ap (◌∷◌ (as_size (pos_part n))) a,
  omega arith,
  omega arith,
)

traverse-AreSized :
    (vs : List Value) (ns : List ℤ)
    → traverse int_of vs ≡ ok ns
    → any is_negative ns ≡ false
    → AreSized vs ns
unfolding traverse any total
traverse-AreSized [] [] h k = (refl, refl, refl)
traverse-AreSized [] (n ∷ ns) h k = cc
traverse-AreSized (v ∷ vs) ns h k =
    let (n, read, h1) = >>=-eq-ok (int_of v) _ h in
    let (rest, reads, h2) = >>=-eq-ok (traverse int_of vs) _ h1 in
    let eq : n ∷ rest ≡ ns = cc in
    let k' : any is_negative (n ∷ rest) ≡ false = ap (any is_negative) eq ∙ k in
    subst (AreSized (v ∷ vs)) eq (
      AreSized-cons v n vs rest (int_of-eq-ok v n read) (ground arith)
        (traverse-AreSized vs rest reads (ground arith)))

each-small :
    (m : ℕ) (ns : List ℤ)
    → any (λ n. ltb m (pos_part n)) ns ≡ false
    → All (λ n. n ≤ m) (map pos_part ns)
unfolding any
each-small m [] h = tt
each-small m (n ∷ ns) h = (ground arith, each-small m ns (ground arith))

some_sizes : (vs : List Value) (xs : List ℕ) → is_empty vs ≡ false → length vs ≡ length xs → xs ≢ []
unfolding is_empty
some_sizes [] xs h k e = cc
some_sizes (v ∷ vs) xs h k e = absurd (omega (arith, ap length e, k))

validate_batch-IsWithin :
    (l : SyncLimits) (vs : List Value) (v : Value) → validate_batch l vs v ≡ ok tt → IsWithin l vs v
unfolding validate_batch
validate_batch-IsWithin l vs v h =
    let (some_record, h1) = reject_if-eq-ok (is_empty vs) _ _ h in
    let (few, h2) = reject_if-eq-ok (ltb l.max_batch_records (length vs)) _ _ h1 in
    let (batch, read, h3) = >>=-eq-ok (int_of v) _ h2 in
    let (ns, reads, h4) = >>=-eq-ok (traverse int_of vs) _ h3 in
    let (signs, h5) = reject_if-eq-ok (is_negative batch || any is_negative ns) _ _ h4 in
    let (covered, h6) = reject_if-eq-ok (ltb (pos_part batch) (total ns)) _ _ h5 in
    let (small, h7) = reject_if-eq-ok (any (λ n. ltb l.max_record_bytes (pos_part n)) ns) _ _ h6 in
    let (a, b, c) = traverse-AreSized vs ns reads (ground arith) in
    record {
      sizes = map pos_part ns;
      bytes = pos_part batch;
      are_sizes = a;
      is_size = int_of-eq-ok v batch read ∙ ap int (not_negative batch (ground arith));
      some_record = some_sizes vs (map pos_part ns) some_record c;
      few = ground arith;
      covered = ground arith;
      each_small = each-small l.max_record_bytes ns small;
      small = ground arith;
    }

traverse-sizes : (ns : List ℕ) → traverse int_of (map as_size ns) ≡ ok (map pos ns)
unfolding traverse int_of
traverse-sizes [] = refl
traverse-sizes (n ∷ ns) = rw (traverse-sizes ns)

pos-checks :
    (m : ℕ) (ns : List ℕ)
    → All (λ n. n ≤ m) ns
    → (any is_negative (map pos ns) ≡ false)
      × (any (λ n. ltb m (pos_part n)) (map pos ns) ≡ false)
      × (total (map pos ns) ≡ sum ns)
      × (length (map as_size ns) ≡ length ns)
unfolding any total
pos-checks m [] a = (refl, refl, refl, refl)
pos-checks m (n ∷ ns) a = ground (arith, pos-checks m ns a.1, a.0)

not_empty : (ns : List ℕ) → ns ≢ [] → is_empty (map as_size ns) ≡ false
unfolding is_empty
not_empty [] h = absurd (h refl)
not_empty (n ∷ ns) h = refl

validate_batch-sizes :
    (l : SyncLimits) (ns : List ℕ) (b : ℕ)
    → ns ≢ []
    → length ns ≤ l.max_batch_records
    → sum ns ≤ b
    → All (λ n. n ≤ l.max_record_bytes) ns
    → b ≤ l.max_batch_bytes
    → validate_batch l (map as_size ns) (as_size b) ≡ ok tt
unfolding validate_batch int_of
validate_batch-sizes l ns b ne few covered each small =
    let (signs, fits, same_sum, same_length) = pos-checks l.max_record_bytes ns each in
    rw (not_empty ns ne, traverse-sizes ns) (ground (arith, signs, fits, same_sum, same_length))

IsWithin-validate_batch :
    (l : SyncLimits) (vs : List Value) (v : Value) → IsWithin l vs v → validate_batch l vs v ≡ ok tt
IsWithin-validate_batch l vs v w =
    ap (λ us. validate_batch l us v) w.are_sizes
    ∙ ap (validate_batch l (map as_size w.sizes)) w.is_size
    ∙ validate_batch-sizes l w.sizes w.bytes w.some_record w.few w.covered w.each_small w.small

-- `validate_batch` accepts exactly the batches of one record or more, of no more records than
-- allowed, with whole sizes of which none is negative or past the record limit, in a message that is
-- no smaller than its records and not past the batch limit.
pub validate_batch_iff :
    (l : SyncLimits) (vs : List Value) (v : Value)
    → (validate_batch l vs v ≡ ok tt) ↔ IsWithin l vs v
validate_batch_iff l vs v = (validate_batch-IsWithin l vs v, IsWithin-validate_batch l vs v)

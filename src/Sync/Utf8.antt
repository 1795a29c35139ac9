-- ===== src/Sync/Utf8.antt =====
-- text.encode("utf-8"), as argo_dt/sync.py signs it.
use Prim.Native.Nat.{◌/◌, ◌%◌}
use Prim.Native.Char.{Char, code, char}
use k2s.Prelude.{
  ℕ, ◌+◌, ◌<◌, String, List, [], ◌∷◌, ◌++◌, ltb, if◌then◌else◌, All, All-append, arith,
}

unfoldable pub utf8_bytes : ℕ → List ℕ
utf8_bytes c =
    if ltb c 128
    then c ∷ []
    else if ltb c 2048
    then (192 + c / 64) ∷ (128 + c % 64) ∷ []
    else if ltb c 65536
    then (224 + c / 4096) ∷ (128 + c / 64 % 64) ∷ (128 + c % 64) ∷ []
    else (240 + c / 262144) ∷ (128 + c / 4096 % 64) ∷ (128 + c / 64 % 64) ∷ (128 + c % 64) ∷ []

unfoldable pub utf8 : String → List ℕ
unfolding utf8_bytes
utf8 String.[] = []
utf8 (String.◌∷◌ c s) = utf8_bytes (code c) ++ utf8 s

code-lt : (c : Char) → code c < 1114112
code-lt (char n h) = ground arith

utf8_bytes-All : (c : ℕ) → c < 1114112 → All (λ b. b < 256) (utf8_bytes c)
unfolding utf8_bytes
utf8_bytes-All c h = ground arith

pub utf8-All : (s : String) → All (λ b. b < 256) (utf8 s)
unfolding utf8
utf8-All String.[] = tt
utf8-All (String.◌∷◌ c s) =
    All-append (λ b. b < 256) (utf8_bytes (code c)) (utf8 s) (utf8_bytes-All (code c) (code-lt c))
      (utf8-All s)

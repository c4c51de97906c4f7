-- ===== src/TsUtils/Sample.antt =====
-- Lists of bytes, for tests.
use aribcap_dump.Prelude.{
  zero, [], suc, arith, ◌&&◌, ◌<◌, ltb, get_or, ◌∷◌, true, ◌≡◌, Bool, ℕ, List,
}

abbrev pub are_bytes : List ℕ → Bool
are_bytes [] = true
are_bytes (b ∷ bs) = ltb b 256 && are_bytes bs

pub get_or_byte : (bs : List ℕ) (i : ℕ) → are_bytes bs ≡ true → get_or bs i 0 < 256
get_or_byte [] zero h = omega arith
get_or_byte [] (suc i) h = omega arith
get_or_byte (b ∷ bs) zero h = ground (arith, h)
get_or_byte (b ∷ bs) (suc i) h = get_or_byte bs i (ground (arith, h))

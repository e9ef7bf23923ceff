-- ===== src/Crypto/Digest/Hex.antt =====
-- Printing and reading of digests (to_string and from_string of include/crypto/digest.h).
use buenzli_coin.Base.{ℕ, ◌*◌, ◌/◌, ◌%◌, ◌<◌, ◌≡◌, refl, [], ◌∷◌, arith, All, length}
use buenzli_coin.Base.Exec.{ok}
use buenzli_coin.Crypto.Digest.{Digest, hex_digit, to_string, char_to_nibble, from_string}

abbrev pub IsBytes : Digest → Type 0
IsBytes = All λ b. b < 256

char_to_nibble-hex_digit : (n : ℕ) → n < 16 → char_to_nibble (hex_digit n) ≡ ok n
unfolding char_to_nibble hex_digit
char_to_nibble-hex_digit n h = ground arith

-- Reading what was printed gives the digest back, for any vector of bytes.
pub from_string-to_string : (d : Digest) → IsBytes d → from_string (to_string d) ≡ ok d
unfolding from_string to_string
from_string-to_string [] h = refl
from_string-to_string (b ∷ d) h = ground (
  arith,
  char_to_nibble-hex_digit (b / 16),
  char_to_nibble-hex_digit (b % 16),
  from_string-to_string d h.1,
)

-- Two digits for each byte.
pub length-to_string : (d : Digest) → length (to_string d) ≡ 2 * length d
unfolding to_string
length-to_string [] = refl
length-to_string (b ∷ d) = omega (arith, length-to_string d)

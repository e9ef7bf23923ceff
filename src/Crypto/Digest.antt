-- ===== src/Crypto/Digest.antt =====
-- class Digest of include/crypto/digest.h: a vector of bytes.
pub mod Hex
pub mod Zeros
use buenzli_coin.Base.{
  ℕ, ◌+◌, ◌*◌, ◌/◌, ◌-◌, ◌%◌, ◌&&◌, ◌⊎◌, inl, inr, List, [], ◌∷◌, leb, ◌==◌, if◌then◌else◌, Bytes,
}
use buenzli_coin.Base.Exec.{Result, ok, err, bind_result, map_result, invalid_digest_string}

abbrev pub Digest : Type 0
Digest = Bytes

-- Loops that count zero bits: `inl` goes on with the count, `inr` has returned it.
abbrev pub Count : Type 0
Count = ℕ ⊎ ℕ

-- `for (mask = 0x80; mask; mask >>= 1)`, as the list of the masks; (byte & mask) == 0 is read off
-- the quotient by the mask, a power of two.
unfoldable pub scan_byte : List ℕ → ℕ → ℕ → Count
scan_byte [] byte count = inl count
scan_byte (mask ∷ masks) byte count =
    if (byte / mask) % 2 == 0 then scan_byte masks byte (count + 1) else inr count

abbrev pub byte_masks : List ℕ
byte_masks = 0x80 ∷ 0x40 ∷ 0x20 ∷ 0x10 ∷ 0x08 ∷ 0x04 ∷ 0x02 ∷ 0x01 ∷ []

unfoldable pub scan_bytes : List ℕ → ℕ → ℕ
unfolding scan_byte
scan_bytes [] count = count
scan_bytes (byte ∷ rest) count = elim (scan_byte byte_masks byte count) [
  | inl count' ↦ scan_bytes rest count'
  | inr count' ↦ count'
]

unfoldable pub zero_prefix_length : Digest → ℕ
unfolding scan_bytes
zero_prefix_length d = scan_bytes d 0

-- A digit of `std::hex` output.
unfoldable pub hex_digit : ℕ → ℕ
hex_digit n = if leb n 9 then b'0' + n else b'a' + (n - 10)

-- `setw(2)` with fill '0': every byte gives two digits.
unfoldable pub to_string : Digest → Bytes
unfolding hex_digit
to_string [] = []
to_string (byte ∷ rest) = hex_digit (byte / 16) ∷ hex_digit (byte % 16) ∷ to_string rest

unfoldable pub char_to_nibble : ℕ → Result ℕ
char_to_nibble c =
    if leb b'0' c && leb c b'9'
    then ok (c - b'0')
    else if leb b'a' c && leb c b'f'
    then ok (c - b'a' + 10)
    else if leb b'A' c && leb c b'F'
    then ok (c - b'A' + 10)
    else err invalid_digest_string

-- Two characters a byte; a single character left over is never read. The operands of `|` have no
-- common bits, so it adds them.
unfoldable pub from_string : Bytes → Result Digest
unfolding char_to_nibble
from_string [] = ok []
from_string (c ∷ []) = ok []
from_string (c ∷ d ∷ rest) = bind_result (char_to_nibble c) λ hi.
    bind_result (char_to_nibble d) λ lo. map_result (λ vec. (hi * 16 + lo) ∷ vec) (from_string rest)

-- ===== src/Crypto/Digest/Zeros.antt =====
-- What zero_prefix_length of include/crypto/digest.h says of the digest read as a number.
use native.Mathlib.Nat.{add_assoc, add_comm, mul-le-mul_right, pow-suc, one-le-pow}
use native.Mathlib.Numerals.{towards_suc}
use buenzli_coin.Base.{
  ℕ, sym, ap, ◌∙◌, zero, suc, ◌+◌, ◌*◌, ◌^◌, ◌≤◌, ◌<◌, ◌≡◌, refl, Bool, true, ◌&&◌, ◌⊎◌, inl, inr,
  List, [], ◌∷◌, arith, leb, leb→le, ◌==◌, length,
}
use buenzli_coin.Crypto.Digest.{
  Digest, Count, scan_byte, byte_masks, scan_bytes, zero_prefix_length,
}
use buenzli_coin.Crypto.Digest.Hex.{IsBytes}

-- The digest as a number, its first byte the most significant.
abbrev pub number : Digest → ℕ
number [] = 0
number (b ∷ d) = b * 256 ^ length d + number d

-- What the scan of one byte returns, for every byte.
abbrev byte_checks : ℕ → Count → Bool
byte_checks b (inl z) = (b == 0) && (z == 8)
byte_checks b (inr z) = leb ((b + 1) * 2 ^ z) 256 && leb 256 (b * 2 ^ (z + 1))

-- A test that every number under a bound passes.
passes_under : (ℕ → Bool) → ℕ → Bool
passes_under test zero = true
passes_under test (suc bound) = passes_under test bound && test bound

passes_under-true :
    (test : ℕ → Bool) (bound b : ℕ) → b < bound → passes_under test bound ≡ true → test b ≡ true
unfolding passes_under
passes_under-true test zero b under e = elim under [ ]
passes_under-true test (suc bound) b under e = ground (arith, passes_under-true test bound b)

byte_table : passes_under (λ b. byte_checks b (scan_byte byte_masks b 0)) 256 ≡ true
unfolding passes_under scan_byte
byte_table = refl

byte_checks_lem : (b : ℕ) → b < 256 → byte_checks b (scan_byte byte_masks b 0) ≡ true
byte_checks_lem b h =
    passes_under-true (λ b. byte_checks b (scan_byte byte_masks b 0)) 256 b h byte_table

-- A count that is carried in is added.
abbrev add_count : ℕ → Count → Count
add_count c (inl z) = inl (c + z)
add_count c (inr z) = inr (c + z)

scan_byte_add : (ms : List ℕ) (b c z : ℕ) → scan_byte ms b (c + z) ≡ add_count c (scan_byte ms b z)
unfolding scan_byte
scan_byte_add [] b c z = refl
scan_byte_add (m ∷ ms) b c z = rw (add_assoc c z 1) (ground (arith, scan_byte_add ms b c (z + 1)))

-- The rest of a scan, from what the scan of one byte returned.
abbrev resume : Digest → Count → ℕ
unfolding scan_bytes
resume d (inl n) = scan_bytes d n
resume d (inr n) = n

scan_bytes_cons :
    (b : ℕ) (d : Digest) (c : ℕ) → scan_bytes (b ∷ d) c ≡ resume d (scan_byte byte_masks b c)
unfolding scan_bytes
scan_bytes_cons b d c = ground arith

resume_add :
    (d : Digest) (c : ℕ)
    → ((z : ℕ) → scan_bytes d (c + z) ≡ c + scan_bytes d z)
    → (r : Count) → resume d (add_count c r) ≡ c + resume d r
unfolding scan_bytes
resume_add d c ih (inl n) = ih n
resume_add d c ih (inr n) = refl

scan_bytes_add : (d : Digest) (c z : ℕ) → scan_bytes d (c + z) ≡ c + scan_bytes d z
unfolding scan_bytes
scan_bytes_add [] c z = refl
scan_bytes_add (b ∷ d) c z =
    scan_bytes_cons b d (c + z)
    ∙ ap (resume d) (scan_byte_add byte_masks b c z)
    ∙ resume_add d c (scan_bytes_add d c) (scan_byte byte_masks b z)
    ∙ ap (◌+◌ c) (sym (scan_bytes_cons b d z))

-- A zero byte is scanned through; another one stops the scan at its highest bit.
abbrev ByteCases : ℕ → Count → Type 0
ByteCases b r =
    ((b ≡ 0) × (r ≡ inl 8))
    ⊎ ((z : ℕ) × (r ≡ inr z) × ((b + 1) * 2 ^ z ≤ 256) × (256 ≤ b * 2 ^ (z + 1)))

byte_checks-ByteCases : (b : ℕ) (r : Count) → byte_checks b r ≡ true → ByteCases b r
byte_checks-ByteCases b (inl z) h = inl (ground arith, ground arith)
byte_checks-ByteCases b (inr z) h = inr (
  z,
  refl,
  leb→le ((b + 1) * 2 ^ z) 256 (ground arith),
  leb→le 256 (b * 2 ^ (z + 1)) (ground arith),
)

byte_cases : (b : ℕ) → b < 256 → ByteCases b (scan_byte byte_masks b 0)
byte_cases b h = byte_checks-ByteCases b _ (byte_checks_lem b h)

-- The bounds of a number that begins with a byte b other than 0, from those of the byte. Here p is
-- 256 ^ n, r the rest, and k a power of two.
below_top : (b r p k : ℕ) → r < p → (b + 1) * k ≤ 256 → 0 < k → (b * p + r) * k < p * 256
below_top b r p k hr hb hk = omega (arith, mul-le-mul_right k hr, mul-le-mul_right p hb)

above_half : (b r p k : ℕ) → 256 ≤ b * k → p * 256 ≤ (b * p + r) * k
above_half b r p k hb = omega (arith, mul-le-mul_right p hb)

pub number-lt : (d : Digest) → IsBytes d → number d < 256 ^ length d
number-lt [] h = omega arith
number-lt (b ∷ d) h = rw pow-suc (
    omega (
      arith,
      number-lt d h.1,
      mul-le-mul_right (256 ^ length d) (let e : b + 1 ≤ 256 = omega (arith, h.0) in e),
    ))

-- The number of zero bits Z of a digest of n bytes is the one with
-- 256 ^ n / 2 ^ (Z + 1) <= number < 256 ^ n / 2 ^ Z, the left bound only if a bit is set.
pub record Bracket (d : Digest) (z : ℕ) : Type 0 where
  pub below : number d * 2 ^ z < 256 ^ length d
  pub above : 0 < number d → 256 ^ length d ≤ number d * 2 ^ (z + 1)
  pub all_zero : number d ≡ 0 → z ≡ 8 * length d

Bracket-zero : (d : Digest) (z : ℕ) → Bracket d z → Bracket (0 ∷ d) (z + 8)
Bracket-zero d z h = record {
  below = simp (pow-suc, towards_suc) (omega (arith, h.below));
  above = λ p.
      simp (pow-suc, towards_suc)
        (omega (arith, simp (pow-suc, towards_suc) at (h.above (omega arith))));
  all_zero = λ e. omega (arith, h.all_zero (omega arith));
}

pos_of_mul : (b k : ℕ) → 256 ≤ b * k → 1 ≤ b
pos_of_mul zero k h = omega arith
pos_of_mul (suc b) k h = omega arith

Bracket-bit :
    (b z : ℕ) (d : Digest)
    → IsBytes d
    → (b + 1) * 2 ^ z ≤ 256
    → 256 ≤ b * 2 ^ (z + 1)
    → Bracket (b ∷ d) z
Bracket-bit b z d h lo hi = record {
  below = rw pow-suc (below_top b _ _ _ (number-lt d h) lo (one-le-pow z 2 (omega arith)));
  above = λ p. rw pow-suc (above_half b _ _ _ hi);
  all_zero = λ e. omega (
    arith,
    mul-le-mul_right (256 ^ length d) (pos_of_mul b _ hi),
    one-le-pow (length d) 256 (omega arith),
  );
}

zeros-Bracket : (d : Digest) → IsBytes d → Bracket d (scan_bytes d 0)
unfolding scan_bytes
zeros-Bracket [] h = record {
  below = omega arith;
  above = λ p. omega arith;
  all_zero = λ e. omega arith;
}
zeros-Bracket (b ∷ d) h = rw (scan_bytes_cons b d 0) (elim (byte_cases b h.0) [
  | inl (e, s) ↦
      rw (s, e)
        (rw (scan_bytes_add d 8 0, add_comm 8 (scan_bytes d 0))
          (Bracket-zero d _ (zeros-Bracket d h.1)))
  | inr (z, s, lo, hi) ↦ rw s (Bracket-bit b z d h.1 lo hi)
])

-- The number Z of zero bits at the front of a digest of n bytes says how large the digest is as a
-- number: it is below 256 ^ n / 2 ^ Z, and at least 256 ^ n / 2 ^ (Z + 1) unless it is 0; then Z is
-- all 8 * n bits.
pub zero_prefix_length-Bracket : (d : Digest) → IsBytes d → Bracket d (zero_prefix_length d)
unfolding zero_prefix_length
zero_prefix_length-Bracket d h = zeros-Bracket d h

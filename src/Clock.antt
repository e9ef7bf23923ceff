-- ===== src/Clock.antt =====
-- include/clock.h: a time point is the number of milliseconds since the epoch, a signed 64-bit
-- number. A difference that leaves that range is not modelled.
use buenzli_coin.Base.{ℕ, ◌-◌, ◌%◌, ◌^◌, ◌<◌, ◌≡◌, ltb, if◌then◌else◌, arith}
use buenzli_coin.Base.Int.{ℤ, pos, negsuc}

abbrev pub TimePoint : Type 0
TimePoint = ℤ

-- The conversion of a signed number to uint64_t.
abbrev pub to_word : ℤ → ℕ
to_word (pos n) = n % 2 ^ 64
to_word (negsuc n) = 2 ^ 64 - 1 - n % 2 ^ 64

unfoldable pub to_time_since_epoch : TimePoint → ℕ
to_time_since_epoch t = to_word t

-- The conversion of a uint64_t to a signed number.
unfoldable pub from_time_since_epoch : ℕ → TimePoint
from_time_since_epoch n = if ltb n (2 ^ 63) then pos n else negsuc (2 ^ 64 - 1 - n)

-- A time point of 64 bits.
abbrev pub IsTimePoint : TimePoint → Type 0
IsTimePoint (pos n) = n < 2 ^ 63
IsTimePoint (negsuc n) = n < 2 ^ 63

-- A time point that is written as its milliseconds is read back.
pub from_time_since_epoch-to :
    (t : TimePoint) → IsTimePoint t → from_time_since_epoch (to_time_since_epoch t) ≡ t
unfolding from_time_since_epoch to_time_since_epoch
from_time_since_epoch-to (pos n) h = ground arith
from_time_since_epoch-to (negsuc n) h = ground arith

-- What is written fits its 64 bits.
pub to_time_since_epoch-lt : (t : TimePoint) → to_time_since_epoch t < 2 ^ 64
unfolding to_time_since_epoch
to_time_since_epoch-lt (pos n) = omega arith
to_time_since_epoch-lt (negsuc n) = omega arith

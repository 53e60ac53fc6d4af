-- ===== src/Double.antt =====
-- A `double` as its 64 bits in the IEEE format: what the configuration code does with doubles is to
-- copy them, to compare them, and to test for the two NaN patterns that stand for "not set".
use speakerman.Prelude.{
  ℕ, ◌+◌, ◌%◌, ◌^◌, ◌≡◌, Bool, false, not, ◌&&◌, ◌||◌, ltb, leb, if◌then◌else◌, arith,
}

abbrev pub Double : Type 0
Double = ℕ

-- The bits without the sign.
abbrev magnitude : Double → ℕ
magnitude a = a % 2 ^ 63

abbrev is_negative : Double → Bool
is_negative a = leb (2 ^ 63) a

abbrev is_nan : Double → Bool
is_nan a = ltb 0x7ff0000000000000 (magnitude a)

-- `a < b`: false if one is NaN, and the two zeros are equal.
unfoldable pub less : Double → Double → Bool
less a b =
    not (is_nan a || is_nan b)
    && (if is_negative a
        then if is_negative b
          then ltb (magnitude b) (magnitude a)
          else ltb 0 (magnitude a + magnitude b)
        else not (is_negative b) && ltb (magnitude a) (magnitude b))

-- Nothing is less than itself.
pub less_irrefl : (a : Double) → less a a ≡ false
unfolding less
less_irrefl a = ground arith

-- `numeric_limits<double>::quiet_NaN()` and `signaling_NaN()`
abbrev pub quiet_nan : Double
quiet_nan = 0x7ff8000000000000

abbrev pub signaling_nan : Double
signaling_nan = 0x7ff4000000000000

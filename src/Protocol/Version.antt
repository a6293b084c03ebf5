-- ===== src/Protocol/Version.antt =====
-- libraries/protocol/version.cpp and include/node/protocol/version.hpp: a version is three
-- numbers in one of 32 bits. The text that `from_variant` reads its numbers from, and that the
-- conversion to a string writes, is left out: the two are modelled on the numbers.
pub mod Order
mod Tests
use wenode.Base.{ℕ, ◌+◌, ◌*◌, ◌/◌, ◌%◌, ◌^◌, Bool, leb, ltb, Result, ok, assert, ◌>>=◌, ◌>>◌}

-- Of two bytes and one number of 16 bits: the shifts and ors are sums.
unfoldable pub make_version : ℕ → ℕ → ℕ → ℕ
make_version m h r = (m * 2 ^ 8 + h) * 2 ^ 16 + r

unfoldable pub major_of : ℕ → ℕ
major_of v = v / 2 ^ 24 % 256

unfoldable pub hardfork_of : ℕ → ℕ
hardfork_of v = v / 2 ^ 16 % 256

unfoldable pub revision_of : ℕ → ℕ
revision_of v = v % 2 ^ 16

-- `from_variant`, once the three numbers are read.
unfoldable pub from_numbers : ℕ → ℕ → ℕ → Result ℕ
from_numbers major hardfork revision = do
  assert (leb major 255)
  assert (leb hardfork 255)
  assert (leb revision 65535)
  ok (major * 2 ^ 24 + hardfork * 2 ^ 16 + revision)

-- A hardfork version: `v_num & 0xFFFF0000`.
unfoldable pub hardfork_version : ℕ → ℕ
hardfork_version v = v / 2 ^ 16 * 2 ^ 16

unfoldable pub version_lt : ℕ → ℕ → Bool
version_lt v w = ltb v w

-- A hardfork version against a version.
unfoldable pub hardfork_version_lt : ℕ → ℕ → Bool
unfolding hardfork_version
hardfork_version_lt hv w = ltb hv (hardfork_version w)

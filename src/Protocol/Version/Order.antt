-- ===== src/Protocol/Version/Order.antt =====
-- A version's number says neither more nor less than its three parts, and orders versions by them.
use wenode.Base.{ℕ, ◌+◌, ◌*◌, ◌/◌, ◌%◌, ◌^◌, ◌<◌, ◌≡◌, ◌⊎◌, ◌↔◌, true, ok, arith}
use wenode.Protocol.Version.{
  make_version, major_of, hardfork_of, revision_of, from_numbers, hardfork_version, version_lt,
  hardfork_version_lt,
}

-- The version that `from_variant` makes of the numbers that a version is written with is the
-- version itself, for every number of 32 bits.
pub from_numbers-parts :
    (v : ℕ) → v < 2 ^ 32 → from_numbers (major_of v) (hardfork_of v) (revision_of v) ≡ ok v
unfolding from_numbers major_of hardfork_of revision_of
from_numbers-parts v fits =
    let whole : v / 2 ^ 24 % 256 * 2 ^ 24 + v / 2 ^ 16 % 256 * 2 ^ 16 + v % 2 ^ 16 ≡ v =
      omega (arith, fits) in
    ground (arith, fits, whole)

-- The parts of a version that is made of parts in range are those parts.
pub parts-make_version :
    (m h r : ℕ)
    → m < 256
    → h < 256
    → r < 2 ^ 16
    → (major_of (make_version m h r) ≡ m)
      × (hardfork_of (make_version m h r) ≡ h)
      × (revision_of (make_version m h r) ≡ r)
unfolding make_version major_of hardfork_of revision_of
parts-make_version m h r a b c =
    (omega (arith, a, b, c), omega (arith, a, b, c), omega (arith, a, b, c))

-- One version is below another just where its major number is, or with equal ones its hardfork
-- number, or with those equal too its revision.
pub version_lt-make_version :
    (m h r m' h' r' : ℕ)
    → h < 256
    → r < 2 ^ 16
    → h' < 256
    → r' < 2 ^ 16
    → (version_lt (make_version m h r) (make_version m' h' r') ≡ true)
      ↔ ((m < m') ⊎ (m ≡ m') × ((h < h') ⊎ (h ≡ h') × (r < r')))
unfolding version_lt make_version
version_lt-make_version m h r m' h' r' a b c d = ground (arith, a, b, c, d)

-- A hardfork version is below a version just where its major number is, or with equal ones its
-- hardfork number: the revision of the version does not count.
pub hardfork_version_lt-make_version :
    (m h m' h' r' : ℕ)
    → h < 256
    → h' < 256
    → r' < 2 ^ 16
    → (hardfork_version_lt (make_version m h 0) (make_version m' h' r') ≡ true)
      ↔ ((m < m') ⊎ (m ≡ m') × (h < h'))
unfolding hardfork_version_lt hardfork_version make_version
hardfork_version_lt-make_version m h m' h' r' a b c = ground (arith, a, b, c)

-- ===== src/Protocol/Version/Tests.antt =====
-- Version 0.23.1, and 0.19.5.
use wenode.Base.{ℕ, ◌≡◌, ◌<◌, ◌⊎◌, ◌↔◌, true, ok, arith}
use wenode.Protocol.Version.{
  make_version, major_of, hardfork_of, revision_of, from_numbers, version_lt, hardfork_version_lt,
}
use wenode.Protocol.Version.Order.{
  from_numbers-parts, version_lt-make_version, hardfork_version_lt-make_version,
}

from_numbers-parts_example :
    from_numbers (major_of 1507329) (hardfork_of 1507329) (revision_of 1507329) ≡ ok 1507329
from_numbers-parts_example = from_numbers-parts 1507329 (omega arith)

version_lt-make_version_example :
    (version_lt (make_version 0 19 5) (make_version 0 23 1) ≡ true)
    ↔ ((0 < 0) ⊎ (◌≡◌ {A = ℕ} 0 0) × ((19 < 23) ⊎ (◌≡◌ {A = ℕ} 19 23) × (5 < 1)))
version_lt-make_version_example =
    version_lt-make_version 0 19 5 0 23 1 (omega arith) (omega arith) (omega arith) (omega arith)

hardfork_version_lt-make_version_example :
    (hardfork_version_lt (make_version 0 19 0) (make_version 0 23 1) ≡ true)
    ↔ ((0 < 0) ⊎ (◌≡◌ {A = ℕ} 0 0) × (19 < 23))
hardfork_version_lt-make_version_example =
    hardfork_version_lt-make_version 0 19 0 23 1 (omega arith) (omega arith) (omega arith)

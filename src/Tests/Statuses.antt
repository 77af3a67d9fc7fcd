-- ===== src/Tests/Statuses.antt =====
-- The theorems on witness statuses at concrete inputs.
use rgb_std.Base.{◌≡◌, ◌↔◌, arith}
use rgb_std.Status.{mined, IsCanonical, from_bytes, to_bytes, offchain_height}
use rgb_std.Status.Encoding.{from_bytes-to_bytes}

-- The least height that is read back as another status.
from_bytes-to_bytes_example :
    (from_bytes (to_bytes (mined offchain_height)) ≡ mined offchain_height)
    ↔ IsCanonical (mined offchain_height)
from_bytes-to_bytes_example = from_bytes-to_bytes (mined offchain_height) (ground arith)

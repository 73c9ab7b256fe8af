-- ===== src/State/Digests.antt =====
-- src/auto_code/state.py: `_SHA256`, `_is_sha256` and `_require_sha256`.
use auto_code.Common.{◌≡◌, refl, ℕ, String, Bool, false, ◌&&◌, ◌||◌, List, leb, num_eq, length, all}
use auto_code.State.Identifiers.{codes}

-- `[0-9A-Fa-f]`
unfoldable pub is_hex : ℕ → Bool
is_hex c = (leb b'0' c && leb c b'9') || (leb b'A' c && leb c b'F') || (leb b'a' c && leb c b'f')

-- `_is_sha256` on the code points of a text
unfoldable pub is_sha256_code : List ℕ → Bool
unfolding is_hex
is_sha256_code cs = num_eq (length cs) 64 && all is_hex cs

-- `_is_sha256`; `_require_sha256` raises where it fails.
unfoldable pub is_sha256 : String → Bool
unfolding is_sha256_code
is_sha256 s = is_sha256_code (codes s)

refuses_short : is_sha256 "0123456789abcdef" ≡ false
unfolding is_sha256
refuses_short = refl

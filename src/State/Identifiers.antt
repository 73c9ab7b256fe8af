-- ===== src/State/Identifiers.antt =====
-- src/auto_code/state.py: `_require_identifier`. A text is ASCII where the pattern matches it.
use Prim.Native.Char.{code}
use Prim.Native.String.{String}
use auto_code.Common.{
  ◌≡◌, refl, ℕ, Bool, true, false, ◌&&◌, ◌||◌, List, [], ◌∷◌, leb, num_eq, length, all,
}

-- The code points of a text.
abbrev pub codes : String → List ℕ
codes String.[] = []
codes (String.◌∷◌ c rest) = code c ∷ codes rest

-- `[A-Za-z0-9]`
unfoldable pub is_alphanumeric : ℕ → Bool
is_alphanumeric c =
    (leb b'A' c && leb c b'Z') || (leb b'a' c && leb c b'z') || (leb b'0' c && leb c b'9')

-- `[A-Za-z0-9._-]`
unfoldable pub is_identifier_rest : ℕ → Bool
unfolding is_alphanumeric
is_identifier_rest c = is_alphanumeric c || num_eq c b'.' || num_eq c b'_' || num_eq c b'-'

unfoldable pub is_identifier_code : List ℕ → Bool
unfolding is_alphanumeric is_identifier_rest
is_identifier_code [] = false
is_identifier_code (c ∷ rest) =
    is_alphanumeric c && all is_identifier_rest rest && leb (length rest) 254

-- `_require_identifier` raises nothing. A text that starts with a dot is refused already.
unfoldable pub is_identifier : String → Bool
unfolding is_identifier_code
is_identifier s = is_identifier_code (codes s)

accepts_run_id : is_identifier "run-1.a_B" ≡ true
unfolding is_identifier
accepts_run_id = refl

refuses_parent : is_identifier ".." ≡ false
unfolding is_identifier
refuses_parent = refl

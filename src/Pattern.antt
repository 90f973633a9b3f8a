-- ===== src/Pattern.antt =====
-- The two regular expressions of the program, as tests on byte strings.
use vertix.Base.{ℕ, Bool, true, false, ◌&&◌, ◌||◌, [], ◌∷◌, if◌then◌else◌, leb, ◌==◌, length, all}
use vertix.Base.Bytes.{Bytes}

abbrev pub is_digit : ℕ → Bool
is_digit c = leb b'0' c && leb c b'9'

abbrev pub is_upper_alnum : ℕ → Bool
is_upper_alnum c = (leb b'A' c && leb c b'Z') || is_digit c

abbrev pub is_lower_alnum : ℕ → Bool
is_lower_alnum c = (leb b'a' c && leb c b'z') || is_digit c

-- `[A-Z0-9]+` up to the end
unfoldable pub is_quote : Bytes → Bool
is_quote [] = false
is_quote (c ∷ cs) = is_upper_alnum c && all is_upper_alnum cs

unfoldable pub is_pair_after : Bool → Bytes → Bool
is_pair_after seen [] = false
is_pair_after seen (c ∷ cs) =
    let rest = is_pair_after true cs in
    if is_upper_alnum c then rest else seen && c == b':' && is_quote cs

-- `^[A-Z0-9]+:[A-Z0-9]+$`
unfoldable pub is_pair : Bytes → Bool
unfolding is_pair_after is_quote
is_pair s = is_pair_after false s

-- `^[a-z0-9][a-z0-9-]{2,42}$`
unfoldable pub is_slug : Bytes → Bool
is_slug [] = false
is_slug (c ∷ cs) =
    is_lower_alnum c
    && leb 2 (length cs)
    && leb (length cs) 42
    && all (λ x. is_lower_alnum x || x == b'-') cs

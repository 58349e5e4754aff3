-- ===== src/Healthgate.antt =====
-- internal/healthgate/validate.go: the paths and the hosts of a health probe, and the hostnames of a
-- route. A regular expression is the test that its text describes.
use auto_deploy.Base.{
  ℕ, zero, suc, Bool, true, false, not, ◌&&◌, ◌||◌, List, [], ◌∷◌, leb, ltb, ◌==◌, ◌+◌, ◌*◌, ◌-◌,
  if◌then◌else◌, Bytes, length,
}
use auto_deploy.Base.Strings.{bytes, in_range, contains_byte, has_prefix, cut, split, all_bytes}

abbrev pub max_path_bytes : ℕ
max_path_bytes = 2048

abbrev pub max_host_label_bytes : ℕ
max_host_label_bytes = 253

unfoldable pub is_digit : ℕ → Bool
is_digit c = in_range b'0' b'9' c

unfoldable pub is_lower : ℕ → Bool
is_lower c = in_range b'a' b'z' c

unfoldable pub is_alphanumeric : ℕ → Bool
unfolding is_digit is_lower
is_alphanumeric c = is_digit c || is_lower c || in_range b'A' b'Z' c

unfoldable pub is_hex_digit : ℕ → Bool
unfolding is_digit
is_hex_digit c = is_digit c || in_range b'a' b'f' c || in_range b'A' b'F' c

-- The bytes of a path or a query, but for `%` and the first `?`.
unfoldable pub is_path_byte : ℕ → Bool
unfolding is_alphanumeric contains_byte
is_path_byte c = is_alphanumeric c || contains_byte (bytes "._~!$&'()*+,;=:@/-") c

-- `due` is how many hexadecimal digits are due. The first `?` opens the query, where `?` is allowed
-- too.
unfoldable pub path_from : ℕ → Bytes → Bool
path_from due [] = due == 0
path_from (suc due) (c ∷ s) = is_hex_digit c && path_from due s
path_from zero (c ∷ s) =
    (c == b'%' || c == b'?' || is_path_byte c) && path_from (if c == b'%' then 2 else 0) s

unfoldable pub valid_path : Bytes → Bool
valid_path path =
    not (ltb (length path) 1 || ltb max_path_bytes (length path))
    && not (has_prefix path (bytes "//"))
    && has_prefix path (bytes "/")
    && path_from 0 path

abbrev pub last_byte : Bytes → ℕ
last_byte [] = 0
last_byte (c ∷ []) = c
last_byte (c ∷ d ∷ s) = last_byte (d ∷ s)

abbrev pub first_byte : Bytes → ℕ
first_byte [] = 0
first_byte (c ∷ s) = c

-- At most 63 bytes that pass the test or are dashes, neither of the ends a dash.
unfoldable pub valid_label : (ℕ → Bool) → Bytes → Bool
valid_label test s =
    ltb 0 (length s)
    && leb (length s) 63
    && all_bytes (λ c. test c || c == b'-') s
    && test (first_byte s)
    && test (last_byte s)

unfoldable pub all_labels : (ℕ → Bool) → List Bytes → Bool
all_labels test [] = true
all_labels test (s ∷ ss) = valid_label test s && all_labels test ss

unfoldable pub decimal : ℕ → Bytes → ℕ
decimal v [] = v
decimal v (c ∷ s) = decimal (v * 10 + (c - 48)) s

-- A number from 1 to 65535 without leading zeros.
unfoldable pub valid_port : Bytes → Bool
valid_port s =
    ltb 0 (length s)
    && leb (length s) 5
    && all_bytes is_digit s
    && not (first_byte s == b'0')
    && leb (decimal 0 s) 65535

unfoldable pub valid_ports : List Bytes → Bool
valid_ports [] = true
valid_ports (port ∷ []) = valid_port port
valid_ports (port ∷ more ∷ rest) = false

unfoldable pub valid_host : Bytes → Bool
valid_host host =
    let (host_part, ports) = cut b':' host in
    not (length host == 0)
    && all_labels is_alphanumeric (split b'.' host_part)
    && valid_ports ports
    && leb (length host_part) max_host_label_bytes

unfoldable pub is_route_byte : ℕ → Bool
is_route_byte c = is_digit c || is_lower c

abbrev pub last_label : List Bytes → Bytes
last_label [] = []
last_label (s ∷ []) = s
last_label (s ∷ t ∷ ss) = last_label (t ∷ ss)

unfoldable pub valid_route_hostname : Bytes → Bool
valid_route_hostname host =
    not (length host == 0 || ltb max_host_label_bytes (length host))
    && ltb 1 (length (split b'.' host))
    && all_labels is_route_byte (split b'.' host)
    && not (all_bytes is_digit (last_label (split b'.' host)))

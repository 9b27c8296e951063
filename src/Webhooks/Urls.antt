-- ===== src/Webhooks/Urls.antt =====
-- `validate_webhook_url` of webhooks/security.py: what a tenant may have the server dial. The record `Net`
-- is what lies outside of the program: `urlsplit`, `ip_address`, `str.lower` and the resolver.
pub mod Guards
pub mod Admission
mod Tests
use agentforgev.Common.{
  ℕ, Bool, true, false, not, ◌&&◌, ◌||◌, Option, none, some, List, [], ◌∷◌, length, ltb, ◌==◌,
  number_keys, if◌then◌else◌,
}
use agentforgev.Common.Text.{Text, text, strip_text, text_is_key}

-- The fields of a `SplitResult` that the code reads.
pub record Parts : Type 0 where
  pub scheme : Text
  pub username : Option Text
  pub password : Option Text
  pub fragment : Text
  pub hostname : Option Text
  -- reading `port` gives `none` where it raises `ValueError`
  pub port : Option (Option ℕ)

-- The properties of an `IPv4Address` or `IPv6Address` that the code reads.
pub record Address : Type 0 where
  pub is_global : Bool
  pub is_multicast : Bool
  pub is_loopback : Bool

pub record Net : Type 0 where
  -- `none` when it raises `ValueError`
  pub urlsplit : Text → Option Parts
  -- `none` when it raises `ValueError`
  pub ip_address : Text → Option Address
  pub lower : Text → Text
  -- the addresses of `getaddrinfo` at the time of the call; `none` when it raises
  pub getaddrinfo : Text → Option (List Text)

-- The rule that a refusal names.
pub data Rule : Type 0 where
  required too_long needs_tls has_credentials has_fragment bad_port no_host : Rule
  tls_on_80 cleartext_on_443 is_platform unresolved not_public : Rule

pub data Verdict : Type 0 where
  admitted : Verdict
  rejected : Rule → Verdict
  raises_value_error : Verdict

abbrev pub max_url_length : ℕ
max_url_length = 2048

abbrev pub loopback_names : List Text
loopback_names =
    text "localhost"
    ∷ text "localhost.localdomain"
    ∷ text "ip6-localhost"
    ∷ text "ip6-loopback"
    ∷ []

abbrev pub is_one_of : Text → List Text → Bool
is_one_of s [] = false
is_one_of s (t ∷ ts) = s == t || is_one_of s ts

-- The truth value of a text, and of an optional one.
abbrev pub has_text : Text → Bool
has_text [] = false
has_text (c ∷ s) = true

abbrev pub has_some_text : Option Text → Bool
has_some_text none = false
has_some_text (some s) = has_text s

-- x or ""
abbrev pub or_empty : Option Text → Text
or_empty none = []
or_empty (some s) = s

abbrev pub is_port : ℕ → Option ℕ → Bool
is_port n none = false
is_port n (some m) = m == n

abbrev pub is_forbidden : Option Address → Bool
is_forbidden none = true
is_forbidden (some address) = not address.is_global || address.is_multicast

abbrev pub is_loopback_address : Option Address → Bool
is_loopback_address none = false
is_loopback_address (some address) = address.is_loopback

module _ (net : Net) where
  abbrev pub is_forbidden_address : Text → Bool
  is_forbidden_address raw = is_forbidden (net.ip_address raw)

  abbrev pub any_forbidden : List Text → Bool
  any_forbidden [] = false
  any_forbidden (a ∷ rest) = is_forbidden_address a || any_forbidden rest

  abbrev pub is_loopback_host : Text → Bool
  is_loopback_host host =
      if is_one_of (net.lower host) loopback_names
      then true
      else is_loopback_address (net.ip_address host)

  abbrev pub check_addresses : Option (List Text) → Verdict
  check_addresses none = rejected unresolved
  check_addresses (some []) = rejected not_public
  check_addresses (some (a ∷ rest)) =
      if any_forbidden (a ∷ rest) then rejected not_public else admitted

  -- From the test for a loopback host on.
  abbrev pub check_destination : Bool → Text → Text → Verdict
  check_destination allow_loopback scheme host =
      if is_loopback_host host
      then if allow_loopback then admitted else rejected is_platform
      else if not (scheme == text "https")
      then rejected needs_tls
      else check_addresses (net.getaddrinfo host)

  abbrev pub check_host : Bool → Text → Option ℕ → Text → Verdict
  check_host allow_loopback scheme port host =
      if not (has_text host)
      then rejected no_host
      else if scheme == text "https" && is_port 80 port
      then rejected tls_on_80
      else if scheme == text "http" && is_port 443 port
      then rejected cleartext_on_443
      else check_destination allow_loopback scheme host

  abbrev pub check_port : Bool → Parts → Option (Option ℕ) → Verdict
  check_port allow_loopback parts none = rejected bad_port
  check_port allow_loopback parts (some port) =
      check_host allow_loopback parts.scheme port (strip_text (or_empty parts.hostname))

  abbrev pub check_parts : Bool → Option Parts → Verdict
  check_parts allow_loopback none = raises_value_error
  check_parts allow_loopback (some parts) =
      if not (parts.scheme == text "https" || parts.scheme == text "http")
      then rejected needs_tls
      else if has_some_text parts.username || has_some_text parts.password
      then rejected has_credentials
      else if has_text parts.fragment
      then rejected has_fragment
      else check_port allow_loopback parts parts.port

  unfoldable pub validate_webhook_url : Bool → Text → Verdict
  validate_webhook_url allow_loopback url =
      if not (has_text (strip_text url))
      then rejected required
      else if ltb max_url_length (length url)
      then rejected too_long
      else check_parts allow_loopback (net.urlsplit url)

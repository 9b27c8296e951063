-- ===== src/Webhooks/Urls/Tests.antt =====
-- A concrete network: one public host, one private host, and this machine.
use agentforgev.Common.{
  ℕ, ◌+◌, String, ◌≡◌, ◌↔◌, refl, true, false, Option, none, some, List, [], ◌∷◌, ◌==◌,
  if◌then◌else◌,
}
use agentforgev.Common.Text.{Text, text, strip_text, text_is_key}
use agentforgev.Webhooks.Urls.{
  Parts, Address, Net, admitted, rejected, not_public, is_platform, raises_value_error, tls_on_80,
  validate_webhook_url,
}
use agentforgev.Webhooks.Urls.Admission.{IsAdmissible, validate_webhook_url_iff}
use agentforgev.Webhooks.Transport.{Wording, Dialled, answered, Posted, post, post_dials_admissible}

abbrev parts_of : String → String → Option ℕ → Parts
parts_of scheme host port = record {
  scheme = text scheme;
  username = none;
  password = none;
  fragment = [];
  hostname = some (text host);
  port = some port;
}

abbrev split : Text → Option Parts
split url =
    if url == text "https://a.io/hook"
    then some (parts_of "https" "a.io" none)
    else if url == text "https://in.io"
    then some (parts_of "https" "in.io" none)
    else if url == text "http://localhost"
    then some (parts_of "http" "localhost" none)
    else if url == text "https://a.io:80"
    then some (parts_of "https" "a.io" (some 80))
    else none

abbrev address_of : Text → Option Address
address_of raw =
    if raw == text "9.9.9.9"
    then some (record { is_global = true; is_multicast = false; is_loopback = false })
    else if raw == text "10.0.3.7"
    then some (record { is_global = false; is_multicast = false; is_loopback = false })
    else none

abbrev resolve : Text → Option (List Text)
resolve host =
    if host == text "a.io"
    then some (text "9.9.9.9" ∷ [])
    else if host == text "in.io"
    then some (text "9.9.9.9" ∷ text "10.0.3.7" ∷ [])
    else none

abbrev net : Net
net = record { urlsplit = split; ip_address = address_of; lower = λ s. s; getaddrinfo = resolve }

verdicts :
    (validate_webhook_url net false (text "https://a.io/hook") ≡ admitted)
    × (validate_webhook_url net false (text "https://in.io") ≡ rejected not_public)
    × (validate_webhook_url net false (text "http://localhost") ≡ rejected is_platform)
    × (validate_webhook_url net true (text "http://localhost") ≡ admitted)
    × (validate_webhook_url net true (text "https://a.io:80") ≡ rejected tls_on_80)
    × (validate_webhook_url net true (text "https://[::1") ≡ raises_value_error)
unfolding validate_webhook_url strip_text
verdicts = (refl, refl, refl, refl, refl, refl)

validate_webhook_url_iff_example :
    (validate_webhook_url net false (text "https://a.io/hook") ≡ admitted)
    ↔ IsAdmissible net false (text "https://a.io/hook")
validate_webhook_url_iff_example = validate_webhook_url_iff net false (text "https://a.io/hook")

abbrev wording : Wording
wording = record {
  url_rejected = λ rule. "url rejected";
  summarise = λ name. name;
  endpoint_returned = λ code. "endpoint returned";
  value_error = "ValueError";
}

-- The state counts the requests.
abbrev dial : Text → Text → ℕ → Dialled × ℕ
dial url body n = (answered 204, n + 1)

post_dials_admissible_example :
    Posted net wording dial false
      (text "https://in.io")
      []
      0
      (post net wording dial false (text "https://in.io") [] 0)
post_dials_admissible_example =
    post_dials_admissible net wording dial false (text "https://in.io") [] 0

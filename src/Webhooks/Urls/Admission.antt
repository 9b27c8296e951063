-- ===== src/Webhooks/Urls/Admission.antt =====
-- Which URLs `validate_webhook_url` admits.
use agentforgev.Common.{
  ℕ, ◌≤◌, ◌≡◌, ◌≢◌, ◌↔◌, ◌⊎◌, refl, Bool, true, false, not, ◌&&◌, ◌||◌, Option, none, some, List,
  [], ◌∷◌, length, ltb, ◌==◌, if◌then◌else◌, arith, All, ap, ◌∙◌,
}
use agentforgev.Common.Text.{Text, text, strip_text, text_is_key, text_beq_iff}
use agentforgev.Webhooks.Urls.{
  Parts, Address, Net, admitted, rejected, required, too_long, not_public, needs_tls, no_host,
  tls_on_80, cleartext_on_443, has_credentials, has_fragment, max_url_length, has_text,
  has_some_text, or_empty, is_port, any_forbidden, is_loopback_host, check_addresses,
  check_destination, check_host, check_port, check_parts, validate_webhook_url,
}
use agentforgev.Webhooks.Urls.Guards.{
  guard_iff, forbidden_iff, some_port, some_Parts, some_list, destination_iff, has_text_iff,
  no_text_iff, other_port_iff,
}

-- An address that may be dialled: one that parses, is routable from everywhere, and is no multicast group.
abbrev pub IsPublic : Net → Text → Type 0
IsPublic net raw =
    (a : Address) × (net.ip_address raw ≡ some a) × (a.is_global ≡ true) × (a.is_multicast ≡ false)

-- What a host resolves to: at least one address, and public ones only.
abbrev pub ResolvesPublicly : Net → Text → Type 0
ResolvesPublicly net host =
    (a : Text) × (rest : List Text) × (net.getaddrinfo host ≡ some (a ∷ rest))
    × All (IsPublic net) (a ∷ rest)

abbrev pub IsDestination : Net → Bool → Text → Text → Type 0
IsDestination net allow_loopback scheme host =
    ((is_loopback_host net host ≡ true) × (allow_loopback ≡ true))
    ⊎ ((is_loopback_host net host ≡ false) × (scheme ≡ text "https") × ResolvesPublicly net host)

-- The scheme is one of two, and there are no credentials and no fragment.
abbrev pub HasNoExtras : Parts → Type 0
HasNoExtras parts =
    ((parts.scheme ≡ text "https") ⊎ (parts.scheme ≡ text "http"))
    × (has_some_text parts.username ≡ false)
    × (has_some_text parts.password ≡ false)
    × (parts.fragment ≡ [])

-- There is a host, and the port is not that of the other scheme.
abbrev pub IsHostPort : Text → Option ℕ → Text → Type 0
IsHostPort scheme port host =
    (host ≢ [])
    × (scheme ≡ text "https" → port ≢ some 80)
    × (scheme ≡ text "http" → port ≢ some 443)

-- Everything that an admitted URL has.
abbrev pub IsAdmissible : Net → Bool → Text → Type 0
IsAdmissible net allow_loopback url =
    (strip_text url ≢ [])
    × (length url ≤ 2048)
    × (parts : Parts) × (port : Option ℕ) × (net.urlsplit url ≡ some parts)
    × (parts.port ≡ some port)
    × HasNoExtras parts
    × IsHostPort parts.scheme port (strip_text (or_empty parts.hostname))
    × IsDestination net allow_loopback parts.scheme (strip_text (or_empty parts.hostname))

module _ (net : Net) where
  any_forbidden_iff :
      (found : List Text) → (any_forbidden net found ≡ false) ↔ All (IsPublic net) found
  any_forbidden_iff [] = (λ h. tt, λ h. refl)
  any_forbidden_iff (a ∷ rest) =
      ground (forbidden_iff (net.ip_address a), any_forbidden_iff rest, arith)

  check_addresses_iff :
      (o : Option (List Text))
      → (check_addresses net o ≡ admitted)
        ↔ ((a : Text) × (rest : List Text) × (o ≡ some (a ∷ rest)) × All (IsPublic net) (a ∷ rest))
  check_addresses_iff none = (λ h. cc, λ (a, rest, e, _). cc)
  check_addresses_iff (some []) = (λ h. cc, λ (a, rest, e, _). cc)
  check_addresses_iff (some (a ∷ rest)) = (
    λ h. (
      a,
      rest,
      refl,
      (any_forbidden_iff (a ∷ rest)).0
          ((guard_iff (any_forbidden net (a ∷ rest)) not_public admitted).0 h).0,
    ),
    λ (b, more, e, p).
        (guard_iff (any_forbidden net (a ∷ rest)) not_public admitted).1
          (ap (any_forbidden net) (some_list e) ∙ (any_forbidden_iff (b ∷ more)).1 p, refl),
  )

  check_destination_iff :
      (allow : Bool) (scheme host : Text)
      → (check_destination net allow scheme host ≡ admitted) ↔ IsDestination net allow scheme host
  check_destination_iff allow scheme host = ground (
    arith,
    destination_iff (is_loopback_host net host) allow (scheme == text "https")
        (check_addresses net (net.getaddrinfo host)),
    text_beq_iff scheme (text "https"),
    check_addresses_iff (net.getaddrinfo host),
  )

  check_host_iff :
      (allow : Bool) (scheme : Text) (port : Option ℕ) (host : Text)
      → (check_host net allow scheme port host ≡ admitted)
        ↔ (IsHostPort scheme port host × IsDestination net allow scheme host)
  check_host_iff allow scheme port host =
      let v = check_destination net allow scheme host in
      let w = if scheme == text "http" && is_port 443 port then rejected cleartext_on_443 else v in
      let u = if scheme == text "https" && is_port 80 port then rejected tls_on_80 else w in
      ground (
        arith,
        guard_iff (not (has_text host)) no_host u,
        guard_iff (scheme == text "https" && is_port 80 port) tls_on_80 w,
        guard_iff (scheme == text "http" && is_port 443 port) cleartext_on_443 v,
        has_text_iff host,
        other_port_iff scheme (text "https") 80 port,
        other_port_iff scheme (text "http") 443 port,
        check_destination_iff allow scheme host,
      )

  check_parts_iff :
      (allow : Bool) (parts : Parts)
      → (check_parts net allow (some parts) ≡ admitted)
        ↔ (HasNoExtras parts × (check_port net allow parts parts.port ≡ admitted))
  check_parts_iff allow parts =
      let v = check_port net allow parts parts.port in
      let w = if has_text parts.fragment then rejected has_fragment else v in
      let u =
        if has_some_text parts.username || has_some_text parts.password
        then rejected has_credentials
        else w in
      ground (
        arith,
        guard_iff (not (parts.scheme == text "https" || parts.scheme == text "http")) needs_tls u,
        guard_iff (has_some_text parts.username || has_some_text parts.password) has_credentials w,
        guard_iff (has_text parts.fragment) has_fragment v,
        no_text_iff parts.fragment,
        text_beq_iff parts.scheme (text "https"),
        text_beq_iff parts.scheme (text "http"),
      )

  check_port_iff :
      (allow : Bool) (parts : Parts) (o : Option (Option ℕ))
      → (check_port net allow parts o ≡ admitted) ↔ (
          (port : Option ℕ) × (o ≡ some port)
          × IsHostPort parts.scheme port (strip_text (or_empty parts.hostname))
          × IsDestination net allow parts.scheme (strip_text (or_empty parts.hostname)))
  check_port_iff allow parts none = (λ h. cc, λ (port, e, _, _). cc)
  check_port_iff allow parts (some port) =
      let host = strip_text (or_empty parts.hostname) in
      (
        λ h.
            let (here, there) = (check_host_iff allow parts.scheme port host).0 h in
            (port, refl, here, there),
        λ (p, e, here, there).
            ap (λ q. check_host net allow parts.scheme q host) (some_port e)
            ∙ (check_host_iff allow parts.scheme p host).1 (here, there),
      )

  check_split_iff :
      (allow : Bool) (o : Option Parts)
      → (check_parts net allow o ≡ admitted) ↔ (
          (parts : Parts) × (port : Option ℕ) × (o ≡ some parts)
          × (parts.port ≡ some port)
          × HasNoExtras parts
          × IsHostPort parts.scheme port (strip_text (or_empty parts.hostname))
          × IsDestination net allow parts.scheme (strip_text (or_empty parts.hostname)))
  check_split_iff allow none = (λ h. cc, λ (parts, port, e, _, _, _, _). cc)
  check_split_iff allow (some parts) = (
    λ h.
        let (no_extras, h') = (check_parts_iff allow parts).0 h in
        let (port, e, here, there) = (check_port_iff allow parts parts.port).0 h' in
        (parts, port, refl, e, no_extras, here, there),
    λ (q, port, e, e', no_extras, here, there).
        ap (λ r. check_parts net allow (some r)) (some_Parts e)
        ∙ (check_parts_iff allow q).1
            (no_extras, (check_port_iff allow q q.port).1 (port, e', here, there)),
  )

  -- A URL is admitted exactly if it is a text that is not blank, of 2048 characters at most, that splits
  -- into an https or http scheme, no credentials, no fragment, a port that parses and is not that of the
  -- other scheme, and a host which either is this machine, where loopback is allowed, or is reached with
  -- https, and resolves to at least one address and to public addresses only.
  pub validate_webhook_url_iff :
      (allow_loopback : Bool) (url : Text)
      → (validate_webhook_url net allow_loopback url ≡ admitted)
        ↔ IsAdmissible net allow_loopback url
  unfolding validate_webhook_url
  validate_webhook_url_iff allow url =
      let v = check_parts net allow (net.urlsplit url) in
      let w = if ltb max_url_length (length url) then rejected too_long else v in
      let long : (ltb 2048 (length url) ≡ false) ↔ (length url ≤ 2048) = ground arith in
      ground (
        arith,
        guard_iff (not (has_text (strip_text url))) required w,
        guard_iff (ltb max_url_length (length url)) too_long v,
        has_text_iff (strip_text url),
        long,
        check_split_iff allow (net.urlsplit url),
      )

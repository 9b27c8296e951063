-- ===== src/Webhooks/Urls/Guards.antt =====
-- The tests and the guards of `validate_webhook_url`, as statements.
use agentforgev.Common.{
  ℕ, ◌≡◌, ◌≢◌, ◌↔◌, ◌⊎◌, inl, inr, refl, Bool, true, false, not, ◌&&◌, Option, none, some, List, [],
  ◌∷◌, ◌==◌, if◌then◌else◌, arith,
}
use agentforgev.Common.Text.{Text, text_is_key, text_beq_iff}
use agentforgev.Webhooks.Urls.{
  Parts, Address, Verdict, admitted, Rule, rejected, is_platform, needs_tls, has_text, is_port,
  is_forbidden,
}

pub some_Address : {a b : Address} → some a ≡ some b → a ≡ b
some_Address e = cc

pub some_ℕ : {a b : ℕ} → some a ≡ some b → a ≡ b
some_ℕ e = cc

-- A guard that refuses.
pub guard_iff :
    (b : Bool) (r : Rule) (v : Verdict)
    → ((if b then rejected r else v) ≡ admitted) ↔ ((b ≡ false) × (v ≡ admitted))
guard_iff true r v = (λ h. cc, λ (h, _). cc)
guard_iff false r v = (λ h. (refl, h), λ (_, h). h)

pub forbidden_iff :
    (o : Option Address)
    → (is_forbidden o ≡ false)
      ↔ ((a : Address) × (o ≡ some a) × (a.is_global ≡ true) × (a.is_multicast ≡ false))
forbidden_iff none = (λ h. cc, λ (a, e, _, _). cc)
forbidden_iff (some a) = (
  λ h. (a, refl, ground arith, ground arith),
  λ (b, e, g, m). rw (some_Address e) (rw g (rw m refl)),
)

pub some_port : {a b : Option ℕ} → some a ≡ some b → a ≡ b
some_port e = cc

pub some_Parts : {a b : Parts} → some a ≡ some b → a ≡ b
some_Parts e = cc

pub some_list : {xs ys : List Text} → some xs ≡ some ys → xs ≡ ys
some_list e = cc

-- The branches behind the test for a loopback host.
pub destination_iff :
    (loopback allow tls : Bool) (v : Verdict)
    → ((if loopback
          then if allow then admitted else rejected is_platform
          else if not tls
          then rejected needs_tls
          else v)
        ≡ admitted)
      ↔ (((loopback ≡ true) × (allow ≡ true))
          ⊎ ((loopback ≡ false) × (tls ≡ true) × (v ≡ admitted)))
destination_iff true true tls v = (λ h. inl (refl, refl), λ h. refl)
destination_iff true false tls v = (λ h. cc, λ h. ground arith)
destination_iff false allow true v = (λ h. inr (refl, refl, h), λ h. ground arith)
destination_iff false allow false v = (λ h. cc, λ h. ground arith)

pub has_text_iff : (s : Text) → (has_text s ≡ true) ↔ (s ≢ [])
has_text_iff [] = (λ h. cc, λ h. absurd (h refl))
has_text_iff (c ∷ s) = (λ h e. cc, λ h. refl)

pub no_text_iff : (s : Text) → (has_text s ≡ false) ↔ (s ≡ [])
no_text_iff [] = (λ h. refl, λ h. refl)
no_text_iff (c ∷ s) = (λ h. cc, λ h. cc)

pub is_port_iff : (n : ℕ) (o : Option ℕ) → (is_port n o ≡ true) ↔ (o ≡ some n)
is_port_iff n none = (λ h. cc, λ h. cc)
is_port_iff n (some m) = ground arith

pub other_port_iff :
    (scheme name : Text) (n : ℕ) (port : Option ℕ)
    → ((scheme == name && is_port n port) ≡ false) ↔ (scheme ≡ name → port ≢ some n)
other_port_iff scheme name n port = ground (arith, text_beq_iff scheme name, is_port_iff n port)

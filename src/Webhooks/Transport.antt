-- ===== src/Webhooks/Transport.antt =====
-- webhooks/transport.py: the HTTP transport, which reads the admission of a URL again before it dials. The
-- HTTP client, over the state `W` of what it reaches, and the wording of the failures are parameters.
use agentforgev.Common.{
  ℕ, ◌≤◌, ◌<◌, ◌∙◌, ◌≡◌, ◌≢◌, ◌↔◌, refl, ap, String, Bool, true, false, ◌&&◌, none, some, leb, ltb,
  if◌then◌else◌, arith,
}
use agentforgev.Common.Text.{Text}
use agentforgev.Webhooks.Emitter.{TransportResult}
use agentforgev.Webhooks.Urls.{
  Net, Rule, Verdict, admitted, rejected, raises_value_error, validate_webhook_url,
}
use agentforgev.Webhooks.Urls.Admission.{IsAdmissible, validate_webhook_url_iff}

-- What dialling comes to: a status line, or an exception.
pub data Dialled : Type 0 where
  answered : ℕ → Dialled
  failed : String → Dialled

-- The texts of the errors: of a rule, of an exception (`_summarise`), of a status, and of the exception
-- that the split of a URL raises.
pub record Wording : Type 0 where
  pub url_rejected : Rule → String
  pub summarise : String → String
  pub endpoint_returned : ℕ → String
  pub value_error : String

abbrev pub is_success : ℕ → Bool
is_success code = leb 200 code && ltb code 300

code_of : {a b : ℕ} → answered a ≡ answered b → a ≡ b
code_of e = cc

success : (code : ℕ) → 200 ≤ code → code < 300 → is_success code ≡ true
success code low high = ground arith

not_rejected : {rule : Rule} → ¬ (rejected rule ≡ admitted)
not_rejected e = cc

not_raised : ¬ (raises_value_error ≡ admitted)
not_raised e = cc

module _ {W : Type 0} (net : Net) (wording : Wording) (dial : Text → Text → W → Dialled × W) where
  abbrev pub refusal : String → TransportResult
  refusal message = record { delivered = false; response_status = none; error = some message }

  abbrev pub result_of_dialled : Dialled → TransportResult
  result_of_dialled (answered code) = record {
    delivered = is_success code;
    response_status = some code;
    error = if is_success code then none else some (wording.endpoint_returned code);
  }
  result_of_dialled (failed message) = refusal (wording.summarise message)

  abbrev pub post_if : Verdict → Text → Text → W → TransportResult × W
  post_if admitted url body w = let (d, w') = dial url body w in (result_of_dialled d, w')
  post_if (rejected rule) url body w = (refusal (wording.url_rejected rule), w)
  post_if raises_value_error url body w = (refusal wording.value_error, w)

  unfoldable pub post : Bool → Text → Text → W → TransportResult × W
  post allow_loopback url body w = post_if (validate_webhook_url net allow_loopback url) url body w

  delivered_iff :
      (d : Dialled)
      → ((result_of_dialled d).delivered ≡ true)
        ↔ ((code : ℕ) × (d ≡ answered code) × (200 ≤ code) × (code < 300))
  delivered_iff (answered code) = (
    λ h. (code, refl, ground arith, ground arith),
    λ (c, e, low, high). ap is_success (code_of e) ∙ success c low high,
  )
  delivered_iff (failed message) = (λ h. cc, λ (code, e, _, _). cc)

  -- How a call ended: the state after it, whether it counts as delivered, and that a failure is explained.
  abbrev pub Posted : Bool → Text → Text → W → TransportResult × W → Type 0
  Posted allow_loopback url body w ended =
      (IsAdmissible net allow_loopback url
        → (ended.1 ≡ (dial url body w).1)
          × ((ended.0.delivered ≡ true)
              ↔ ((code : ℕ) × ((dial url body w).0 ≡ answered code) × (200 ≤ code) × (code < 300))))
      × (¬ IsAdmissible net allow_loopback url
          → (ended.1 ≡ w) × (ended.0.delivered ≡ false) × (ended.0.error ≢ none))

  post_if-Posted :
      (allow : Bool) (url body : Text) (w : W) (v : Verdict)
      → (v ≡ admitted) ↔ IsAdmissible net allow url
      → Posted allow url body w (post_if v url body w)
  post_if-Posted allow url body w admitted e =
      (λ ok. (refl, delivered_iff (dial url body w).0), λ no. absurd (no (e.0 refl)))
  post_if-Posted allow url body w (rejected rule) e =
      (λ ok. absurd (not_rejected (e.1 ok)), λ no. (refl, refl, λ h. cc))
  post_if-Posted allow url body w raises_value_error e =
      (λ ok. absurd (not_raised (e.1 ok)), λ no. (refl, refl, λ h. cc))

  -- The transport dials a URL once if it is admissible at the time of the call, and not at all otherwise. It
  -- reports a delivery exactly for an answer with a status from 200 to 299, and explains a refusal.
  pub post_dials_admissible :
      (allow_loopback : Bool) (url body : Text) (w : W)
      → Posted allow_loopback url body w (post allow_loopback url body w)
  unfolding post
  post_dials_admissible allow url body w =
      post_if-Posted allow url body w (validate_webhook_url net allow url)
        (validate_webhook_url_iff net allow url)

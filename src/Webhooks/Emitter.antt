-- ===== src/Webhooks/Emitter.antt =====
-- webhooks/emitter.py and `sign_payload` of webhooks/security.py. What lies outside of the program is the
-- record `Seams`: the clocks, `json.dumps`, HMAC-SHA256, and the transport, over whatever state `W` they
-- keep. The request carries the parts that the headers are rendered from.
use agentforgev.Common.{ℕ, ◌-◌, ◌/◌, String, Bool, false, Option, none, some, List}
use agentforgev.Common.Value.{Fields}
use agentforgev.Webhooks.Entry.{Event, ping, second}
use agentforgev.Webhooks.Subscriptions.{Subscription, Delivery, record_delivery}

pub record TransportResult : Type 0 where
  pub delivered : Bool
  pub response_status : Option ℕ
  pub error : Option String

pub record Envelope : Type 0 where
  pub id : ℕ
  pub event : Event
  pub created_at : ℕ
  pub org_id : ℕ
  pub idempotency_key : Option String
  pub payload : Fields

-- `t=<moment>,v1=<digest>`
pub record Signature : Type 0 where
  pub moment : ℕ
  pub digest : String

pub record Request : Type 0 where
  pub body : String
  pub event_header : Event
  pub delivery_header : ℕ
  pub subscription_header : ℕ
  pub attempt_header : ℕ
  pub signature_header : Signature
  pub idempotency_header : Option String

-- What `post` does: it returns, or it raises an exception of a type with that name.
pub data PostOutcome : Type 0 where
  returns : TransportResult → PostOutcome
  raises : String → PostOutcome

pub record Seams (W : Type 0) : Type 0 where
  -- `datetime.now`, in microseconds
  pub clock : W → ℕ × W
  -- `time.monotonic`, in microseconds
  pub monotonic : W → ℕ × W
  -- `json.dumps`; `none` when it raises
  pub dumps : Envelope → Option String
  -- the digest of `<moment>.<body>` under a secret
  pub hmac : String → ℕ → String → String
  -- `post(url, body, headers)`
  pub post : String → Request → W → PostOutcome × W
  -- `transport error: <name>`
  pub transport_error : String → String

module _ {W : Type 0} (seams : Seams W) where
  -- `sign_payload` without a timestamp: the time is read in whole seconds.
  unfoldable pub sign_payload : String → String → W → Signature × W
  sign_payload secret body w =
      let (now, w') = seams.clock w in
      (record { moment = now / second; digest = seams.hmac secret (now / second) body }, w')

  abbrev pub render_body :
      Option String → Subscription → Event → ℕ → Option String → ℕ → W → Option Request × W
  render_body none sub event id key attempt w = (none, w)
  render_body (some body) sub event id key attempt w =
      let (signature, w') = sign_payload sub.secret body w in
      (
        some (record {
          body = body;
          event_header = event;
          delivery_header = id;
          subscription_header = sub.id;
          attempt_header = attempt;
          signature_header = signature;
          idempotency_header = key;
        }),
        w',
      )

  -- `_render`; `none` when it raises.
  unfoldable pub render :
      Subscription → Event → Fields → ℕ → Option String → ℕ → W → Option Request × W
  render sub event payload id key attempt w =
      let (now, w') = seams.clock w in
      let envelope : Envelope = record {
        id = id;
        event = event;
        created_at = now;
        org_id = sub.org_id;
        idempotency_key = key;
        payload = payload;
      } in
      render_body (seams.dumps envelope) sub event id key attempt w'

  abbrev pub result_of : PostOutcome → TransportResult
  result_of (returns r) = r
  result_of (raises name) = record {
    delivered = false;
    response_status = none;
    error = some (seams.transport_error name);
  }

  unfoldable pub post_once : String → Request → W → TransportResult × W
  post_once url request w = let (o, w') = seams.post url request w in (result_of o, w')

  -- The attempt from the rendered request on: the delivery, and the log with it.
  abbrev pub send :
      Option Request
      → Subscription
      → Event
      → ℕ
      → ℕ
      → List Delivery
      → W
      → Option Delivery × List Delivery × W
  send none sub event id attempt log w = (none, log, w)
  send (some request) sub event id attempt log w0 =
      let (started, w1) = seams.monotonic w0 in
      let (result, w2) = post_once sub.url request w1 in
      let (ended, w3) = seams.monotonic w2 in
      let (now, w4) = seams.clock w3 in
      let delivery : Delivery = record {
        id = id;
        org_id = sub.org_id;
        subscription_id = sub.id;
        event = event;
        delivered = result.delivered;
        attempts = attempt;
        response_status = result.response_status;
        error = result.error;
        duration_ms = (ended - started) / 1000;
        created_at = now;
      } in
      (some delivery, record_delivery delivery log, w4)

  -- `deliver_once`, over the in-memory log, whose `record` does not raise.
  unfoldable pub deliver_once :
      Subscription
      → Event
      → Fields
      → ℕ
      → Option String
      → ℕ
      → List Delivery
      → W
      → Option Delivery × List Delivery × W
  unfolding render
  deliver_once sub event payload id key attempt log w =
      let (request, w') = render sub event payload id key attempt w in
      send request sub event id attempt log w'

  -- `id` is what `uuid4` returns.
  unfoldable pub send_test :
      ℕ → Subscription → Fields → List Delivery → W → Option Delivery × List Delivery × W
  send_test id sub payload log w = deliver_once sub ping payload id none 1 log w

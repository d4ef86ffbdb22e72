-- ===== src/Webhook.antt =====
-- webhook/service.go: the webhooks, and what an event sends to them.
pub mod Dispatch
use tu_dns.Prelude.{
  ℕ, ◌≡◌, Bool, true, false, ◌||◌, List, [], ◌∷◌, ◌++◌, Option, some, none, any, ◌==◌,
  if◌then◌else◌,
}
use tu_dns.Text.{Text, text, text_eq, is_empty, split, trim_space}
use tu_dns.Result.{Result, ok, err}
use tu_dns.Models.{Webhook}
use tu_dns.World.{
  Env, Action, pure, attempt, ask, first, find, find_desc, create, save, delete, webhooks, ◌>>=◌,
  ◌>>◌,
}

-- What the service uses of encoding/json, crypto/hmac and net/http: the text of a payload, the
-- hexadecimal HMAC of a body under a secret, and whether a URL makes a request.
pub record Http : Type 0 where
  pub marshal : Text → ℕ → Text → Result Text
  pub hmac_hex : Text → Text → Text
  pub accepts_url : Text → Bool

-- A request that `send` hands to the client.
pub record Request : Type 0 where
  pub url : Text
  pub body : Text
  pub event_header : Text
  pub signature : Option Text

abbrev pub has_hook_id : ℕ → Webhook → Bool
has_hook_id k h = h.id == k

abbrev pub fits_event : Text → Text → Bool
fits_event event e = text_eq (trim_space e) (text "*") || text_eq (trim_space e) event

-- `matchesEvent`
unfoldable pub matches_event : Text → Text → Bool
unfolding split trim_space
matches_event events event = any (fits_event event) (split b',' events)

module _ (http : Http) where
  abbrev pub request_of : Webhook → Text → Request
  request_of h body = record {
    url = h.url;
    body = body;
    event_header = [];
    signature =
        if is_empty h.secret then none else some (text "sha256=" ++ http.hmac_hex h.secret body);
  }

  -- `send`, up to the call of the client
  unfoldable pub send : Webhook → Text → List Request
  send h body = if http.accepts_url h.url then request_of h body ∷ [] else []

  -- The loop of `Dispatch`
  unfoldable pub send_all : Text → Text → List Webhook → List Request
  unfolding matches_event send
  send_all event body [] = []
  send_all event body (h ∷ hs) =
      let rest = send_all event body hs in
      if matches_event h.events event then send h body ++ rest else rest

module _ (env : Env) (http : Http) where
  -- `List`
  unfoldable pub list_webhooks : Action (List Webhook)
  list_webhooks = find_desc (webhooks env) (λ _. true)

  -- `Create`
  unfoldable pub create_webhook : Text → Text → Text → Text → Action Webhook
  create_webhook name url events secret =
      create (webhooks env) (record {
        id = 0;
        name = name;
        url = url;
        events = events;
        secret = secret;
        enabled = true;
      })

  -- `Update`
  unfoldable pub update_webhook : ℕ → Text → Text → Text → Text → Bool → Action Webhook
  update_webhook id name url events secret enabled = do
    h ← first (webhooks env) (has_hook_id id)
    let h' : Webhook = record h {
      name = name;
      url = url;
      events = events;
      secret = if is_empty secret then h.secret else secret;
      enabled = enabled;
    }
    save (webhooks env) h'
    pure h'

  -- `Delete`
  unfoldable pub delete_webhook : ℕ → Action (Unit {0})
  delete_webhook id = delete (webhooks env) (has_hook_id id)

  abbrev send_body : Text → List Webhook → Result Text → List Request
  send_body event hs (ok body) = send_all http event body hs
  send_body event hs (err e) = []

  abbrev pub dispatch_to : Text → Text → Result (List Webhook) → Action (List Request)
  dispatch_to event data' (err e) = pure []
  dispatch_to event data' (ok hs) = do
    now ← ask env.now
    pure (send_body event hs (http.marshal event now data'))

  -- `Dispatch`: the requests that are sent, each on a goroutine of its own
  unfoldable pub dispatch : Text → Text → Action (List Request)
  unfolding send_all
  dispatch event data' = do
    hs ← attempt (find (webhooks env) (λ h. h.enabled))
    dispatch_to event data' hs

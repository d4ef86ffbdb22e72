-- ===== src/Webhook/Dispatch.antt =====
-- Whom an event reaches.
use tu_dns.Prelude.{
  ◌+◌, ◌≡◌, refl, sym, ap, ◌∙◌, Bool, false, ◌&&◌, ◌||◌, inl, inr, List, [], ◌∷◌, ◌++◌, map, arith,
  All, any, filter, ◌==◌, Bool-cases,
}
use mathlib.Core.Path.{subst}
use tu_dns.Text.{Text, split}
use tu_dns.Result.{Result, ok, err}
use tu_dns.Models.{Webhook}
use tu_dns.World.{World, Env, find, tick}
use tu_dns.World.On.{On, On-result, On-bind, On-pure, On-ask, On-attempt}
use tu_dns.Webhook.{
  Http, Request, request_of, fits_event, matches_event, send, send_all, send_body, dispatch,
}

-- The names of events, with a comma between two.
abbrev pub joined : List Text → Text
joined [] = []
joined (e ∷ []) = e
joined (e ∷ f ∷ es) = e ++ b',' ∷ joined (f ∷ es)

abbrev pub HasNoComma : Text → Type 0
HasNoComma e = any (λ c. c == b',') e ≡ false

neither : (a b : Bool) → (a || b) ≡ false → (a ≡ false) × (b ≡ false)
neither a b h = (ground arith, ground arith)

split-plain : (e : Text) → HasNoComma e → split b',' e ≡ e ∷ []
unfolding split
split-plain [] h = refl
split-plain (c ∷ e) h =
    let parts = neither (c == b',') (any (λ c. c == b',') e) h in
    rw (parts.0, split-plain e parts.1) refl

split-append : (e rest : Text) → HasNoComma e → split b',' (e ++ b',' ∷ rest) ≡ e ∷ split b',' rest
unfolding split
split-append [] rest h = refl
split-append (c ∷ e) rest h =
    let parts = neither (c == b',') (any (λ c. c == b',') e) h in
    rw (parts.0, split-append e rest parts.1) refl

split-joined :
    (e : Text) (es : List Text) → All HasNoComma (e ∷ es) → split b',' (joined (e ∷ es)) ≡ e ∷ es
split-joined e [] h = split-plain e h.0
split-joined e (f ∷ es) h =
    split-append e (joined (f ∷ es)) h.0 ∙ ap (λ rest. e ∷ rest) (split-joined f es h.1)

-- A webhook whose events are written as a list of names without commas matches an event exactly if one
-- of the names is, less the space around it, the event or a star.
pub matches_event-joined :
    (e : Text) (es : List Text) (event : Text)
    → All HasNoComma (e ∷ es)
    → matches_event (joined (e ∷ es)) event ≡ any (fits_event event) (e ∷ es)
unfolding matches_event
matches_event-joined e es event h = ap (any (fits_event event)) (split-joined e es h)

-- Whether a webhook gets a request for an event.
abbrev pub is_reached : Http → Text → Webhook → Bool
is_reached http event h = matches_event h.events event && http.accepts_url h.url

send_all_lem :
    (http : Http) (event body : Text) (hs : List Webhook)
    → send_all http event body hs
      ≡ map (λ h. request_of http h body) (filter (is_reached http event) hs)
unfolding send_all send
send_all_lem http event body [] = refl
send_all_lem http event body (h ∷ hs) = elim (Bool-cases (matches_event h.events event)) [
  | inl fits ↦ elim (Bool-cases (http.accepts_url h.url)) [
    | inl good ↦ rw (fits, good, send_all_lem http event body hs) refl
    | inr bad ↦ rw (fits, bad, send_all_lem http event body hs) refl
  ]
  | inr other ↦ rw (other, send_all_lem http event body hs) refl
]

-- The requests for a body: one to each enabled webhook of the table that is reached, in its order.
abbrev pub requests_for : Http → Text → Text → List Webhook → List Request
requests_for http event body hs =
    map (λ h. request_of http h body)
      (filter (is_reached http event) (filter (λ (h : Webhook). h.enabled) hs))

-- What is sent. Nothing, and only where the table could not be read or the payload has no text; else
-- the text of the payload with the event, the time and the data.
abbrev pub IsSentFor :
    Http → Text → List Webhook → Result (List Webhook) → Result Text → List Request → Type 0
IsSentFor http event hs (err e) payload rs = rs ≡ []
IsSentFor http event hs (ok found) (err e) rs = rs ≡ []
IsSentFor http event hs (ok found) (ok body) rs = rs ≡ requests_for http event body hs

abbrev pub IsSent : Env → Http → Text → Text → World → List Request → Type 0
IsSent env http event content w rs =
    IsSentFor http event w.db.webhooks
      (env.webhooks.find w.moment (λ (h : Webhook). h.enabled) w.db.webhooks)
      (http.marshal event (env.now (w.moment + 1)) content) rs

-- `Dispatch` never fails and changes nothing. Where the table cannot be read or the payload has no
-- text, it sends nothing. Everywhere else it sends the text of the payload to exactly the enabled
-- webhooks that match the event and have a URL that makes a request, once each, in the order of the
-- table, signed under their secret where they have one.
pub dispatch_lem :
    (env : Env) (http : Http) (event content : Text) (w : World)
    → On
        (λ rs w'. (w'.db ≡ w.db) × IsSent env http event content w rs)
        (λ e w'. ⊥)
        (dispatch env http event content w)
unfolding dispatch find
dispatch_lem env http event content w = On-bind _ _ w (
    On-attempt _ w (
      On-result read (tick w)
        (λ hs e. On-bind _ _ _ (
          On-ask env.now _ (
            On-pure _ _ (
              refl,
              subst
                  (λ r.
                    IsSentFor http event w.db.webhooks r payload
                      (send_body env http event hs payload))
                  (sym e)
                  (sent hs (env.webhooks.find_ok w.moment is_enabled w.db.webhooks hs e) payload),
            ))))
        (λ e x.
          On-pure [] _
            (refl, subst (λ r. IsSentFor http event w.db.webhooks r payload []) (sym x) refl))))
  where
    is_enabled : Webhook → Bool
    is_enabled h = h.enabled

    read : Result (List Webhook)
    read = env.webhooks.find w.moment is_enabled w.db.webhooks

    payload : Result Text
    payload = http.marshal event (env.now (w.moment + 1)) content

    sent :
        (hs : List Webhook)
        → hs ≡ filter is_enabled w.db.webhooks
        → (r : Result Text)
        → IsSentFor http event w.db.webhooks (ok hs) r (send_body env http event hs r)
    sent hs e (ok body) =
        send_all_lem http event body hs
        ∙ ap (λ t. map (λ h. request_of http h body) (filter (is_reached http event) t)) e
    sent hs e (err x) = refl

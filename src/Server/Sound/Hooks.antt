-- ===== src/Server/Sound/Hooks.antt =====
-- Webhooks, and the ways in which a handler answers, under the invariant of the database.
use tu_dns.Prelude.{ℕ, Bool, List, Option, none, some}
use tu_dns.Text.{Text}
use tu_dns.Result.{Error, Result, ok, err}
use tu_dns.Models.{Db, Webhook}
use tu_dns.World.{Action, Env}
use tu_dns.World.Preserves.{Preserves, Preserves-bind, Preserves-attempt, Preserves-pure}
use tu_dns.Webhook.{
  Http, list_webhooks, create_webhook, update_webhook, delete_webhook, dispatch_to, dispatch,
}
use tu_dns.Server.{Answer, Response, Data, reply, reply_then, bind_json, go_on}
use tu_dns.Server.Sound.{IsSound, sound_rules}

module _ (env : Env) (http : Http) where
  pub list_webhooks-IsSound : Preserves IsSound (list_webhooks env http)
  unfolding list_webhooks
  list_webhooks-IsSound = search sound_rules

  pub create_webhook-IsSound :
      (name url events secret : Text)
      → Preserves IsSound (create_webhook env http name url events secret)
  unfolding create_webhook
  create_webhook-IsSound name url events secret = search sound_rules

  pub update_webhook-IsSound :
      (id : ℕ) (name url events secret : Text) (enabled : Bool)
      → Preserves IsSound (update_webhook env http id name url events secret enabled)
  unfolding update_webhook
  update_webhook-IsSound id name url events secret enabled = search sound_rules depth 10

  pub delete_webhook-IsSound : (id : ℕ) → Preserves IsSound (delete_webhook env http id)
  unfolding delete_webhook
  delete_webhook-IsSound id = search sound_rules

  dispatch_to-IsSound :
      (event data' : Text) (r : Result (List Webhook))
      → Preserves IsSound (dispatch_to env http event data' r)
  dispatch_to-IsSound event data' (ok hs) = search sound_rules depth 10
  dispatch_to-IsSound event data' (err e) = search sound_rules

  pub dispatch-IsSound : (event data' : Text) → Preserves IsSound (dispatch env http event data')
  unfolding dispatch
  dispatch-IsSound event data' = search (sound_rules, dispatch_to-IsSound) depth 10

module _ {P : Db → Type 0} {A : Type 0} where
  pub Preserves-reply :
      (on_error : Error → Response) (good : A → Data) (m : Action A)
      → Preserves P m
      → Preserves P (reply on_error good m)
  unfolding reply
  Preserves-reply on_error good m k =
      Preserves-bind _ _ (Preserves-attempt m k) (λ r. Preserves-pure _)

  Preserves-go_on :
      (on_error : Error → Response) (f : A → Action Answer) (r : Result A)
      → ((a : A) → Preserves P (f a))
      → Preserves P (go_on on_error f r)
  Preserves-go_on on_error f (ok a) k = k a
  Preserves-go_on on_error f (err e) k = Preserves-pure _

  pub Preserves-reply_then :
      (on_error : Error → Response) (m : Action A) (f : A → Action Answer)
      → Preserves P m
      → ((a : A) → Preserves P (f a))
      → Preserves P (reply_then on_error m f)
  unfolding reply_then
  Preserves-reply_then on_error m f k kf =
      Preserves-bind _ _ (Preserves-attempt m k) (λ r. Preserves-go_on on_error f r kf)

  pub Preserves-bind_json :
      (req : Option A) (f : A → Action Answer)
      → ((a : A) → Preserves P (f a))
      → Preserves P (bind_json req f)
  unfolding bind_json
  Preserves-bind_json none f k = Preserves-pure _
  Preserves-bind_json (some a) f k = k a

pub ruleset reply_rules = (sound_rules, Preserves-reply, Preserves-reply_then, Preserves-bind_json)

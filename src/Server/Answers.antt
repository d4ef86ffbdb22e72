-- ===== src/Server/Answers.antt =====
-- How a handler answers, whatever fails below it.
pub mod Routes
use tu_dns.Prelude.{
  ℕ, ◌≡◌, refl, Bool, true, false, List, [], ◌∷◌, Option, none, some, any, ◌==◌, if◌then◌else◌,
}
use tu_dns.Text.{Text, text}
use tu_dns.Result.{
  Error, Result, ok, err, not_installed, user_disabled, admin_required, bad_parameters, panic,
}
use tu_dns.Models.{Webhook}
use tu_dns.World.{World, Action, Env, pure, ask, attempt, ◌>>=◌}
use tu_dns.World.On.{On, returns, raises, On-bind, On-pure, On-ask, On-mono}
use tu_dns.Webhook.{Http, Request, dispatch_to, dispatch}
use tu_dns.Server.{
  App, Answer, Response, Data, success, just, is_panic, crashed, status_of, bad_request,
  unauthorized, missing, server_error, reply, reply_then, bind_json, go_on, answer,
}
use tu_dns.Server.Router.{guard, pass, refusal}

-- The statuses of the package server.
abbrev pub IsStatus : ℕ → Type 0
IsStatus n = any (λ k. k == n) (200 ∷ 400 ∷ 401 ∷ 403 ∷ 404 ∷ 500 ∷ 503 ∷ []) ≡ true

-- `m` ends with a result, never with an error.
pub record Succeeds {A : Type 0} (m : Action A) : Type 0 where
  pub at : (w : World) → On (λ _ _. Unit {0}) (λ _ _. ⊥) (m w)

-- `m` ends with an answer, of one of the statuses.
pub record Answers (m : Action Answer) : Type 0 where
  pub at : (w : World) → On (λ (r : Answer) w'. IsStatus (status_of r.response)) (λ e w'. ⊥) (m w)

module _ {A : Type 0} where
  pub Succeeds-pure : (a : A) → Succeeds (pure a)
  Succeeds-pure a = record { at = λ w. On-pure a w tt }

  pub Succeeds-ask : (f : ℕ → A) → Succeeds (ask f)
  Succeeds-ask f = record { at = λ w. On-ask f w tt }

  attempted : (x : Result A × World) → On (λ (r : Result A) _. Unit {0}) (λ _ _. ⊥) (ok x.0, x.1)
  attempted x = returns tt

  pub Succeeds-attempt : (m : Action A) → Succeeds (attempt m)
  unfolding attempt
  Succeeds-attempt m = record { at = λ w. attempted (m w) }

  pub Succeeds-bind :
      {B : Type 0} (m : Action A) (f : A → Action B)
      → Succeeds m
      → ((a : A) → Succeeds (f a))
      → Succeeds (m >>= f)
  Succeeds-bind m f k kf = record {
    at = λ w. On-bind m f w (On-mono (k.at w) (λ a w' _. (kf a).at w') (λ e w' h. h));
  }

  pub Answers-bind :
      (m : Action A) (f : A → Action Answer)
      → Succeeds m
      → ((a : A) → Answers (f a))
      → Answers (m >>= f)
  Answers-bind m f k kf = record {
    at = λ w. On-bind m f w (On-mono (k.at w) (λ a w' _. (kf a).at w') (λ e w' h. h));
  }

pub Answers-pure : (r : Answer) → IsStatus (status_of r.response) → Answers (pure r)
Answers-pure r h = record { at = λ w. On-pure r w h }

pub Answers-if :
    (b : Bool) (m n : Action Answer) → Answers m → Answers n → Answers (if b then m else n)
Answers-if true m n km kn = km
Answers-if false m n km kn = kn

failed :
    (on_error : Error → Response) (b : Bool) (e : Error)
    → IsStatus (status_of (on_error e))
    → IsStatus (status_of (if b then crashed else on_error e))
unfolding status_of
failed on_error true e known = refl
failed on_error false e known = known

module _ {A : Type 0} (on_error : Error → Response)
    (known : (e : Error) → IsStatus (status_of (on_error e))) where
  answer-IsStatus : (good : A → Data) (r : Result A) → IsStatus (status_of (answer on_error good r))
  unfolding answer status_of
  answer-IsStatus good (ok a) = refl
  answer-IsStatus good (err e) = failed on_error (is_panic e) e (known e)

  pub Answers-reply : (good : A → Data) (m : Action A) → Answers (reply on_error good m)
  unfolding reply
  Answers-reply good m =
      Answers-bind _ _ (Succeeds-attempt m) (λ r. Answers-pure _ (answer-IsStatus good r))

  Answers-go_on :
      (f : A → Action Answer) (r : Result A)
      → ((a : A) → Answers (f a))
      → Answers (go_on on_error f r)
  Answers-go_on f (ok a) k = k a
  Answers-go_on f (err e) k = Answers-pure _ (failed on_error (is_panic e) e (known e))

  pub Answers-reply_then :
      (m : Action A) (f : A → Action Answer)
      → ((a : A) → Answers (f a))
      → Answers (reply_then on_error m f)
  unfolding reply_then
  Answers-reply_then m f k = Answers-bind _ _ (Succeeds-attempt m) (λ r. Answers-go_on f r k)

pub bad_request-IsStatus : (e : Error) → IsStatus (status_of (bad_request e))
unfolding status_of
bad_request-IsStatus e = refl

pub server_error-IsStatus : (e : Error) → IsStatus (status_of (server_error e))
unfolding status_of
server_error-IsStatus e = refl

pub unauthorized-IsStatus : (e : Error) → IsStatus (status_of (unauthorized e))
unfolding status_of
unauthorized-IsStatus e = refl

pub missing-IsStatus : (e : Error) → IsStatus (status_of (missing e))
unfolding status_of
missing-IsStatus e = refl

pub success-IsStatus : (d : Data) → IsStatus (status_of (success d))
unfolding status_of
success-IsStatus d = refl

pub Answers-bind_json :
    {A : Type 0} (req : Option A) (f : A → Action Answer)
    → ((a : A) → Answers (f a))
    → Answers (bind_json req f)
unfolding bind_json
Answers-bind_json none f k = Answers-pure _ (bad_request-IsStatus bad_parameters)
Answers-bind_json (some a) f k = k a

module _ (app : App) where
  refusal-IsStatus : (e : Error) → IsStatus (status_of (refusal app e))
  unfolding status_of
  refusal-IsStatus not_installed = refl
  refusal-IsStatus user_disabled = refl
  refusal-IsStatus admin_required = refl
  refusal-IsStatus e = refl

  Answers-pass :
      {A : Type 0} (f : A → Action Answer) (r : Result A)
      → ((a : A) → Answers (f a))
      → Answers (pass app f r)
  Answers-pass f (ok a) k = k a
  Answers-pass f (err e) k = Answers-pure _ (refusal-IsStatus e)

  pub Answers-guard :
      {A : Type 0} (m : Action A) (f : A → Action Answer)
      → ((a : A) → Answers (f a))
      → Answers (guard app m f)
  unfolding guard
  Answers-guard m f k = Answers-bind _ _ (Succeeds-attempt m) (λ r. Answers-pass f r k)

module _ (env : Env) (http : Http) where
  dispatch_to-Succeeds :
      (event data' : Text) (r : Result (List Webhook))
      → Succeeds (dispatch_to env http event data' r)
  dispatch_to-Succeeds event data' (ok hs) =
      Succeeds-bind _ _ (Succeeds-ask env.now) (λ now. Succeeds-pure _)
  dispatch_to-Succeeds event data' (err e) = Succeeds-pure _

  pub dispatch-Succeeds : (event data' : Text) → Succeeds (dispatch env http event data')
  unfolding dispatch
  dispatch-Succeeds event data' =
      Succeeds-bind _ _ (Succeeds-attempt _) (λ r. dispatch_to-Succeeds event data' r)

pub ruleset answer_rules = (
  Answers-pure, Answers-if, Answers-bind, Answers-reply, Answers-reply_then, Answers-bind_json,
  bad_request-IsStatus, server_error-IsStatus, unauthorized-IsStatus, missing-IsStatus,
  success-IsStatus, dispatch-Succeeds, Succeeds-attempt, Succeeds-pure, Succeeds-ask, Succeeds-bind,
)

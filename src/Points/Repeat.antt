-- ===== src/Points/Repeat.antt =====
-- `Adjust` called again under a business number, and what `Charge` does.
use tu_dns.Prelude.{
  ℕ, ◌≡◌, refl, sym, ap, ◌∙◌, inl, inr, false, [], ◌∷◌, Option, none, some, arith, find?,
  find?-append,
}
use mathlib.Core.Path.{subst}
use mathlib.Core.Option.{some-injective}
use tu_dns.Prelude.Int.{ℤ, pos, ◌≤ℤ◌, ltb_ℤ, eq_ℤ, neg_ℤ, eq_ℤ_sound}
use tu_dns.Text.{Text, is_empty}
use tu_dns.Text.Laws.{text_eq_refl}
use tu_dns.Result.{invalid_cost}
use tu_dns.Models.{PointsLedger, Db, ledger_type_charge}
use tu_dns.World.{World, Env, tick, ledgers}
use tu_dns.World.On.{On, On-bind, On-if, On-pure, On-raise, On-ask, On-attempt, On-mono}
use tu_dns.World.Rules.{On-first}
use tu_dns.Points.{is_not_found, has_biz_no, adjust, charge}
use tu_dns.Points.Adjust.{
  Adjusted, IsPartial, number_of, adjust_lem, adjust-calls, IsPartial-ledgers, is_not_found_sound,
}

-- After a call that returned, its result is the entry under the business number.
pub Adjusted-found :
    (env : Env) (d : Db) (user_id : ℕ) (delta : ℤ) (number : Text) (l : PointsLedger) (d' : Db)
    → Adjusted env d user_id delta number l d'
    → find? (has_biz_no number) d'.ledgers ≡ some l
Adjusted-found env d user_id delta number l d' (inl (found, same)) =
    ap (λ (d : Db). find? (has_biz_no number) d.ledgers) same ∙ found
Adjusted-found env d user_id delta number l d' (inr (missing, c)) =
    ap (λ (d : Db). find? (has_biz_no number) d.ledgers) c.content
    ∙ (find?-append (has_biz_no number) d.ledgers (l ∷ []) missing
        ∙ rw c.entry_biz_no (rw (text_eq_refl number)))

module _ (env : Env) (user_id : ℕ) (delta : ℤ) (typ remark : Text) (operator : ℕ) where
  -- Under a number that the ledger has, a call returns that entry and changes nothing.
  pub adjust-known :
      (biz_no : Text) (l : PointsLedger) (w : World)
      → is_empty biz_no ≡ false
      → find? (has_biz_no biz_no) w.db.ledgers ≡ some l
      → On
          (λ l' w'. (l' ≡ l) × (w'.db ≡ w.db))
          (λ e w'. w'.db ≡ w.db)
          (adjust env user_id delta typ remark operator biz_no w)
  unfolding adjust
  adjust-known biz_no l w nonempty known = On-bind _ _ w (
      On-if (is_empty biz_no) _ _ w (λ e. cc)
        (λ _. On-pure biz_no w (
          On-bind _ _ w (
            On-attempt _ w (
              On-first (ledgers env) (has_biz_no biz_no) w
                (λ l' found. On-pure l' _ (some-injective l' l (sym found ∙ known), refl))
                (λ e missing.
                  On-if (is_not_found e) _ _ _ (λ h. cc (missing (is_not_found_sound e h)))
                    (λ h. On-raise e _ refl)))))))

-- `Adjust` is idempotent under a business number that is not empty: after a call that returned, any
-- further call under the same number, whatever its other arguments, returns the same entry or fails,
-- and leaves the database as it is.
pub adjust_twice :
    (env : Env) (u u' : ℕ) (delta delta' : ℤ) (typ typ' remark remark' : Text) (op op' : ℕ)
    (biz_no : Text) (w : World)
    → is_empty biz_no ≡ false
    → On
        (λ l w1.
          On
            (λ l' w2. (l' ≡ l) × (w2.db ≡ w1.db))
            (λ e w2. w2.db ≡ w1.db)
            (adjust env u' delta' typ' remark' op' biz_no w1))
        (λ e w1. w1.db.ledgers ≡ w.db.ledgers)
        (adjust env u delta typ remark op biz_no w)
adjust_twice env u u' delta delta' typ typ' remark remark' op op' biz_no w nonempty =
    On-mono (adjust_lem env u delta typ remark op biz_no w)
      (λ l w1 done. adjust-known env u' delta' typ' remark' op' biz_no l w1 nonempty (
        subst (λ k. find? (has_biz_no k) w1.db.ledgers ≡ some l) (same_number nonempty)
          (Adjusted-found env w.db u delta (number_of env biz_no w) l w1.db done)))
      (λ e w1 part. IsPartial-ledgers w.db u w1.db part)
  where
    same_number : is_empty biz_no ≡ false → number_of env biz_no w ≡ biz_no
    same_number h = rw h

-- What a charge that returns has done: a cost of zero nothing, a cost above it an entry of minus the
-- cost under a fresh number.
abbrev pub IsCharged : Env → World → ℕ → ℤ → Option PointsLedger → Db → Type 0
IsCharged env w user_id cost none d' = (cost ≡ pos 0) × (d' ≡ w.db)
IsCharged env w user_id cost (some l) d' =
    (pos 1 ≤ℤ cost)
    × Adjusted env w.db user_id (neg_ℤ cost) (number_of env (env.uuid w.moment) (tick w)) l d'

-- `Charge` on every path: a negative cost is refused with nothing changed, a cost of zero writes
-- nothing, and a cost above zero is taken off the user's points by `Adjust`, which refuses to take
-- them below zero.
pub charge_lem :
    (env : Env) (user_id : ℕ) (cost : ℤ) (remark : Text) (w : World)
    → On
        (λ o w'. IsCharged env w user_id cost o w'.db)
        (λ e w'. IsPartial w.db user_id w'.db)
        (charge env user_id cost remark w)
unfolding charge
charge_lem env user_id cost remark w =
    On-if (ltb_ℤ cost (pos 0)) _ _ w (λ negative. On-raise invalid_cost w (inl refl))
      (λ nonneg.
        On-if (eq_ℤ cost (pos 0)) _ _ w
          (λ zero_cost. On-pure none w (eq_ℤ_sound cost (pos 0) zero_cost, refl))
          (λ nonzero. On-bind _ _ w (
            On-ask env.uuid w (
              On-bind _ _ _ (
                On-mono
                  (adjust_lem env user_id (neg_ℤ cost) ledger_type_charge remark 0
                    (env.uuid w.moment) (tick w))
                  (λ l w' done. On-pure (some l) w' (positive cost nonneg nonzero, done))
                  (λ e w' part. part))))))
  where
    positive : (c : ℤ) → ltb_ℤ c (pos 0) ≡ false → eq_ℤ c (pos 0) ≡ false → pos 1 ≤ℤ c
    positive c h k = ground arith

-- `Charge` calls no platform.
pub charge-calls :
    (env : Env) (user_id : ℕ) (cost : ℤ) (remark : Text) (w : World)
    → On
        (λ o w'. w'.calls ≡ w.calls)
        (λ e w'. w'.calls ≡ w.calls)
        (charge env user_id cost remark w)
unfolding charge
charge-calls env user_id cost remark w =
    On-if (ltb_ℤ cost (pos 0)) _ _ w (λ _. On-raise invalid_cost w refl)
      (λ _.
        On-if (eq_ℤ cost (pos 0)) _ _ w (λ _. On-pure none w refl)
          (λ _. On-bind _ _ w (
            On-ask env.uuid w (
              On-bind _ _ _ (
                On-mono
                  (adjust-calls env user_id (neg_ℤ cost) ledger_type_charge remark 0
                    (env.uuid w.moment) (tick w))
                  (λ l w' same. On-pure (some l) w' same) (λ e w' same. same))))))

-- ===== src/Redeem/Collision.antt =====
-- On a database that is up: when a redemption pays, and when it does not.
use tu_dns.Prelude.{
  ℕ, ◌+◌, ◌≡◌, refl, ap, ◌∙◌, true, false, not, List, [], ◌∷◌, ◌++◌, some, none, find?, any,
  map_where, count, ltb,
}
use mathlib.Core.Path.{subst}
use tu_dns.Prelude.Int.{ℤ, pos, ltb_ℤ, leb_ℤ, add64}
use tu_dns.Text.{Text, text, is_empty}
use tu_dns.Models.{Db, User, RedeemCode, RedeemUse, PointsLedger, ledger_type_redeem}
use tu_dns.World.{World, Env, tick, codes, uses}
use tu_dns.World.On.{On, On-bind, On-if, On-pure, On-ask, On-raise_if, On-mono, On-map_error}
use tu_dns.World.Healthy.{IsHealthy, Up-first, Up-create, Up-update, Up-count_where, Up-transaction}
use tu_dns.Points.{has_biz_no, has_id, adjust}
use tu_dns.Points.Adjust.{IsCredited}
use tu_dns.Points.Total.{adjust_total, adjust-known_total}
use tu_dns.Redeem.{
  has_code, has_code_id, uses_code_by, expires_before, normalized, biz_no_at, use_row, one_more,
  check_code, spend_code, redeem,
}

-- The guards of `Redeem` pass for this row, when the call begins at `w`. The clock is read at the
-- second outside call, and again at the fourth.
pub record IsReady (env : Env) (w : World) (user_id : ℕ) (code : Text) (item : RedeemCode)
    : Type 0 where
  pub spelled : is_empty (normalized env code) ≡ false
  pub found : find? (has_code (normalized env code)) w.db.codes ≡ some item
  pub enabled : item.enabled ≡ true
  pub in_time : expires_before item.expires_at (env.now (w.moment + 1)) ≡ false
  pub left : leb_ℤ item.max_uses item.used_count ≡ false
  pub unused : count (uses_code_by item.id user_id) w.db.uses ≡ 0

-- The business number of the call that begins at `w`.
abbrev pub number_at : Env → World → RedeemCode → Text
number_at env w item = biz_no_at env item (env.now (w.moment + 1 + 1 + 1))

-- The code counts one use more, and the use is recorded.
abbrev pub IsSpent : Db → ℕ → RedeemCode → Db → Type 0
IsSpent d user_id item d' =
    (d'.codes ≡ map_where (has_code_id item.id) (one_more item.used_count) d.codes)
    × ((u : RedeemUse) × (d'.uses ≡ d.uses ++ u ∷ [])
        × (u.user_id ≡ user_id)
        × (u.code_id ≡ item.id))

module _ (env : Env) (up : IsHealthy env) (w : World) (user_id : ℕ) (code : Text)
    (item : RedeemCode) (ready : IsReady env w user_id code item) (R : Db → Type 0)
    (keeps : (d : Db) → R d → (d.codes ≡ w.db.codes) × (d.uses ≡ w.db.uses)) where
  abbrev Paid : ℤ → Db → Type 0
  Paid gained d' =
      (gained ≡ item.points)
      × IsSpent w.db user_id item d'
      × ((d : Db) × R d × (d'.users ≡ d.users) × (d'.ledgers ≡ d.ledgers))

  spent :
      (d : Db) (u : RedeemUse) (d' : Db)
      → R d
      → u ≡ record (use_row item.id user_id) { id = u.id }
      → d' ≡ record d {
        codes = map_where (has_code_id item.id) (one_more item.used_count) d.codes;
        uses = d.uses ++ u ∷ [];
      }
      → Paid item.points d'
  spent d u d' r row same =
      let kept = keeps d r in
      (
        refl,
        (
          ap (λ (d : Db). d.codes) same
              ∙ ap (map_where (has_code_id item.id) (one_more item.used_count)) kept.0,
          (
            u,
            ap (λ (d : Db). d.uses) same ∙ ap (λ us. us ++ u ∷ []) kept.1,
            ap (λ (u : RedeemUse). u.user_id) row,
            ap (λ (u : RedeemUse). u.code_id) row,
          ),
        ),
        (d, r, ap (λ (d : Db). d.users) same, ap (λ (d : Db). d.ledgers) same),
      )

  spend_up :
      (w1 : World)
      → On
          (λ l w2. R w2.db)
          (λ e w2. ⊥)
          (adjust env user_id item.points ledger_type_redeem
            (text "兑换码" ++ item.code)
            0
            (biz_no_at env item (env.now w1.moment))
            (tick w1))
      → On (λ gained w'. Paid gained w'.db) (λ e w2. ⊥) (spend_code env user_id item w1)
  unfolding spend_code
  spend_up w1 paid = On-bind _ _ w1 (
      On-ask env.now w1 (
        On-bind _ _ _ (
          On-mono paid
            (λ l w2 r. On-bind _ _ w2 (
              Up-update (codes env) up.codes w2 _ _ (
                On-bind _ _ _ (
                  Up-create (uses env) up.uses _ _ (none_conflicts w2.db.uses)
                    (λ u row. On-pure item.points _ (spent w2.db u _ r row refl))))))
            (λ e w2 none_left. none_left))))
    where
      none_conflicts : (us : List RedeemUse) → any (λ u. false) us ≡ false
      none_conflicts [] = refl
      none_conflicts (u ∷ us) = none_conflicts us

  check_up :
      (w1 : World)
      → w1.db ≡ w.db
      → w1.moment ≡ w.moment + 1
      → (P : World → Type 0) → P (tick (tick w1))
      → On (λ _ w2. P w2) (λ e w2. ⊥) (check_code env user_id item w1)
  unfolding check_code
  check_up w1 same time P h = On-bind _ _ w1 (
      On-raise_if _ _ w1
        (λ _. On-bind _ _ _ (
          On-ask env.now w1 (
            On-bind _ _ _ (
              On-raise_if _ _ _
                (λ _. On-bind _ _ _ (
                  On-raise_if _ _ _
                    (λ _. On-bind _ _ _ (
                      Up-count_where (uses env) up.uses _ _
                        (On-raise_if _ _ _ (λ _. h) (λ used. cc (used_none used)))))
                    (λ spent_up. cc ready.left)))
                (λ late.
                  cc (ap (λ m. expires_before item.expires_at (env.now m)) time, ready.in_time))))))
        (λ off. cc (ap not ready.enabled)))
    where
      used_none : ltb 0 (count (uses_code_by item.id user_id) w1.db.uses) ≡ true → true ≡ false
      used_none used =
          cc (ap (λ (d : Db). count (uses_code_by item.id user_id) d.uses) same, ready.unused)

  redeem_up :
      ((w' : World)
        → w'.db ≡ w.db
        → On
            (λ l w''. R w''.db)
            (λ e w''. ⊥)
            (adjust env user_id item.points ledger_type_redeem
              (text "兑换码" ++ item.code)
              0
              (number_at env w item)
              w'))
      → On (λ gained w'. Paid gained w'.db) (λ e w'. ⊥) (redeem env user_id code w)
  unfolding redeem
  redeem_up pays =
      On-if (is_empty (normalized env code)) _ _ w (λ empty. cc ready.spelled)
        (λ _. Up-transaction env up _ w (
          On-bind _ _ w (
            On-map_error _ _ w (
              Up-first (codes env) up.codes w _ item ready.found (
                On-bind _ _ _ (
                  check_up (tick w) refl refl _ (
                    On-mono (spend_up (tick (tick (tick w))) (pays _ refl)) (λ gained w' done. done)
                      (λ e w' none_left. none_left))))))))

-- A second redemption in the same second: `Adjust` finds the entry of the first under the business
-- number, which names code and second but not the user.
-- Where the database is up, the guards pass and the ledger has an entry under the number of the code
-- and the second, `Redeem` reports the code's points as gained, counts and records the use, and
-- changes neither any user's points nor the ledger.
pub redeem_unpaid :
    (env : Env) (up : IsHealthy env) (w : World) (user_id : ℕ) (code : Text) (item : RedeemCode)
    (l : PointsLedger)
    → IsReady env w user_id code item
    → find? (has_biz_no (number_at env w item)) w.db.ledgers ≡ some l
    → On
        (λ gained w'.
          (gained ≡ item.points)
          × IsSpent w.db user_id item w'.db
          × (w'.db.users ≡ w.db.users)
          × (w'.db.ledgers ≡ w.db.ledgers))
        (λ e w'. ⊥)
        (redeem env user_id code w)
redeem_unpaid env up w user_id code item l ready taken =
    On-mono
      (redeem_up env up w user_id code item ready (λ d. d ≡ w.db)
        (λ d same. (ap (λ (d : Db). d.codes) same, ap (λ (d : Db). d.uses) same))
        (λ w' same.
          On-mono
            (adjust-known_total env up user_id item.points ledger_type_redeem
              (text "兑换码" ++ item.code) 0 (number_at env w item) w' l refl
              (ap (λ (d : Db). find? (has_biz_no (number_at env w item)) d.ledgers) same ∙ taken))
            (λ l' w'' kept. kept.1 ∙ same) (λ e w'' none_left. none_left)))
      (λ gained w' done. (
        done.0,
        done.1,
        done.2.2 ∙ ap (λ (d : Db). d.users) done.2.1,
        done.2.3 ∙ ap (λ (d : Db). d.ledgers) done.2.1,
      ))
      (λ e w' none_left. none_left)

-- Where the database is up, the guards pass, the user exists, the ledger has no entry under the number
-- of the code and the second and the user's points can take the code's points, `Redeem` returns the
-- code's points, they are credited to the user by one new entry, and the use is counted and recorded.
pub redeem_paid :
    (env : Env) (up : IsHealthy env) (w : World) (user_id : ℕ) (code : Text) (item : RedeemCode)
    (u : User)
    → IsReady env w user_id code item
    → find? (has_biz_no (number_at env w item)) w.db.ledgers ≡ none
    → find? (has_id user_id) w.db.users ≡ some u
    → ltb_ℤ (add64 u.points item.points) (pos 0) ≡ false
    → On
        (λ gained w'.
          (gained ≡ item.points)
          × IsSpent w.db user_id item w'.db
          × ((l : PointsLedger) × (d : Db) × IsCredited env w.db user_id item.points
                (number_at env w item)
                l
                d
              × (w'.db.users ≡ d.users)
              × (w'.db.ledgers ≡ d.ledgers)))
        (λ e w'. ⊥)
        (redeem env user_id code w)
redeem_paid env up w user_id code item u ready fresh owner covered =
    On-mono
      (redeem_up env up w user_id code item ready
        (λ d.
          (l : PointsLedger) × IsCredited env w.db user_id item.points (number_at env w item) l d)
        (λ d c. (ap (λ (d : Db). d.codes) c.1.content, ap (λ (d : Db). d.uses) c.1.content))
        (λ w' same.
          On-mono
            (adjust_total env up user_id item.points ledger_type_redeem (text "兑换码" ++ item.code) 0
              (number_at env w item) w' u
              (ap (λ (d : Db). find? (has_id user_id) d.users) same ∙ owner)
              (ap (λ (d : Db). find? (has_biz_no (number_at env w item)) d.ledgers) same ∙ fresh))
            (λ l w'' c. (
              l,
              subst (λ d. IsCredited env d user_id item.points (number_at env w item) l w''.db) same
                  c,
            ))
            (λ e w'' refused. cc (refused.1, covered))))
      (λ gained w' done. (done.0, done.1, (done.2.1.0, done.2.0, done.2.1.1, done.2.2, done.2.3)))
      (λ e w' none_left. none_left)

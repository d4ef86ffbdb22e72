-- ===== src/Points/Total.antt =====
-- When `Adjust` returns, on a database that is up.
use tu_dns.Prelude.{
  ℕ, ◌≡◌, refl, Bool, true, false, some, none, arith, find?, find?-none-any, if◌then◌else◌,
}
use tu_dns.Prelude.Int.{ℤ, pos, ◌≤ℤ◌, ltb_ℤ, add64}
use tu_dns.Text.{Text, is_empty}
use tu_dns.Result.{Error, insufficient}
use tu_dns.Models.{User, Db, PointsLedger}
use tu_dns.World.{World, Env, tick, users, ledgers, ask, pure, attempt, first, ◌>>=◌}
use tu_dns.World.On.{On, On-bind, On-if, On-pure, On-ask, On-attempt, On-raise_if}
use tu_dns.World.Healthy.{IsHealthy, Up-first, Up-first_missing, Up-create, Up-update}
use tu_dns.Points.{is_not_found, has_biz_no, has_id, credit, after_lookup, adjust}
use tu_dns.Points.Adjust.{IsCredited, number_of, credited}

module _ (env : Env) (up : IsHealthy env) (user_id : ℕ) (delta : ℤ) (typ remark : Text)
    (operator : ℕ) where
  -- What a refused call says and leaves.
  abbrev IsRefused : Db → User → Error → World → Type 0
  IsRefused d u e w' =
      (e ≡ insufficient) × (ltb_ℤ (add64 u.points delta) (pos 0) ≡ true) × (w'.db ≡ d)

  credit_total :
      (number : Text) (w : World) (u : User)
      → find? (has_id user_id) w.db.users ≡ some u
      → find? (has_biz_no number) w.db.ledgers ≡ none
      → On
          (λ l w'. IsCredited env w.db user_id delta number l w'.db)
          (IsRefused w.db u)
          (credit env user_id delta typ remark operator number w)
  unfolding credit
  credit_total number w u found fresh = On-bind _ _ w (
      Up-first (users env) up.users w (has_id user_id) u found (
        On-bind _ _ _ (
          On-raise_if _ _ _
            (λ covered. On-bind _ _ _ (
              Up-update (users env) up.users _ _ _ (
                Up-create (ledgers env) up.ledgers _ _
                  (find?-none-any (has_biz_no number) w.db.ledgers fresh)
                  (λ l made.
                    credited env user_id delta typ remark operator w.db number u found
                      (nonneg _ covered) l made))))
            (λ short. (refl, short, refl)))))
    where
      nonneg : (a : ℤ) → ltb_ℤ a (pos 0) ≡ false → pos 0 ≤ℤ a
      nonneg a h = ground arith

  lookup_total :
      (number : Text) (w : World) (u : User)
      → find? (has_id user_id) w.db.users ≡ some u
      → find? (has_biz_no number) w.db.ledgers ≡ none
      → On
          (λ l w'. IsCredited env w.db user_id delta number l w'.db)
          (IsRefused w.db u)
          ((attempt (first (ledgers env) (has_biz_no number))
              >>= after_lookup env (credit env user_id delta typ remark operator number))
            w)
  unfolding after_lookup is_not_found
  lookup_total number w u found fresh = On-bind _ _ w (
      On-attempt _ w (
        Up-first_missing (ledgers env) up.ledgers w (has_biz_no number) fresh
          (credit_total number (tick w) u found fresh)))

  -- Where the database is up, the user exists and the business number is new, `Adjust` returns with
  -- the credit made exactly if the user's points plus `delta`, in 64-bit arithmetic, are not negative;
  -- else it fails as insufficient and changes nothing.
  pub adjust_total :
      (biz_no : Text) (w : World) (u : User)
      → find? (has_id user_id) w.db.users ≡ some u
      → find? (has_biz_no (number_of env biz_no w)) w.db.ledgers ≡ none
      → On
          (λ l w'. IsCredited env w.db user_id delta (number_of env biz_no w) l w'.db)
          (λ e w'.
            (e ≡ insufficient) × (ltb_ℤ (add64 u.points delta) (pos 0) ≡ true) × (w'.db ≡ w.db))
          (adjust env user_id delta typ remark operator biz_no w)
  unfolding adjust
  adjust_total biz_no w u found fresh = On-bind _ _ w (go (is_empty biz_no) fresh)
    where
      go :
          (b : Bool)
          → find? (has_biz_no (if b then env.uuid w.moment else biz_no)) w.db.ledgers ≡ none
          → On
              (λ number w'.
                On
                  (λ l w''.
                    IsCredited env w.db user_id delta
                      (if b then env.uuid w.moment else biz_no)
                      l
                      w''.db)
                  (IsRefused w.db u)
                  ((attempt (first (ledgers env) (has_biz_no number))
                      >>= after_lookup env (credit env user_id delta typ remark operator number))
                    w'))
              (IsRefused w.db u)
              ((if b then ask env.uuid else pure biz_no) w)
      go true f = On-ask env.uuid w (lookup_total (env.uuid w.moment) (tick w) u found f)
      go false f = On-pure biz_no w (lookup_total biz_no w u found f)

  -- Under a number that the ledger has, the call returns that entry and changes nothing.
  pub adjust-known_total :
      (biz_no : Text) (w : World) (l : PointsLedger)
      → is_empty biz_no ≡ false
      → find? (has_biz_no biz_no) w.db.ledgers ≡ some l
      → On
          (λ l' w'. (l' ≡ l) × (w'.db ≡ w.db))
          (λ e w'. ⊥)
          (adjust env user_id delta typ remark operator biz_no w)
  unfolding adjust
  adjust-known_total biz_no w l nonempty known = On-bind _ _ w (
      On-if (is_empty biz_no) _ _ w (λ e. cc)
        (λ _. On-pure biz_no w (
          On-bind _ _ w (
            On-attempt _ w (
              Up-first (ledgers env) up.ledgers w (has_biz_no biz_no) l known
                (On-pure l _ (refl, refl)))))))

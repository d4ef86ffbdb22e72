-- ===== src/Points/Adjust.antt =====
-- What `Adjust` and `Charge` do, on every path.
use tu_dns.Prelude.{
  ℕ, ◌≡◌, refl, sym, ap, ◌⊎◌, inl, inr, Bool, true, false, [], ◌∷◌, ◌++◌, none, some, arith, find?,
  map_where, find?-holds, if◌then◌else◌, ==_iff,
}
use mathlib.Core.Path.{ap₂}
use tu_dns.Prelude.Int.{ℤ, pos, ◌≤ℤ◌, ltb_ℤ, add64}
use tu_dns.Text.{Text, is_empty}
use tu_dns.Result.{Error, not_found}
use tu_dns.Models.{User, PointsLedger, Db}
use tu_dns.World.{World, Env, tick, users, ledgers, ask, pure, attempt, first, ◌>>=◌}
use tu_dns.World.On.{
  On, On-bind, On-if, On-pure, On-raise, On-ask, On-attempt, On-raise_if, On-mono,
}
use tu_dns.World.Rules.{On-first, On-update, On-create}
use tu_dns.Points.{is_not_found, has_biz_no, has_id, ledger_row, credit, after_lookup, adjust}

-- The points of the user are set, and nothing else is.
abbrev pub with_points : ℕ → ℤ → Db → Db
with_points k next d = record d {
  users = map_where (has_id k) (λ u. record u { points = next }) d.users;
}

-- What a first call under a business number has done: the user's points moved by `delta` in 64-bit
-- arithmetic, to a balance of zero or more, and the ledger has one more entry, which says so.
pub record IsCredited (env : Env) (d : Db) (user_id : ℕ) (delta : ℤ) (number : Text)
    (l : PointsLedger) (d' : Db) : Type 0 where
  pub user : User
  pub found : find? (has_id user_id) d.users ≡ some user
  pub entry_user : l.user_id ≡ user_id
  pub entry_delta : l.delta ≡ delta
  pub entry_balance : l.balance ≡ add64 user.points delta
  pub entry_biz_no : l.biz_no ≡ number
  pub covered : pos 0 ≤ℤ l.balance
  pub content : d' ≡ record (with_points user_id l.balance d) { ledgers = d.ledgers ++ l ∷ [] }

-- What a call that fails may leave: the database as it was, or the points set with no entry, which
-- the caller's transaction takes back.
abbrev pub IsPartial : Db → ℕ → Db → Type 0
IsPartial d user_id d' = (d' ≡ d) ⊎ ((next : ℤ) × (d' ≡ with_points user_id next d))

pub IsPartial-ledgers :
    (d : Db) (user_id : ℕ) (d' : Db) → IsPartial d user_id d' → d'.ledgers ≡ d.ledgers
IsPartial-ledgers d user_id d' (inl same) = ap (λ (d : Db). d.ledgers) same
IsPartial-ledgers d user_id d' (inr (next, same)) = ap (λ (d : Db). d.ledgers) same

module _ (env : Env) (user_id : ℕ) (delta : ℤ) (typ remark : Text) (operator : ℕ) where
  -- The row that the database gives back is the one that `credit` wrote.
  pub credited :
      (d : Db) (number : Text) (u : User)
      → find? (has_id user_id) d.users ≡ some u
      → pos 0 ≤ℤ add64 u.points delta
      → (l : PointsLedger)
      → l ≡ record (ledger_row user_id delta (add64 u.points delta) typ remark operator number) {
        id = l.id;
      }
      → IsCredited env d user_id delta number l
          (record (with_points u.id (add64 u.points delta) d) { ledgers = d.ledgers ++ l ∷ [] })
  credited d number u found covered l made = record {
    user = u;
    found = found;
    entry_user = ap (λ (l : PointsLedger). l.user_id) made;
    entry_delta = ap (λ (l : PointsLedger). l.delta) made;
    entry_balance = balance;
    entry_biz_no = ap (λ (l : PointsLedger). l.biz_no) made;
    covered = rw balance covered;
    content =
        ap₂ (λ k next. record (with_points k next d) { ledgers = d.ledgers ++ l ∷ [] })
          ((==_iff u.id user_id).0 (find?-holds (has_id user_id) d.users found)) (sym balance);
  }
    where
      balance : l.balance ≡ add64 u.points delta
      balance = ap (λ (l : PointsLedger). l.balance) made

  credit-On :
      (number : Text) (w : World)
      → On
          (λ l w'. IsCredited env w.db user_id delta number l w'.db)
          (λ e w'. IsPartial w.db user_id w'.db)
          (credit env user_id delta typ remark operator number w)
  unfolding credit
  credit-On number w = On-bind _ _ w (
      On-first (users env) (has_id user_id) w
        (λ u found. On-bind _ _ _ (
          On-raise_if _ _ _
            (λ covered. On-bind _ _ _ (
              On-update (users env) _ _ _
                (On-create (ledgers env) _ _
                  (λ l made. credited w.db number u found (nonneg _ covered) l made.keeps)
                  (λ e. inr (add64 u.points delta, same u found)))
                (λ e. inl refl)))
            (λ short. inl refl)))
        (λ e missing. inl refl))
    where
      nonneg : (a : ℤ) → ltb_ℤ a (pos 0) ≡ false → pos 0 ≤ℤ a
      nonneg a h = ground arith

      same :
          (u : User)
          → find? (has_id user_id) w.db.users ≡ some u
          → with_points u.id (add64 u.points delta) w.db
            ≡ with_points user_id (add64 u.points delta) w.db
      same u found =
          ap (λ k. with_points k (add64 u.points delta) w.db)
            ((==_iff u.id user_id).0 (find?-holds (has_id user_id) w.db.users found))

pub is_not_found_sound : (e : Error) → is_not_found e ≡ true → e ≡ not_found
unfolding is_not_found
is_not_found_sound not_found h = refl
is_not_found_sound _ h = cc

-- The business number that a call goes by: a fresh one in the place of an empty one.
abbrev pub number_of : Env → Text → World → Text
number_of env biz_no w = if is_empty biz_no then env.uuid w.moment else biz_no

-- What a call that returns has done: nothing, where the ledger has an entry under the number, which
-- is the result; else the credit.
abbrev pub Adjusted : Env → Db → ℕ → ℤ → Text → PointsLedger → Db → Type 0
Adjusted env d user_id delta number l d' =
    ((find? (has_biz_no number) d.ledgers ≡ some l) × (d' ≡ d))
    ⊎ ((find? (has_biz_no number) d.ledgers ≡ none) × IsCredited env d user_id delta number l d')

module _ (env : Env) (user_id : ℕ) (delta : ℤ) (typ remark : Text) (operator : ℕ) where
  lookup-On :
      (number : Text) (w : World)
      → On
          (λ l w'. Adjusted env w.db user_id delta number l w'.db)
          (λ e w'. IsPartial w.db user_id w'.db)
          ((attempt (first (ledgers env) (has_biz_no number))
              >>= after_lookup env (credit env user_id delta typ remark operator number))
            w)
  unfolding after_lookup
  lookup-On number w = On-bind _ _ w (
      On-attempt _ w (
        On-first (ledgers env) (has_biz_no number) w (λ l found. On-pure l _ (inl (found, refl)))
          (λ e missing.
            On-if (is_not_found e) _ _ _
              (λ h.
                On-mono (credit-On env user_id delta typ remark operator number (tick w))
                  (λ l w' done. inr (missing (is_not_found_sound e h), done)) (λ e w' part. part))
              (λ h. On-raise e _ (inl refl)))))

  -- `Adjust` on every path. Where it returns, either the ledger had an entry under the business
  -- number, which is the result, and the database is as it was; or it had none, the user exists, the
  -- user's points have moved by `delta` in 64-bit arithmetic to a balance of zero or more, and the
  -- ledger has the one new entry that says so. Where it fails, the ledger is as it was.
  pub adjust_lem :
      (biz_no : Text) (w : World)
      → On
          (λ l w'. Adjusted env w.db user_id delta (number_of env biz_no w) l w'.db)
          (λ e w'. IsPartial w.db user_id w'.db)
          (adjust env user_id delta typ remark operator biz_no w)
  unfolding adjust
  adjust_lem biz_no w = On-bind _ _ w (go (is_empty biz_no) refl)
    where
      go :
          (b : Bool)
          → is_empty biz_no ≡ b
          → On
              (λ number w'.
                On
                  (λ l w''.
                    Adjusted env w.db user_id delta
                      (if b then env.uuid w.moment else biz_no)
                      l
                      w''.db)
                  (λ e w''. IsPartial w.db user_id w''.db)
                  ((attempt (first (ledgers env) (has_biz_no number))
                      >>= after_lookup env (credit env user_id delta typ remark operator number))
                    w'))
              (λ e w'. IsPartial w.db user_id w'.db)
              ((if b then ask env.uuid else pure biz_no) w)
      go true e = On-ask env.uuid w (lookup-On (env.uuid w.moment) (tick w))
      go false e = On-pure biz_no w (lookup-On biz_no w)

  -- `Adjust` calls no platform.
  pub adjust-calls :
      (biz_no : Text) (w : World)
      → On
          (λ l w'. w'.calls ≡ w.calls)
          (λ e w'. w'.calls ≡ w.calls)
          (adjust env user_id delta typ remark operator biz_no w)
  unfolding adjust
  adjust-calls biz_no w = On-bind _ _ w (
      On-if (is_empty biz_no) _ _ w
        (λ _. On-ask env.uuid w (lookup-calls (env.uuid w.moment) (tick w)))
        (λ _. On-pure biz_no w (lookup-calls biz_no w)))
    where
      credit-calls :
          (number : Text) (v : World)
          → On
              (λ l w'. w'.calls ≡ v.calls)
              (λ e w'. w'.calls ≡ v.calls)
              (credit env user_id delta typ remark operator number v)
      credit-calls number v = On-bind _ _ v (
          On-first (users env) _ v
            (λ u found. On-bind _ _ _ (
              On-raise_if _ _ _
                (λ covered. On-bind _ _ _ (
                  On-update (users env) _ _ _
                    (On-create (ledgers env) _ _ (λ l made. refl) (λ e. refl)) (λ e. refl)))
                (λ short. refl)))
            (λ e missing. refl))

      lookup-calls :
          (number : Text) (v : World)
          → On
              (λ l w'. w'.calls ≡ v.calls)
              (λ e w'. w'.calls ≡ v.calls)
              ((attempt (first (ledgers env) (has_biz_no number))
                  >>= after_lookup env (credit env user_id delta typ remark operator number))
                v)
      lookup-calls number v = On-bind _ _ v (
          On-attempt _ v (
            On-first (ledgers env) (has_biz_no number) v (λ l found. On-pure l _ refl)
              (λ e missing.
                On-if (is_not_found e) _ _ _ (λ h. credit-calls number (tick v))
                  (λ h. On-raise e _ refl))))

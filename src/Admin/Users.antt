-- ===== src/Admin/Users.antt =====
-- What an administrator's calls do to the users and their points.
use tu_dns.Prelude.{
  ℕ, ◌≡◌, ◌≢◌, refl, sym, ap, ◌∙◌, Bool, true, Bool-cases, passed_lem, List, Option, none, false,
  [], some, ◌∷◌, find?, map_where, ◌⊎◌, inl, inr,
}
use tu_dns.Prelude.Int.{ℤ, pos, eq_ℤ_sound, IsInt64}
use tu_dns.Text.{Text, text_eq}
use tu_dns.Text.Laws.{text_eq_sound, text_eq_refl}
use tu_dns.Models.{Db, User, role_user, role_admin, role_premium}
use tu_dns.World.{World, Env, users, pure, update, first, ◌>>◌}
use tu_dns.World.On.{On, On-bind, On-if, On-pure, On-raise_if, On-mono, On-transaction}
use tu_dns.World.Rules.{On-first, On-update}
use tu_dns.Points.{has_id}
use tu_dns.Points.Adjust.{adjust_lem, number_of}
use tu_dns.Points.Balance.{IsBalanced, Adjusted-IsBalanced}
use tu_dns.Admin.{
  UpdateUserInput, updated, bad_role, disables_admin, update_user, adjust_points, is_empty_update,
  given,
}

-- A column after an update: what is given for it, or what it was.
abbrev pub column : {A : Type 0} → Option A → A → A
column none old = old
column (some new) old = new

-- The row with the given columns, and all else as it was.
abbrev pub with_columns : UpdateUserInput → User → User
with_columns i u = record u {
  username = column i.username u.username;
  email = column i.email u.email;
  role = column i.role u.role;
  status = column i.status u.status;
}

-- A given role is one of the three.
abbrev pub IsRoleGiven : Option Text → Type 0
IsRoleGiven none = Unit
IsRoleGiven (some r) = (r ≡ role_user) ⊎ ((r ≡ role_admin) ⊎ (r ≡ role_premium))

-- A given status of an admin is 1, the active one.
abbrev pub IsStatusGiven : User → Option ℤ → Type 0
IsStatusGiven u none = Unit
IsStatusGiven u (some status) = (u.role ≢ role_admin) ⊎ (status ≡ pos 1)

-- What a call of `UpdateUser` has found and left.
abbrev pub IsUserUpdate : ℕ → UpdateUserInput → Db → Db → Type 0
IsUserUpdate id i d d' =
    (u : User) × (find? (has_id id) d.users ≡ some u)
    × IsRoleGiven i.role
    × IsStatusGiven u i.status
    × (d' ≡ record d { users = map_where (has_id u.id) (with_columns i) d.users })

IsRoleGiven-passed : (r : Option Text) → bad_role r ≡ false → IsRoleGiven r
IsRoleGiven-passed none h = tt
IsRoleGiven-passed (some r) h = elim (Bool-cases (text_eq r role_user)) [
  | inl y ↦ inl (text_eq_sound r role_user y)
  | inr n ↦ elim (Bool-cases (text_eq r role_admin)) [
    | inl y ↦ inr (inl (text_eq_sound r role_admin y))
    | inr n' ↦ inr (inr (text_eq_sound r role_premium (passed_lem _ (rw (n, n') at h))))
  ]
]

IsStatusGiven-passed : (u : User) (s : Option ℤ) → disables_admin u s ≡ false → IsStatusGiven u s
IsStatusGiven-passed u none h = tt
IsStatusGiven-passed u (some s) h = elim (Bool-cases (text_eq u.role role_admin)) [
  | inl y ↦ inr (eq_ℤ_sound s (pos 1) (passed_lem _ (rw y at h)))
  | inr n ↦ inl (λ e. cc (sym n ∙ ap (λ r. text_eq r role_admin) e, text_eq_refl role_admin))
]

given-column : {A : Type 0} (old : A) (o : Option A) → given old o ≡ column o old
given-column old none = refl
given-column old (some new) = refl

-- The rows that `Updates` sets are those with the given columns.
updated-columns :
    (p : User → Bool) (i : UpdateUserInput) (us : List User)
    → map_where p (updated i) us ≡ map_where p (with_columns i) us
updated-columns p i [] = refl
updated-columns p i (u ∷ us) =
    rw
      (
        given-column u.username i.username,
        given-column u.email i.email,
        given-column u.role i.role,
        given-column u.status i.status,
        updated-columns p i us,
      )
      refl

unset_row : (i : UpdateUserInput) → is_empty_update i ≡ true → (u : User) → with_columns i u ≡ u
unset_row i h u = go i.username i.email i.role i.status h
  where
    go :
        (n e r : Option Text) (s : Option ℤ)
        → is_empty_update (record { username = n; email = e; role = r; status = s }) ≡ true
        → with_columns (record { username = n; email = e; role = r; status = s }) u ≡ u
    go none none none none h = refl
    go (some n) e r s h = cc
    go none (some e) r s h = cc
    go none none (some r) s h = cc
    go none none none (some s) h = cc

-- With no column given nothing is set.
unset :
    (p : User → Bool) (i : UpdateUserInput)
    → is_empty_update i ≡ true
    → (us : List User) → map_where p (with_columns i) us ≡ us
unset p i h [] = refl
unset p i h (u ∷ us) = elim (Bool-cases (p u)) [
  | inl y ↦ rw (y, unset_row i h u, unset p i h us) refl
  | inr n ↦ rw (n, unset p i h us) refl
]

module _ (env : Env) where
  -- `UpdateUser` on every path. Where it returns, the user existed, a given role is one of the three, a
  -- given status disables no admin, the given columns and no others are set in the rows of that user,
  -- no other row has changed, and the row that is returned is the one that is then found under the
  -- id. Where it fails, the database is as before, or all that is so but the reading of the row.
  pub update_user_lem :
      (id : ℕ) (i : UpdateUserInput) (w : World)
      → On
          (λ v w'. IsUserUpdate id i w.db w'.db × (find? (has_id id) w'.db.users ≡ some v))
          (λ e w'. (w'.db ≡ w.db) ⊎ IsUserUpdate id i w.db w'.db)
          (update_user env id i w)
  unfolding update_user
  update_user_lem id i w = On-bind _ _ w (
      On-first (users env) _ w
        (λ u found. On-bind _ _ _ (
          On-raise_if _ _ _
            (λ role_ok. On-bind _ _ _ (
              On-raise_if _ _ _
                (λ status_ok.
                  let done : (d' : Db)
                      → d' ≡ record w.db {
                        users = map_where (has_id u.id) (with_columns i) w.db.users;
                      }
                      → IsUserUpdate id i w.db d' =
                    λ d' e. (
                      u,
                      found,
                      IsRoleGiven-passed i.role role_ok,
                      IsStatusGiven-passed u i.status status_ok,
                      e,
                    ) in
                  On-if (is_empty_update i) (pure u)
                    (update (users env) (has_id u.id) (updated i) >> first (users env) (has_id id))
                    _
                    (λ nothing. On-pure u _ (
                      done w.db (
                          ap (λ us. record w.db { users = us })
                            (sym (unset (has_id u.id) i nothing w.db.users))),
                      found,
                    ))
                    (λ _. On-bind _ _ _ (
                      On-update (users env) _ (has_id u.id) (updated i)
                        (On-first (users env) _ _
                          (λ v again. (done _ (set_columns (has_id u.id)), again))
                          (λ e _. inr (done _ (set_columns (has_id u.id)))))
                        (λ e. inl refl))))
                (λ _. inl refl)))
            (λ _. inl refl)))
        (λ e _. inl refl))
    where
      set_columns :
          (p : User → Bool)
          → record w.db { users = map_where p (updated i) w.db.users }
            ≡ record w.db { users = map_where p (with_columns i) w.db.users }
      set_columns p = ap (λ us. record w.db { users = us }) (updated-columns p i w.db.users)

  -- `AdjustPoints` keeps the books balanced, whether it returns or fails, for an int64 of points.
  pub adjust_points-IsBalanced :
      (admin_id user_id : ℕ) (delta : ℤ) (remark : Text) (w : World)
      → IsInt64 delta
      → IsBalanced w.db
      → On
          (λ u w'. IsBalanced w'.db)
          (λ e w'. IsBalanced w'.db)
          (adjust_points env admin_id user_id delta remark w)
  unfolding adjust_points
  adjust_points-IsBalanced admin_id user_id delta remark w range b = On-bind _ _ w (
      On-raise_if _ _ w
        (λ _. On-bind _ _ w (
          On-transaction env _ w (
            On-mono (adjust_lem env user_id delta _ remark admin_id [] w)
              (λ l w' done.
                let b' =
                  Adjusted-IsBalanced env w.db user_id delta (number_of env [] w) l w'.db range b
                    done in
                (On-first (users env) _ _ (λ u _. b') (λ e _. b'), λ e. b))
              (λ e w' _. b))))
        (λ _. b))

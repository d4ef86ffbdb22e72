-- ===== src/Points/Balance.antt =====
-- The books: a user's points and the sum of the user's ledger entries.
use tu_dns.Prelude.{
  ℕ, ◌≡◌, refl, sym, ap, ◌∙◌, inl, inr, true, false, List, [], ◌∷◌, ◌++◌, arith, any, All,
  All-append, All-find?, All-map, All-map_where, any-map_where, find?-any, find?-holds, map_where,
  ◌==◌, ==_iff, if◌then◌else◌,
}
use mathlib.Core.Path.{subst}
use tu_dns.Prelude.Int.{ℤ, pos, ◌+ℤ◌, ◌≤ℤ◌, IsInt64, add64, add64_exact, add64-IsInt64, int_laws}
use tu_dns.Text.{Text}
use tu_dns.Models.{Db, User, PointsLedger}
use tu_dns.World.{World, Env}
use tu_dns.World.On.{On, On-mono}
use tu_dns.Points.{has_id, adjust}
use tu_dns.Points.Adjust.{IsCredited, Adjusted, number_of, adjust_lem, IsPartial-ledgers}

-- The sum of a user's entries.
abbrev pub total : ℕ → List PointsLedger → ℤ
total k [] = pos 0
total k (l ∷ ls) = (if l.user_id == k then l.delta else pos 0) +ℤ total k ls

pub total-append :
    (k : ℕ) (ls : List PointsLedger) (l : PointsLedger)
    → total k (ls ++ l ∷ []) ≡ total k ls +ℤ (if l.user_id == k then l.delta else pos 0)
total-append k [] l = omega int_laws
total-append k (m ∷ ls) l = rw (total-append k ls l) (omega int_laws)

-- A user's points are an int64, not negative, and the sum of the user's entries.
abbrev pub HasBalance : List PointsLedger → User → Type 0
HasBalance ls u = (u.points ≡ total u.id ls) × (pos 0 ≤ℤ u.points) × IsInt64 u.points

-- The invariant of the tables of users and entries: every user has the balance of the entries, and
-- every entry is some user's.
pub record IsBalanced (d : Db) : Type 0 where
  pub balances : All (HasBalance d.ledgers) d.users
  pub owners : All (λ l. any (has_id l.user_id) d.users ≡ true) d.ledgers

module _ (ls : List PointsLedger) (l : PointsLedger) where
  -- The user of the new entry.
  HasBalance-credit :
      (u : User)
      → l.user_id ≡ u.id
      → l.balance ≡ u.points +ℤ l.delta
      → pos 0 ≤ℤ l.balance
      → IsInt64 l.balance
      → HasBalance ls u
      → HasBalance (ls ++ l ∷ []) (record u { points = l.balance })
  HasBalance-credit u owner sum covered range h = (
    rw (total-append u.id ls l, (==_iff l.user_id u.id).1 owner) (sum ∙ ap (λ p. p +ℤ l.delta) h.0),
    covered,
    range,
  )

  -- Any other user.
  HasBalance-other :
      (u : User) → (l.user_id == u.id) ≡ false → HasBalance ls u → HasBalance (ls ++ l ∷ []) u
  HasBalance-other u other h =
      (rw (total-append u.id ls l, other) (h.0 ∙ plus_zero (total u.id ls)), h.1, h.2)
    where
      plus_zero : (a : ℤ) → a ≡ a +ℤ pos 0
      plus_zero a = omega int_laws

owners-append :
    (us : List User) (ls : List PointsLedger) (l : PointsLedger)
    → All (λ m. any (has_id m.user_id) us ≡ true) ls
    → any (has_id l.user_id) us ≡ true
    → All (λ m. any (has_id m.user_id) us ≡ true) (ls ++ l ∷ [])
owners-append us ls l h e = All-append (λ m. any (has_id m.user_id) us ≡ true) ls (l ∷ []) h (e, tt)

-- Setting points changes nobody's id.
owners-with_points :
    (k : ℕ) (next : ℤ) (us : List User) (ls : List PointsLedger)
    → All (λ m. any (has_id m.user_id) us ≡ true) ls
    → All
        (λ m.
          any (has_id m.user_id) (map_where (has_id k) (λ u. record u { points = next }) us) ≡ true)
        ls
owners-with_points k next us ls =
    All-map (λ m. any (has_id m.user_id) us ≡ true) _
      (λ m e. any-map_where (has_id m.user_id) (has_id k) _ us (λ u. refl) ∙ e) ls

module _ (env : Env) (d : Db) (user_id : ℕ) (delta : ℤ) (number : Text) (l : PointsLedger) (d' : Db)
    (range : IsInt64 delta) where
  -- The sum in 64-bit arithmetic is the sum: one that had wrapped would be below zero.
  balance_exact :
      (u : User)
      → HasBalance d.ledgers u
      → l.delta ≡ delta
      → l.balance ≡ add64 u.points delta
      → pos 0 ≤ℤ l.balance
      → l.balance ≡ u.points +ℤ l.delta
  balance_exact u h same e covered =
      e
      ∙ (add64_exact u.points delta h.1 h.2 range (subst (λ b. pos 0 ≤ℤ b) e covered)
          ∙ ap (λ x. u.points +ℤ x) (sym same))

  credit-IsBalanced : IsBalanced d → IsCredited env d user_id delta number l d' → IsBalanced d'
  credit-IsBalanced b c = subst IsBalanced (sym c.content) (record {
    balances =
        All-map_where (HasBalance d.ledgers) (HasBalance (d.ledgers ++ l ∷ [])) (has_id user_id) _
          (λ u hit h.
            HasBalance-credit d.ledgers l u (c.entry_user ∙ sym ((==_iff u.id user_id).0 hit))
              (balance_exact u h c.entry_delta
                (c.entry_balance ∙ ap (λ p. add64 p delta) (same_points u hit h)) c.covered)
              c.covered (subst IsInt64 (sym c.entry_balance) (add64-IsInt64 c.user.points delta)) h)
          (λ u miss h. HasBalance-other d.ledgers l u (other u miss) h) d.users b.balances;
    owners =
        owners-append _ d.ledgers l
          (owners-with_points user_id l.balance d.users d.ledgers b.owners)
          (any-map_where (has_id l.user_id) (has_id user_id) _ d.users (λ u. refl) ∙ known);
  })
    where
      known : any (has_id l.user_id) d.users ≡ true
      known = rw c.entry_user (find?-any (has_id user_id) d.users c.found)

      mine : HasBalance d.ledgers c.user
      mine = All-find? (HasBalance d.ledgers) (has_id user_id) d.users b.balances c.found

      same_points :
          (u : User) → has_id user_id u ≡ true → HasBalance d.ledgers u → c.user.points ≡ u.points
      same_points u hit h =
          mine.0
          ∙ (ap (λ k. total k d.ledgers)
                ((==_iff c.user.id user_id).0 (find?-holds (has_id user_id) d.users c.found)
                  ∙ sym ((==_iff u.id user_id).0 hit))
              ∙ sym h.0)

      other : (u : User) → has_id user_id u ≡ false → (l.user_id == u.id) ≡ false
      other u miss = ground (arith, c.entry_user)

  pub Adjusted-IsBalanced : IsBalanced d → Adjusted env d user_id delta number l d' → IsBalanced d'
  Adjusted-IsBalanced b (inl (found, same)) = subst IsBalanced (sym same) b
  Adjusted-IsBalanced b (inr (missing, c)) = credit-IsBalanced b c

-- `Adjust` keeps the books balanced, also where the 64-bit sum wraps: after a call that returned,
-- every user's points are not negative and are the sum of the user's entries, if that was so before
-- and the delta is an int64. A call that failed has left the ledger as it was.
pub adjust-IsBalanced :
    (env : Env) (user_id : ℕ) (delta : ℤ) (typ remark : Text) (operator : ℕ) (biz_no : Text)
    (w : World)
    → IsInt64 delta
    → IsBalanced w.db
    → On
        (λ l w'. IsBalanced w'.db)
        (λ e w'. w'.db.ledgers ≡ w.db.ledgers)
        (adjust env user_id delta typ remark operator biz_no w)
adjust-IsBalanced env user_id delta typ remark operator biz_no w range b =
    On-mono (adjust_lem env user_id delta typ remark operator biz_no w)
      (λ l w' done.
        Adjusted-IsBalanced env w.db user_id delta (number_of env biz_no w) l w'.db range b done)
      (λ e w' part. IsPartial-ledgers w.db user_id w'.db part)

-- ===== src/Server/Sound/Codes.antt =====
-- Redeem codes under the invariant of the database.
use tu_dns.Prelude.{
  ℕ, ◌≡◌, refl, sym, ap, ◌∙◌, true, false, List, [], ◌∷◌, ◌++◌, Option, arith, any, count, All,
  All-append, All-find?, All-map, All-map_where, any-append, ◌==◌, ==_iff, inl, inr, Bool-cases,
  if◌then◌else◌,
}
use mathlib.Core.Path.{subst}
use tu_dns.Prelude.Int.{ℤ, pos, leb_ℤ, IsInt64, ◌≤ℤ◌}
use tu_dns.Prelude.Keys.{Distinct-append}
use tu_dns.Text.{Text}
use tu_dns.Models.{Db, Domain, PaymentOrder, RedeemCode, RedeemUse}
use tu_dns.World.{Env, codes, create}
use tu_dns.World.On.{On-mono}
use tu_dns.World.Rules.{On-create}
use tu_dns.World.Preserves.{Preserves, Preserves-On, Preserves-if, Preserves-bind, Preserves-raise}
use tu_dns.Redeem.{
  has_code, has_code_id, uses_code, normalized, one_more, redeem, random_code, create_code, list,
}
use tu_dns.Points.Balance.{IsBalanced}
use tu_dns.Redeem.Once.{IsRedeemed, redeem_lem}
use tu_dns.Redeem.Uses.{IsCounted, HasCount, IsRedeemed-IsCounted}
use tu_dns.Server.Sound.{IsSound, IsSound-Adjusted, sound_rules}

module _ (env : Env) (d : Db) (user_id : ℕ) (code : Text) (gained : ℤ) (d' : Db)
    (r : IsRedeemed env d user_id code gained d') (s : IsSound d) where
  open r use {item, middle}

  middle-IsSound : IsSound middle
  middle-IsSound =
      IsSound-Adjusted env d user_id item.points _ r.entry middle
        (All-find? (λ (c : RedeemCode). IsInt64 c.points) (has_code (normalized env code)) d.codes
          s.gifts r.found)
        s r.adjusted

  redeemed-IsSound : IsSound d'
  redeemed-IsSound = record {
    balanced =
        subst (λ (d : Db). IsBalanced d) (sym r.content)
          (record {
            balances = middle-IsSound.balanced.balances;
            owners = middle-IsSound.balanced.owners;
          });
    counted = IsRedeemed-IsCounted env d user_id code gained d' r s.counted;
    gifts =
        subst (λ (d : Db). All (λ (c : RedeemCode). IsInt64 c.points) d.codes) (sym r.content)
          (All-map_where (λ (c : RedeemCode). IsInt64 c.points)
            (λ (c : RedeemCode). IsInt64 c.points) (has_code_id item.id) (one_more item.used_count)
            (λ c _ h. h) (λ c _ h. h) middle.codes middle-IsSound.gifts);
    orders =
        subst (λ (d : Db). All (λ (o : PaymentOrder). IsInt64 o.points) d.orders) (sym r.content)
          middle-IsSound.orders;
    prices =
        subst (λ (d : Db). All (λ (d : Domain). IsInt64 d.points_cost) d.domains) (sym r.content)
          middle-IsSound.prices;
  }

-- A code that has no uses.
uses_zero :
    (k : ℕ) (cs : List RedeemCode) (us : List RedeemUse)
    → All (λ u. any (has_code_id u.code_id) cs ≡ true) us
    → any (has_code_id k) cs ≡ false
    → count (uses_code k) us ≡ 0
uses_zero k cs [] h e = refl
uses_zero k cs (u ∷ us) h e = rw (other u h.0) (uses_zero k cs us h.1 e)
  where
    other : (u : RedeemUse) → any (has_code_id u.code_id) cs ≡ true → (u.code_id == k) ≡ false
    other u known = elim (Bool-cases (u.code_id == k)) [
      | inl same ↦ cc ((==_iff u.code_id k).0 same, known, e)
      | inr differs ↦ differs
    ]

-- What a new code has to be.
record IsNew (c : RedeemCode) : Type 0 where
  unused : c.used_count ≡ pos 0
  limit : pos 0 ≤ℤ c.max_uses
  limit_range : IsInt64 c.max_uses
  points_range : IsInt64 c.points

module _ (d : Db) (s : IsSound d) (c : RedeemCode) (new : IsNew c)
    (fresh : any (λ (q : RedeemCode). q.id == c.id) d.codes ≡ false) where
  new_code-IsCounted : IsCounted (d.codes ++ c ∷ []) d.uses
  new_code-IsCounted = record {
    keys = Distinct-append (λ (c : RedeemCode). c.id) d.codes c s.counted.keys fresh;
    counts = All-append (HasCount d.uses) d.codes (c ∷ []) s.counted.counts (
      (
        new.unused ∙ ap pos (sym (uses_zero c.id d.codes d.uses s.counted.known fresh)),
        rw new.unused new.limit,
        new.limit_range,
      ),
      tt,
    );
    known =
        All-map _ _ (λ u h. rw (any-append (has_code_id u.code_id) d.codes (c ∷ []), h)) d.uses
          s.counted.known;
    once = s.counted.once;
  }

  IsSound-new_code : IsSound (record d { codes = d.codes ++ c ∷ [] })
  IsSound-new_code = record {
    balanced = record { balances = s.balanced.balances; owners = s.balanced.owners };
    counted = new_code-IsCounted;
    gifts =
        All-append (λ (c : RedeemCode). IsInt64 c.points) d.codes (c ∷ []) s.gifts
          (new.points_range, tt);
    orders = s.orders;
    prices = s.prices;
  }

module _ (env : Env) where
  pub redeem-IsSound : (user_id : ℕ) (code : Text) → Preserves IsSound (redeem env user_id code)
  redeem-IsSound user_id code = Preserves-On _ λ w s.
      On-mono (redeem_lem env user_id code w)
        (λ gained w' done. redeemed-IsSound env w.db user_id code gained w'.db done s)
        (λ e w' same. subst IsSound (sym same) s)

  new_code-IsSound : (c : RedeemCode) → IsNew c → Preserves IsSound (create (codes env) c)
  new_code-IsSound c new = Preserves-On _ λ w s.
      On-create (codes env) c w
        (λ c' made.
          IsSound-new_code w.db s c'
            (subst IsNew (sym made.keeps) (record {
              unused = new.unused;
              limit = new.limit;
              limit_range = new.limit_range;
              points_range = new.points_range;
            }))
            made.new_id)
        (λ e. s)

  random_code-IsSound : (n : ℕ) → Preserves IsSound (random_code env n)
  unfolding random_code
  random_code-IsSound n = search sound_rules depth 10

  limit_lem :
      (n : ℤ)
      → IsInt64 n
      → (pos 0 ≤ℤ (if leb_ℤ n (pos 0) then pos 1 else n))
        × IsInt64 (if leb_ℤ n (pos 0) then pos 1 else n)
  limit_lem n h = ground arith

  pub create_code-IsSound :
      (points max_uses : ℤ) (expires : Option ℕ)
      → IsInt64 points
      → IsInt64 max_uses
      → Preserves IsSound (create_code env points max_uses expires)
  unfolding create_code
  create_code-IsSound points max_uses expires hp hm =
      Preserves-if (leb_ℤ points (pos 0)) _ _ (Preserves-raise _) (
        Preserves-bind _ _ (random_code-IsSound 12) (λ code. new_code-IsSound _ (record {
          unused = refl;
          limit = (limit_lem max_uses hm).0;
          limit_range = (limit_lem max_uses hm).1;
          points_range = hp;
        })))

  pub list-IsSound : Preserves IsSound (list env)
  unfolding list
  list-IsSound = search sound_rules

-- ===== src/Redeem/Uses.antt =====
-- The invariant of codes and their uses.
use tu_dns.Prelude.{
  ℕ, ◌+◌, ◌≤◌, ◌≡◌, refl, sym, ap, ◌∙◌, inl, inr, true, false, Bool-cases, ◌&&◌, List, [], ◌∷◌,
  ◌++◌, arith, any, count, count-append, map_where, All, All-append, All-map, All-map_where,
  any-map_where, All-zip, ◌==◌, ==_refl,
}
use mathlib.Core.Path.{subst, ap₂}
use tu_dns.Prelude.Int.{ℤ, pos, negsuc, ◌≤ℤ◌, leb_ℤ, IsInt64, add64}
use tu_dns.Prelude.Keys.{Distinct, Distinct-map_where, Distinct-found, key-any}
use tu_dns.Text.{Text}
use tu_dns.Models.{Db, RedeemCode, RedeemUse, PointsLedger}
use tu_dns.World.{World, Env}
use tu_dns.World.On.{On, On-mono}
use tu_dns.Points.Adjust.{Adjusted}
use tu_dns.Redeem.{has_code, normalized, has_code_id, uses_code, uses_code_by, one_more, redeem}
use tu_dns.Redeem.Once.{IsRedeemed, redeem_lem}

-- A code's count is the number of its recorded uses, and not above its limit, an int.
abbrev pub HasCount : List RedeemUse → RedeemCode → Type 0
HasCount us c =
    (c.used_count ≡ pos (count (uses_code c.id) us))
    × (c.used_count ≤ℤ c.max_uses)
    × IsInt64 c.max_uses

pub record IsCounted (codes : List RedeemCode) (us : List RedeemUse) : Type 0 where
  pub keys : Distinct (λ (c : RedeemCode). c.id) codes
  pub counts : All (HasCount us) codes
  pub known : All (λ u. any (has_code_id u.code_id) codes ≡ true) us
  pub once : (k user_id : ℕ) → count (uses_code_by k user_id) us ≤ 1

-- One use more, below the limit, does not wrap and does not pass it.
one_more_lem :
    (n : ℕ) (a max : ℤ)
    → a ≡ pos n
    → leb_ℤ max a ≡ false
    → IsInt64 max
    → (add64 a (pos 1) ≡ pos (n + 1)) × (add64 a (pos 1) ≤ℤ max)
unfolding add64
one_more_lem n (pos m) (pos k) e h r = ground arith
one_more_lem n (pos m) (negsuc k) e h r = ground arith
one_more_lem n (negsuc m) max e h r = ground arith

module _ (cs : List RedeemCode) (us : List RedeemUse) (u : RedeemUse) where
  HasCount-used :
      (item c : RedeemCode)
      → c ≡ item
      → u.code_id ≡ item.id
      → leb_ℤ item.max_uses item.used_count ≡ false
      → HasCount us c
      → HasCount (us ++ u ∷ []) (one_more item.used_count c)
  HasCount-used item c same code left h =
      let h' = subst (HasCount us) same h in
      let more = one_more_lem _ item.used_count item.max_uses h'.0 left h'.2 in
      (
        more.0
            ∙ ap pos (
                sym (
                  count-append (uses_code c.id) us (u ∷ [])
                  ∙ rw (code ∙ ap (λ (c : RedeemCode). c.id) (sym same), ==_refl c.id)
                      (ap (λ (c : RedeemCode). count (uses_code c.id) us + 1) same))),
        subst (λ (d : RedeemCode). add64 item.used_count (pos 1) ≤ℤ d.max_uses) (sym same) more.1,
        h.2,
      )

  HasCount-other :
      (c : RedeemCode) → (u.code_id == c.id) ≡ false → HasCount us c → HasCount (us ++ u ∷ []) c
  HasCount-other c other h = (
    h.0 ∙ ap pos (sym (count-append (uses_code c.id) us (u ∷ []) ∙ rw other (omega arith))),
    h.1,
    h.2,
  )

  -- A use that the user has not made before.
  once-append :
      (k user_id : ℕ)
      → count (uses_code_by u.code_id u.user_id) us ≡ 0
      → count (uses_code_by k user_id) us ≤ 1
      → count (uses_code_by k user_id) (us ++ u ∷ []) ≤ 1
  once-append k user_id unused h =
      rw (count-append (uses_code_by k user_id) us (u ∷ []))
        (elim (Bool-cases (uses_code_by k user_id u)) [
          | inl mine ↦
              let same = both (u.code_id) k (u.user_id) user_id mine in
              rw (mine, ap₂ (λ i j. count (uses_code_by i j) us) (sym same.0) (sym same.1) ∙ unused)
                (omega arith)
          | inr other ↦ rw other (omega arith)
        ])
    where
      both : (a b c d : ℕ) → (a == b && c == d) ≡ true → (a ≡ b) × (c ≡ d)
      both a b c d e = ground arith

-- No redemption of other tables.
frame :
    (env : Env) (d : Db) (user_id : ℕ) (delta : ℤ) (number : Text) (l : PointsLedger) (d' : Db)
    → Adjusted env d user_id delta number l d'
    → (d'.codes ≡ d.codes) × (d'.uses ≡ d.uses)
frame env d user_id delta number l d' (inl (found, same)) =
    (ap (λ (d : Db). d.codes) same, ap (λ (d : Db). d.uses) same)
frame env d user_id delta number l d' (inr (missing, c)) =
    (ap (λ (d : Db). d.codes) c.content, ap (λ (d : Db). d.uses) c.content)

module _ (env : Env) (d : Db) (user_id : ℕ) (code : Text) (gained : ℤ) (d' : Db)
    (r : IsRedeemed env d user_id code gained d') (inv : IsCounted d.codes d.uses) where
  open r use {item, new_use}

  abbrev codes_after : List RedeemCode
  codes_after = map_where (has_code_id item.id) (one_more item.used_count) d.codes

  abbrev uses_after : List RedeemUse
  uses_after = d.uses ++ new_use ∷ []

  codes_known :
      (k : ℕ) → any (has_code_id k) d.codes ≡ true → any (has_code_id k) codes_after ≡ true
  codes_known k h =
      any-map_where (has_code_id k) (has_code_id item.id) (one_more item.used_count) d.codes
        (λ c. refl)
      ∙ h

  IsCounted-after : IsCounted codes_after uses_after
  IsCounted-after = record {
    keys =
        Distinct-map_where (λ (c : RedeemCode). c.id) (has_code_id item.id) _ d.codes (λ c. refl)
          inv.keys;
    counts =
        All-map_where (λ c. ((c.id == item.id) ≡ true → c ≡ item) × HasCount d.uses c)
          (HasCount uses_after) (has_code_id item.id) (one_more item.used_count)
          (λ c hit h.
            HasCount-used d.codes d.uses new_use item c (h.0 hit) r.use_code r.usable.left h.1)
          (λ c miss h. HasCount-other d.codes d.uses new_use c (other c miss) h.1) d.codes
          (All-zip _ _ d.codes
            (Distinct-found (λ (c : RedeemCode). c.id) (has_code (normalized env code)) d.codes item
              inv.keys r.found)
            inv.counts);
    known =
        All-append _ d.uses (new_use ∷ [])
          (All-map _ _ (λ u h. codes_known u.code_id h) d.uses inv.known)
          (codes_known new_use.code_id known_code, tt);
    once = λ k v.
        once-append d.codes d.uses new_use k v
          (ap₂ (λ i j. count (uses_code_by i j) d.uses) r.use_code r.use_user ∙ r.usable.unused)
          (inv.once k v);
  }
    where
      other : (c : RedeemCode) → has_code_id item.id c ≡ false → (new_use.code_id == c.id) ≡ false
      other c miss = ground (arith, r.use_code)

      known_code : any (has_code_id new_use.code_id) d.codes ≡ true
      known_code = rw r.use_code (key-any (λ (c : RedeemCode). c.id) _ d.codes r.found)

  pub IsRedeemed-IsCounted : IsCounted d'.codes d'.uses
  IsRedeemed-IsCounted =
      let kept = frame env d user_id item.points _ r.entry r.middle r.adjusted in
      subst (λ (d : Db). IsCounted d.codes d.uses) (sym r.content)
        (subst
          (λ cs.
            IsCounted (map_where (has_code_id item.id) (one_more item.used_count) cs)
              (r.middle.uses ++ new_use ∷ []))
          (sym kept.0)
          (subst (λ us. IsCounted codes_after (us ++ new_use ∷ [])) (sym kept.1) IsCounted-after))

-- `Redeem` keeps the books of the codes: after any call, whether it returned or failed, each code
-- counts exactly its recorded uses and never more than its limit, and no user has two uses of one
-- code, if that was so before.
pub redeem-IsCounted :
    (env : Env) (user_id : ℕ) (code : Text) (w : World)
    → IsCounted w.db.codes w.db.uses
    → On
        (λ gained w'. IsCounted w'.db.codes w'.db.uses)
        (λ e w'. IsCounted w'.db.codes w'.db.uses)
        (redeem env user_id code w)
redeem-IsCounted env user_id code w inv =
    On-mono (redeem_lem env user_id code w)
      (λ gained w' r. IsRedeemed-IsCounted env w.db user_id code gained w'.db r inv)
      (λ e w' same. subst (λ (d : Db). IsCounted d.codes d.uses) (sym same) inv)

-- ===== src/Redeem.antt =====
-- redeem/service.go: codes that are exchanged for points.
pub mod Once
pub mod Uses
pub mod Collision
pub mod Balance
use tu_dns.Prelude.{
  ℕ, Bool, true, false, not, ◌&&◌, List, [], ◌∷◌, ◌++◌, Option, none, some, ltb, ◌==◌, take,
  if◌then◌else◌,
}
use tu_dns.Prelude.Int.{ℤ, pos, leb_ℤ, add64}
use tu_dns.Text.{Text, text, text_eq, is_empty, to_upper, trim_space}
use tu_dns.Result.{
  Error, points_not_positive, empty_code, invalid_code, code_disabled, code_expired, code_used_up,
  already_redeemed,
}
use tu_dns.Models.{RedeemCode, RedeemUse, ledger_type_redeem}
use tu_dns.World.{
  Env, Action, pure, raise, raise_if, lift, map_error, ask, first, count_where, find_desc, create,
  update, codes, uses, transaction, ◌>>=◌, ◌>>◌,
}
use tu_dns.Points.{adjust}

abbrev pub has_code : Text → RedeemCode → Bool
has_code code c = text_eq c.code code

abbrev pub has_code_id : ℕ → RedeemCode → Bool
has_code_id k c = c.id == k

-- The uses of a code, and those by one user.
abbrev pub uses_code : ℕ → RedeemUse → Bool
uses_code k u = u.code_id == k

abbrev pub uses_code_by : ℕ → ℕ → RedeemUse → Bool
uses_code_by k user_id u = u.code_id == k && u.user_id == user_id

abbrev pub expires_before : Option ℕ → ℕ → Bool
expires_before none now = false
expires_before (some t) now = ltb t now

-- The code as the user typed it, in the spelling of the table.
unfoldable pub normalized : Env → Text → Text
unfolding to_upper trim_space
normalized env code = to_upper env.letters (trim_space code)

-- "redeem-" + item.Code + "-" + the second
abbrev pub biz_no_at : Env → RedeemCode → ℕ → Text
biz_no_at env item now = text "redeem-" ++ item.code ++ text "-" ++ env.format_second now

abbrev pub use_row : ℕ → ℕ → RedeemUse
use_row code_id user_id = record { id = 0; code_id = code_id; user_id = user_id }

abbrev pub one_more : ℤ → RedeemCode → RedeemCode
one_more used c = record c { used_count = add64 used (pos 1) }

module _ (env : Env) where
  -- The guards of `Redeem` on the row, in their order.
  unfoldable pub check_code : ℕ → RedeemCode → Action (Unit {0})
  check_code user_id item = do
    raise_if (not item.enabled) code_disabled
    now ← ask env.now
    raise_if (expires_before item.expires_at now) code_expired
    raise_if (leb_ℤ item.max_uses item.used_count) code_used_up
    used ← count_where (uses env) (uses_code_by item.id user_id)
    raise_if (ltb 0 used) already_redeemed

  -- The writes of `Redeem`.
  unfoldable pub spend_code : ℕ → RedeemCode → Action ℤ
  unfolding adjust
  spend_code user_id item = do
    now ← ask env.now
    adjust env user_id item.points ledger_type_redeem (text "兑换码" ++ item.code) 0
        (biz_no_at env item now)
    update (codes env) (has_code_id item.id) (one_more item.used_count)
    create (uses env) (use_row item.id user_id)
    pure item.points

  unfoldable pub redeem : ℕ → Text → Action ℤ
  unfolding normalized check_code spend_code
  redeem user_id code =
      if is_empty (normalized env code)
      then raise empty_code
      else transaction env (do
        item ← map_error (λ _. invalid_code) (first (codes env) (has_code (normalized env code)))
        check_code user_id item
        spend_code user_id item)

  -- `randomCode`: n random bytes, the first n of their hexadecimal digits, in capitals
  unfoldable pub random_code : ℕ → Action Text
  unfolding to_upper
  random_code n = do
    digits ← ask (λ m. env.random_hex m n)
    digits ← lift digits
    pure (to_upper env.letters (take n digits))

  -- `Create`
  unfoldable pub create_code : ℤ → ℤ → Option ℕ → Action RedeemCode
  unfolding random_code
  create_code points max_uses expires_at =
      if leb_ℤ points (pos 0) then raise points_not_positive else do
        code ← random_code 12
        create (codes env) (record {
          id = 0;
          code = code;
          points = points;
          max_uses = if leb_ℤ max_uses (pos 0) then pos 1 else max_uses;
          used_count = pos 0;
          expires_at = expires_at;
          enabled = true;
        })

  -- `List`
  unfoldable pub list : Action (List RedeemCode)
  list = find_desc (codes env) (λ _. true)

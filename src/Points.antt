-- ===== src/Points.antt =====
-- points/service.go: the points of a user and the ledger of their changes.
pub mod Adjust
pub mod Repeat
pub mod Balance
pub mod Total
use tu_dns.Prelude.{
  ℕ, ◌-◌, ◌*◌, ◌<◌, Bool, true, false, ◌||◌, List, Option, none, some, ltb, ◌==◌, if◌then◌else◌,
}
use tu_dns.Prelude.Int.{ℤ, pos, negsuc, ltb_ℤ, leb_ℤ, eq_ℤ, add64, neg_ℤ, wrap64, pos_part}
use tu_dns.Text.{Text, text, text_eq, is_empty}
use tu_dns.Result.{Error, Result, ok, err, not_found, insufficient, invalid_cost}
use tu_dns.Models.{User, PointsLedger, ledger_type_charge}
use tu_dns.Page.{clamp_page, clamp_size, offset}
use tu_dns.World.{
  Env, Action, pure, raise, raise_if, attempt, ask, first, count_where, find_page, create, update,
  users, ledgers, ◌>>=◌, ◌>>◌,
}

-- `errors.Is(err, gorm.ErrRecordNotFound)`
unfoldable pub is_not_found : Error → Bool
is_not_found not_found = true
is_not_found _ = false

abbrev pub has_biz_no : Text → PointsLedger → Bool
has_biz_no number l = text_eq l.biz_no number

abbrev pub has_id : ℕ → User → Bool
has_id k u = u.id == k

-- The row that `Adjust` writes; the database gives its id.
abbrev pub ledger_row : ℕ → ℤ → ℤ → Text → Text → ℕ → Text → PointsLedger
ledger_row user_id delta next typ remark operator number = record {
  id = 0;
  user_id = user_id;
  delta = delta;
  balance = next;
  type = typ;
  biz_no = number;
  remark = remark;
  operator = operator;
}

module _ (env : Env) where
  -- The second half of `Adjust`: the ledger has no entry under the business number.
  unfoldable pub credit : ℕ → ℤ → Text → Text → ℕ → Text → Action PointsLedger
  unfolding add64
  credit user_id delta typ remark operator number = do
    user ← first (users env) (has_id user_id)
    let next = add64 user.points delta
    raise_if (ltb_ℤ next (pos 0)) insufficient
    update (users env) (has_id user.id) (λ u. record u { points = next })
    create (ledgers env) (ledger_row user_id delta next typ remark operator number)

  unfoldable pub after_lookup : Action PointsLedger → Result PointsLedger → Action PointsLedger
  unfolding is_not_found
  after_lookup m (ok existing) = pure existing
  after_lookup m (err e) = if is_not_found e then m else raise e

  unfoldable pub numbered : Text → Action Text
  numbered biz_no = if is_empty biz_no then ask env.uuid else pure biz_no

  -- `Adjust`: an entry under the same business number is returned as it stands.
  unfoldable pub adjust : ℕ → ℤ → Text → Text → ℕ → Text → Action PointsLedger
  unfolding credit after_lookup numbered
  adjust user_id delta typ remark operator biz_no = do
    number ← numbered biz_no
    found ← attempt (first (ledgers env) (has_biz_no number))
    after_lookup (credit user_id delta typ remark operator number) found

  -- `Charge`: a cost of zero writes nothing.
  unfoldable pub charge : ℕ → ℤ → Text → Action (Option PointsLedger)
  unfolding adjust
  charge user_id cost remark =
      if ltb_ℤ cost (pos 0) then raise invalid_cost else if eq_ℤ cost (pos 0) then pure none else do
        number ← ask env.uuid
        l ← adjust user_id (neg_ℤ cost) ledger_type_charge remark 0 number
        pure (some l)

  abbrev in_list : ℕ → PointsLedger → Bool
  in_list user_id l = if ltb 0 user_id then l.user_id == user_id else true

  -- `List`: a user's entries, or all at id 0, a page at a time.
  unfoldable pub list : ℕ → ℤ → ℤ → Action (List PointsLedger × ℕ)
  list user_id page page_size = do
    let page = clamp_page page
    let size = clamp_size 100 page_size
    total ← count_where (ledgers env) (in_list user_id)
    items ← find_page (ledgers env) (in_list user_id) (offset page size) size
    pure (items, total)

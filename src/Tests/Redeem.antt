-- ===== src/Tests/Redeem.antt =====
-- Redemptions: the theorems at concrete inputs.
use tu_dns.Prelude.{◌≡◌, refl, [], ◌∷◌, arith}
use tu_dns.Prelude.Int.{pos, add64}
use tu_dns.Text.{text}
use tu_dns.Models.{PointsLedger, Db}
use tu_dns.World.{World}
use tu_dns.World.On.{On}
use tu_dns.Points.Adjust.{IsCredited}
use tu_dns.Redeem.{redeem, normalized}
use tu_dns.Redeem.Once.{IsRedeemed, redeem_lem}
use tu_dns.Redeem.Uses.{IsCounted}
use tu_dns.Redeem.Collision.{IsReady, IsSpent, number_at, redeem_paid, redeem_unpaid}
use tu_dns.Tests.Base.{env, healthy, start, db, ann, gift, first_entry}

redeem_lem_example :
    On
      (λ gained w'. IsRedeemed env start.db 1 (text " gift") gained w'.db)
      (λ e w'. w'.db ≡ start.db)
      (redeem env 1 (text " gift") start)
redeem_lem_example = redeem_lem env 1 (text " gift") start

pub gift-IsCounted : IsCounted db.codes db.uses
gift-IsCounted = record {
  keys = (refl, tt);
  counts = ((refl, omega arith, (omega arith, omega arith)), tt);
  known = tt;
  once = λ k user_id. omega arith;
}

gift-IsReady : IsReady env start 1 (text " gift") gift
unfolding normalized
gift-IsReady = record {
  spelled = refl;
  found = refl;
  enabled = refl;
  in_time = refl;
  left = refl;
  unused = refl;
}

redeem_paid_example :
    On
      (λ gained w'.
        (gained ≡ gift.points)
        × IsSpent start.db 1 gift w'.db
        × ((l : PointsLedger) × (d : Db) × IsCredited env start.db 1 gift.points
              (number_at env start gift)
              l
              d
            × (w'.db.users ≡ d.users)
            × (w'.db.ledgers ≡ d.ledgers)))
      (λ e w'. ⊥)
      (redeem env 1 (text " gift") start)
unfolding add64
redeem_paid_example =
    redeem_paid env healthy start 1 (text " gift") gift ann gift-IsReady refl refl refl

-- Ann has redeemed the code in the second in which Bob does.
abbrev ann_entry : PointsLedger
ann_entry = record {
  id = 2;
  user_id = 1;
  delta = pos 5;
  balance = pos 15;
  type = text "redeem";
  biz_no = number_at env start gift;
  remark = [];
  operator = 0;
}

abbrev shared_second : World
shared_second = record start { db = record db { ledgers = first_entry ∷ ann_entry ∷ [] } }

bob-IsReady : IsReady env shared_second 2 (text "GIFT") gift
unfolding normalized
bob-IsReady = record {
  spelled = refl;
  found = refl;
  enabled = refl;
  in_time = refl;
  left = refl;
  unused = refl;
}

redeem_unpaid_example :
    On
      (λ gained w'.
        (gained ≡ gift.points)
        × IsSpent shared_second.db 2 gift w'.db
        × (w'.db.users ≡ shared_second.db.users)
        × (w'.db.ledgers ≡ shared_second.db.ledgers))
      (λ e w'. ⊥)
      (redeem env 2 (text "GIFT") shared_second)
redeem_unpaid_example =
    redeem_unpaid env healthy shared_second 2 (text "GIFT") gift ann_entry bob-IsReady refl

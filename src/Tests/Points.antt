-- ===== src/Tests/Points.antt =====
-- Points and settings: the theorems at concrete inputs.
use tu_dns.Prelude.{◌≡◌, refl, true, arith}
use tu_dns.Prelude.Int.{pos, negsuc, add64, ltb_ℤ}
use tu_dns.Text.{text, text_eq}
use tu_dns.Prelude.{if◌then◌else◌}
use tu_dns.Settings
use tu_dns.Settings.Laws.{value_of, get-set}
use tu_dns.Result.{insufficient}
use tu_dns.World.On.{On}
use tu_dns.Points.{adjust}
use tu_dns.Points.Adjust.{Adjusted, IsCredited, IsPartial, number_of, adjust_lem}
use tu_dns.Points.Balance.{IsBalanced, adjust-IsBalanced}
use tu_dns.Points.Repeat.{adjust_twice}
use tu_dns.Points.Total.{adjust_total}
use tu_dns.Tests.Base.{env, healthy, start, ann, db-IsBalanced}

adjust_lem_example :
    On
      (λ l w'. Adjusted env start.db 1 (negsuc 6) (number_of env (text "n1") start) l w'.db)
      (λ e w'. IsPartial start.db 1 w'.db)
      (adjust env 1 (negsuc 6) (text "admin") (text "fee") 2 (text "n1") start)
adjust_lem_example = adjust_lem env 1 (negsuc 6) (text "admin") (text "fee") 2 (text "n1") start

adjust-IsBalanced_example :
    On
      (λ l w'. IsBalanced w'.db)
      (λ e w'. w'.db.ledgers ≡ start.db.ledgers)
      (adjust env 1 (negsuc 6) (text "admin") (text "fee") 2 (text "n1") start)
adjust-IsBalanced_example =
    adjust-IsBalanced env 1 (negsuc 6) (text "admin") (text "fee") 2 (text "n1") start
      (omega arith, omega arith) db-IsBalanced

adjust_twice_example :
    On
      (λ l w1.
        On
          (λ l' w2. (l' ≡ l) × (w2.db ≡ w1.db))
          (λ e w2. w2.db ≡ w1.db)
          (adjust env 2 (pos 9) (text "admin") (text "again") 2 (text "n1") w1))
      (λ e w1. w1.db.ledgers ≡ start.db.ledgers)
      (adjust env 1 (pos 5) (text "admin") (text "gift") 2 (text "n1") start)
adjust_twice_example =
    adjust_twice env 1 2 (pos 5) (pos 9) (text "admin") (text "admin") (text "gift") (text "again")
      2 2 (text "n1") start refl

adjust_total_example :
    On
      (λ l w'. IsCredited env start.db 1 (negsuc 6) (number_of env (text "n1") start) l w'.db)
      (λ e w'.
        (e ≡ insufficient)
        × (ltb_ℤ (add64 ann.points (negsuc 6)) (pos 0) ≡ true)
        × (w'.db ≡ start.db))
      (adjust env 1 (negsuc 6) (text "admin") (text "fee") 2 (text "n1") start)
adjust_total_example =
    adjust_total env healthy 1 (negsuc 6) (text "admin") (text "fee") 2 (text "n1") start ann refl
      refl

get-set_example :
    On
      (λ _ w1.
        On
          (λ v w2.
            (v ≡ (
              if text_eq (text "title") (text "title")
              then text "TuDNS"
              else value_of (text "title") start.db.settings))
            × (w2.db ≡ w1.db))
          (λ e w2. w2.db ≡ w1.db)
          (Settings.get env (text "title") w1))
      (λ e w1. w1.db ≡ start.db)
      (Settings.set env (text "title") (text "TuDNS") start)
get-set_example = get-set env (text "title") (text "TuDNS") (text "title") start

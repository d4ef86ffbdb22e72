-- ===== src/Tests/Payment.antt =====
-- Payments: the theorems at concrete inputs.
use tu_dns.Prelude.{◌*◌, ◌/◌, ◌≡◌, refl, ◌==◌, [], ◌∷◌, arith, true, if◌then◌else◌}
use mathlib.Core.Path.{subst}
use tu_dns.Prelude.Int.{pos, add64, IsInt64}
use tu_dns.Text.{text}
use tu_dns.Result.{ok, err, ok-injective, bad_signature}
use tu_dns.Gorm.{put_row}
use tu_dns.Models.{PaymentOrder, PointsLedger, order_status_paid}
use tu_dns.Models.Schema.{order_schema}
use tu_dns.World.On.{On}
use tu_dns.Points.Adjust.{IsCredited}
use tu_dns.Payment.{Alipay, PayConfig, pay_biz_no, points_for, handle_notify, verify_rsa2}
use tu_dns.Payment.Query.{Form, sorted_query}
use tu_dns.Payment.Order.{swapped, verify_rsa2-Reordered}
use tu_dns.Payment.Once.{notify_twice}
use tu_dns.Payment.Unsigned.{IsConfigured, notify_forged, notify_unsigned}
use tu_dns.Payment.Price.{points_for_lem}
use tu_dns.Tests.Base.{env, healthy, start, order, ann}

abbrev config : PayConfig
config = record {
  enabled = true;
  app_id = text "app";
  private_key = text "key";
  public_key = text "pub";
  notify_url = [];
  return_url = [];
  points_per_yuan = pos 10;
  gateway = [];
}

-- A platform whose signatures never verify.
abbrev pub pay : Alipay
pay = record {
  encode_config = λ c. text "{}";
  decode_config = λ raw. ok config;
  decode_config-IsInt64 = λ raw c e.
      subst (λ (c : PayConfig). IsInt64 c.points_per_yuan) (ok-injective config c e) (omega arith);
  marshal = λ form. text "{}";
  print_yuan = λ n. text "1.00";
  print_int = λ n. text "10";
  print_time = λ t. text "now";
  encode_query = λ form. [];
  sign = λ m key content. ok (text "signature");
  verify = λ key content sign. err bad_signature;
}

abbrev unsigned : Form
unsigned = (text "out_trade_no", text "order-01") ∷ (text "trade_no", text "t1") ∷ []

abbrev turned : Form
turned = (text "trade_no", text "t1") ∷ (text "out_trade_no", text "order-01") ∷ []

abbrev other_form : Form
other_form =
    (text "trade_status", text "TRADE_SUCCESS") ∷ (text "out_trade_no", text "order-01") ∷ []

abbrev signed : Form
signed = (text "sign", text "x") ∷ unsigned

notify_twice_example :
    On
      (λ _ w1.
        On (λ _ w2. w2.db ≡ w1.db) (λ e w2. w2.db ≡ w1.db) (handle_notify env pay other_form w1))
      (λ e w1. w1.db ≡ start.db)
      (handle_notify env pay unsigned start)
notify_twice_example = notify_twice env pay unsigned other_form start refl refl

stored-IsConfigured : IsConfigured pay start config
stored-IsConfigured = (refl, refl)

notify_forged_example :
    On
      (λ _ w'. ⊥)
      (λ e w'. (e ≡ bad_signature) × (w'.db ≡ start.db))
      (handle_notify env pay signed start)
unfolding verify_rsa2
notify_forged_example =
    notify_forged env healthy pay signed start config bad_signature stored-IsConfigured refl refl
      refl refl refl

notify_unsigned_example :
    On
      (λ _ w'.
        (row : PaymentOrder) × (l : PointsLedger) × (row.status ≡ order_status_paid)
        × IsCredited env
            (record start.db { orders = put_row order_schema row start.db.orders })
            order.user_id
            order.points
            (pay_biz_no order)
            l
            w'.db)
      (λ e w'. ⊥)
      (handle_notify env pay unsigned start)
unfolding add64
notify_unsigned_example =
    notify_unsigned env healthy pay unsigned start config order ann stored-IsConfigured refl refl
      refl refl refl refl refl refl

points_for_lem_example :
    points_for (pos 150) (pos 10) ≡ pos (if 150 * 10 / 100 == 0 then 10 else 150 * 10 / 100)
points_for_lem_example = points_for_lem 150 10 (omega arith)

verify_rsa2-Reordered_example :
    (verify_rsa2 env pay unsigned (text "pub") ≡ verify_rsa2 env pay turned (text "pub"))
    × (sorted_query unsigned ≡ sorted_query turned)
verify_rsa2-Reordered_example =
    verify_rsa2-Reordered env pay (text "pub") unsigned turned (swapped _ _ refl)

-- The empty field is left out, and the keys are in order.
sorted_query-turned : sorted_query turned ≡ text "out_trade_no=order-01&trade_no=t1"
unfolding sorted_query
sorted_query-turned = refl

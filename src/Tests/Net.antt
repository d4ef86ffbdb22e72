-- ===== src/Tests/Net.antt =====
-- How addresses are read.
use tu_dns.Prelude.{◌≡◌, refl, some, none, [], ◌∷◌}
use tu_dns.Text.{text}
use tu_dns.Net.{parse_ip, mapped}

parse_ip_dotted : parse_ip (text "192.168.0.1") ≡ some (mapped (192 ∷ 168 ∷ 0 ∷ 1 ∷ []))
unfolding parse_ip
parse_ip_dotted = refl

parse_ip_leading_zero : parse_ip (text "192.168.01.1") ≡ none
unfolding parse_ip
parse_ip_leading_zero = refl

parse_ip-mapped : parse_ip (text "::ffff:1.2.3.4") ≡ some (mapped (1 ∷ 2 ∷ 3 ∷ 4 ∷ []))
unfolding parse_ip
parse_ip-mapped = refl

parse_ip_v6 :
    parse_ip (text "2001:db8::1")
    ≡ some (0x20 ∷ 1 ∷ 0x0d ∷ 0xb8 ∷ 0 ∷ 0 ∷ 0 ∷ 0 ∷ 0 ∷ 0 ∷ 0 ∷ 0 ∷ 0 ∷ 0 ∷ 0 ∷ 1 ∷ [])
unfolding parse_ip
parse_ip_v6 = refl

parse_ip_three_colons : parse_ip (text "2001:db8:::1") ≡ none
unfolding parse_ip
parse_ip_three_colons = refl

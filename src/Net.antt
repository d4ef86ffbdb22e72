-- ===== src/Net.antt =====
-- `net.ParseIP` and `IP.To4` of Go's package net, as package net/netip parses an address: the 16 bytes
-- of the address, a version 4 address mapped into version 6.
use tu_dns.Prelude.{
  ℕ, zero, suc, ◌+◌, ◌-◌, ◌*◌, ◌/◌, ◌%◌, Bool, true, false, not, ◌&&◌, ◌||◌, List, [], ◌∷◌, ◌++◌,
  Option, none, some, ltb, leb, ◌==◌, length, take, drop, any, if◌then◌else◌,
}
use tu_dns.Text.{Text, is_empty}

abbrev pub is_digit : ℕ → Bool
is_digit c = leb b'0' c && leb c b'9'

-- The fields of a dotted address: the value and the number of digits of the field that is read, and
-- the fields before it. No leading zeros, no empty field, none above 255, and four of them.
unfoldable pub v4_fields : ℕ → ℕ → List ℕ → Text → Option (List ℕ)
v4_fields val digits done [] = if length done == 3 then some (done ++ val ∷ []) else none
v4_fields val digits done (c ∷ s) =
    let val' = val * 10 + (c - b'0') in
    let more = v4_fields val' (digits + 1) done s in
    let next = v4_fields 0 0 (done ++ val ∷ []) s in
    if is_digit c
    then (if digits == 1 && val == 0 then none else if ltb 255 val' then none else more)
    else if c == b'.'
    then (if digits == 0 || is_empty s then none else if length done == 3 then none else next)
    else none

abbrev pub zeros : ℕ → List ℕ
zeros zero = []
zeros (suc n) = 0 ∷ zeros n

abbrev pub mapped : List ℕ → List ℕ
mapped fields = zeros 10 ++ 0xff ∷ 0xff ∷ fields

abbrev pub hex_value : ℕ → Option ℕ
hex_value c =
    if is_digit c
    then some (c - b'0')
    else if leb b'a' c && leb c b'f'
    then some (c - b'a' + 10)
    else if leb b'A' c && leb c b'F'
    then some (c - b'A' + 10)
    else none

-- A group of hexadecimal digits: how many, their value, and the rest. More than four are refused.
unfoldable pub hex_group : ℕ → ℕ → Text → Option (ℕ × ℕ × Text)
hex_group n acc [] = some (n, acc, [])
hex_group n acc (c ∷ s) = elim (hex_value c) [
  | none ↦ some (n, acc, c ∷ s)
  | some d ↦ if ltb 3 n then none else hex_group (n + 1) (acc * 16 + d) s
]

-- The bytes so far, and where the :: stands.
abbrev Groups : Type 0
Groups = List ℕ × Option ℕ

abbrev is_none : Option ℕ → Bool
is_none none = true
is_none (some n) = false

-- A dotted address in the place of the last two groups.
abbrev embedded : Groups → Text → Option Groups
embedded (ip, e) s =
    if is_none e && not (length ip == 12)
    then none
    else if ltb 16 (length ip + 4)
    then none
    else elim (v4_fields 0 0 [] s) [ none ↦ none | some fields ↦ some (ip ++ fields, e) ]

-- What follows a group: nothing, a colon and more, or a double colon. The loop goes on by `loop`.
abbrev after_group : (Groups → Text → Option Groups) → Groups → Text → Option Groups
after_group loop g [] = some g
after_group loop g (c ∷ []) = none
after_group loop (ip, e) (c ∷ d ∷ s) =
    if not (c == b':')
    then none
    else if d == b':'
    then (if not (is_none e)
        then none
        else if is_empty s
        then some (ip, some (length ip))
        else loop (ip, some (length ip)) s)
    else loop (ip, e) (d ∷ s)

abbrev first_is : ℕ → Text → Bool
first_is c [] = false
first_is c (d ∷ s) = d == c

-- The loop over the groups, with the number of groups that still fit.
unfoldable pub v6_groups : ℕ → Groups → Text → Option Groups
unfolding hex_group v4_fields
v6_groups zero g s = if is_empty s then some g else none
v6_groups (suc k) (ip, e) s =
    let loop = v6_groups k in
    elim (hex_group 0 0 s) [
      | none ↦ none
      | some (n, acc, rest) ↦
          if n == 0
          then none
          else if first_is b'.' rest
          then embedded (ip, e) s
          else after_group loop (ip ++ (acc / 256) ∷ (acc % 256) ∷ [], e) rest
    ]

-- The zeros that a :: stands for, at least one group of them.
abbrev expand : Groups → Option (List ℕ)
expand (ip, none) = if ltb (length ip) 16 then none else some ip
expand (ip, some j) =
    if ltb (length ip) 16 then some (take j ip ++ zeros (16 - length ip) ++ drop j ip) else none

abbrev expand_all : Option Groups → Option (List ℕ)
expand_all none = none
expand_all (some g) = expand g

unfoldable pub parse_v6 : Text → Option (List ℕ)
unfolding v6_groups
parse_v6 (c ∷ d ∷ s) =
    if c == b':' && d == b':'
    then (if is_empty s then some (zeros 16) else expand_all (v6_groups 8 ([], some 0) s))
    else expand_all (v6_groups 8 ([], none) (c ∷ d ∷ s))
parse_v6 s = expand_all (v6_groups 8 ([], none) s)

-- The first dot, colon or percent sign says which kind the address is.
abbrev kind_of : Text → ℕ
kind_of [] = 0
kind_of (c ∷ s) = if c == b'.' || c == b':' || c == b'%' then c else kind_of s

unfoldable pub parse_ip : Text → Option (List ℕ)
unfolding parse_v6 v4_fields
parse_ip s =
    if kind_of s == b'.'
    then elim (v4_fields 0 0 [] s) [ none ↦ none | some fields ↦ some (mapped fields) ]
    else if kind_of s == b':' && not (any (λ c. c == b'%') s)
    then parse_v6 s
    else none

-- `ip.To4() != nil`, of 16 bytes
unfoldable pub is_v4 : List ℕ → Bool
is_v4 ip =
    not (any (λ b. not (b == 0)) (take 10 ip))
    && not (any (λ b. not (b == 0xff)) (take 2 (drop 10 ip)))

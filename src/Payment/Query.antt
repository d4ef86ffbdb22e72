-- ===== src/Payment/Query.antt =====
-- The content that is signed: the fields that are not empty, by ascending key, joined to a query.
use tu_dns.Prelude.{Bool, true, false, ◌||◌, List, [], ◌∷◌, ◌++◌, ltb, ◌==◌, if◌then◌else◌}
use tu_dns.Text.{Text, text, text_eq, is_empty}

-- A Go map from texts to texts: its entries in the order of an iteration. A key stands once.
abbrev pub Form : Type 0
Form = List (Text × Text)

-- `form[key]`: the empty text where the key is missing
abbrev pub lookup : Text → Form → Text
lookup key [] = []
lookup key ((j, v) ∷ f) = if text_eq j key then v else lookup key f

-- The order of `sort.Strings`; that of UTF-8 bytes is that of code points.
abbrev pub text_le : Text → Text → Bool
text_le [] t = true
text_le (c ∷ s) [] = false
text_le (c ∷ s) (d ∷ t) = if ltb c d then true else if c == d then text_le s t else false

abbrev pub insert_field : Text × Text → Form → Form
insert_field x [] = x ∷ []
insert_field x (y ∷ f) = if text_le x.0 y.0 then x ∷ y ∷ f else y ∷ insert_field x f

abbrev pub sort_fields : Form → Form
sort_fields [] = []
sort_fields (x ∷ f) = insert_field x (sort_fields f)

-- A loop over a map that skips some entries.
abbrev pub skip_fields : (Text × Text → Bool) → Form → Form
skip_fields skip [] = []
skip_fields skip (x ∷ f) = if skip x then skip_fields skip f else x ∷ skip_fields skip f

abbrev pub nonempty_fields : Form → Form
nonempty_fields f = skip_fields (λ x. is_empty x.1) f

abbrev pub join_fields : Form → Text
join_fields [] = []
join_fields (x ∷ []) = x.0 ++ text "=" ++ x.1
join_fields (x ∷ y ∷ f) = x.0 ++ text "=" ++ x.1 ++ text "&" ++ join_fields (y ∷ f)

unfoldable pub sorted_query : Form → Text
sorted_query f = join_fields (sort_fields (nonempty_fields f))

-- The loop of `verifyRSA2` that leaves out the signature and its type.
abbrev pub is_sign_field : Text → Bool
is_sign_field k = text_eq k (text "sign") || text_eq k (text "sign_type")

abbrev pub unsigned_fields : Form → Form
unsigned_fields f = skip_fields (λ x. is_sign_field x.0) f

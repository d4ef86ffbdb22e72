-- ===== src/Page.antt =====
-- The paging that `List`, `ListUsers` and `ListLogs` share: the tests on `page` and `pageSize`, and
-- `Offset((page - 1) * pageSize)` in 64-bit arithmetic.
use tu_dns.Prelude.{ℕ, ◌-◌, ◌*◌, ◌||◌, if◌then◌else◌}
use tu_dns.Prelude.Int.{ℤ, pos, ltb_ℤ, leb_ℤ, pos_part, wrap64}

unfoldable pub clamp_page : ℤ → ℕ
clamp_page page = if ltb_ℤ page (pos 1) then 1 else pos_part page

unfoldable pub clamp_size : ℕ → ℤ → ℕ
clamp_size most size = if leb_ℤ size (pos 0) || ltb_ℤ (pos most) size then 20 else pos_part size

unfoldable pub offset : ℕ → ℕ → ℤ
offset page size = wrap64 (pos ((page - 1) * size))

-- ===== src/Setver/Tests.antt =====
-- src/kernel/setver.c: a program with an entry in the table.
use liberdos.Base.{ℕ, ◌<◌, ◌≡◌, ◌≢◌, ◌==◌, refl, some, Array, arith, if◌then◌else◌}
use liberdos.Machine.{Ram}
use liberdos.Setver.{SetverEntry, text_at, setver_apply}
use liberdos.Setver.Path.{char_at, IsBase}
use liberdos.Setver.Lookup.{Applied, setver_apply-Applied}

-- The path `A:\x` at 1000:0, and an entry for X.
abbrev path_ram : Ram
path_ram a =
    if a == 0x10000
    then 0x41
    else if a == 0x10001
    then 0x3A
    else if a == 0x10002
    then 0x5C
    else if a == 0x10003
    then 0x78
    else 0

abbrev test_table : Array SetverEntry
test_table _ = record { name = λ i. if i == 0 then 0x58 else 0; major = 6; minor = 22 }

inner_chars : (j : ℕ) → j < 4 → char_at path_ram 0x1000 0 j ≢ 0
inner_chars j hj e = ground (arith, e)

setver_apply-Applied_example :
    (base : ℕ) × (after : Ram) × (setver_apply test_table 0x2000 0x1000 0 path_ram ≡ some after)
    × IsBase path_ram 0x1000 0 4 base
    × Applied test_table (text_at path_ram 0x1000 base) 0x2000 path_ram after
setver_apply-Applied_example =
    setver_apply-Applied test_table 0x2000 0x1000 0 4 path_ram (omega arith) refl inner_chars

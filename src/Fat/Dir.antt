-- ===== src/Fat/Dir.antt =====
-- src/kernel/fat.c: directories. An entry, `dirent83`, is its 32 bytes.
use Prim.Native.Nat.{bit_or}
use liberdos.Base.{
  ℕ, zero, suc, ◌+◌, ◌-◌, ◌*◌, ◌/◌, ◌%◌, Bool, true, false, not, ◌&&◌, Option, none, some, ltb, leb,
  ◌==◌, if◌then◌else◌, Array,
}
use liberdos.Base.Word.{u8, u16, u32}
use liberdos.Fat.{
  Disk, Volume, Fat, selected, clus_eoc, word_at, put_word, fat_load_sector, fat_store_buf,
}
use liberdos.Fat.Entries.{fat_next, fat_alloc, fat_cluster_lba, fat_zero_cluster}

-- `name[0]`, `attr` and the two halves of the first cluster.
abbrev pub first_char : Array ℕ → ℕ
first_char e = u8 (e 0)

abbrev pub attr_of : Array ℕ → ℕ
attr_of e = u8 (e 11)

-- The walk along the chain of a directory; `none` at its end.
unfoldable pub skip_loop : {S : Type 0} → Disk S → ℕ → ℕ → Fat S → Option ℕ × Fat S
skip_loop disk zero cl x = (some cl, x)
skip_loop disk (suc skip) cl x =
    let (nx, y) = fat_next disk x cl in
    let rest = skip_loop disk skip nx y in if nx == clus_eoc then (none, y) else rest

abbrev pub sector_in : {S : Type 0} → ℕ → Option ℕ × Fat S → Option ℕ × Fat S
sector_in sec_idx (none, x) = (none, x)
sector_in sec_idx (some cl, x) =
    (some (u32 (fat_cluster_lba x cl + sec_idx % (selected x).secs_per_clus)), x)

unfoldable pub fat_dir_lba : {S : Type 0} → Disk S → Fat S → ℕ → ℕ → Option ℕ × Fat S
unfolding skip_loop
fat_dir_lba disk x dir_cluster index =
    let m = selected x in
    let sec_idx = index / 16 in
    let cl = if dir_cluster == 0 then m.root_cluster else dir_cluster in
    if dir_cluster == 0 && not m.fat32
    then if leb m.root_entries index then (none, x) else (some (u32 (m.root_lba + sec_idx)), x)
    else sector_in sec_idx (skip_loop disk (sec_idx / m.secs_per_clus) cl x)

-- The sector of an entry, in the shared buffer.
abbrev pub load_at : {S : Type 0} → Disk S → Option ℕ × Fat S → Option ℕ × Fat S
load_at disk (none, x) = (none, x)
load_at disk (some lba, x) =
    let (ok, y) = fat_load_sector disk x lba in (if ok then some lba else none, y)

abbrev pub entry_in : Array ℕ → ℕ → Array ℕ
entry_in buf index i = buf (index % 16 * 32 + i)

abbrev pub taken_out : {S : Type 0} → ℕ → Option ℕ × Fat S → Option (Array ℕ) × Fat S
taken_out index (none, x) = (none, x)
taken_out index (some lba, x) = (some (entry_in x.disk_buf index), x)

unfoldable pub fat_dir_entry : {S : Type 0} → Disk S → Fat S → ℕ → ℕ → Option (Array ℕ) × Fat S
unfolding fat_dir_lba
fat_dir_entry disk x dir_cluster index =
    taken_out index (load_at disk (fat_dir_lba disk x dir_cluster index))

abbrev pub with_entry : Array ℕ → ℕ → Array ℕ → Array ℕ
with_entry buf index e j =
    let off = index % 16 * 32 in if leb off j && ltb j (off + 32) then e (j - off) else buf j

abbrev pub put_back : {S : Type 0} → Disk S → ℕ → Array ℕ → Option ℕ × Fat S → Bool × Fat S
put_back disk index e (none, x) = (false, x)
put_back disk index e (some lba, x) =
    fat_store_buf disk (record x { disk_buf = with_entry x.disk_buf index e }) lba

unfoldable pub fat_dir_set : {S : Type 0} → Disk S → Fat S → ℕ → ℕ → Array ℕ → Bool × Fat S
unfolding fat_dir_lba
fat_dir_set disk x dir_cluster index e =
    put_back disk index e (load_at disk (fat_dir_lba disk x dir_cluster index))

-- `fat_dir_extend`: to the last cluster of the chain, and a new one behind it; on fuel.
unfoldable pub last_loop : {S : Type 0} → Disk S → ℕ → ℕ → Fat S → Option (ℕ × Fat S)
last_loop disk zero last x = none
last_loop disk (suc fuel) last x =
    let (nx, y) = fat_next disk x last in
    let rest = last_loop disk fuel nx y in
    if leb 2 nx && not (nx == clus_eoc) then rest else some (last, y)

unfoldable pub extended : {S : Type 0} → Disk S → Option (ℕ × Fat S) → Option (Bool × Fat S)
extended disk none = none
extended disk (some (last, x)) =
    let (fresh, y) = fat_alloc disk x last in
    some (if fresh == 0 then (false, y) else fat_zero_cluster disk y fresh)

unfoldable pub fat_dir_extend : {S : Type 0} → Disk S → Fat S → ℕ → Option (Bool × Fat S)
unfolding last_loop extended
fat_dir_extend disk x dir_cluster = extended disk (
    last_loop disk ((selected x).max_cluster + 1)
      (if dir_cluster == 0 then (selected x).root_cluster else dir_cluster) x)

-- `fat_match11`: the loop over the `n` characters from `i` on.
unfoldable pub match_loop : Array ℕ → Array ℕ → ℕ → ℕ → Bool
match_loop pat name zero i = true
match_loop pat name (suc n) i =
    let rest = match_loop pat name n (i + 1) in
    if not (u8 (pat i) == 0x3F) && not (u8 (pat i) == u8 (name i)) then false else rest

unfoldable pub fat_match11 : Array ℕ → Array ℕ → Bool
unfolding match_loop
fat_match11 pat name = match_loop pat name 11 0

-- `fat_dir_search_i`: the entry and its index; on fuel.
abbrev pub is_match : Array ℕ → Array ℕ → Bool
is_match name11 e =
    not (first_char e == 0xE5)
    && (not (attr_of e == 0x0F) && (attr_of e / 8 % 2 == 0 && fat_match11 name11 e))

unfoldable pub search_loop :
    {S : Type 0} → Disk S → ℕ → Array ℕ → ℕ → ℕ → Fat S → Option (Option (Array ℕ × ℕ) × Fat S)
search_loop disk dir_cluster name11 zero i x = none
search_loop disk dir_cluster name11 (suc fuel) i x =
    let (o, y) = fat_dir_entry disk x dir_cluster i in
    elim o [
      | none ↦ some (none, y)
      | some e ↦
          let rest = search_loop disk dir_cluster name11 fuel (u16 (i + 1)) y in
          if first_char e == 0
          then some (none, y)
          else if is_match name11 e
          then some (some (e, i), y)
          else rest
    ]

unfoldable pub fat_dir_search_i :
    {S : Type 0} → Disk S → Fat S → ℕ → Array ℕ → Option (Option (Array ℕ × ℕ) × Fat S)
unfolding search_loop
fat_dir_search_i disk x dir_cluster name11 = search_loop disk dir_cluster name11 65536 0 x

-- `dirent_cluster` and `dirent_set_cluster`.
unfoldable pub dirent_cluster : Volume → Array ℕ → ℕ
dirent_cluster m e = if m.fat32 then bit_or (word_at e 20 * 65536) (word_at e 26) else word_at e 26

unfoldable pub dirent_set_cluster : Volume → Array ℕ → ℕ → Array ℕ
dirent_set_cluster m e cl =
    put_word (put_word e 26 (u16 cl)) 20 (if m.fat32 then u16 (cl / 65536) else 0)

-- `fat_lfn_checksum`.
abbrev pub rotated : ℕ → ℕ
rotated sum = (if sum % 2 == 1 then 0x80 else 0) + sum / 2

unfoldable pub checksum_loop : Array ℕ → ℕ → ℕ → ℕ → ℕ
checksum_loop name11 zero i sum = sum
checksum_loop name11 (suc n) i sum =
    checksum_loop name11 n (i + 1) (u8 (rotated sum + u8 (name11 i)))

unfoldable pub fat_lfn_checksum : Array ℕ → ℕ
unfolding checksum_loop
fat_lfn_checksum name11 = checksum_loop name11 11 0 0

-- ===== src/Arena/Resize.antt =====
-- src/kernel/proc.c: `mcb_resize` and INT 21h function 4Ah.
use liberdos.Base.{ℕ, ◌+◌, ◌-◌, ◌&&◌, not, Option, none, some, ltb, ◌==◌, if◌then◌else◌, update}
use liberdos.Base.Word.{u16}
use liberdos.Machine.{Iregs}
use liberdos.Arena.{Mem, more, last, owner_free, mnext, is_free, mcb_find, mcb_coalesce}
use liberdos.Arena.Calls.{Dos, int21_error}

-- The error code, 0 for none, and `*maxout`.
pub record Resized : Type 0 where
  pub mem : Mem
  pub err : ℕ
  pub maxout : ℕ

-- What the block can grow to: over a free neighbour and its header.
unfoldable pub available : Mem → ℕ → ℕ
available mem m =
    if not ((mem m).mtype == last) && is_free (mem (mnext mem m))
    then u16 ((mem m).msize + 1 + (mem (mnext mem m)).msize)
    else (mem m).msize

unfoldable pub absorb : Mem → ℕ → ℕ → Mem
absorb mem m avail =
    if avail == (mem m).msize
    then mem
    else update mem m (record (mem m) { mtype = (mem (mnext mem m)).mtype; msize = avail })

-- The excess is split off as a free block, which is then joined with its neighbours.
unfoldable pub give_back : Mem → ℕ → ℕ → ℕ → ℕ → Option Resized
give_back mem first m newp maxout =
    let split =
      update
        (update mem (u16 (m + 1 + newp)) (record {
          mtype = (mem m).mtype;
          mowner = owner_free;
          msize = u16 ((mem m).msize - newp - 1);
        }))
        m (record { mtype = more; mowner = (mem m).mowner; msize = newp }) in
    let after : Option Resized = elim (mcb_coalesce split first) [
      | none ↦ none
      | some joined ↦ some (record { mem = joined; err = 0; maxout = maxout })
    ] in
    if ltb newp (mem m).msize then after else some (record { mem = mem; err = 0; maxout = maxout })

unfoldable pub resize_at : Mem → ℕ → ℕ → ℕ → ℕ → Option Resized
unfolding available absorb give_back
resize_at mem first m newp maxout = elim (mcb_coalesce mem first) [
  | none ↦ none
  | some joined ↦
      let avail = available joined m in
      let kept = give_back (absorb joined m avail) first m newp maxout in
      if ltb avail newp then some (record { mem = joined; err = 0x08; maxout = avail }) else kept
]

unfoldable pub mcb_resize : Mem → ℕ → ℕ → ℕ → ℕ → Option Resized
unfolding resize_at
mcb_resize mem first block newp maxout = elim (mcb_find mem first block) [
  | none ↦ none
  | some m ↦
      let found = resize_at mem first m newp maxout in
      if m == 0 then some (record { mem = mem; err = 0x09; maxout = maxout }) else found
]

-- 4Ah: `maxp` starts as 0.
resize_reply : Dos → Iregs → Resized → Dos × Iregs
resize_reply d r a =
    if a.err == 0
    then (record d { mem = a.mem }, r)
    else int21_error (record d { mem = a.mem }) (record r { bx = a.maxout }) a.err

unfoldable pub f4a_resize : Dos → Iregs → Option (Dos × Iregs)
unfolding resize_reply
f4a_resize d r = elim (mcb_resize d.mem d.first r.es r.bx 0) [
  | none ↦ none
  | some a ↦ some (resize_reply d r a)
]

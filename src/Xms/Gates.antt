-- ===== src/Xms/Gates.antt =====
-- src/kernel/xms.c, functions 01h to 07h: the HMA and the A20 gate.
use Prim.Native.Nat.{bit_and, bit_or}
use liberdos.Base.{
  ℕ, ◌+◌, ◌-◌, ◌/◌, ◌%◌, Bool, true, false, not, ltb, ◌==◌, if◌then◌else◌, Bool-cases, inl, inr,
}
use liberdos.Base.Word.{with_low}
use liberdos.Machine.{Bios}
use liberdos.Xms.{Xms, XFrame, fail, succeed}
use liberdos.Xms.Answers.{IsSound}

a20_set : Bios → ℕ → Bool → ℕ
a20_set bios port on =
    let v = bios.in_92 port in
    bios.out_92 port (bit_and (if on then bit_or v 0x02 else bit_and v 0xFD) 0xFE)

a20_get : Bios → ℕ → ℕ
a20_get bios port = bios.in_92 port / 2 % 2

-- 01h and 02h.
pub request_hma : Xms → XFrame → Xms × XFrame
request_hma x r = if x.hma_used then (x, fail r 0x91) else (record x { hma_used = true }, succeed r)

pub release_hma : Xms → XFrame → Xms × XFrame
release_hma x r =
    if not x.hma_used then (x, fail r 0x93) else (record x { hma_used = false }, succeed r)

-- 03h and 05h; 04h and 06h; 07h.
pub enable_a20 : Bios → Xms → XFrame → Xms × XFrame
unfolding a20_set
enable_a20 bios x r = (
  record x {
    port_92 = a20_set bios x.port_92 true;
    a20_count = if ltb x.a20_count 0xFF then x.a20_count + 1 else x.a20_count;
  },
  succeed r,
)

pub disable_a20 : Xms → XFrame → Xms × XFrame
disable_a20 x r = (
  record x { a20_count = if not (x.a20_count == 0) then x.a20_count - 1 else x.a20_count },
  succeed r,
)

pub query_a20 : Bios → Xms → XFrame → XFrame
unfolding a20_get
query_a20 bios x r = record r { ax = a20_get bios x.port_92; bx = with_low r.bx 0 }

-- None of them touches a block.
pub request_hma-IsSound : (x : Xms) (r : XFrame) → IsSound x → IsSound (request_hma x r).0
unfolding request_hma
request_hma-IsSound x r v = elim (Bool-cases x.hma_used) [
  | inl e ↦ rw (e, request_hma) (record { pool = v.pool; sizes = v.sizes })
  | inr e ↦ rw (e, request_hma) (record { pool = v.pool; sizes = v.sizes })
]

pub release_hma-IsSound : (x : Xms) (r : XFrame) → IsSound x → IsSound (release_hma x r).0
unfolding release_hma
release_hma-IsSound x r v = elim (Bool-cases (not x.hma_used)) [
  | inl e ↦ rw (e, release_hma) v
  | inr e ↦ rw (e, release_hma) (record { pool = v.pool; sizes = v.sizes })
]

pub enable_a20-IsSound :
    (bios : Bios) (x : Xms) (r : XFrame) → IsSound x → IsSound (enable_a20 bios x r).0
unfolding enable_a20
enable_a20-IsSound bios x r v = record { pool = v.pool; sizes = v.sizes }

pub disable_a20-IsSound : (x : Xms) (r : XFrame) → IsSound x → IsSound (disable_a20 x r).0
unfolding disable_a20
disable_a20-IsSound x r v = record { pool = v.pool; sizes = v.sizes }

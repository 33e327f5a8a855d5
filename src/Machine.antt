-- ===== src/Machine.antt =====
-- What the kernel finds below it and does not implement: the BIOS calls and the I/O ports, as a
-- record of functions that each component takes as an argument; and RAM, byte by physical byte.
use liberdos.Base.{
  ℕ, ◌+◌, ◌-◌, ◌*◌, ◌/◌, ◌≤◌, ◌⊎◌, List, Array, update, ltb, leb, ◌&&◌, if◌then◌else◌,
}
use liberdos.Base.Word.{u8, u16, with_low, with_high}

abbrev pub Ram : Type 0
Ram = Array ℕ

-- `move src dst words ram` is INT 15h AH=87h with two 8-byte descriptors; its status and the RAM
-- after it. `e801_kb` and `kb_88` are what INT 15h AX=E801h and AH=88h report. `in_92` and `out_92`
-- are port 92h, over a state of its own.
pub record Bios : Type 0 where
  pub move : List ℕ → List ℕ → ℕ → Ram → ℕ × Ram
  pub e801_kb : ℕ
  pub kb_88 : ℕ
  pub in_92 : ℕ → ℕ
  pub out_92 : ℕ → ℕ → ℕ

-- A byte and little-endian words at a far pointer; the offset wraps within its segment.
abbrev pub far_addr : ℕ → ℕ → ℕ
far_addr seg off = seg * 16 + u16 off

abbrev pub peek_byte : Ram → ℕ → ℕ → ℕ
peek_byte m seg off = u8 (m (far_addr seg off))

abbrev pub peek_word : Ram → ℕ → ℕ → ℕ
peek_word m seg off = peek_byte m seg off + 256 * peek_byte m seg (off + 1)

abbrev pub peek_dword : Ram → ℕ → ℕ → ℕ
peek_dword m seg off = peek_word m seg off + 65536 * peek_word m seg (off + 2)

abbrev pub poke_byte : Ram → ℕ → ℕ → ℕ → Ram
poke_byte m seg off v = update m (far_addr seg off) (u8 v)

abbrev pub poke_word : Ram → ℕ → ℕ → ℕ → Ram
poke_word m seg off v = poke_byte (poke_byte m seg off v) seg (off + 1) (v / 256)

-- `n` bytes copied from `src` to `dst`, all else left alone.
abbrev pub copied : ℕ → ℕ → ℕ → Ram → Ram
copied dst src n m a = if leb dst a && ltb a (dst + n) then m (src + (a - dst)) else m a

-- Two regions of `n` bytes that have no byte in common.
abbrev pub Disjoint : ℕ → ℕ → ℕ → Type 0
Disjoint a b n = (a + n ≤ b) ⊎ (b + n ≤ a)

-- `iregs`, the frame of an interrupt, and `set_al`.
pub record Iregs : Type 0 where
  pub ax : ℕ
  pub bx : ℕ
  pub cx : ℕ
  pub dx : ℕ
  pub si : ℕ
  pub di : ℕ
  pub bp : ℕ
  pub ds : ℕ
  pub es : ℕ
  pub ip : ℕ
  pub cs : ℕ
  pub flags : ℕ

abbrev pub set_al : Iregs → ℕ → Iregs
set_al r v = record r { ax = with_low r.ax v }

-- `set_ah` of ems.c.
abbrev pub set_ah : Iregs → ℕ → Iregs
set_ah r v = record r { ax = with_high r.ax v }

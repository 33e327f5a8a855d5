-- ===== src/Share/Modes.antt =====
-- src/kernel/share.c: `share_mode_compat` against the table of the sharing modes.
use liberdos.Base.{ℕ, ◌+◌, ◌*◌, ◌/◌, ◌%◌, ◌≡◌, Bool, true, false, ◌&&◌, arith}
use liberdos.Share.{modes_coexist, share_mode_compat}

-- The sharing modes of an open, from bits 4-6 of its mode byte, and its access, from bits 0-2.
pub data Sharing : Type 0 where
  compat deny_all deny_write deny_read deny_none : Sharing

pub data Access : Type 0 where
  reads writes both : Access

abbrev pub sharing_code : Sharing → ℕ
sharing_code compat = 0
sharing_code deny_all = 1
sharing_code deny_write = 2
sharing_code deny_read = 3
sharing_code deny_none = 4

abbrev pub access_code : Access → ℕ
access_code reads = 0
access_code writes = 1
access_code both = 2

-- What a sharing mode lets another open do, as the DOS table of sharing modes says.
abbrev pub lets : Sharing → Access → Bool
lets compat a = false
lets deny_all a = false
lets deny_write reads = true
lets deny_write _ = false
lets deny_read writes = true
lets deny_read _ = false
lets deny_none a = true

-- Two opens may coexist when both are in compatibility mode, or when each lets the other's access.
abbrev pub may_coexist : Sharing → Access → Sharing → Access → Bool
may_coexist compat a compat b = true
may_coexist s a t b = lets s b && lets t a

-- The mode byte of an open; bit 7 is the inheritance flag.
abbrev pub mode_byte : ℕ → Sharing → Access → ℕ
mode_byte inherit s a = inherit * 128 + sharing_code s * 16 + access_code a

sharing_field : (i : ℕ) (s : Sharing) (a : Access) → mode_byte i s a / 16 % 8 ≡ sharing_code s
sharing_field i s a = ground arith

access_field : (i : ℕ) (s : Sharing) (a : Access) → mode_byte i s a % 8 ≡ access_code a
access_field i s a = ground arith

table :
    (s t : Sharing) (a b : Access)
    → modes_coexist (sharing_code s) (sharing_code t) (access_code a) (access_code b)
      ≡ may_coexist s a t b
unfolding modes_coexist
table s t a b = ground arith

-- On every pair of mode bytes that DOS defines, whatever their inheritance flags, the ladder of tests
-- answers as the table does: both opens are in compatibility mode, or each lets the other's access.
pub share_mode_compat_lem :
    (i j : ℕ) (s t : Sharing) (a b : Access)
    → share_mode_compat (mode_byte i s a) (mode_byte j t b) ≡ may_coexist s a t b
unfolding share_mode_compat
share_mode_compat_lem i j s t a b =
    rw (sharing_field i s a, sharing_field j t b, access_field i s a, access_field j t b)
      (table s t a b)

-- `share_mode_compat` answers the same whichever of the two opens came first, whatever the bytes.
pub share_mode_compat_comm : (m n : ℕ) → share_mode_compat m n ≡ share_mode_compat n m
unfolding share_mode_compat
share_mode_compat_comm m n = ground arith

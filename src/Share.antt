-- ===== src/Share.antt =====
-- src/kernel/share.c, the built-in SHARE: the region locks of INT 21h/5Ch in a table of 32 entries,
-- and the compatibility of sharing modes. The table is an argument of every function; the u16 that a
-- C function returns stands beside the new table.
pub mod Regions
pub mod Locking
pub mod Invariant
pub mod Release
pub mod Closing
pub mod Modes
mod Tests
use liberdos.Base.{
  ℕ, zero, suc, ◌+◌, ◌/◌, ◌%◌, Bool, true, false, not, ◌&&◌, ◌||◌, Option, none, some, List, [],
  ◌∷◌, ltb, ◌==◌, if◌then◌else◌, Array, update,
}
use liberdos.Base.Loop.{find_from, for_each}
use liberdos.Base.Word.{u32}

-- A file's identity: the volume, and where its directory entry lies.
pub record FileKey : Type 0 where
  pub drv : ℕ
  pub dir_cluster : ℕ
  pub dir_index : ℕ

-- `lockent`.
pub record Lock : Type 0 where
  pub used : Bool
  pub file : FileKey
  pub psp : ℕ
  pub start : ℕ
  pub len : ℕ

abbrev pub max_locks : ℕ
max_locks = 32

abbrev pub err_lock_violation : ℕ
err_lock_violation = 0x21

abbrev pub same_key : FileKey → FileKey → Bool
same_key a b = a.drv == b.drv && (a.dir_cluster == b.dir_cluster && a.dir_index == b.dir_index)

abbrev pub same_file : Lock → FileKey → Bool
same_file l f = same_key l.file f

-- Both sums wrap at 2 ^ 32, as the u32 arithmetic of the source does.
pub ranges_overlap : ℕ → ℕ → ℕ → ℕ → Bool
ranges_overlap s1 l1 s2 l2 = ltb s1 (u32 (s2 + l2)) && ltb s2 (u32 (s1 + l1))

-- The loop of `share_lock`: `none` is its early return, otherwise the last free slot that it saw.
pub lock_scan : Array Lock → FileKey → ℕ → ℕ → ℕ → ℕ → Option ℕ → Option (Option ℕ)
lock_scan locks f start len zero i slot = some slot
lock_scan locks f start len (suc n) i slot =
    let free = not (locks i).used in
    let rest = lock_scan locks f start len n (i + 1) (if free then some i else slot) in
    if free
    then rest
    else if same_file (locks i) f && ranges_overlap (locks i).start (locks i).len start len
    then none
    else rest

-- The end of `share_lock`: the entry is filled in, or the table is full.
pub lock_fill : Array Lock → FileKey → ℕ → ℕ → ℕ → Option (Option ℕ) → ℕ × Array Lock
lock_fill locks f psp start len none = (err_lock_violation, locks)
lock_fill locks f psp start len (some none) = (err_lock_violation, locks)
lock_fill locks f psp start len (some (some slot)) =
    (0, update locks slot (record { used = true; file = f; psp = psp; start = start; len = len }))

pub share_lock : Array Lock → FileKey → ℕ → ℕ → ℕ → ℕ × Array Lock
unfolding lock_fill
share_lock locks f psp start len =
    if len == 0
    then (0, locks)
    else lock_fill locks f psp start len (lock_scan locks f start len max_locks 0 none)

-- The test of the loop in `share_unlock`.
abbrev pub owns_region : FileKey → ℕ → ℕ → ℕ → Lock → Bool
owns_region f psp start len l =
    l.used && (l.psp == psp && (same_file l f && (l.start == start && l.len == len)))

pub share_unlock : Array Lock → FileKey → ℕ → ℕ → ℕ → ℕ × Array Lock
share_unlock locks f psp start len =
    elim (find_from (λ i. owns_region f psp start len (locks i)) max_locks 0) [
      | none ↦ (err_lock_violation, locks)
      | some i ↦ (0, update locks i (record (locks i) { used = false }))
    ]

-- The test of the loop in `share_io_check`.
abbrev pub blocks : FileKey → ℕ → ℕ → ℕ → Lock → Bool
blocks f psp start len l =
    l.used && (not (l.psp == psp) && (same_file l f && ranges_overlap l.start l.len start len))

pub share_io_check : Array Lock → FileKey → ℕ → ℕ → ℕ → ℕ
share_io_check locks f psp start len =
    if len == 0 then 0 else elim (find_from (λ i. blocks f psp start len (locks i)) max_locks 0) [
      | none ↦ 0
      | some i ↦ err_lock_violation
    ]

pub share_file_closed : Array Lock → FileKey → Array Lock
share_file_closed locks f =
    for_each max_locks 0 (λ l. if l.used && same_file l f then record l { used = false } else l)
      locks

pub share_psp_closed : Array Lock → ℕ → Array Lock
share_psp_closed locks psp =
    for_each max_locks 0 (λ l. if l.used && l.psp == psp then record l { used = false } else l)
      locks

-- The table at boot, and the calls that the rest of the kernel makes on it, where `io_check` only looks
-- at it.
abbrev pub boot_locks : Array Lock
boot_locks i = record {
  used = false;
  file = record { drv = 0; dir_cluster = 0; dir_index = 0 };
  psp = 0;
  start = 0;
  len = 0;
}

pub data Call : Type 0 where
  lock unlock io_check : FileKey → ℕ → ℕ → ℕ → Call
  close_file : FileKey → Call
  close_psp : ℕ → Call

pub call : Array Lock → Call → Array Lock
call locks (lock f psp start len) = (share_lock locks f psp start len).1
call locks (unlock f psp start len) = (share_unlock locks f psp start len).1
call locks (io_check f psp start len) = locks
call locks (close_file f) = share_file_closed locks f
call locks (close_psp psp) = share_psp_closed locks psp

pub run : Array Lock → List Call → Array Lock
run locks [] = locks
run locks (c ∷ cs) = run (call locks c) cs

-- The ladder of tests of `share_mode_compat`, over the fields of the two mode bytes.
pub modes_coexist : ℕ → ℕ → ℕ → ℕ → Bool
modes_coexist esh nsh eac nac =
    if esh == 0 || nsh == 0
    then esh == 0 && nsh == 0
    else if esh == 1
    then false
    else if esh == 2 && not (nac == 0)
    then false
    else if esh == 3 && not (nac == 1)
    then false
    else if nsh == 1
    then false
    else if nsh == 2 && not (eac == 0)
    then false
    else if nsh == 3 && not (eac == 1)
    then false
    else true

-- Bits 4-6 of a mode byte are the sharing mode, bits 0-2 the access.
pub share_mode_compat : ℕ → ℕ → Bool
unfolding modes_coexist
share_mode_compat existing newmode =
    modes_coexist (existing / 16 % 8) (newmode / 16 % 8) (existing % 8) (newmode % 8)

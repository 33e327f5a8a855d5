-- ===== src/Share/Tests.antt =====
-- src/kernel/share.c: runs of the lock table on small inputs, and the theorems at such inputs.
use liberdos.Base.{
  ℕ, ◌≤◌, ◌<◌, ◌^◌, ◌≡◌, ◌↔◌, refl, true, false, List, [], ◌∷◌, arith, Array, update,
}
use liberdos.Base.Loop.{find_from, for_each}
use liberdos.Share.{
  FileKey, Lock, Call, lock, unlock, close_psp, boot_locks, ranges_overlap, lock_scan, lock_fill,
  share_lock, share_unlock, share_io_check, share_psp_closed, share_mode_compat, run, call,
}
use liberdos.Share.Regions.{IsHeld, IsExclusive}
use liberdos.Share.Locking.{Answer, share_lock-Answer}
use liberdos.Share.Invariant.{run-IsExclusive, run_one_owner}
use liberdos.Share.Release.{
  IsOpen, share_io_check_iff, share_lock-unlock, lock_at_limit_guards_nothing,
}
use liberdos.Share.Modes.{deny_write, deny_none, reads, both, mode_byte, share_mode_compat_lem}

abbrev ledger : FileKey
ledger = record { drv = 2; dir_cluster = 5; dir_index = 7 }

-- Process 100 has locked bytes 10 to 19.
abbrev first_lock : Lock
first_lock = record { used = true; file = ledger; psp = 100; start = 10; len = 10 }

abbrev one_lock : Array Lock
one_lock = update boot_locks 0 first_lock

lock_overlap_is_refused : (share_lock one_lock ledger 200 15 10).0 ≡ 0x21
unfolding share_lock lock_fill lock_scan ranges_overlap
lock_overlap_is_refused = refl

lock_behind_is_granted : (share_lock one_lock ledger 200 20 10).0 ≡ 0
unfolding share_lock lock_fill lock_scan ranges_overlap
lock_behind_is_granted = refl

io_is_blocked : share_io_check one_lock ledger 200 19 1 ≡ 0x21
unfolding share_io_check find_from ranges_overlap
io_is_blocked = refl

one_lock-IsExclusive : IsExclusive one_lock
one_lock-IsExclusive = record {
  fits = λ i hi u. ground arith;
  apart = λ i j hi hj ne ui uj e. ground arith;
}

share_lock-Answer_example : Answer one_lock ledger 200 15 10 (share_lock one_lock ledger 200 15 10)
share_lock-Answer_example =
    share_lock-Answer one_lock ledger 200 15 10 one_lock-IsExclusive (omega arith)

abbrev history : List Call
history =
    lock ledger 100 10 10
    ∷ lock ledger 200 20 5
    ∷ lock ledger 300 50 0
    ∷ unlock ledger 200 20 5
    ∷ close_psp 300
    ∷ []

run-IsExclusive_example : IsExclusive (run one_lock history)
run-IsExclusive_example = run-IsExclusive history one_lock one_lock-IsExclusive (omega arith)

IsHeld-by_100 : IsHeld (run boot_locks history) ledger 100 12
unfolding run share_lock lock_fill lock_scan ranges_overlap share_unlock share_psp_closed call
    find_from for_each
IsHeld-by_100 = (
  31,
  omega arith,
  record { used = refl; file = refl; owner = refl; from = omega arith; below = omega arith },
)

run_one_owner_example : ◌≡◌ {A = ℕ} 100 100
run_one_owner_example =
    run_one_owner history ledger 100 100 12 (omega arith) IsHeld-by_100 IsHeld-by_100

share_io_check_iff_example :
    (share_io_check one_lock ledger 200 19 1 ≡ 0) ↔ IsOpen one_lock ledger 200 19 1
share_io_check_iff_example =
    share_io_check_iff one_lock ledger 200 19 1 one_lock-IsExclusive (omega arith)

share_lock-unlock_example :
    (share_unlock (share_lock one_lock ledger 200 20 10).1 ledger 200 20 10).0 ≡ 0
unfolding share_lock lock_fill lock_scan ranges_overlap
share_lock-unlock_example =
    (share_lock-unlock one_lock ledger 200 20 10 one_lock-IsExclusive (omega arith) refl).0

lock_at_limit_guards_nothing_example :
    let r = share_lock one_lock ledger 100 (2 ^ 31) (2 ^ 31) in
    (r.0 ≡ 0)
    × ((x : ℕ) → 2 ^ 31 ≤ x → x < 2 ^ 32 → IsHeld r.1 ledger 100 x)
    × ((g : FileKey) (q s l : ℕ) → share_io_check r.1 g q s l ≡ share_io_check one_lock g q s l)
lock_at_limit_guards_nothing_example =
    lock_at_limit_guards_nothing one_lock ledger 100 (2 ^ 31) (2 ^ 31) 31 (omega arith) refl
      (omega arith) refl

share_mode_compat_lem_example :
    share_mode_compat (mode_byte 0 deny_write reads) (mode_byte 1 deny_none both) ≡ false
share_mode_compat_lem_example = share_mode_compat_lem 0 1 deny_write deny_none reads both

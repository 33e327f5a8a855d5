-- ===== src/Share/Invariant.antt =====
-- src/kernel/share.c: every operation on the lock table keeps it exclusive, so that no byte of a file
-- is ever locked twice.
use liberdos.Base.{
  List, [], ◌∷◌, ◌∙◌, ℕ, ◌<◌, ◌≡◌, ◌⊎◌, inl, inr, false, ◌&&◌, none, some, arith, Option-cases,
  Array, update, if◌then◌else◌, ◌==◌, sym, ap, subst, ◌+◌, ◌^◌, ℕ_discrete, if_true,
}
use liberdos.Base.Loop.{find_from, for_each_lem}
use liberdos.Share.{
  Call, lock, unlock, io_check, close_file, close_psp, call, run, boot_locks, FileKey, Lock,
  max_locks, share_lock, lock_scan, lock_fill, share_unlock, share_file_closed, share_psp_closed,
  owns_region, same_file,
}
use liberdos.Share.Regions.{IsHeld, Fits, IsExclusive, eq→same_key, overlap-false, Holds-unique}
use liberdos.Share.Locking.{Scanned, scan-Scanned, lock-eq-fill, entry}

-- An entry that is as it was, or is free now.
abbrev Kept : Lock → Lock → Type 0
Kept l m = (m ≡ l) ⊎ (m.used ≡ false)

Kept-IsExclusive :
    (locks after : Array Lock)
    → ((i : ℕ) → i < max_locks → Kept (locks i) (after i))
    → IsExclusive locks
    → IsExclusive after
Kept-IsExclusive locks after kept v = record {
  fits = λ i hi u. ground (arith, kept i hi, v.fits i hi);
  apart = λ i j hi hj ne ui uj e. ground (arith, kept i hi, kept j hj, v.apart i j hi hj ne);
}

module _ (locks : Array Lock) (f : FileKey) (psp start len : ℕ) where
  filled-IsExclusive :
      (slot : ℕ)
      → Scanned locks f start len max_locks 0 none (some slot)
      → Fits start len
      → IsExclusive locks
      → IsExclusive (update locks slot (entry f psp start len))
  filled-IsExclusive slot r fit v = record {
    fits = λ i hi u. ground (arith, v.fits i hi);
    apart = λ i j hi hj ne ui uj e. ground (
      arith,
      v.apart i j hi hj ne,
      r.clear i,
      r.clear j,
      v.fits i hi,
      v.fits j hj,
      eq→same_key (locks i).file f,
      eq→same_key (locks j).file f,
      overlap-false (locks i).start (locks i).len start len,
      overlap-false (locks j).start (locks j).len start len,
    );
  }

  share_lock_some :
      Fits start len → IsExclusive locks → IsExclusive (share_lock locks f psp start len).1
  unfolding lock_fill
  share_lock_some fit v = elim (Option-cases (lock_scan locks f start len max_locks 0 none)) [
    | inl e ↦ rw (lock-eq-fill locks f psp start len none fit.0 e) v
    | inr (none, e) ↦ rw (lock-eq-fill locks f psp start len (some none) fit.0 e) v
    | inr (some slot, e) ↦
        rw (lock-eq-fill locks f psp start len (some (some slot)) fit.0 e)
          (filled-IsExclusive slot (scan-Scanned locks f start len max_locks 0 none e) fit v)
  ]

  -- A lock request for a region below 4 GB keeps the table exclusive. One for an empty region changes
  -- nothing.
  pub share_lock-IsExclusive :
      start + len < 2 ^ 32 → IsExclusive locks → IsExclusive (share_lock locks f psp start len).1
  unfolding share_lock
  share_lock-IsExclusive top v = elim (ℕ_discrete len 0) [
    | yes e ↦
        subst (λ (r : ℕ × Array Lock). IsExclusive r.1)
          (sym (if_true {b = len == 0} (0, locks) _ (ground (arith, e)))) v
    | no ne ↦ share_lock_some (omega (arith, ne), top) v
  ]

-- An unlock keeps the table exclusive, whatever region it names.
pub share_unlock-IsExclusive :
    (locks : Array Lock) (f : FileKey) (psp start len : ℕ)
    → IsExclusive locks
    → IsExclusive (share_unlock locks f psp start len).1
unfolding share_unlock
share_unlock-IsExclusive locks f psp start len v =
    elim (Option-cases (find_from (λ i. owns_region f psp start len (locks i)) max_locks 0)) [
      | inl e ↦ rw (e, share_unlock) v
      | inr (k, e) ↦ rw (e, share_unlock) (Kept-IsExclusive locks _ (λ i hi. ground arith) v)
    ]

-- So does dropping a file's locks, and those of a process.
pub share_file_closed-IsExclusive :
    (locks : Array Lock) (f : FileKey) → IsExclusive locks → IsExclusive (share_file_closed locks f)
unfolding share_file_closed
share_file_closed-IsExclusive locks f = Kept-IsExclusive locks _ λ i hi. ground (
  arith,
  for_each_lem max_locks 0
      (λ (l : Lock). if l.used && same_file l f then record l { used = false } else l) locks i,
)

pub share_psp_closed-IsExclusive :
    (locks : Array Lock) (psp : ℕ) → IsExclusive locks → IsExclusive (share_psp_closed locks psp)
unfolding share_psp_closed
share_psp_closed-IsExclusive locks psp = Kept-IsExclusive locks _ λ i hi. ground (
  arith,
  for_each_lem max_locks 0
      (λ (l : Lock). if l.used && l.psp == psp then record l { used = false } else l) locks i,
)

-- The lock requests among the calls name regions below 4 GB.
abbrev pub CallsFit : List Call → Type 0
CallsFit [] = Unit
CallsFit (lock f psp start len ∷ cs) = (start + len < 2 ^ 32) × CallsFit cs
CallsFit (_ ∷ cs) = CallsFit cs

-- Whatever is called in whatever order, where the lock requests, empty ones included, name regions
-- that end below 4 GB: a table
-- whose locks in use lie below 4 GB, are not empty and share no byte of a file stays like that.
pub run-IsExclusive :
    (cs : List Call) (locks : Array Lock)
    → IsExclusive locks
    → CallsFit cs
    → IsExclusive (run locks cs)
unfolding run call
run-IsExclusive [] locks v h = v
run-IsExclusive (lock f psp start len ∷ cs) locks v h =
    run-IsExclusive cs _ (share_lock-IsExclusive locks f psp start len h.0 v) h.1
run-IsExclusive (unlock f psp start len ∷ cs) locks v h =
    run-IsExclusive cs _ (share_unlock-IsExclusive locks f psp start len v) h
run-IsExclusive (io_check f psp start len ∷ cs) locks v h = run-IsExclusive cs locks v h
run-IsExclusive (close_file f ∷ cs) locks v h =
    run-IsExclusive cs _ (share_file_closed-IsExclusive locks f v) h
run-IsExclusive (close_psp psp ∷ cs) locks v h =
    run-IsExclusive cs _ (share_psp_closed-IsExclusive locks psp v) h

-- After any calls since the boot, where the lock requests, empty ones included, name regions that end
-- below 4 GB, a byte of a file is locked by one process at most.
pub run_one_owner :
    (cs : List Call) (f : FileKey) (p q x : ℕ)
    → CallsFit cs
    → IsHeld (run boot_locks cs) f p x
    → IsHeld (run boot_locks cs) f q x
    → p ≡ q
run_one_owner cs f p q x h (i, hi, a) (j, hj, b) =
    let v =
      run-IsExclusive cs boot_locks
        (record {
          fits = λ i hi u. absurd (ground arith);
          apart = λ i j hi hj ne u. absurd (ground arith);
        })
        h in
    sym a.owner
    ∙ ap (λ k. (run boot_locks cs k).psp) (Holds-unique _ v f p q x i j hi hj a b)
    ∙ b.owner

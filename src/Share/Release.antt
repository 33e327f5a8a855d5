-- ===== src/Share/Release.antt =====
-- src/kernel/share.c: what a lock means for reads and writes (`share_io_check`), and how a lock is
-- given back (`share_unlock`).
use liberdos.Base.{
  ℕ, ◌+◌, ◌≤◌, ◌<◌, ◌^◌, ◌≡◌, ◌≢◌, ◌↔◌, inl, inr, refl, sym, ap, subst, fun_ext, true, false, none,
  some, arith, ℕ_discrete, Option-cases, Array, update, update_self, update_ne, update_twice_ne,
  &&-true, zero, suc, Option, not, if◌then◌else◌,
}
use liberdos.Base.Loop.{find_from, find_from-IsFirst, find_from-none}
use liberdos.Share.{
  FileKey, Lock, max_locks, ranges_overlap, share_lock, lock_scan, lock_fill, share_unlock,
  share_io_check, owns_region, blocks,
}
use liberdos.Share.Regions.{
  Holds, IsHeld, Fits, IsExclusive, same_key→eq, eq→same_key, same_key_refl, overlap-false,
  overlap_byte, overlap_at_limit, overlap_beyond,
}
use liberdos.Share.Locking.{Scanned, scan-Scanned, scan_slot, lock-eq-fill, entry}

-- No byte of the region is locked by a process other than `psp`.
abbrev pub IsOpen : Array Lock → FileKey → ℕ → ℕ → ℕ → Type 0
IsOpen locks f psp start len =
    (q x : ℕ) → q ≢ psp → IsHeld locks f q x → start ≤ x → x < start + len → ⊥

-- The loop sees the entries by the test alone.
io_check_ext :
    (locks after : Array Lock) (f : FileKey) (psp start len : ℕ)
    → ((i : ℕ) → blocks f psp start len (after i) ≡ blocks f psp start len (locks i))
    → share_io_check after f psp start len ≡ share_io_check locks f psp start len
unfolding share_io_check
io_check_ext locks after f psp start len h = rw (fun_ext h)

module _ (locks : Array Lock) (f : FileKey) (psp start len : ℕ) where
  -- The loop of `share_io_check` finds nothing exactly when the region is open.
  IsOpen-of_none :
      IsExclusive locks
      → Fits start len
      → ((k : ℕ) → k < max_locks → blocks f psp start len (locks k) ≡ false)
      → IsOpen locks f psp start len
  IsOpen-of_none v fit free q x ne (k, hi, h) lo up = ground (
    arith,
    free k hi,
    eq→same_key (locks k).file f h.file,
    h.used,
    h.owner,
    h.from,
    h.below,
    overlap-false (locks k).start (locks k).len start len (v.fits k hi h.used) fit,
  )

  blocked :
      (k : ℕ)
      → IsExclusive locks
      → Fits start len
      → k < max_locks
      → blocks f psp start len (locks k) ≡ true
      → IsOpen locks f psp start len
      → ⊥
  blocked k v fit hi b free =
      let (u, rest) = &&-true _ _ b in
      let (other, rest') = &&-true _ _ rest in
      let (same, meet) = &&-true _ _ rest' in
      let (x, a, c, lo, up) =
        overlap_byte (locks k).start (locks k).len start len (v.fits k hi u) fit meet in
      free (locks k).psp x (λ e. ground arith)
        (k, hi, record { used = u; file = same_key→eq _ _ same; owner = refl; from = a; below = c })
        lo up

  -- In a well-formed table, a read or write of a region below 4 GB that is not empty is let through
  -- exactly when no other process has a byte of it locked.
  pub share_io_check_iff :
      IsExclusive locks
      → Fits start len
      → (share_io_check locks f psp start len ≡ 0) ↔ IsOpen locks f psp start len
  unfolding share_io_check
  share_io_check_iff v fit =
      elim (Option-cases (find_from (λ i. blocks f psp start len (locks i)) max_locks 0)) [
        | inl e ↦
            let free =
              IsOpen-of_none v fit (λ k hi. find_from-none _ max_locks 0 e k (omega arith) hi) in
            ((λ _. free), (λ _. rw (e, share_io_check) (ground arith)))
        | inr (k, e) ↦
            let r = find_from-IsFirst (λ i. blocks f psp start len (locks i)) max_locks 0 e in
            ((λ z. absurd (ground arith)), (λ free. absurd (blocked k v fit r.below r.hit free)))
      ]

  -- The entry that `share_unlock` finds after a granted `share_lock` is the one just filled in.
  owns_slot :
      (slot k : ℕ)
      → Fits start len
      → Scanned locks f start len max_locks 0 none (some slot)
      → k < max_locks
      → owns_region f psp start len (update locks slot (entry f psp start len) k) ≡ true
      → slot ≡ k
  unfolding ranges_overlap
  owns_slot slot k fit r hi o = elim (ℕ_discrete slot k) [
    | yes e ↦ e
    | no ne ↦ absurd (ground (arith, r.clear k, update_ne locks slot k (entry f psp start len) ne))
  ]

  IsHeld-back :
      (slot : ℕ) (l : Lock) (g : FileKey) (q x : ℕ)
      → (locks slot).used ≡ false
      → l.used ≡ false
      → IsHeld (update (update locks slot (entry f psp start len)) slot l) g q x
        ↔ IsHeld locks g q x
  IsHeld-back slot l g q x free gone = (
    (λ (k, hi, h). (k, hi, subst (Holds g q x) (same k (λ e. ground (arith, h.used))) h)),
    (λ (k, hi, h).
        (k, hi, subst (Holds g q x) (sym (same k (λ e. ground (arith, h.used, ap locks e)))) h)),
  )
    where
      same :
          (k : ℕ) → slot ≢ k → update (update locks slot (entry f psp start len)) slot l k ≡ locks k
      same k ne = update_twice_ne locks slot k (entry f psp start len) l ne

  unlock_slot :
      (slot : ℕ)
      → Scanned locks f start len max_locks 0 none (some slot)
      → Fits start len
      → let r = share_unlock (update locks slot (entry f psp start len)) f psp start len in
        (r.0 ≡ 0) × ((g : FileKey) (q x : ℕ) → IsHeld r.1 g q x ↔ IsHeld locks g q x)
  unfolding share_unlock
  unlock_slot slot r fit =
      elim (Option-cases (find_from (λ i. owns_region f psp start len (filled i)) max_locks 0)) [
        | inl e ↦ absurd (
            ground (
              arith,
              find_from-none _ max_locks 0 e slot (omega arith)
                  (scan_slot locks f psp start len r).0,
              same_key_refl f,
            ))
        | inr (k, e) ↦
            let hit =
              find_from-IsFirst (λ i. owns_region f psp start len (filled i)) max_locks 0 e in
            let at = owns_slot slot k fit r hit.below hit.hit in
            rw (e, share_unlock)
              (
                refl,
                subst
                    (λ k.
                      (g : FileKey) (q x : ℕ)
                      → IsHeld (update filled k (record (filled k) { used = false })) g q x
                        ↔ IsHeld locks g q x)
                    at
                    (λ g q x. IsHeld-back slot _ g q x (scan_slot locks f psp start len r).1 refl),
              )
      ]
    where
      filled : Array Lock
      filled = update locks slot (entry f psp start len)

  -- In a well-formed table, a lock that is granted on a region below 4 GB that is not empty is given
  -- back by an unlock with the same arguments: it succeeds, and the bytes that are locked, with their owners, are again
  -- those from before the lock.
  pub share_lock-unlock :
      IsExclusive locks
      → Fits start len
      → (share_lock locks f psp start len).0 ≡ 0
      → let r = share_unlock (share_lock locks f psp start len).1 f psp start len in
        (r.0 ≡ 0) × ((g : FileKey) (q x : ℕ) → IsHeld r.1 g q x ↔ IsHeld locks g q x)
  unfolding lock_fill
  share_lock-unlock v fit ok = elim (Option-cases (lock_scan locks f start len max_locks 0 none)) [
    | inl e ↦ absurd (ground (arith, lock-eq-fill locks f psp start len none fit.0 e))
    | inr (none, e) ↦
        absurd (ground (arith, lock-eq-fill locks f psp start len (some none) fit.0 e))
    | inr (some slot, e) ↦
        rw (lock-eq-fill locks f psp start len (some (some slot)) fit.0 e)
          (unlock_slot slot (scan-Scanned locks f start len max_locks 0 none e) fit)
  ]

-- The code sees no conflict with a region that ends exactly at 4 GB.
scan_at_limit :
    (locks : Array Lock) (f : FileKey) (start len : ℕ)
    → start + len ≡ 2 ^ 32
    → (n i : ℕ) (slot : Option ℕ) → lock_scan locks f start len n i slot ≢ none
unfolding lock_scan
scan_at_limit locks f start len e zero i slot h = cc
scan_at_limit locks f start len e (suc n) i slot h = ground (
  arith,
  overlap_beyond (locks i).start (locks i).len start len e,
  scan_at_limit locks f start len e n (i + 1) (if not (locks i).used then some i else slot),
  h,
)

-- A region that ends exactly at 4 GB is locked wherever an entry is free, whatever is locked already:
-- the answer is success, and each byte of the region is held by the process. But the lock guards
-- nothing: every later `share_io_check`, by any process, answers as it did before, since
-- `start + len` wraps to 0 there.
pub lock_at_limit_guards_nothing :
    (locks : Array Lock) (f : FileKey) (psp start len k : ℕ)
    → 0 < len
    → start + len ≡ 2 ^ 32
    → k < max_locks
    → (locks k).used ≡ false
    → let r = share_lock locks f psp start len in
      (r.0 ≡ 0)
      × ((x : ℕ) → start ≤ x → x < 2 ^ 32 → IsHeld r.1 f psp x)
      × ((g : FileKey) (q s l : ℕ) → share_io_check r.1 g q s l ≡ share_io_check locks g q s l)
unfolding lock_fill
lock_at_limit_guards_nothing locks f psp start len k pos e hk free =
    elim (Option-cases (lock_scan locks f start len max_locks 0 none)) [
      | inl r ↦ absurd (scan_at_limit locks f start len e max_locks 0 none r)
      | inr (none, r) ↦ absurd (
          ground (
            arith,
            (scan-Scanned locks f start len max_locks 0 none r).full refl k (omega arith) hk,
            free,
          ))
      | inr (some slot, r) ↦
          let at =
            scan_slot locks f psp start len (scan-Scanned locks f start len max_locks 0 none r) in
          rw (lock-eq-fill locks f psp start len (some (some slot)) pos r)
            (refl, held slot at.0, (λ g q s l. unseen slot at.1 g q s l))
    ]
  where
    held :
        (slot : ℕ)
        → slot < max_locks
        → (x : ℕ) → start ≤ x
        → x < 2 ^ 32
        → IsHeld (update locks slot (entry f psp start len)) f psp x
    held slot hi x lo up = (
      slot,
      hi,
      subst (Holds f psp x) (sym (update_self locks slot _))
          (record { used = refl; file = refl; owner = refl; from = lo; below = omega (arith, e) }),
    )

    unseen :
        (slot : ℕ)
        → (locks slot).used ≡ false
        → (g : FileKey) (q s l : ℕ)
        → share_io_check (update locks slot (entry f psp start len)) g q s l
          ≡ share_io_check locks g q s l
    unseen slot free g q s l = io_check_ext locks _ g q s l λ i. elim (ℕ_discrete slot i) [
      | yes e' ↦ ground (arith, ap locks e', overlap_at_limit start len s l e)
      | no ne ↦ ap (blocks g q s l) (update_ne locks slot i _ ne)
    ]

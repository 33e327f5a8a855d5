-- ===== src/Share/Locking.antt =====
-- src/kernel/share.c: `share_lock` and `share_unlock` against the byte-wise meaning of the table.
use liberdos.Base.{
  ℕ, zero, suc, ◌+◌, ◌≤◌, ◌<◌, ◌≡◌, ◌↔◌, refl, ap, subst, sym, ◌⊎◌, inl, inr, Bool, true, false,
  not, ◌&&◌, Option, none, some, arith, ℕ_discrete, Bool-cases, &&-true, Option-cases, Array,
  update, update_ne, update_self, if◌then◌else◌,
}
use liberdos.Base.Loop.{below-suc}
use liberdos.Share.{
  FileKey, Lock, max_locks, err_lock_violation, same_file, ranges_overlap, lock_scan, lock_fill,
  share_lock,
}
use liberdos.Share.Regions.{
  Holds, IsHeld, overlap_byte, Fits, IsExclusive, same_key→eq, eq→same_key, overlap-false,
}

-- A used entry of the same file whose region overlaps, as the code tests it.
abbrev pub conflicts : FileKey → ℕ → ℕ → Lock → Bool
conflicts f start len l = same_file l f && ranges_overlap l.start l.len start len

-- What the loop of `share_lock` has found when it ends.
pub record Scanned (locks : Array Lock) (f : FileKey) (start len n i : ℕ) (slot found : Option ℕ)
    : Type 0 where
  pub clear :
      (k : ℕ) → i ≤ k → k < i + n → (locks k).used ≡ true → conflicts f start len (locks k) ≡ false
  pub chosen :
      (found ≡ slot)
      ⊎ ((k : ℕ) × (found ≡ some k) × (i ≤ k) × (k < i + n) × ((locks k).used ≡ false))
  pub full : found ≡ none → (k : ℕ) → i ≤ k → k < i + n → (locks k).used ≡ true

module _ (locks : Array Lock) (f : FileKey) (start len : ℕ) where
  pub scan-Scanned :
      (n i : ℕ) (slot : Option ℕ) {found : Option ℕ}
      → lock_scan locks f start len n i slot ≡ some found
      → Scanned locks f start len n i slot found
  unfolding lock_scan
  scan-Scanned zero i slot e = record {
    clear = λ k lo hi. absurd (omega arith);
    chosen = inl (ground arith);
    full = λ _ k lo hi. absurd (omega arith);
  }
  scan-Scanned (suc n) i slot {found} e = elim (Bool-cases (locks i).used) [
    | inl u ↦
        let ih = scan-Scanned n (i + 1) slot {found = found} (ground arith) in
        record {
          clear = below-suc _ n i (λ _. ground arith) ih.clear;
          chosen = ground arith;
          full = λ z. below-suc _ n i u (ih.full z);
        }
    | inr u ↦
        let ih = scan-Scanned n (i + 1) (some i) {found = found} (ground arith) in
        record {
          clear = below-suc _ n i (λ t. ground arith) ih.clear;
          chosen = ground arith;
          full = λ z. ground arith;
        }
  ]

  -- The loop ends early only at an entry in conflict.
  scan-none :
      (n i : ℕ) (slot : Option ℕ)
      → lock_scan locks f start len n i slot ≡ none
      → (k : ℕ) × (k < i + n) × ((locks k).used ≡ true) × (conflicts f start len (locks k) ≡ true)
  unfolding lock_scan
  scan-none zero i slot e = absurd (ground arith)
  scan-none (suc n) i slot e =
      elim (Bool-cases ((locks i).used && conflicts f start len (locks i))) [
        | inl c ↦ (i, omega arith, ground arith, ground arith)
        | inr c ↦
            let (k, hi, u, t) =
              scan-none n (i + 1) (if not (locks i).used then some i else slot) (ground arith) in
            (k, omega arith, u, t)
      ]

-- The entry that a granted request fills in.
abbrev pub entry : FileKey → ℕ → ℕ → ℕ → Lock
entry f psp start len = record { used = true; file = f; psp = psp; start = start; len = len }

-- The code's answer to a request, by the bytes that are locked.
pub data Answer (locks : Array Lock) (f : FileKey) (psp start len : ℕ) (r : ℕ × Array Lock)
    : Type 0 where
  taken :
      (q x : ℕ)
      → IsHeld locks f q x
      → start ≤ x
      → x < start + len
      → r ≡ (err_lock_violation, locks)
      → Answer locks f psp start len r
  full :
      ((i : ℕ) → i < max_locks → (locks i).used ≡ true)
      → r ≡ (err_lock_violation, locks)
      → Answer locks f psp start len r
  granted :
      r.0 ≡ 0
      → ((q x : ℕ) → IsHeld locks f q x → start ≤ x → x < start + len → ⊥)
      → ((g : FileKey) (q x : ℕ)
          → IsHeld r.1 g q x
            ↔ (IsHeld locks g q x ⊎ ((g ≡ f) × (q ≡ psp) × (start ≤ x) × (x < start + len))))
      → Answer locks f psp start len r

module _ (locks : Array Lock) (f : FileKey) (psp start len : ℕ) where
  -- What `share_lock` does after its loop, in both of the loop's ends.
  pub lock-eq-fill :
      (r : Option (Option ℕ))
      → 0 < len
      → lock_scan locks f start len max_locks 0 none ≡ r
      → share_lock locks f psp start len ≡ lock_fill locks f psp start len r
  unfolding share_lock lock_fill
  lock-eq-fill r pos e = ground arith

  IsHeld-after :
      (slot : ℕ)
      → slot < max_locks
      → (locks slot).used ≡ false
      → (g : FileKey) (q x : ℕ)
      → IsHeld (update locks slot (entry f psp start len)) g q x
        ↔ (IsHeld locks g q x ⊎ ((g ≡ f) × (q ≡ psp) × (start ≤ x) × (x < start + len)))
  IsHeld-after slot hi free g q x = (into, out)
    where
      into :
          IsHeld (update locks slot (entry f psp start len)) g q x
          → IsHeld locks g q x ⊎ ((g ≡ f) × (q ≡ psp) × (start ≤ x) × (x < start + len))
      into (i, b, h) = elim (ℕ_discrete slot i) [
        | yes e ↦ inr (ground (arith, h.file, h.owner, h.from, h.below))
        | no ne ↦ inl (i, b, subst (Holds g q x) (update_ne locks slot i _ ne) h)
      ]

      out :
          IsHeld locks g q x ⊎ ((g ≡ f) × (q ≡ psp) × (start ≤ x) × (x < start + len))
          → IsHeld (update locks slot (entry f psp start len)) g q x
      out (inl (i, b, h)) = (
        i,
        b,
        subst (Holds g q x) (sym (update_ne locks slot i _ (λ e. cc (ap (λ k. (locks k).used) e))))
            h,
      )
      out (inr (eg, eq, lo, up)) = (
        slot,
        hi,
        subst (Holds g q x) (sym (update_self locks slot _))
            (record { used = refl; file = sym eg; owner = sym eq; from = lo; below = up }),
      )

  pub scan_slot :
      {slot : ℕ}
      → Scanned locks f start len max_locks 0 none (some slot)
      → (slot < max_locks) × ((locks slot).used ≡ false)
  scan_slot r = ground (arith, r.chosen)

  clear-not_held :
      IsExclusive locks
      → Fits start len
      → ((k : ℕ) → k < max_locks → (locks k).used ≡ true → conflicts f start len (locks k) ≡ false)
      → (q x : ℕ) → IsHeld locks f q x
      → start ≤ x
      → x < start + len
      → ⊥
  clear-not_held v fit clear q x (k, hi, h) lo up = ground (
    arith,
    clear k hi h.used,
    eq→same_key (locks k).file f h.file,
    overlap-false (locks k).start (locks k).len start len (v.fits k hi h.used) fit,
  )

  -- In a well-formed table, for a region below 4 GB that is not empty, `share_lock` either refuses
  -- since a byte of the region is locked, or refuses since all 32 entries are in use, or grants the
  -- lock where no byte of the region was locked, and then exactly the bytes of the region are added.
  pub share_lock-Answer :
      IsExclusive locks
      → Fits start len
      → Answer locks f psp start len (share_lock locks f psp start len)
  unfolding lock_fill
  share_lock-Answer v fit = elim (Option-cases (lock_scan locks f start len max_locks 0 none)) [
    | inl e ↦
        let (k, hi, u, c) = scan-none locks f start len max_locks 0 none e in
        let (same, meet) = &&-true _ _ c in
        let (x, a, b, lo, up) =
          overlap_byte (locks k).start (locks k).len start len (v.fits k hi u) fit meet in
        taken (locks k).psp x
          (
            k,
            hi,
            record { used = u; file = same_key→eq _ _ same; owner = refl; from = a; below = b },
          )
          lo up (lock-eq-fill none fit.0 e)
    | inr (none, e) ↦
        let r = scan-Scanned locks f start len max_locks 0 none e in
        full (λ k hi. r.full refl k (omega arith) hi) (lock-eq-fill (some none) fit.0 e)
    | inr (some slot, e) ↦
        granted_at slot (scan-Scanned locks f start len max_locks 0 none e)
          (lock-eq-fill (some (some slot)) fit.0 e)
  ]
    where
      granted_at :
          (slot : ℕ)
          → Scanned locks f start len max_locks 0 none (some slot)
          → share_lock locks f psp start len ≡ (0, update locks slot (entry f psp start len))
          → Answer locks f psp start len (share_lock locks f psp start len)
      granted_at slot r e =
          let (a, b) = scan_slot r in
          granted (ap (λ t. t.0) e) (clear-not_held v fit (λ k hi. r.clear k (omega arith) hi))
            (λ g q x. rw e (IsHeld-after slot a b g q x))

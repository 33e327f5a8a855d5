-- ===== src/Share/Regions.antt =====
-- src/kernel/share.c: what the lock table means byte by byte, and when it is well formed.
use Prim.Native.Nat.{max}
use liberdos.Base.{ℕ, ◌+◌, ◌≤◌, ◌<◌, ◌^◌, ◌≡◌, ◌≢◌, ◌⊎◌, true, false, arith, ℕ_discrete, Array}
use liberdos.Share.{FileKey, Lock, max_locks, same_key, ranges_overlap}

-- Byte `x` of the file `f` is locked by the process `psp`.
pub record Holds (f : FileKey) (psp x : ℕ) (l : Lock) : Type 0 where
  pub used : l.used ≡ true
  pub file : l.file ≡ f
  pub owner : l.psp ≡ psp
  pub from : l.start ≤ x
  pub below : x < l.start + l.len

abbrev pub IsHeld : Array Lock → FileKey → ℕ → ℕ → Type 0
IsHeld locks f psp x = (i : ℕ) × (i < max_locks) × Holds f psp x (locks i)

-- A region that is not empty and ends below 4 GB.
abbrev pub Fits : ℕ → ℕ → Type 0
Fits start len = (0 < len) × (start + len < 2 ^ 32)

-- Two entries that lock no byte in common.
abbrev pub Apart : Lock → Lock → Type 0
Apart l m = l.file ≡ m.file → (l.start + l.len ≤ m.start) ⊎ (m.start + m.len ≤ l.start)

pub record IsExclusive (locks : Array Lock) : Type 0 where
  pub fits : (i : ℕ) → i < max_locks → (locks i).used ≡ true → Fits (locks i).start (locks i).len
  pub apart :
      (i j : ℕ)
      → i < max_locks
      → j < max_locks
      → i ≢ j
      → (locks i).used ≡ true
      → (locks j).used ≡ true
      → Apart (locks i) (locks j)

pub same_key→eq : (a b : FileKey) → same_key a b ≡ true → a ≡ b
same_key→eq a b h = ground arith

pub same_key_refl : (a : FileKey) → same_key a a ≡ true
same_key_refl a = ground arith

pub eq→same_key : (a b : FileKey) → a ≡ b → same_key a b ≡ true
eq→same_key a b h = ground arith

-- Below 4 GB the code's test is the overlap of intervals.
pub overlap-false :
    (s1 l1 s2 l2 : ℕ)
    → Fits s1 l1
    → Fits s2 l2
    → ranges_overlap s1 l1 s2 l2 ≡ false
    → (s1 + l1 ≤ s2) ⊎ (s2 + l2 ≤ s1)
unfolding ranges_overlap
overlap-false s1 l1 s2 l2 h k e = ground arith

pub overlap-true :
    (s1 l1 s2 l2 : ℕ)
    → Fits s1 l1
    → Fits s2 l2
    → ranges_overlap s1 l1 s2 l2 ≡ true
    → (s1 < s2 + l2) × (s2 < s1 + l1)
unfolding ranges_overlap
overlap-true s1 l1 s2 l2 h k e = ground arith

-- A region that reaches or passes 4 GB exactly at its end overlaps nothing, for the code.
pub overlap_at_limit : (s1 l1 s2 l2 : ℕ) → s1 + l1 ≡ 2 ^ 32 → ranges_overlap s1 l1 s2 l2 ≡ false
unfolding ranges_overlap
overlap_at_limit s1 l1 s2 l2 e = ground arith

pub overlap_beyond : (s1 l1 s2 l2 : ℕ) → s2 + l2 ≡ 2 ^ 32 → ranges_overlap s1 l1 s2 l2 ≡ false
unfolding ranges_overlap
overlap_beyond s1 l1 s2 l2 e = ground arith

-- Regions that overlap have a byte in common: the greater of the two starts.
pub overlap_byte :
    (s1 l1 s2 l2 : ℕ)
    → Fits s1 l1
    → Fits s2 l2
    → ranges_overlap s1 l1 s2 l2 ≡ true
    → (x : ℕ) × (s1 ≤ x) × (x < s1 + l1) × (s2 ≤ x) × (x < s2 + l2)
overlap_byte s1 l1 s2 l2 h k e =
    let (p, q) = overlap-true s1 l1 s2 l2 h k e in
    (max s1 s2, omega arith, omega arith, omega arith, omega arith)

-- In an exclusive table a byte is locked by one entry at most.
pub Holds-unique :
    (locks : Array Lock)
    → IsExclusive locks
    → (f : FileKey) (p q x i j : ℕ) → i < max_locks
    → j < max_locks
    → Holds f p x (locks i)
    → Holds f q x (locks j)
    → i ≡ j
Holds-unique locks v f p q x i j hi hj a b = elim (ℕ_discrete i j) [
  | yes e ↦ e
  | no ne ↦ absurd (
      ground (
        arith,
        v.apart i j hi hj ne a.used b.used,
        a.file,
        b.file,
        a.from,
        a.below,
        b.from,
        b.below,
      ))
]

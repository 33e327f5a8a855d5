-- ===== src/Fat/Names.antt =====
-- src/kernel/fat.c: what the small functions on directory entries compute.
use Prim.Native.Nat.{bit_or}
use liberdos.Base.{
  ℕ, zero, suc, ◌+◌, ◌*◌, ◌/◌, ◌≤◌, ◌<◌, ◌≡◌, ◌⊎◌, ◌↔◌, inl, inr, refl, sym, ◌∙◌, Bool, true, false,
  not, ◌&&◌, arith, Array, ◌==◌, if◌then◌else◌, if_true, if_false, Bool-cases,
}
use liberdos.Base.Loop.{below-suc}
use liberdos.Base.Bits.{bit_or_apart}
use liberdos.Base.Word.{u8, u16, u32}
use liberdos.Fat.{Volume, word_at, put_word}
use liberdos.Fat.Dir.{match_loop, fat_match11, dirent_cluster, dirent_set_cluster}

-- A character of a pattern: `?`, or the one in the name.
abbrev pub Matches : Array ℕ → Array ℕ → ℕ → Type 0
Matches pat name i = (u8 (pat i) ≡ 0x3F) ⊎ (u8 (pat i) ≡ u8 (name i))

opposite : false ≡ true → ⊥
opposite e = cc

Matches? :
    (pat name : Array ℕ) (i : ℕ)
    → Matches pat name i ↔ (not (u8 (pat i) == 0x3F) && not (u8 (pat i) == u8 (name i)) ≡ false)
Matches? pat name i = (λ m. ground (arith, m), λ e. ground (arith, e))

match_loop_iff :
    (pat name : Array ℕ) (n i : ℕ)
    → (match_loop pat name n i ≡ true) ↔ ((j : ℕ) → i ≤ j → j < i + n → Matches pat name j)
unfolding match_loop
match_loop_iff pat name zero i = (λ _ j lo hi. absurd (omega arith), λ _. refl)
match_loop_iff pat name (suc n) i =
    let ih = match_loop_iff pat name n (i + 1) in
    let here = Matches? pat name i in
    elim (Bool-cases (not (u8 (pat i) == 0x3F) && not (u8 (pat i) == u8 (name i)))) [
      | inl bad ↦ (
        λ e. absurd (opposite (sym (if_true false _ bad) ∙ e)),
        λ all. absurd (opposite (sym (here.0 (all i (omega arith) (omega arith))) ∙ bad)),
      )
      | inr good ↦ (
        λ e. below-suc (Matches pat name) n i (here.1 good) (ih.0 (sym (if_false _ _ good) ∙ e)),
        λ all. if_false _ _ good ∙ ih.1 (λ j lo hi. all j (omega arith) (omega arith)),
      )
    ]

-- `fat_match11` tells whether each of the eleven characters matches, where `?` matches any.
pub fat_match11_iff :
    (pat name : Array ℕ) → (fat_match11 pat name ≡ true) ↔ ((i : ℕ) → i < 11 → Matches pat name i)
unfolding fat_match11
fat_match11_iff pat name =
    let l = match_loop_iff pat name 11 0 in
    (λ e i hi. l.0 e i (omega arith) (omega arith), λ all. l.1 (λ j lo hi. all j (omega arith)))

-- A cluster number that is stored in a directory entry is read again: all of it on FAT32, its low
-- 16 bits on the smaller FATs.
pub dirent_cluster-dirent_set_cluster :
    (m : Volume) (e : Array ℕ) (cl : ℕ)
    → dirent_cluster m (dirent_set_cluster m e cl) ≡ (if m.fat32 then u32 cl else u16 cl)
unfolding dirent_cluster dirent_set_cluster
dirent_cluster-dirent_set_cluster m e cl = go m.fat32
  where
    wide : ℕ → Array ℕ
    wide hi = put_word (put_word e 26 (u16 cl)) 20 hi

    go :
        (b : Bool)
        → (if b
            then bit_or
                (word_at (wide (if b then u16 (cl / 65536) else 0)) 20 * 65536)
                (word_at (wide (if b then u16 (cl / 65536) else 0)) 26)
            else word_at (wide (if b then u16 (cl / 65536) else 0)) 26)
          ≡ (if b then u32 cl else u16 cl)
    go true =
        let hi : word_at (wide (u16 (cl / 65536))) 20 ≡ u16 (cl / 65536) = omega arith in
        let lo : word_at (wide (u16 (cl / 65536))) 26 ≡ u16 cl = omega arith in
        rw (hi, lo) (bit_or_apart 16 (u16 (cl / 65536)) (u16 cl) (omega arith) ∙ omega arith)
    go false = omega arith

-- ===== src/Fat/Packing.antt =====
-- src/kernel/fat.c: an entry of the FAT in its sector: what is set is read again, and the other
-- entries stay.
use Prim.Native.Nat.{bit_or}
use liberdos.Base.{
  ℕ, ◌+◌, ◌*◌, ◌/◌, ◌%◌, ◌^◌, ◌≤◌, ◌<◌, ◌≡◌, ◌≢◌, ◌⊎◌, inl, inr, refl, sym, ap, ◌∙◌, true, false,
  arith, Array, ◌==◌, if◌then◌else◌, ℕ_discrete, dec_lt,
}
use liberdos.Base.Bits.{bit_or_apart, bit_or_below}
use liberdos.Base.Word.{u16}
use liberdos.Fat.{word_at, dword_at, put_word, put_dword}
use liberdos.Fat.Entries.{off_12, get_12, set_12, get_16, set_16, get_32, set_32}

pub word-put : (b : Array ℕ) (p v : ℕ) → v < 65536 → word_at (put_word b p v) p ≡ v
word-put b p v h = ground arith

pub word-put_apart :
    (b : Array ℕ) (p q v : ℕ) → (p + 2 ≤ q) ⊎ (q + 2 ≤ p) → word_at (put_word b p v) q ≡ word_at b q
word-put_apart b p q v h = ground (arith, h)

dword-put : (b : Array ℕ) (p v : ℕ) → v < 2 ^ 32 → dword_at (put_dword b p v) p ≡ v
dword-put b p v h = ground arith

dword-put_apart :
    (b : Array ℕ) (p q v : ℕ)
    → (p + 4 ≤ q) ⊎ (q + 4 ≤ p)
    → dword_at (put_dword b p v) q ≡ dword_at b q
dword-put_apart b p q v h = ground (arith, h)

-- An entry in the sector: the one that was set, and another one of the same sector.
pub get_32-set : (b : Array ℕ) (cl val : ℕ) → get_32 (set_32 b cl val) cl ≡ val % 2 ^ 28
get_32-set b cl val =
    let p : ℕ = cl % 128 * 4 in
    let joined : bit_or (dword_at b p / 2 ^ 28 * 2 ^ 28) (val % 2 ^ 28)
        ≡ dword_at b p / 2 ^ 28 * 2 ^ 28 + val % 2 ^ 28 =
      bit_or_apart 28 (dword_at b p / 2 ^ 28) (val % 2 ^ 28) (omega arith) in
    ap (λ n. n % 2 ^ 28)
      (ap (λ n. dword_at (put_dword b p n) p) joined ∙ dword-put b p _ (omega arith))
    ∙ omega arith

pub get_32-set_apart :
    (b : Array ℕ) (cl cl' val : ℕ)
    → cl % 128 ≢ cl' % 128
    → get_32 (set_32 b cl val) cl' ≡ get_32 b cl'
get_32-set_apart b cl cl' val ne =
    ap (λ n. n % 2 ^ 28) (dword-put_apart b (cl % 128 * 4) (cl' % 128 * 4) _ (ground (arith, ne)))

pub get_16-set : (b : Array ℕ) (cl val : ℕ) → get_16 (set_16 b cl val) cl ≡ val % 2 ^ 16
get_16-set b cl val = word-put b (cl % 256 * 2) (u16 val) (omega arith)

pub get_16-set_apart :
    (b : Array ℕ) (cl cl' val : ℕ)
    → cl % 256 ≢ cl' % 256
    → get_16 (set_16 b cl val) cl' ≡ get_16 b cl'
get_16-set_apart b cl cl' val ne =
    word-put_apart b (cl % 256 * 2) (cl' % 256 * 2) (u16 val) (ground (arith, ne))

-- The word that is written for an entry of twelve bits.
joined_12 : ℕ → ℕ → ℕ → ℕ
joined_12 cur cl val =
    if cl % 2 == 1 then cur % 16 + val % 4096 * 16 else cur / 4096 * 4096 + val % 4096

set_12_lem :
    (b : Array ℕ) (cl val : ℕ)
    → set_12 b cl val ≡ put_word b (off_12 cl) (joined_12 (word_at b (off_12 cl)) cl val)
unfolding joined_12
set_12_lem b cl val =
    let cur : ℕ = word_at b (off_12 cl) in
    let odd : bit_or (cur % 16) (u16 (u16 val * 16)) ≡ cur % 16 + val % 4096 * 16 =
      ap (bit_or (cur % 16)) (omega arith)
      ∙ bit_or_below 4 (val % 4096) (cur % 16) (omega arith)
      ∙ omega arith in
    let even : bit_or (cur / 4096 * 4096) (val % 4096) ≡ cur / 4096 * 4096 + val % 4096 =
      bit_or_apart 12 (cur / 4096) (val % 4096) (omega arith) in
    rw (odd, even) refl

-- The word that is read for an entry of twelve bits.
split_12 : ℕ → ℕ → ℕ
split_12 val cl = if cl % 2 == 1 then val / 16 else val % 4096

joined_12_small : (cur cl val : ℕ) → cur < 65536 → joined_12 cur cl val < 65536
unfolding joined_12
joined_12_small cur cl val h = ground arith

split-joined_12 : (cur cl val : ℕ) → cur < 65536 → split_12 (joined_12 cur cl val) cl ≡ val % 4096
unfolding joined_12 split_12
split-joined_12 cur cl val h = ground arith

pub get_12-set : (b : Array ℕ) (cl val : ℕ) → get_12 (set_12 b cl val) cl ≡ val % 4096
unfolding split_12
get_12-set b cl val =
    let cur : ℕ = word_at b (off_12 cl) in
    let small : cur < 65536 = omega arith in
    ap (λ a. get_12 a cl) (set_12_lem b cl val)
    ∙ ap (λ w. split_12 w cl)
        (word-put b (off_12 cl) (joined_12 cur cl val) (joined_12_small cur cl val small))
    ∙ split-joined_12 cur cl val small

-- The entries of a pair share the byte in its middle.
pair_low :
    (b : Array ℕ) (off val : ℕ)
    → word_at (put_word b off (word_at b off / 4096 * 4096 + val % 4096)) (off + 1) / 16
      ≡ word_at b (off + 1) / 16
pair_low b off val = ground arith

pair_high :
    (b : Array ℕ) (off val : ℕ)
    → word_at (put_word b (off + 1) (word_at b (off + 1) % 16 + val % 4096 * 16)) off % 4096
      ≡ word_at b off % 4096
pair_high b off val = ground arith

-- Two clusters whose words are apart.
far_apart :
    (b : Array ℕ) (cl cl' val : ℕ)
    → (off_12 cl + 2 ≤ off_12 cl') ⊎ (off_12 cl' + 2 ≤ off_12 cl)
    → get_12 (set_12 b cl val) cl' ≡ get_12 b cl'
unfolding split_12
far_apart b cl cl' val h =
    ap (λ a. get_12 a cl') (set_12_lem b cl val)
    ∙ ap (λ w. split_12 w cl')
        (word-put_apart b (off_12 cl) (off_12 cl') (joined_12 (word_at b (off_12 cl)) cl val) h)

set_even :
    (b : Array ℕ) (cl val off : ℕ)
    → cl % 2 ≡ 0
    → off_12 cl ≡ off
    → set_12 b cl val ≡ put_word b off (word_at b off / 4096 * 4096 + val % 4096)
unfolding joined_12
set_even b cl val off even at =
    let f : cl % 2 == 1 ≡ false = ground arith in set_12_lem b cl val ∙ rw (f, at) refl

set_odd :
    (b : Array ℕ) (cl val off : ℕ)
    → cl % 2 ≡ 1
    → off_12 cl ≡ off
    → set_12 b cl val ≡ put_word b off (word_at b off % 16 + val % 4096 * 16)
unfolding joined_12
set_odd b cl val off odd at =
    let t : cl % 2 == 1 ≡ true = ground arith in set_12_lem b cl val ∙ rw (t, at) refl

get_even :
    (b : Array ℕ) (cl off : ℕ) → cl % 2 ≡ 0 → off_12 cl ≡ off → get_12 b cl ≡ word_at b off % 4096
get_even b cl off even at = let f : cl % 2 == 1 ≡ false = ground arith in rw (f, at) refl

get_odd :
    (b : Array ℕ) (cl off : ℕ) → cl % 2 ≡ 1 → off_12 cl ≡ off → get_12 b cl ≡ word_at b off / 16
get_odd b cl off odd at = let t : cl % 2 == 1 ≡ true = ground arith in rw (t, at) refl

pub get_12-set_apart :
    (b : Array ℕ) (cl cl' val : ℕ)
    → cl < 40000
    → cl' < 40000
    → cl ≢ cl'
    → get_12 (set_12 b cl val) cl' ≡ get_12 b cl'
get_12-set_apart b cl cl' val small small' ne = elim (ℕ_discrete (cl % 2) 0) [
  | yes even ↦ elim (ℕ_discrete (cl + 1) cl') [
    | yes next ↦
        let off : ℕ = off_12 cl in
        let at : off_12 cl' ≡ off + 1 = omega arith in
        let odd : cl' % 2 ≡ 1 = omega arith in
        ap (λ a. get_12 a cl') (set_even b cl val off even refl)
        ∙ get_odd (put_word b off (word_at b off / 4096 * 4096 + val % 4096)) cl' (off + 1) odd at
        ∙ pair_low b off val
        ∙ sym (get_odd b cl' (off + 1) odd at)
    | no far ↦
        far_apart b cl cl' val
          (elim (dec_lt cl cl') [ yes lt ↦ inl (omega arith) | no ge ↦ inr (omega arith) ])
  ]
  | no odd ↦ elim (ℕ_discrete (cl' + 1) cl) [
    | yes next ↦
        let off : ℕ = off_12 cl' in
        let at : off_12 cl ≡ off + 1 = omega arith in
        let even : cl' % 2 ≡ 0 = omega arith in
        ap (λ a. get_12 a cl') (set_odd b cl val (off + 1) (omega arith) at)
        ∙ get_even (put_word b (off + 1) (word_at b (off + 1) % 16 + val % 4096 * 16)) cl' off even
            refl
        ∙ pair_high b off val
        ∙ sym (get_even b cl' off even refl)
    | no far ↦
        far_apart b cl cl' val
          (elim (dec_lt cl cl') [ yes lt ↦ inl (omega arith) | no ge ↦ inr (omega arith) ])
  ]
]

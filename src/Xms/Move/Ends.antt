-- ===== src/Xms/Move/Ends.antt =====
-- src/kernel/xms.c: function 0Bh always returns.
use liberdos.Base.{ℕ, ◌%◌, ◌≡◌, inl, inr, refl, some, arith, Array, Bool-cases, ◌==◌, if◌then◌else◌}
use liberdos.Machine.{Bios, Ram}
use liberdos.Xms.Pool.{Handle}
use liberdos.Xms.Move.{
  Linear, bad, at, EmmMove, Moved, done, failed, emm_linear, copy_fuel, copy_moved, resolved,
  do_move, xms_copy,
}
use liberdos.Xms.Move.Copy.{copy_loop-ends}

resolved-ends :
    (bios : Bios) (ram : Ram) (len : ℕ) (s d : Linear)
    → (r : Moved) × (resolved bios ram len s d ≡ some r)
unfolding resolved copy_moved
resolved-ends bios ram len (bad x) d = (failed x ram, refl)
resolved-ends bios ram len (at src) (bad x) = (failed x ram, refl)
resolved-ends bios ram len (at src) (at dst) =
    let ((status, after), e) = copy_loop-ends bios (copy_fuel len) dst src len ram (omega arith) in
    (if status == 0 then done after else failed 0x82 after, rw (e, copy_moved) refl)

-- Whatever the structure names and whatever the BIOS does, `do_move` comes to an answer.
pub do_move-ends :
    (bios : Bios) (xh : Array Handle) (m : EmmMove) (ram : Ram)
    → (r : Moved) × (do_move bios xh m ram ≡ some r)
unfolding do_move
do_move-ends bios xh m ram = elim (Bool-cases (m.length % 2 == 1)) [
  | inl odd ↦ (failed 0xA7 ram, rw odd refl)
  | inr even ↦
      let (r, e) =
        resolved-ends bios ram m.length (emm_linear xh m.src_handle m.src_off m.length 0xA3 0xA4)
          (emm_linear xh m.dst_handle m.dst_off m.length 0xA5 0xA6) in
      (r, rw even e)
]

-- So does `xms_copy`.
pub xms_copy-ends :
    (bios : Bios) (dst src bytes : ℕ) (ram : Ram)
    → (r : ℕ × Ram) × (xms_copy bios dst src bytes ram ≡ some r)
unfolding xms_copy
xms_copy-ends bios dst src bytes ram =
    let ((status, after), e) =
      copy_loop-ends bios (copy_fuel bytes) dst src bytes ram (omega arith) in
    ((if status == 0 then 0 else 1, after), rw (e, xms_copy) refl)

-- ===== src/Xms/Dispatch/Invariant.antt =====
-- src/kernel/xms.c: what every call of the driver keeps, and that it returns.
use liberdos.Base.{ℕ, ◌<◌, ◌≡◌, ◌≢◌, refl, arith}
use liberdos.Base.Word.{high}
use liberdos.Machine.{Bios}
use liberdos.Xms.{Xms, XFrame}
use liberdos.Xms.Gates.{
  request_hma-IsSound, release_hma-IsSound, enable_a20-IsSound, disable_a20-IsSound,
}
use liberdos.Xms.Dispatch.{
  Function, version_fn, request_hma_fn, release_hma_fn, enable_a20_fn, disable_a20_fn, query_a20_fn,
  query_extended_fn, allocate_fn, free_fn, move_fn, lock_fn, unlock_fn, handle_info_fn,
  reallocate_fn, request_umb_fn, release_umb_fn, unknown_fn, function_of, perform, xms_dispatch,
}
use liberdos.Xms.Invariant.{free-HasPool, lock-HasPool, unlock-HasPool}
use liberdos.Xms.Sizes.{free-HasSizes, lock-HasSizes, unlock-HasSizes}
use liberdos.Xms.Answers.{
  IsSound, Answers, allocate-Answers, query_extended-Answers, move-Answers, reallocate-IsSound,
}

-- The sizes that a call asks for are 16-bit, and it does not ask for an empty block.
pub record AsksSpace (r : XFrame) : Type 0 where
  pub dx : r.dx < 65536
  pub bx : r.bx < 65536
  pub allocates : high r.ax ≡ 0x09 → r.dx ≢ 0
  pub reallocates : high r.ax ≡ 0x0F → r.bx ≢ 0

function-allocate : (fn : ℕ) → function_of fn ≡ allocate_fn → fn ≡ 0x09
unfolding function_of
function-allocate fn e = ground arith

function-reallocate : (fn : ℕ) → function_of fn ≡ reallocate_fn → fn ≡ 0x0F
unfolding function_of
function-reallocate fn e = ground arith

perform-Answers :
    (bios : Bios) (x : Xms) (r : XFrame) (f : Function)
    → IsSound x
    → r.dx < 65536
    → r.bx < 65536
    → (f ≡ allocate_fn → r.dx ≢ 0)
    → (f ≡ reallocate_fn → r.bx ≢ 0)
    → Answers (perform bios x r f)
unfolding perform
perform-Answers bios x r version_fn v dx bx a b = (x, _, refl, v)
perform-Answers bios x r request_hma_fn v dx bx a b = (_, _, refl, request_hma-IsSound x r v)
perform-Answers bios x r release_hma_fn v dx bx a b = (_, _, refl, release_hma-IsSound x r v)
perform-Answers bios x r enable_a20_fn v dx bx a b = (_, _, refl, enable_a20-IsSound bios x r v)
perform-Answers bios x r disable_a20_fn v dx bx a b = (_, _, refl, disable_a20-IsSound x r v)
perform-Answers bios x r query_a20_fn v dx bx a b = (x, _, refl, v)
perform-Answers bios x r query_extended_fn v dx bx a b = query_extended-Answers x r v
perform-Answers bios x r allocate_fn v dx bx a b = allocate-Answers x r v dx (a refl)
perform-Answers bios x r free_fn v dx bx a b =
    (_, _, refl, record { pool = free-HasPool x r v.pool; sizes = free-HasSizes x r v.sizes })
perform-Answers bios x r move_fn v dx bx a b = move-Answers bios x r v
perform-Answers bios x r lock_fn v dx bx a b =
    (_, _, refl, record { pool = lock-HasPool x r v.pool; sizes = lock-HasSizes x r v.sizes })
perform-Answers bios x r unlock_fn v dx bx a b =
    (_, _, refl, record { pool = unlock-HasPool x r v.pool; sizes = unlock-HasSizes x r v.sizes })
perform-Answers bios x r handle_info_fn v dx bx a b = (x, _, refl, v)
perform-Answers bios x r reallocate_fn v dx bx a b =
    (_, _, refl, reallocate-IsSound x r v bx (b refl))
perform-Answers bios x r request_umb_fn v dx bx a b = (x, _, refl, v)
perform-Answers bios x r release_umb_fn v dx bx a b = (x, _, refl, v)
perform-Answers bios x r unknown_fn v dx bx a b = (x, _, refl, v)

-- From a sound state, every call of the driver with 16-bit DX and BX that does not ask 09h or 0Fh for
-- an empty block returns, and leaves the blocks in use inside the pool, apart and not empty.
pub xms_dispatch-Answers :
    (bios : Bios) (x : Xms) (r : XFrame) → IsSound x → AsksSpace r → Answers (xms_dispatch bios x r)
unfolding xms_dispatch
xms_dispatch-Answers bios x r v a =
    perform-Answers bios x r (function_of (high r.ax)) v a.dx a.bx
      (λ e. a.allocates (function-allocate _ e)) (λ e. a.reallocates (function-reallocate _ e))

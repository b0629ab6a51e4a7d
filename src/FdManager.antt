-- ===== src/FdManager.antt =====
-- include/mycoroutine/fd_manager.h and src/fd_manager.cpp: what is known of file descriptors.
-- The `FdCtx`s are shared objects: `ctx_at` holds them by address, and `m_datas` is a list of
-- addresses, `none` for a null pointer.
pub mod Laws
pub mod Spec
pub mod Slots
pub mod Refines
pub mod Simulates
mod Examples
use coroutine_lib.Prelude.{
  ℕ, zero, suc, ◌+◌, ◌*◌, ◌/◌, Bool, true, false, not, ◌&&◌, ◌||◌, Option, none, some, List, [],
  ◌∷◌, ◌==◌, ltb, leb, if◌then◌else◌, is_some, length, get_elem?, set, replicate, u64_max,
}
use coroutine_lib.Prelude.Int.{ℤ, pos, negsuc}

pub record FdCtx : Type 0 where
  pub is_init : Bool
  pub is_socket : Bool
  pub sys_nonblock : Bool
  pub user_nonblock : Bool
  pub is_closed : Bool
  pub fd : ℕ
  pub recv_timeout : ℕ
  pub send_timeout : ℕ

pub record FdManager : Type 0 where
  pub ctx_at : ℕ → FdCtx
  pub fresh : ℕ  -- the address of the next `FdCtx`
  pub datas : List (Option ℕ)

-- What `fstat` and `S_ISSOCK` say of a descriptor, and whether `F_GETFL` has O_NONBLOCK.
pub data FileKind : Type 0 where
  invalid socket other : FileKind

pub record Descriptor : Type 0 where
  pub kind : FileKind
  pub nonblock : Bool

-- `init`; the last Boolean tells whether `F_SETFL` is called to set O_NONBLOCK.
unfoldable pub init : Descriptor → FdCtx → FdCtx × Bool × Bool
init d c = if c.is_init then (c, true, false) else elim d.kind [
  | invalid ↦ (record c { is_init = false; is_socket = false; sys_nonblock = false }, false, false)
  | socket ↦
      (record c { is_init = true; is_socket = true; sys_nonblock = true }, true, not d.nonblock)
  | other ↦ (record c { is_init = true; is_socket = false; sys_nonblock = false }, true, false)
]

-- The constructor, which calls `init`.
unfoldable pub new_fd_ctx : Descriptor → ℕ → FdCtx
unfolding init
new_fd_ctx d fd =
    (init d (record {
      is_init = false;
      is_socket = false;
      sys_nonblock = false;
      user_nonblock = false;
      is_closed = false;
      fd = fd;
      recv_timeout = u64_max;
      send_timeout = u64_max;
    })).0

-- SO_RCVTIMEO or another type.
unfoldable pub set_timeout : Bool → ℕ → FdCtx → FdCtx
set_timeout is_recv v c =
    if is_recv then record c { recv_timeout = v } else record c { send_timeout = v }

unfoldable pub get_timeout : Bool → FdCtx → ℕ
get_timeout is_recv c = if is_recv then c.recv_timeout else c.send_timeout

-- `m_datas.resize` to a larger size.
unfoldable pub resize : ℕ → List (Option ℕ) → List (Option ℕ)
resize zero xs = []
resize (suc n) [] = none ∷ resize n []
resize (suc n) (x ∷ xs) = x ∷ resize n xs

unfoldable pub new_fd_manager : (ℕ → FdCtx) → FdManager
unfolding resize
new_fd_manager memory = record { ctx_at = memory; fresh = 0; datas = resize 64 [] }

-- The part of `get` under the read lock: what it returns, or that it goes on to create.
pub data Found : Type 0 where
  returns : Option ℕ → Found
  creates : Found

unfoldable pub get_read : ℕ → Bool → FdManager → Found
get_read fd auto_create m = elim (get_elem? m.datas fd) [
  | none ↦ if auto_create then creates else returns none
  | some slot ↦ if is_some slot || not auto_create then returns slot else creates
]

-- The part under the write lock: it looks at the size again, but not at the object; a write past
-- the end is `none`.
unfoldable pub get_create : Descriptor → ℕ → FdManager → Option (FdManager × ℕ)
unfolding resize new_fd_ctx
get_create d fd m =
    let datas = if leb (length m.datas) fd then resize (fd * 3 / 2) m.datas else m.datas in
    let p = m.fresh in
    let at : ℕ → FdCtx = λ q. if p == q then new_fd_ctx d fd else m.ctx_at q in
    if ltb fd (length datas)
    then some (record { ctx_at = at; fresh = p + 1; datas = set datas fd (some p) }, p)
    else none

-- `get` without other threads in between.
unfoldable pub get : Descriptor → ℤ → Bool → FdManager → Option (FdManager × Option ℕ)
unfolding get_read get_create
get d (negsuc n) auto_create m = if n == 0 || not auto_create then some (m, none) else none
get d (pos fd) auto_create m = elim (get_read fd auto_create m) [
  | returns slot ↦ some (m, slot)
  | creates ↦ elim (get_create d fd m) [ none ↦ none | some (m', p) ↦ some (m', some p) ]
]

-- `del`
unfoldable pub del : ℤ → FdManager → FdManager
del (negsuc n) m = m
del (pos fd) m = elim (get_elem? m.datas fd) [
  | none ↦ m
  | some none ↦ m
  | some (some p) ↦ record m {
    ctx_at = λ q. if p == q then record (m.ctx_at p) { is_closed = true } else m.ctx_at q;
    datas = set m.datas fd none;
  }
]

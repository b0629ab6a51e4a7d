-- ===== src/FdManager/Spec.antt =====
-- src/fd_manager.cpp: what `FdManager` promises. It is a map from descriptors to what is known of
-- them; the vector, the addresses and the objects behind them do not show.
use coroutine_lib.Prelude.{
  ℕ, Bool, false, ◌||◌, not, Option, none, some, List, [], ◌∷◌, ◌==◌, if◌then◌else◌, is_some,
}
use coroutine_lib.Prelude.Int.{pos}
use coroutine_lib.FdManager.{FdCtx, FdManager, Descriptor, invalid, new_fd_ctx, get, del}

abbrev pub FdMap : Type 0
FdMap = ℕ → Option FdCtx

abbrev pub update_map : ℕ → Option FdCtx → FdMap → FdMap
update_map fd v a other = if fd == other then v else a other

-- The calls: `get`, with what the system says of the descriptor; a change through the pointer that
-- `get` gives, as the setters of `FdCtx` make; and `del`.
pub data Use : Type 0 where
  gets : Descriptor → ℕ → Bool → Use
  changes : ℕ → (FdCtx → FdCtx) → Use
  deletes : ℕ → Use

abbrev pub map_ctx : (FdCtx → FdCtx) → Option FdCtx → Option FdCtx
map_ctx f none = none
map_ctx f (some c) = some (f c)

-- A call of the map, with what it lets the caller see.
abbrev pub use_map : Use → FdMap → FdMap × Option FdCtx
use_map (gets d fd auto_create) a =
    if is_some (a fd) || not auto_create
    then (a, a fd)
    else (update_map fd (some (new_fd_ctx d fd)) a, some (new_fd_ctx d fd))
use_map (changes fd f) a = (update_map fd (map_ctx f (a fd)) a, map_ctx f (a fd))
use_map (deletes fd) a = (update_map fd none a, none)

abbrev pub run_map : List Use → FdMap → FdMap × List (Option FdCtx)
run_map [] a = (a, [])
run_map (u ∷ us) a =
    let (a', seen) = use_map u a in let (a'', rest) = run_map us a' in (a'', seen ∷ rest)

-- A call of the manager. A null pointer is not changed.
abbrev pub see : FdManager → Option ℕ → Option FdCtx
see m none = none
see m (some p) = some (m.ctx_at p)

abbrev pub change_at : (FdCtx → FdCtx) → FdManager → Option ℕ → FdManager × Option FdCtx
change_at f m none = (m, none)
change_at f m (some p) = (
  record m { ctx_at = λ q. if p == q then f (m.ctx_at p) else m.ctx_at q },
  some (f (m.ctx_at p)),
)

abbrev pub any_descriptor : Descriptor
any_descriptor = record { kind = invalid; nonblock = false }

abbrev pub use_manager : Use → FdManager → Option (FdManager × Option FdCtx)
use_manager (gets d fd auto_create) m = elim (get d (pos fd) auto_create m) [
  | none ↦ none
  | some (m', slot) ↦ some (m', see m' slot)
]
use_manager (changes fd f) m = elim (get any_descriptor (pos fd) false m) [
  | none ↦ none
  | some (m', slot) ↦ some (change_at f m' slot)
]
use_manager (deletes fd) m = some (del (pos fd) m, none)

abbrev pub run_manager : List Use → FdManager → Option (FdManager × List (Option FdCtx))
run_manager [] m = some (m, [])
run_manager (u ∷ us) m = elim (use_manager u m) [
  | none ↦ none
  | some (m', seen) ↦ elim (run_manager us m') [
    | none ↦ none
    | some (m'', rest) ↦ some (m'', seen ∷ rest)
  ]
]

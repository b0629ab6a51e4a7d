-- ===== src/FdManager/Examples.antt =====
-- A new manager, and the theorems there.
use coroutine_lib.Prelude.{
  ℕ, List, true, false, none, some, [], ◌∷◌, ◌≡◌, ◌≢◌, refl, arith, get_elem?,
}
use coroutine_lib.FdManager.{
  FdCtx, FdManager, Descriptor, socket, new_fd_ctx, new_fd_manager, resize, creates, get_read,
  get_create, set_timeout,
}
use coroutine_lib.FdManager.Spec.{Use, gets, changes, deletes}
use coroutine_lib.FdManager.Refines.{new_fd_manager-Represents}
use coroutine_lib.FdManager.Simulates.{Refines, run_manager-Refines}
use coroutine_lib.FdManager.Laws.{HasRoom, get_races}

abbrev a_socket : Descriptor
a_socket = record { kind = socket; nonblock = false }

abbrev memory : ℕ → FdCtx
memory p = new_fd_ctx a_socket p

abbrev fresh_manager : FdManager
fresh_manager = new_fd_manager memory

fresh_manager-HasRoom : HasRoom fresh_manager
unfolding new_fd_manager resize
fresh_manager-HasRoom = omega arith

nothing_yet : get_read 3 true fresh_manager ≡ creates
unfolding get_read new_fd_manager resize
nothing_yet = refl

abbrev with_socket : FdManager
with_socket = record fresh_manager { datas = none ∷ none ∷ none ∷ some 0 ∷ []; fresh = 1 }

get_races_example :
    (a b : FdManager) × (p q : ℕ) × (get_create a_socket 3 fresh_manager ≡ some (a, p))
    × (get_create a_socket 3 a ≡ some (b, q))
    × (p ≢ q)
    × (get_elem? b.datas 3 ≡ some (some q))
get_races_example = get_races a_socket 3 fresh_manager fresh_manager-HasRoom nothing_yet

-- A descriptor that is created twice, with a change of its context and a `del` in between.
abbrev calls : List Use
calls =
    gets a_socket 70 true
    ∷ changes 70 (set_timeout true 5)
    ∷ gets a_socket 70 true
    ∷ deletes 70
    ∷ gets a_socket 70 false
    ∷ gets a_socket 3 true
    ∷ []

run_manager-Refines_example : Refines calls fresh_manager (λ fd. none)
run_manager-Refines_example =
    run_manager-Refines calls fresh_manager (λ fd. none) (new_fd_manager-Represents memory)

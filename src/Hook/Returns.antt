-- ===== src/Hook/Returns.antt =====
-- src/hook.cpp, `do_io`: that a hooked call returns.
use coroutine_lib.Prelude.{ℕ, ◌+◌, ◌||◌, Option, none, some, List, [], ◌∷◌, if◌then◌else◌}
use coroutine_lib.Hook.{Answer, Result, eintr, eagain, fails_with}

-- The first answer that is neither a signal nor that there is nothing to do.
abbrev pub first_answer : List Answer → Option Answer
first_answer [] = none
first_answer (a ∷ answers) =
    let later = first_answer answers in
    if fails_with eintr a || fails_with eagain a then later else some a

-- How often there is nothing to do before that.
abbrev pub waits : List Answer → ℕ
waits [] = 0
waits (a ∷ answers) =
    let later = waits answers in
    if fails_with eintr a then later else if fails_with eagain a then later + 1 else 0

abbrev map_option : (Answer → Result) → Option Answer → Option Result
map_option f none = none
map_option f (some a) = some (f a)

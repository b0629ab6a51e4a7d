-- ===== src/Hook/Flags.antt =====
-- src/hook.cpp: what the user of a descriptor sees of the flags and timeouts that are set.
use coroutine_lib.Prelude.{
  ℕ, ◌≡◌, refl, ap, Bool, true, false, none, some, ◌==◌, if◌then◌else◌, arith, ==_self, get_elem?,
  Option-cases, Bool-cases, inl, inr, zero, suc, ◌∙◌, sym,
}
use coroutine_lib.Prelude.Int.{ℤ, pos, negsuc}
use coroutine_lib.FdManager.{FdCtx, FdManager, get, get_read, get_timeout, set_timeout}
use coroutine_lib.FdManager.Slots.{slot_of}
use coroutine_lib.Hook.{World, Request, find_address, find_ctx}
use coroutine_lib.Hook.Blocking.{IsHooked}
use coroutine_lib.Hook.Control.{
  has_flag, with_flag, without_flag, put_ctx, set_flags, get_flags, timeval_ms, setsockopt,
}

pub find_address-slot :
    (n : ℕ) (m : FdManager) → find_address (pos n) m ≡ slot_of (get_elem? m.datas n)
unfolding find_address get get_read
find_address-slot n m = elim (Option-cases (get_elem? m.datas n)) [
  | inl e ↦ rw (find_address, get, get_read, e) refl
  | inr (none, e) ↦ rw (find_address, get, get_read, e) refl
  | inr (some p, e) ↦ rw (find_address, get, get_read, e) refl
]

pub find_address-negative : (n : ℕ) (m : FdManager) → find_address (negsuc n) m ≡ none
unfolding find_address get
find_address-negative zero m = refl
find_address-negative (suc n) m = elim (Bool-cases (suc n == 0)) [
  | inl e ↦ rw (find_address, get, e) refl
  | inr e ↦ rw (find_address, get, e) refl
]

-- A change of a context leaves the addresses.
pub find_address-put_ctx :
    (fd : ℤ) (p : ℕ) (c : FdCtx) (m : FdManager)
    → find_address fd (put_ctx p c m) ≡ find_address fd m
unfolding put_ctx
find_address-put_ctx (negsuc n) p c m =
    find_address-negative n (put_ctx p c m) ∙ sym (find_address-negative n m)
find_address-put_ctx (pos n) p c m =
    find_address-slot n (put_ctx p c m) ∙ sym (find_address-slot n m)

pub ctx_at-put_ctx : (p : ℕ) (c : FdCtx) (m : FdManager) → (put_ctx p c m).ctx_at p ≡ c
unfolding put_ctx
ctx_at-put_ctx p c m = rw (==_self p) refl

pub find_ctx-put_ctx :
    (fd : ℤ) (p : ℕ) (c : FdCtx) (m : FdManager)
    → find_address fd m ≡ some p
    → find_ctx fd (put_ctx p c m) ≡ some c
unfolding find_ctx
find_ctx-put_ctx fd p c m h =
    rw (find_ctx, find_address-put_ctx fd p c m, h, ctx_at-put_ctx p c m) refl

-- The context at an address is that of an open socket.
abbrev pub IsOpenSocket : FdCtx → Type 0
IsOpenSocket c = (c.is_closed ≡ false) × (c.is_socket ≡ true)

-- The flags that the user has set are those of the kernel but for O_NONBLOCK.
abbrev seen : Bool → ℕ → ℕ
seen user_nonblock flags = if user_nonblock then with_flag flags else without_flag flags

seen-seen :
    (arg : ℕ) (b : Bool) → (has_flag (seen b arg) ≡ b) × (seen (has_flag arg) (seen b arg) ≡ arg)
seen-seen arg true = ground arith
seen-seen arg false = ground arith

module _ (fd : ℤ) (p : ℕ) (m : FdManager) (h : find_address fd m ≡ some p)
    (o : IsOpenSocket (m.ctx_at p)) where
  get_flags-seen : (flags : ℕ) → get_flags fd flags m ≡ seen (m.ctx_at p).user_nonblock flags
  unfolding get_flags
  get_flags-seen flags = simp (get_flags, h, o.0, o.1)

  set_flags_puts :
      (arg : ℕ)
      → set_flags fd arg m ≡ (
        put_ctx p (record (m.ctx_at p) { user_nonblock = has_flag arg }) m,
        seen (m.ctx_at p).sys_nonblock arg,
      )
  unfolding set_flags
  set_flags_puts arg = simp (set_flags, h, o.0, o.1)

-- For an open socket: after F_SETFL with some flags, the argument that the kernel gets has
-- O_NONBLOCK as the library wants it, and F_GETFL, if the kernel answers with that argument, returns
-- the flags that the user has set.
pub get_flags-set_flags :
    (fd : ℤ) (p arg : ℕ) (m : FdManager)
    → find_address fd m ≡ some p
    → IsOpenSocket (m.ctx_at p)
    → (has_flag (set_flags fd arg m).1 ≡ (m.ctx_at p).sys_nonblock)
      × (get_flags fd (set_flags fd arg m).1 (set_flags fd arg m).0 ≡ arg)
get_flags-set_flags fd p arg m h o =
    let user : FdCtx = record (m.ctx_at p) { user_nonblock = has_flag arg } in
    let (kernel, back) = seen-seen arg (m.ctx_at p).sys_nonblock in
    rw (set_flags_puts fd p m h o arg) (
      kernel,
      get_flags-seen fd p (put_ctx p user m) (find_address-put_ctx fd p user m ∙ h)
            (rw (ctx_at-put_ctx p user m) o) _
          ∙ ap (λ c. seen c.user_nonblock (seen (m.ctx_at p).sys_nonblock arg))
              (ctx_at-put_ctx p user m)
          ∙ back,
    )

-- The time that `setsockopt` sets for one direction is the timeout of the calls of that direction.
abbrev pub chosen : Bool → Bool → ℕ → ℕ → ℕ
chosen true is_recv a b = if is_recv then a else b
chosen false is_recv a b = if is_recv then b else a

get_timeout-set_timeout :
    (set_recv is_recv : Bool) (v : ℕ) (c : FdCtx)
    → get_timeout is_recv (set_timeout set_recv v c)
      ≡ chosen set_recv is_recv v (get_timeout is_recv c)
unfolding get_timeout set_timeout
get_timeout-set_timeout true true v c = refl
get_timeout-set_timeout true false v c = refl
get_timeout-set_timeout false true v c = refl
get_timeout-set_timeout false false v c = refl

set_timeout_frame :
    (set_recv : Bool) (v : ℕ) (c : FdCtx)
    → ((set_timeout set_recv v c).is_closed ≡ c.is_closed)
      × ((set_timeout set_recv v c).is_socket ≡ c.is_socket)
      × ((set_timeout set_recv v c).user_nonblock ≡ c.user_nonblock)
unfolding set_timeout
set_timeout_frame true v c = (refl, refl, refl)
set_timeout_frame false v c = (refl, refl, refl)

find_ctx-cases :
    (fd : ℤ) (c : FdCtx) (m : FdManager)
    → find_ctx fd m ≡ some c
    → (p : ℕ) × (find_address fd m ≡ some p) × (m.ctx_at p ≡ c)
unfolding find_ctx
find_ctx-cases fd c m h = elim (Option-cases (find_address fd m)) [
  | inl e ↦ let missing : none ≡ some c = rw (find_ctx, e) at h in cc
  | inr (p, e) ↦ (p, e, ap (λ o. elim o [ none ↦ c | some x ↦ x ]) (rw (find_ctx, e) at h))
]

-- If a call goes through the hook with some timeout, then after a hooked `setsockopt` of SO_RCVTIMEO
-- or SO_SNDTIMEO on its descriptor it still does, with the new time, in milliseconds and modulo
-- 2 ^ 64, if that is the direction of the call, and with the old one if it is the other.
pub setsockopt-IsHooked :
    (r : Request) (set_recv : Bool) (sec usec timeout : ℕ) (w : World)
    → IsHooked r timeout w
    → IsHooked r
        (chosen set_recv r.is_recv (timeval_ms sec usec) timeout)
        (record w { fds = setsockopt w.hook_enable r.fd (some (set_recv, sec, usec)) w.fds })
unfolding setsockopt
setsockopt-IsHooked r set_recv sec usec timeout w h =
    let v = timeval_ms sec usec in
    let (p, at, is_ctx) = find_ctx-cases r.fd h.ctx w.fds h.known in
    let c = set_timeout set_recv v (w.fds.ctx_at p) in
    let (closed, socket, nonblock) = set_timeout_frame set_recv v (w.fds.ctx_at p) in
    record {
      enabled = h.enabled;
      ctx = c;
      known = simp (setsockopt, h.enabled, at, find_ctx-put_ctx r.fd p c w.fds at);
      alive = closed ∙ ap (λ x. x.is_closed) is_ctx ∙ h.alive;
      socket = socket ∙ ap (λ x. x.is_socket) is_ctx ∙ h.socket;
      blocks = nonblock ∙ ap (λ x. x.user_nonblock) is_ctx ∙ h.blocks;
      limit =
          get_timeout-set_timeout set_recv r.is_recv v (w.fds.ctx_at p)
          ∙ ap (chosen set_recv r.is_recv v) (ap (get_timeout r.is_recv) is_ctx ∙ h.limit);
    }

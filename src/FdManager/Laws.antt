-- ===== src/FdManager/Laws.antt =====
-- src/fd_manager.cpp: `get` and `del`.
use coroutine_lib.Prelude.{
  ℕ, zero, suc, ◌+◌, ◌*◌, ◌/◌, ◌<◌, ◌≤◌, Bool, true, false, Option, none, some, List, [], ◌∷◌, ◌==◌,
  leb, if◌then◌else◌, length, get_elem?, set, ◌≡◌, ◌≢◌, refl, ap, arith, length-set,
  get_elem?-set_self, get_elem?-set_ne, lt→ltb,
}
use coroutine_lib.Prelude.Int.{pos}
use coroutine_lib.FdManager.{
  FdManager, Descriptor, new_fd_ctx, resize, creates, get_read, get_create, get, del,
}

length-resize : (n : ℕ) (xs : List (Option ℕ)) → length (resize n xs) ≡ n
unfolding resize
length-resize zero xs = refl
length-resize (suc n) [] = ap suc (length-resize n [])
length-resize (suc n) (x ∷ xs) = ap suc (length-resize n xs)

abbrev pub HasRoom : FdManager → Type 0
HasRoom m = 64 ≤ length m.datas

-- The vector in which `get` creates.
abbrev pub room_for : ℕ → FdManager → List (Option ℕ)
room_for fd m = if leb (length m.datas) fd then resize (fd * 3 / 2) m.datas else m.datas

pub length-room_for : (fd : ℕ) (m : FdManager) → HasRoom m → fd < length (room_for fd m)
length-room_for fd m h = ground (arith, length-resize (fd * 3 / 2) m.datas)

-- What `get` leaves when it creates.
abbrev pub created : Descriptor → ℕ → FdManager → FdManager
created d fd m = record {
  ctx_at = λ q. if m.fresh == q then new_fd_ctx d fd else m.ctx_at q;
  fresh = m.fresh + 1;
  datas = set (room_for fd m) fd (some m.fresh);
}

pub get_create_creates :
    (d : Descriptor) (fd : ℕ) (m : FdManager)
    → HasRoom m
    → get_create d fd m ≡ some (created d fd m, m.fresh)
unfolding get_create
get_create_creates d fd m h =
    let fits = lt→ltb fd (length (room_for fd m)) (length-room_for fd m h) in rw fits refl

pub created-HasRoom :
    (d : Descriptor) (fd : ℕ) (m : FdManager) → HasRoom m → HasRoom (created d fd m)
created-HasRoom d fd m h =
    ground (arith, length-set (room_for fd m) fd (some m.fresh), length-resize (fd * 3 / 2) m.datas)

pub created_holds :
    (d : Descriptor) (fd : ℕ) (m : FdManager)
    → HasRoom m
    → get_elem? (created d fd m).datas fd ≡ some (some m.fresh)
created_holds d fd m h =
    get_elem?-set_self (room_for fd m) fd (some m.fresh) (length-room_for fd m h)

pub get_present :
    (d : Descriptor) (fd p : ℕ) (auto_create : Bool) (m : FdManager)
    → get_elem? m.datas fd ≡ some (some p)
    → get d (pos fd) auto_create m ≡ some (m, some p)
unfolding get get_read
get_present d fd p auto_create m e = rw (get, e) refl

get_forgotten :
    (d : Descriptor) (fd : ℕ) (m : FdManager)
    → get_elem? m.datas fd ≡ some none
    → get d (pos fd) false m ≡ some (m, none)
unfolding get get_read
get_forgotten d fd m e = rw (get, e) refl

-- In a vector of at least the first 64 places, a context that `get` creates is the one that the
-- next `get` of the descriptor returns, with or without `auto_create`: the vector was made long
-- enough for the write, and keeps its 64 places.
pub get_create_stays :
    (d d' : Descriptor) (fd : ℕ) (auto_create : Bool) (m : FdManager)
    → HasRoom m
    → (after : FdManager) × (get_create d fd m ≡ some (after, m.fresh))
      × (get d' (pos fd) auto_create after ≡ some (after, some m.fresh))
      × HasRoom after
get_create_stays d d' fd auto_create m h = (
  created d fd m,
  get_create_creates d fd m h,
  get_present d' fd m.fresh auto_create (created d fd m) (created_holds d fd m h),
  created-HasRoom d fd m h,
)

-- `get` creates under a second lock and does not look again whether there is a context by then:
-- of two threads that both found none, in a vector of at least 64 places, each gets its own, and
-- only the second one's stays in the vector.
pub get_races :
    (d : Descriptor) (fd : ℕ) (m : FdManager)
    → HasRoom m
    → get_read fd true m ≡ creates
    → (a b : FdManager) × (p q : ℕ) × (get_create d fd m ≡ some (a, p))
      × (get_create d fd a ≡ some (b, q))
      × (p ≢ q)
      × (get_elem? b.datas fd ≡ some (some q))
get_races d fd m h e =
    let a = created d fd m in
    let room = created-HasRoom d fd m h in
    (
      a,
      created d fd a,
      m.fresh,
      a.fresh,
      get_create_creates d fd m h,
      get_create_creates d fd a room,
      (λ same. absurd (omega (arith, same))),
      created_holds d fd a room,
    )

-- `del` forgets a descriptor that has a context and marks its context as closed: afterwards `get`
-- without `auto_create` gives nothing, and other descriptors keep what they have.
pub del_forgets :
    (d : Descriptor) (fd p : ℕ) (m : FdManager)
    → fd < length m.datas
    → get_elem? m.datas fd ≡ some (some p)
    → (get d (pos fd) false (del (pos fd) m) ≡ some (del (pos fd) m, none))
      × (((del (pos fd) m).ctx_at p).is_closed ≡ true)
      × ((other : ℕ)
          → fd ≢ other
          → get_elem? (del (pos fd) m).datas other ≡ get_elem? m.datas other)
unfolding del
del_forgets d fd p m h e = (
  get_forgotten d fd (del (pos fd) m) (rw (del, e) (get_elem?-set_self m.datas fd none h)),
  rw (del, e) (ground arith),
  λ other n. rw (del, e) (get_elem?-set_ne m.datas fd other none n),
)

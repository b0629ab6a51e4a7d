-- ===== src/FdManager/Simulates.antt =====
-- src/fd_manager.cpp: calls of `FdManager` in sequence, against the map of Spec.
use coroutine_lib.Prelude.{
  ℕ, ◌≡◌, refl, sym, ap, subst, ◌∙◌, Bool, true, false, Option, none, some, List, [], ◌∷◌, is_some,
  Option-cases, Bool-cases, inl, inr, ==_self,
}
use native.Mathlib.Decide.{ℕ_discrete}
use coroutine_lib.Prelude.Int.{pos}
use coroutine_lib.FdManager.{FdCtx, FdManager, Descriptor, new_fd_ctx, del}
use coroutine_lib.FdManager.Laws.{created}
use coroutine_lib.FdManager.Spec.{
  FdMap, update_map, Use, gets, changes, deletes, map_ctx, use_map, run_map, see, any_descriptor,
  use_manager, run_manager,
}
use coroutine_lib.FdManager.Slots.{
  slot, get_slot, get_slot_some, get_slot_none, update_map_self, update_map_other,
}
use coroutine_lib.FdManager.Refines.{
  Represents, changed, created-Represents, changed-Represents, deleted-Represents,
}

-- One call of the manager, and the same call of the map.
record Follows (u : Use) (m : FdManager) (a : FdMap) : Type 0 where
  after : FdManager
  seen : Option FdCtx
  does : use_manager u m ≡ some (after, seen)
  sees : seen ≡ (use_map u a).1
  still : Represents after (use_map u a).0

carry_over :
    (m : FdManager) (a b : FdMap) → ((fd : ℕ) → a fd ≡ b fd) → Represents m a → Represents m b
carry_over m a b h r = record {
  room = r.room;
  made = r.made;
  apart = r.apart;
  same = λ fd. r.same fd ∙ h fd;
}

update_map_same : (fd : ℕ) (a : FdMap) (other : ℕ) → a other ≡ update_map fd (a fd) a other
update_map_same fd a other = elim (ℕ_discrete fd other) [
  | yes e ↦ subst (λ x. a x ≡ update_map fd (a fd) a x) e (sym (update_map_self fd (a fd) a))
  | no ne ↦ sym (update_map_other fd other (a fd) a ne)
]

-- What a map has that is represented.
module _ (m : FdManager) (a : FdMap) (r : Represents m a) (fd : ℕ) where
  held : (p : ℕ) → slot m fd ≡ some p → a fd ≡ some (m.ctx_at p)
  held p h = sym (r.same fd) ∙ ap (see m) h

  absent : slot m fd ≡ none → a fd ≡ none
  absent h = sym (r.same fd) ∙ ap (see m) h

  looks : (d : Descriptor) → use_map (gets d fd false) a ≡ (a, a fd)
  looks d = elim (Bool-cases (is_some (a fd))) [ inl e ↦ rw e refl | inr e ↦ rw e refl ]

  finds :
      (d : Descriptor) (p : ℕ) (auto_create : Bool)
      → slot m fd ≡ some p
      → use_map (gets d fd auto_create) a ≡ (a, a fd)
  finds d p auto_create e = rw (held p e) refl

  makes :
      (d : Descriptor)
      → slot m fd ≡ none
      → use_map (gets d fd true) a
        ≡ (update_map fd (some (new_fd_ctx d fd)) a, some (new_fd_ctx d fd))
  makes d e = rw (absent e) refl

  gets_Follows : (d : Descriptor) (auto_create : Bool) → Follows (gets d fd auto_create) m a
  gets_Follows d false = record {
    after = m;
    seen = see m (slot m fd);
    does = rw (use_manager, get_slot d fd m) refl;
    sees = r.same fd ∙ sym (ap (λ x. x.1) (looks d));
    still = subst (Represents m) (sym (ap (λ x. x.0) (looks d))) r;
  }
  gets_Follows d true = elim (Option-cases (slot m fd)) [
    | inl e ↦ record {
      after = created d fd m;
      seen = see (created d fd m) (some m.fresh);
      does = rw (use_manager, get_slot_none d fd m r.room e) refl;
      sees = rw (==_self m.fresh) refl ∙ sym (ap (λ x. x.1) (makes d e));
      still =
          subst (Represents (created d fd m)) (sym (ap (λ x. x.0) (makes d e)))
            (created-Represents m a r fd d e);
    }
    | inr (p, e) ↦ record {
      after = m;
      seen = see m (some p);
      does = rw (use_manager, get_slot_some d fd p true m e) refl;
      sees = sym (held p e) ∙ sym (ap (λ x. x.1) (finds d p true e));
      still = subst (Represents m) (sym (ap (λ x. x.0) (finds d p true e))) r;
    }
  ]

  changes_Follows : (f : FdCtx → FdCtx) → Follows (changes fd f) m a
  changes_Follows f = elim (Option-cases (slot m fd)) [
    | inl e ↦ record {
      after = m;
      seen = none;
      does = rw (use_manager, get_slot any_descriptor fd m, e) refl;
      sees = sym (ap (map_ctx f) (absent e));
      still =
          carry_over m a (update_map fd (map_ctx f (a fd)) a)
            (λ other.
              update_map_same fd a other
              ∙ ap (λ v. update_map fd v a other) (absent e ∙ sym (ap (map_ctx f) (absent e))))
            r;
    }
    | inr (p, e) ↦ record {
      after = changed m a r fd p (f (m.ctx_at p));
      seen = some (f (m.ctx_at p));
      does = rw (use_manager, get_slot any_descriptor fd m, e) refl;
      sees = sym (ap (map_ctx f) (held p e));
      still =
          subst (λ v. Represents (changed m a r fd p (f (m.ctx_at p))) (update_map fd v a))
            (sym (ap (map_ctx f) (held p e))) (changed-Represents m a r fd p (f (m.ctx_at p)) e);
    }
  ]

  deletes_Follows : Follows (deletes fd) m a
  deletes_Follows = record {
    after = del (pos fd) m;
    seen = none;
    does = refl;
    sees = refl;
    still = deleted-Represents m a r fd;
  }

follows : (u : Use) (m : FdManager) (a : FdMap) → Represents m a → Follows u m a
follows (gets d fd auto_create) m a r = gets_Follows m a r fd d auto_create
follows (changes fd f) m a r = changes_Follows m a r fd f
follows (deletes fd) m a r = deletes_Follows m a r fd

-- A run of the manager that does not fail, with the results of the run of the map.
pub record Refines (us : List Use) (m : FdManager) (a : FdMap) : Type 0 where
  pub after : FdManager
  pub seen : List (Option FdCtx)
  pub runs : run_manager us m ≡ some (after, seen)
  pub agrees : seen ≡ (run_map us a).1
  pub represents : Represents after (run_map us a).0

-- From a manager that represents a map, in which no two descriptors share a context and the
-- vector has its first size at least, every sequence of calls (`get` of a descriptor with
-- auto_create or not, changes of a context through the pointer that `get` returns, `del`) runs
-- without a write past the vector's end, lets the caller see just what the map has, call by call,
-- and ends in a manager that represents the map the calls make.
pub run_manager-Refines :
    (us : List Use) (m : FdManager) (a : FdMap) → Represents m a → Refines us m a
run_manager-Refines [] m a r = record {
  after = m;
  seen = [];
  runs = refl;
  agrees = refl;
  represents = r;
}
run_manager-Refines (u ∷ us) m a r =
    let one = follows u m a r in
    let rest = run_manager-Refines us one.after (use_map u a).0 one.still in
    record {
      after = rest.after;
      seen = one.seen ∷ rest.seen;
      runs = rw (run_manager, one.does, rest.runs) refl;
      agrees = ap (λ x. x ∷ rest.seen) one.sees ∙ ap (λ l. (use_map u a).1 ∷ l) rest.agrees;
      represents = rest.represents;
    }

-- ===== src/Tasks/Life/Final.antt =====
-- A task that has ended stays so.
use cloudkeeper.Base.{
  ℕ, String, ◌≡◌, true, false, List, [], ◌∷◌, inl, inr, Bool-cases, str_eq, str_eq_iff,
}
use cloudkeeper.Tasks.Machine.{Machine}
use cloudkeeper.Tasks.Running.{RunningTask, end_name}
use cloudkeeper.Tasks.Ops.{is_active}
use cloudkeeper.Tasks.Life.{Call, call, call_all}
use cloudkeeper.Tasks.Life.Ended.{is_end_at}
use cloudkeeper.Tasks.Life.Sound.{IsSound, call-IsStep}

module _ (machine : Machine) (utc_str : ℕ → String) where
  stays_ended :
      (l : List Call) (t : RunningTask)
      → IsSound t
      → t.state ≡ end_name
      → IsSound (call_all machine utc_str l t) × ((call_all machine utc_str l t).state ≡ end_name)
  unfolding call_all
  stays_ended [] t h e = (h, e)
  stays_ended (c ∷ l) t h e =
      let s = call-IsStep machine utc_str c t h in
      stays_ended l (call machine utc_str c t).0 s.sound (s.final e).0

  -- A sound task that is not active stays so whatever calls it gets, and no call of it returns a
  -- command any more.
  pub inactive_for_good :
      (l : List Call) (t : RunningTask)
      → IsSound t
      → is_active t ≡ false
      → (is_active (call_all machine utc_str l t) ≡ false)
        × ((c : Call) → (call machine utc_str c (call_all machine utc_str l t)).1 ≡ [])
  unfolding is_active
  inactive_for_good l t h e =
      let (sound, at) = stays_ended l t h ended in
      (
        rw (is_end_at (call_all machine utc_str l t) sound.names, at),
        λ c. ((call-IsStep machine utc_str c (call_all machine utc_str l t) sound).final at).1,
      )
    where
      ended : t.state ≡ end_name
      ended = elim (Bool-cases (str_eq t.state end_name)) [
        | inl p ↦ (str_eq_iff t.state end_name).0 p
        | inr p ↦ absurd (clash (rw (is_end_at t h.names, p) at e))
      ]
        where
          clash : true ≡ false → ⊥
          clash q = cc

-- ===== src/Task/Waiting/Progress.antt =====
-- Every wait that ends has used up a part of its schedule.
use cpp_code.Prelude.{
  ℕ, suc, ◌≤◌, ◌<◌, ◌≡◌, Bool, true, false, Option, none, some, List, [], ◌∷◌, arith, length,
}
use cpp_code.Task.Status.{TaskCommand, cancel, pause, resume}
use cpp_code.Task.Object.{Channel, Received, error, message, Task, set_status, calls}
use cpp_code.Task.Waiting.{
  Wake, Outcome, returned, suspended, Hooks, Expected, loop_head, woken, await_control,
  async_wait_for_resume, wait_for_input_parameters, completed_by, try_side,
}

-- Fewer than `n` wakes are left, if the wait has ended.
abbrev pub LeftBelow : {S T A : Type 0} → ℕ → S × Outcome T A → Type 0
LeftBelow n (t, returned a schedule) = length schedule < n
LeftBelow n (t, suspended) = Unit {0}

LeftBelow-suc : {S T A : Type 0} (n : ℕ) (r : S × Outcome T A) → LeftBelow n r → LeftBelow (suc n) r
LeftBelow-suc n (t, returned a schedule) h = omega arith
LeftBelow-suc n (t, suspended) h = tt

module _ {In Ctl T : Type 0} (ins : Channel In T) (ctls : Channel Ctl TaskCommand) where
  module _ (hooks : Hooks In Ctl) where
    woken-LeftBelow :
        (rest : Task In Ctl → Task In Ctl × Outcome T Bool) (schedule : List (Wake T))
        (t : Task In Ctl) (r : Option (Received TaskCommand × Ctl))
        → ((u : Task In Ctl) → LeftBelow (length schedule) (rest u))
        → LeftBelow (suc (length schedule)) (woken hooks rest schedule t r)
    unfolding woken loop_head set_status
    woken-LeftBelow rest schedule t none keep = LeftBelow-suc _ (rest t) (keep t)
    woken-LeftBelow rest schedule t (some (error, c)) keep = omega arith
    woken-LeftBelow rest schedule t (some (message cancel, c)) keep = omega arith
    woken-LeftBelow rest schedule t (some (message pause, c)) keep = ground (
      arith,
      LeftBelow-suc _ (rest (record t { controls = c })) (keep (record t { controls = c })),
    )
    woken-LeftBelow rest schedule t (some (message resume, c)) keep = ground arith

    await-LeftBelow :
        (schedule : List (Wake T)) (t : Task In Ctl)
        → LeftBelow (length schedule) (await_control ins ctls hooks schedule t)
    unfolding await_control
    await-LeftBelow [] t = tt
    await-LeftBelow (w ∷ schedule) t =
        woken-LeftBelow (await_control ins ctls hooks schedule) schedule _ _
          (await-LeftBelow schedule)

    -- A wait for a resume that co_returns true leaves no more of the schedule than it was given,
    -- one that co_returns false less.
    abbrev pub Progress : ℕ → Task In Ctl × Outcome T Bool → Type 0
    Progress n (t, returned true schedule) = length schedule ≤ n
    Progress n (t, returned false schedule) = length schedule < n
    Progress n (t, suspended) = Unit {0}

    LeftBelow-Progress : (n : ℕ) (r : Task In Ctl × Outcome T Bool) → LeftBelow n r → Progress n r
    LeftBelow-Progress n (t, returned true schedule) h = omega arith
    LeftBelow-Progress n (t, returned false schedule) h = h
    LeftBelow-Progress n (t, suspended) h = tt

    pub async_wait_for_resume-Progress :
        (schedule : List (Wake T)) (t : Task In Ctl)
        → ((u : Task In Ctl) → hooks.when_pause u ≡ true)
        → Progress (length schedule) (async_wait_for_resume ins ctls hooks schedule t)
    unfolding async_wait_for_resume loop_head
    async_wait_for_resume-Progress schedule t hp = ground (
      arith,
      hp t,
      LeftBelow-Progress (length schedule) (await_control ins ctls hooks schedule t)
          (await-LeftBelow schedule t),
    )

  completed-LeftBelow :
      (rest : Task In Ctl → Task In Ctl × Outcome T (Expected T)) (schedule : List (Wake T))
      (t : Task In Ctl) (r : Option (Expected T × Task In Ctl))
      → LeftBelow (length schedule) (rest t)
      → LeftBelow (suc (length schedule)) (completed_by ins ctls rest schedule t r)
  unfolding completed_by
  completed-LeftBelow rest schedule t none h = LeftBelow-suc _ (rest t) h
  completed-LeftBelow rest schedule t (some (e, u)) h = omega arith

  pub wait_for_input-LeftBelow :
      (schedule : List (Wake T)) (t : Task In Ctl)
      → LeftBelow (length schedule) (wait_for_input_parameters ins ctls schedule t)
  unfolding wait_for_input_parameters
  wait_for_input-LeftBelow [] t = tt
  wait_for_input-LeftBelow (w ∷ schedule) t =
      let t' = calls ins ctls t w.before in
      completed-LeftBelow (wait_for_input_parameters ins ctls schedule) schedule t'
        (try_side ins ctls w.side t') (wait_for_input-LeftBelow schedule t')

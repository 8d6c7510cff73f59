-- ===== src/Task/Destructor.antt =====
-- When the loop of Task's destructor ends, with no other thread acting on the task meanwhile.
use cpp_code.Prelude.{
  ℕ, zero, suc, ◌≡◌, refl, ◌≢◌, ◌↔◌, ◌⊎◌, inl, inr, true, false, none, some, arith, Option-cases,
}
use cpp_code.Task.Status.{TaskCommand, initial, completed, failed, cancel}
use cpp_code.Task.Object.{Channel, Task, cancel_task, destroy, new}

module _ {In Ctl : Type 0} (ch : Channel Ctl TaskCommand) where
  -- cancel() has nothing to do on a completed or failed task, is refused on one that never ran,
  -- and otherwise needs room in the control channel.
  abbrev pub IsStuck : Task In Ctl → Type 0
  IsStuck t =
      (t.status ≡ initial)
      ⊎ ((t.status ≢ completed) × (t.status ≢ failed) × (ch.try_send t.controls cancel ≡ none))

  refused : (t : Task In Ctl) → IsStuck t → cancel_task ch t ≡ (t, false)
  unfolding cancel_task
  refused t h = ground arith

  accepted : (t : Task In Ctl) → (cancel_task ch t).1 ≡ false → IsStuck t
  unfolding cancel_task
  accepted t h = ground arith

  stuck-destroy : (rounds : ℕ) (t : Task In Ctl) → IsStuck t → destroy ch rounds t ≡ none
  unfolding destroy
  stuck-destroy zero t h = refl
  stuck-destroy (suc rounds) t h = rw (refused t h) (stuck-destroy rounds t h)

  destroy-stuck : (t : Task In Ctl) → destroy ch 1 t ≡ none → IsStuck t
  unfolding destroy
  destroy-stuck t h = accepted t (ground arith)

  -- The destructor's loop ends in no number of rounds exactly when the task was never run, or is
  -- neither completed nor failed and its control channel takes no message; otherwise it ends in
  -- the first round.
  pub destroy_iff :
      (t : Task In Ctl)
      → (((rounds : ℕ) → destroy ch rounds t ≡ none) ↔ IsStuck t)
        × ((destroy ch 1 t ≢ none) ⊎ IsStuck t)
  destroy_iff t = (
    ((λ never. destroy-stuck t (never 1)), λ h rounds. stuck-destroy rounds t h),
    (elim (Option-cases (destroy ch 1 t)) [
      | inl e ↦ inr (destroy-stuck t e)
      | inr (u, e) ↦ inl (λ n. cc)
    ]),
  )

  -- The destructor of a task that was made and never run does not end, whatever the channels.
  pub destroy-new :
      (inputs : In) (controls : Ctl) (rounds : ℕ) → destroy ch rounds (new inputs controls) ≡ none
  unfolding new
  destroy-new inputs controls rounds = stuck-destroy rounds _ (inl refl)

  left_full :
      (t : Task In Ctl) (c : Ctl)
      → ch.try_send t.controls cancel ≡ some c
      → ch.try_send c cancel ≡ none
      → t.status ≢ completed
      → t.status ≢ failed
      → (cancel_task ch t).1 ≡ true
      → IsStuck (cancel_task ch t).0
  unfolding cancel_task
  left_full t c sent again nc nf e = ground arith

  not_sent :
      (t : Task In Ctl)
      → ch.try_send t.controls cancel ≡ none
      → t.status ≢ completed
      → t.status ≢ failed
      → (cancel_task ch t).1 ≢ true
  unfolding cancel_task
  not_sent t none_sent nc nf e = ground arith

  -- Suppose that the control channel, once it has taken a message that nobody receives, takes no
  -- other. Then after a cancel() that returned true on a task neither completed nor failed, with
  -- no coroutine left to receive the command, the destructor does not end.
  pub destroy-cancel :
      ((c c' : Ctl) (m m' : TaskCommand) → ch.try_send c m ≡ some c' → ch.try_send c' m' ≡ none)
      → (t : Task In Ctl) (rounds : ℕ) → t.status ≢ completed
      → t.status ≢ failed
      → (cancel_task ch t).1 ≡ true
      → destroy ch rounds (cancel_task ch t).0 ≡ none
  destroy-cancel full t rounds nc nf e = elim (Option-cases (ch.try_send t.controls cancel)) [
    | inl refusal ↦ absurd (not_sent t refusal nc nf e)
    | inr (c, sent) ↦
        stuck-destroy rounds _ (left_full t c sent (full _ c cancel cancel sent) nc nf e)
  ]

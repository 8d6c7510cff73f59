-- ===== src/LogStruct/Grown.antt =====
-- The file only grows.
use cpp_code.Prelude.{
  ℕ, ◌≡◌, inl, inr, refl, sym, ap, ◌∙◌, Bool-cases, ltb, Option, none, some, List, [], ◌∷◌, ◌++◌,
  arith, drop, take, append_assoc, append-nil,
}
use cpp_code.LogStruct.{contents}
use cpp_code.LogStruct.Worker.{
  Place, checking, waiting, releasing, clearing, leaving, exited, writing, System, Action, writes,
  flushes, destroys, closes, stops, works, act, work, work_at, run,
}

module _ {A : Type 0} where
  abbrev pub IsPrefix : List A → List A → Type 0
  IsPrefix goal file = (rest : List A) × (file ≡ goal ++ rest)

  work_at-file :
      (place : Place) (s : System A) (result : Option ℕ)
      → IsPrefix s.file (work_at place s result).file
  unfolding work_at
  work_at-file checking s result = ([], ground (arith, append-nil s.file))
  work_at-file waiting s result = ([], ground (arith, append-nil s.file))
  work_at-file (writing target need written) s none = ([], ground (arith, append-nil s.file))
  work_at-file (writing target need written) s (some n) = elim (Bool-cases (ltb written need)) [
    | inl e ↦ elim (Bool-cases s.log.fd_open) [
      | inl o ↦ (take n (drop written (contents s.log target)), rw (e, o) refl)
      | inr o ↦ ([], rw (e, o) (sym (append-nil s.file)))
    ]
    | inr e ↦ ([], rw e (sym (append-nil s.file)))
  ]
  work_at-file releasing s result = ([], sym (append-nil s.file))
  work_at-file clearing s result = ([], sym (append-nil s.file))
  work_at-file leaving s result = ([], ground (arith, append-nil s.file))
  work_at-file exited s result = ([], sym (append-nil s.file))

  act-file : (s : System A) (a : Action A) → IsPrefix s.file (act s a).file
  unfolding act work
  act-file s (works result) = work_at-file s.place s result
  act-file s (writes bytes now) = ([], sym (append-nil s.file))
  act-file s flushes = ([], sym (append-nil s.file))
  act-file s destroys = ([], sym (append-nil s.file))
  act-file s closes = ([], sym (append-nil s.file))
  act-file s stops = ([], sym (append-nil s.file))

  pub run-file :
      (goal : List A) (s : System A) (actions : List (Action A))
      → IsPrefix goal s.file
      → IsPrefix goal (run s actions).file
  unfolding run
  run-file goal s [] p = p
  run-file goal s (a ∷ actions) (rest, e) =
      let (more, grown) = act-file s a in
      run-file goal (act s a) actions
        (rest ++ more, grown ∙ ap (λ f. f ++ more) e ∙ append_assoc goal rest more)

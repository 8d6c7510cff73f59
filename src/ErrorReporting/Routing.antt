-- ===== src/ErrorReporting/Routing.antt =====
-- cpp_test/iceoryx/005.error_reporting/005.error_reporting.cpp: DispatchHandler routes by module.
use cpp_code.ErrorReporting.{
  ErrorDescriptor, SubHandler, Registration, HandlerSlot, ensure_installed, register_all, Dispatch,
  register, add_violation, on_report_error, on_report_violation, dispatch, new,
}
use cpp_code.Prelude.Assoc.{find, find-put}
use cpp_code.Prelude.{
  ℕ, Option, none, some, List, [], ◌∷◌, ◌==◌, if◌then◌else◌, ◌≡◌, refl, ap, ap₂, ◌∙◌, inl, inr,
  Bool, true, false, arith, Option-cases,
}

module _ {S : Type 0} where
  pub or_else : Option (SubHandler S) → Option (SubHandler S) → Option (SubHandler S)
  or_else (some h) other = some h
  or_else none other = other

  -- The error handler of the last registration of a module.
  pub last_error : List (Registration S) → ℕ → Option (SubHandler S)
  last_error [] asked = none
  last_error (r ∷ rs) asked =
      or_else (last_error rs asked) (if r.id == asked then some r.on_error else none)

  -- The violation handler of the last registration of a module that gives one.
  pub last_violation : List (Registration S) → ℕ → Option (SubHandler S)
  last_violation [] asked = none
  last_violation (r ∷ rs) asked =
      or_else (last_violation rs asked) (if r.id == asked then r.on_violation else none)

  pub call : Option (SubHandler S) → ErrorDescriptor → S → S
  call none d client = client
  call (some h) d client = h d client

  or_else_assoc :
      (a b c : Option (SubHandler S)) → or_else a (or_else b c) ≡ or_else (or_else a b) c
  unfolding or_else
  or_else_assoc none b c = refl
  or_else_assoc (some a) b c = refl

  or_else_if :
      (b : Bool) (h : SubHandler S) (c : Option (SubHandler S))
      → (if b then some h else c) ≡ or_else (if b then some h else none) c
  unfolding or_else
  or_else_if true h c = refl
  or_else_if false h c = refl

  find-add_violation :
      (v : Option (SubHandler S)) (id asked : ℕ) (table : List (ℕ × SubHandler S))
      → find (add_violation v id table) asked
        ≡ or_else (if id == asked then v else none) (find table asked)
  unfolding add_violation or_else
  find-add_violation none id asked table = ground arith
  find-add_violation (some h) id asked table =
      find-put table id h asked ∙ or_else_if (id == asked) h (find table asked)

module _ {S P : Type 0} (handlers : HandlerSlot P) where
  error_table-ensure_installed :
      (h : Dispatch S P) → (ensure_installed handlers h).error_table ≡ h.error_table
  unfolding ensure_installed
  error_table-ensure_installed h = ground arith

  violation_table-ensure_installed :
      (h : Dispatch S P) → (ensure_installed handlers h).violation_table ≡ h.violation_table
  unfolding ensure_installed
  violation_table-ensure_installed h = ground arith

  find-error_table :
      (rs : List (Registration S)) (h : Dispatch S P) (asked : ℕ)
      → find (register_all handlers rs h).error_table asked
        ≡ or_else (last_error rs asked) (find h.error_table asked)
  unfolding register_all register last_error or_else
  find-error_table [] h asked = refl
  find-error_table (r ∷ rs) h asked =
      find-error_table rs (register handlers r h) asked
      ∙ ap (or_else (last_error rs asked)) (
          ap (λ t. find t asked) (error_table-ensure_installed _)
          ∙ find-put h.error_table r.id r.on_error asked
          ∙ or_else_if (r.id == asked) r.on_error (find h.error_table asked))
      ∙ or_else_assoc (last_error rs asked) _ (find h.error_table asked)

  find-violation_table :
      (rs : List (Registration S)) (h : Dispatch S P) (asked : ℕ)
      → find (register_all handlers rs h).violation_table asked
        ≡ or_else (last_violation rs asked) (find h.violation_table asked)
  unfolding register_all register last_violation or_else
  find-violation_table [] h asked = refl
  find-violation_table (r ∷ rs) h asked =
      find-violation_table rs (register handlers r h) asked
      ∙ ap (or_else (last_violation rs asked)) (
          ap (λ t. find t asked) (violation_table-ensure_installed _)
          ∙ find-add_violation r.on_violation r.id asked h.violation_table)
      ∙ or_else_assoc (last_violation rs asked) _ (find h.violation_table asked)

  or_else-none : (a : Option (SubHandler S)) → or_else a none ≡ a
  unfolding or_else
  or_else-none none = refl
  or_else-none (some a) = refl

  find-error_new :
      (rs : List (Registration S)) (p : P) (asked : ℕ)
      → find (register_all handlers rs (new p)).error_table asked ≡ last_error rs asked
  unfolding find
  find-error_new rs p asked = find-error_table rs (new p) asked ∙ or_else-none (last_error rs asked)

  find-violation_new :
      (rs : List (Registration S)) (p : P) (asked : ℕ)
      → find (register_all handlers rs (new p)).violation_table asked ≡ last_violation rs asked
  unfolding find
  find-violation_new rs p asked =
      find-violation_table rs (new p) asked ∙ or_else-none (last_violation rs asked)

  dispatch-call :
      (table : List (ℕ × SubHandler S)) (d : ErrorDescriptor) (client : S)
      → (dispatch table d client).0 ≡ call (find table d.reporting_module) d client
  unfolding dispatch call
  dispatch-call table d client = elim (Option-cases (find table d.reporting_module)) [
    | inl e ↦ ground (arith, e)
    | inr (h, e) ↦ ground (arith, e)
  ]

  violation-call :
      (h : Dispatch S P) (d : ErrorDescriptor) (client : S)
      → on_report_violation h d client
        ≡ call
            (or_else
              (find h.violation_table d.reporting_module)
              (find h.error_table d.reporting_module))
            d
            client
  unfolding on_report_violation dispatch call or_else
  violation-call h d client = elim (Option-cases (find h.violation_table d.reporting_module)) [
    | inl e ↦ ground (arith, e, dispatch-call h.error_table d client)
    | inr (v, e) ↦ ground (arith, e)
  ]

  -- After any registrations an error of a module is given to the error handler of the last
  -- registration of that module, and to no other; a violation is given to the last violation handler
  -- that was registered for the module, or else to its last error handler. Where there is none the
  -- state stays the same.
  pub routed :
      (rs : List (Registration S)) (p : P) (d : ErrorDescriptor) (client : S)
      → (on_report_error (register_all handlers rs (new p)) d client
          ≡ call (last_error rs d.reporting_module) d client)
        × (on_report_violation (register_all handlers rs (new p)) d client
            ≡ call
                (or_else (last_violation rs d.reporting_module) (last_error rs d.reporting_module))
                d
                client)
  unfolding on_report_error
  routed rs p d client = (
    dispatch-call _ d client ∙ ap (λ o. call o d client) (find-error_new rs p d.reporting_module),
    violation-call _ d client
        ∙ ap (λ o. call o d client)
            (ap₂ or_else (find-violation_new rs p d.reporting_module)
              (find-error_new rs p d.reporting_module)),
  )

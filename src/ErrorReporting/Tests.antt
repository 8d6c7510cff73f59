-- ===== src/ErrorReporting/Tests.antt =====
-- The theorems on DispatchHandler at the registrations of the two modules.
use cpp_code.Prelude.{ℕ, ◌≡◌, refl, Bool, true, false, none, some, List, [], ◌∷◌, ◌++◌, arith}
use cpp_code.ErrorReporting.{
  Handler, default_handler, HandlerSlot, ErrorDescriptor, SubHandler, Registration, new,
  network_module_id, storage_module_id, disk_full, storage_error, register_all, on_report_error,
  on_report_violation,
}
use cpp_code.ErrorReporting.Routing.{last_error, last_violation, or_else, call, routed}

-- A slot as the handler that it holds and whether it is finalized.
abbrev held : Handler → (Handler × Bool) → Handler × Bool
held h (old, false) = (h, false)
held h (old, true) = (old, true)

held_current :
    (h : Handler) (p : Handler × Bool) → p.1 ≡ false → ((held h p).0 ≡ h) × ((held h p).1 ≡ false)
held_current h (old, false) e = (refl, refl)
held_current h (old, true) e = ground arith

abbrev simple_slot : HandlerSlot (Handler × Bool)
simple_slot = record {
  current = λ p. p.0;
  is_final = λ p. p.1;
  set = held;
  reset = held default_handler;
  current-set = λ h p e. (held_current h p e).0;
  current-reset = λ p e. (held_current default_handler p e).0;
  is_final-set = λ h p e. (held_current h p e).1;
  is_final-reset = λ p e. (held_current default_handler p e).1;
}

-- Handlers that note their module and the code.
abbrev noted : ℕ → SubHandler (List (ℕ × ℕ))
noted id d notes = notes ++ (id, d.code) ∷ []

abbrev network_registration : Registration (List (ℕ × ℕ))
network_registration = record {
  id = network_module_id;
  on_error = noted 1;
  on_violation = some (noted 2);
}

abbrev storage_registration : Registration (List (ℕ × ℕ))
storage_registration = record { id = storage_module_id; on_error = noted 3; on_violation = none }

abbrev two_modules : List (Registration (List (ℕ × ℕ)))
two_modules = network_registration ∷ storage_registration ∷ []

abbrev fresh : Handler × Bool
fresh = (default_handler, false)

abbrev full_disk : ErrorDescriptor
full_disk = storage_error disk_full [] 3

-- A violation of the storage module is given to its error handler.
routed_example :
    (on_report_error (register_all simple_slot two_modules (new fresh)) full_disk []
      ≡ call (last_error two_modules full_disk.reporting_module) full_disk [])
    × (on_report_violation (register_all simple_slot two_modules (new fresh)) full_disk []
        ≡ call
            (or_else
              (last_violation two_modules full_disk.reporting_module)
              (last_error two_modules full_disk.reporting_module))
            full_disk
            [])
routed_example = routed simple_slot two_modules fresh full_disk []

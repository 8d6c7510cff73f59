-- ===== src/ErrorReporting/Reset.antt =====
-- cpp_test/iceoryx/005.error_reporting/005.error_reporting.cpp: the static of ensureInstalled and
-- ErrorHandler::reset().
use cpp_code.Prelude.{◌≡◌, refl, ap, ◌∙◌, true, false, List, [], ◌∷◌, arith}
use cpp_code.ErrorReporting.{
  default_handler, dispatch_handler, HandlerSlot, Registration, Dispatch, new, ensure_installed,
  register, register_all, reset_handler,
}

module _ {S P : Type 0} (handlers : HandlerSlot P) where
  installed-ensure_installed : (h : Dispatch S P) → (ensure_installed handlers h).installed ≡ true
  unfolding ensure_installed
  installed-ensure_installed h = ground arith

  slot-ensure_installed :
      (h : Dispatch S P) → h.installed ≡ true → (ensure_installed handlers h).slot ≡ h.slot
  unfolding ensure_installed
  slot-ensure_installed h e = ground arith

  installed-register :
      (r : Registration S) (h : Dispatch S P) → (register handlers r h).installed ≡ true
  unfolding register
  installed-register r h = installed-ensure_installed _

  slot-register :
      (r : Registration S) (h : Dispatch S P)
      → h.installed ≡ true
      → (register handlers r h).slot ≡ h.slot
  unfolding register
  slot-register r h e = slot-ensure_installed _ e

  -- Once the static is set, registrations leave the slot as it is.
  slot-register_all :
      (rs : List (Registration S)) (h : Dispatch S P)
      → h.installed ≡ true
      → (register_all handlers rs h).slot ≡ h.slot
  unfolding register_all
  slot-register_all [] h e = refl
  slot-register_all (r ∷ rs) h e =
      slot-register_all rs (register handlers r h) (installed-register r h) ∙ slot-register r h e

  installed-register_all :
      (rs : List (Registration S)) (h : Dispatch S P)
      → h.installed ≡ true
      → (register_all handlers rs h).installed ≡ true
  unfolding register_all
  installed-register_all [] h e = e
  installed-register_all (r ∷ rs) h e =
      installed-register_all rs (register handlers r h) (installed-register r h)

  slot-first :
      (r : Registration S) (rs : List (Registration S)) (p : P)
      → (register_all handlers (r ∷ rs) (new p)).slot ≡ handlers.set dispatch_handler p
  unfolding register_all register ensure_installed
  slot-first r rs p =
      slot-register_all rs (register handlers r (new p)) (installed-register r (new p))

  installed-first :
      (r : Registration S) (rs : List (Registration S)) (p : P)
      → (register_all handlers (r ∷ rs) (new p)).installed ≡ true
  unfolding register_all
  installed-first r rs p =
      installed-register_all rs (register handlers r (new p)) (installed-register r (new p))

  -- Where the slot is not finalized, at least one registration makes DispatchHandler the current
  -- handler, and so does ensureInstalled. After a reset neither does any more: the default handler
  -- stays, whatever is registered and wherever ensureInstalled is called.
  pub reset_stays :
      (r : Registration S) (rs later : List (Registration S)) (p : P)
      → handlers.is_final p ≡ false
      → (handlers.current (register_all handlers (r ∷ rs) (new p)).slot ≡ dispatch_handler)
        × (handlers.current
              (ensure_installed handlers (
                register_all handlers later
                  (reset_handler handlers (register_all handlers (r ∷ rs) (new p))))).slot
            ≡ default_handler)
  unfolding reset_handler
  reset_stays r rs later p fresh =
      let set_slot = slot-first r rs p in
      let is_set = installed-first r rs p in
      (
        ap handlers.current set_slot ∙ handlers.current-set dispatch_handler p fresh,
        ap handlers.current (
              slot-ensure_installed _ (installed-register_all later _ is_set)
              ∙ slot-register_all later _ is_set)
            ∙ handlers.current-reset _
                (ap handlers.is_final set_slot ∙ handlers.is_final-set dispatch_handler p fresh),
      )

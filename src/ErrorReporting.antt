-- ===== src/ErrorReporting.antt =====
-- cpp_test/iceoryx/005.error_reporting/005.error_reporting.cpp: the error codes of the two modules,
-- and DispatchHandler with its registration. A handler that a module registers is
-- a function on the state `S` of the client. iox::er::ErrorHandler, the slot of the current handler,
-- is a parameter; what is printed is left out.
pub mod Routing
pub mod Reset
mod Tests
use cpp_code.Prelude.{
  ℕ, zero, suc, ◌+◌, ◌-◌, ◌*◌, ◌/◌, ◌%◌, ◌^◌, ◌≤◌, ◌<◌, ◌≡◌, refl, sym, ap, ap₂, ◌∙◌, subst, ◌≢◌,
  ◌↔◌, ◌⊎◌, inl, inr, Bool, true, false, not, ◌&&◌, ◌||◌, Option, none, some, List, [], ◌∷◌, ◌++◌,
  arith, ltb, leb, ◌==◌, if◌then◌else◌, Bool-cases, Option-cases,
}
use cpp_code.Prelude.Assoc.{put, find}

pub data NetworkCode : Type 0 where
  timeout connection_refused invalid_address out_of_buffer : NetworkCode

pub data StorageCode : Type 0 where
  disk_full permission_denied : StorageCode

-- The numbers of the two enums.
unfoldable pub network_code : NetworkCode → ℕ
network_code timeout = 1
network_code connection_refused = 2
network_code invalid_address = 3
network_code out_of_buffer = 4

unfoldable pub storage_code : StorageCode → ℕ
storage_code disk_full = 1
storage_code permission_denied = 2

-- iox::er::ErrorDescriptor, as far as the code reads it; a file is the codes of its name.
pub record ErrorDescriptor : Type 0 where
  pub code : ℕ
  pub reporting_module : ℕ
  pub file : List ℕ
  pub line : ℕ

abbrev pub network_module_id : ℕ
network_module_id = 512

abbrev pub storage_module_id : ℕ
storage_module_id = 513

-- toError and toModule, at the place that reports.
unfoldable pub network_error : NetworkCode → List ℕ → ℕ → ErrorDescriptor
network_error c file line = record {
  code = network_code c;
  reporting_module = network_module_id;
  file = file;
  line = line;
}

unfoldable pub storage_error : StorageCode → List ℕ → ℕ → ErrorDescriptor
storage_error c file line = record {
  code = storage_code c;
  reporting_module = storage_module_id;
  file = file;
  line = line;
}

-- The handlers that the slot can hold.
pub data Handler : Type 0 where
  default_handler recording_handler throwing_handler dispatch_handler : Handler

-- What the code relies on of iox::er::ErrorHandler: where it is not finalized, set and reset change
-- the current handler and do not finalize it.
pub record HandlerSlot (P : Type 0) : Type 0 where
  pub current : P → Handler
  pub is_final : P → Bool
  pub set : Handler → P → P
  pub reset : P → P
  pub current-set : (h : Handler) (p : P) → is_final p ≡ false → current (set h p) ≡ h
  pub current-reset : (p : P) → is_final p ≡ false → current (reset p) ≡ default_handler
  pub is_final-set : (h : Handler) (p : P) → is_final p ≡ false → is_final (set h p) ≡ false
  pub is_final-reset : (p : P) → is_final p ≡ false → is_final (reset p) ≡ false

-- DispatchHandler::SubHandler.
abbrev pub SubHandler : Type 0 → Type 0
SubHandler S = ErrorDescriptor → S → S

-- The arguments of a ModuleRegistrar; an empty onViolation is none.
pub record Registration (S : Type 0) : Type 0 where
  pub id : ℕ
  pub on_error : SubHandler S
  pub on_violation : Option (SubHandler S)

-- The two tables, the static of ensureInstalled, and the slot.
pub record Dispatch (S P : Type 0) : Type 0 where
  pub error_table : List (ℕ × SubHandler S)
  pub violation_table : List (ℕ × SubHandler S)
  pub installed : Bool
  pub slot : P

module _ {S : Type 0} where
  -- DispatchHandler::dispatch: the state after the handler, and whether there was one.
  unfoldable pub dispatch : List (ℕ × SubHandler S) → ErrorDescriptor → S → S × Bool
  dispatch table d client = elim (find table d.reporting_module) [
    | none ↦ (client, false)
    | some handler ↦ (handler d client, true)
  ]

  -- The table of violations, in the constructor of ModuleRegistrar.
  unfoldable pub add_violation :
      Option (SubHandler S) → ℕ → List (ℕ × SubHandler S) → List (ℕ × SubHandler S)
  add_violation none id table = table
  add_violation (some handler) id table = put table id handler

module _ {S P : Type 0} where
  abbrev pub new : P → Dispatch S P
  new slot = record { error_table = []; violation_table = []; installed = false; slot = slot }

  -- The two callbacks of DispatchHandler.
  unfoldable pub on_report_error : Dispatch S P → ErrorDescriptor → S → S
  on_report_error h d client = (dispatch h.error_table d client).0

  unfoldable pub on_report_violation : Dispatch S P → ErrorDescriptor → S → S
  on_report_violation h d client =
      let tried = dispatch h.violation_table d client in
      if tried.1 then tried.0 else (dispatch h.error_table d tried.0).0

  module _ (handlers : HandlerSlot P) where
    -- The initialiser of the static runs once.
    unfoldable pub ensure_installed : Dispatch S P → Dispatch S P
    ensure_installed h =
        if h.installed
        then h
        else record h { installed = true; slot = handlers.set dispatch_handler h.slot }

    -- The constructor of ModuleRegistrar.
    unfoldable pub register : Registration S → Dispatch S P → Dispatch S P
    register r h = ensure_installed (record h {
      error_table = put h.error_table r.id r.on_error;
      violation_table = add_violation r.on_violation r.id h.violation_table;
    })

    unfoldable pub register_all : List (Registration S) → Dispatch S P → Dispatch S P
    register_all [] h = h
    register_all (r ∷ rs) h = register_all rs (register r h)

    -- iox::er::ErrorHandler::reset()
    unfoldable pub reset_handler : Dispatch S P → Dispatch S P
    reset_handler h = record h { slot = handlers.reset h.slot }

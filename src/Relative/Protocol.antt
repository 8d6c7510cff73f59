-- ===== src/Relative/Protocol.antt =====
-- 003.sender.cpp and 003.receiver.cpp: a message goes through the control segment. One sender runs
-- at a time, each time from its store of the value to the end of main; the receiver polls. Each step
-- is one access of shared memory, and memory is taken as sequentially consistent. A cell of the data
-- segments is named by its segment and offset, as a relative pointer is; the receiver has mapped the
-- segments of its registry.
pub mod Order
pub mod Values
pub mod Delivery
use cpp_code.Prelude.{
  ℕ, zero, suc, ◌+◌, ◌-◌, ◌*◌, ◌/◌, ◌%◌, ◌^◌, ◌≤◌, ◌<◌, ◌≡◌, refl, sym, ap, ap₂, ◌∙◌, subst, ◌≢◌,
  ◌↔◌, ◌⊎◌, inl, inr, Bool, true, false, not, ◌&&◌, ◌||◌, Option, none, some, List, [], ◌∷◌, ◌++◌,
  arith, ltb, leb, ◌==◌, if◌then◌else◌, Bool-cases, Option-cases,
}
use cpp_code.Prelude.Int.{ℤ}
use cpp_code.Relative.{Registry, get_base}

pub record Message : Type 0 where
  pub segment : ℕ
  pub offset : ℕ
  pub content : ℤ

-- What the sender is about to do; the test in `waiting` succeeds where ready is 0.
pub data Sender : Type 0 where
  idle : Sender
  storing waiting filling_segment filling_offset publishing : Message → Sender

pub data Receiver : Type 0 where
  polling reading_segment clearing_segment clearing_offset releasing : Receiver
  reading_offset : ℕ → Receiver
  loading : ℕ → ℕ → Receiver

-- `sent` is what was published, with its contents in `values`, and `received` what was read, none in
-- `contents` where the exception was caught.
pub record System : Type 0 where
  pub ready : ℕ
  pub segment_id : ℕ
  pub offset : ℕ
  pub cells : ℕ → ℕ → ℤ
  pub mapped : Registry
  pub sender : Sender
  pub receiver : Receiver
  pub sent : List (ℕ × ℕ)
  pub values : List ℤ
  pub received : List (ℕ × ℕ)
  pub contents : List (Option ℤ)

abbrev pub store_cell : (ℕ → ℕ → ℤ) → Message → ℕ → ℕ → ℤ
store_cell cells m segment offset =
    if segment == m.segment && offset == m.offset then m.content else cells segment offset

unfoldable pub send_at : Sender → System → System
send_at idle s = s
send_at (storing m) s = record s { cells = store_cell s.cells m; sender = waiting m }
send_at (waiting m) s = if s.ready == 0 then record s { sender = filling_segment m } else s
send_at (filling_segment m) s = record s { segment_id = m.segment; sender = filling_offset m }
send_at (filling_offset m) s = record s { offset = m.offset; sender = publishing m }
send_at (publishing m) s = record s {
  ready = 1;
  sender = idle;
  sent = s.sent ++ (m.segment, m.offset) ∷ [];
  values = s.values ++ m.content ∷ [];
}

abbrev load_cell : Option ℕ → ℤ → Option ℤ
load_cell none content = none
load_cell (some base) content = some content

unfoldable pub receive_at : Receiver → System → System
receive_at polling s = if s.ready == 0 then s else record s { receiver = reading_segment }
receive_at reading_segment s = record s { receiver = reading_offset s.segment_id }
receive_at (reading_offset segment) s = record s { receiver = loading segment s.offset }
receive_at (loading segment offset) s = record s {
  receiver = clearing_segment;
  received = s.received ++ (segment, offset) ∷ [];
  contents = s.contents ++ load_cell (get_base s.mapped segment) (s.cells segment offset) ∷ [];
}
receive_at clearing_segment s = record s { segment_id = 0; receiver = clearing_offset }
receive_at clearing_offset s = record s { offset = 0; receiver = releasing }
receive_at releasing s = record s { ready = 0; receiver = polling }

-- A sender is started when the one before has ended.
start_at : Sender → System → Message → System
start_at idle s m = record s { sender = storing m }
start_at other s m = s

pub data Action : Type 0 where
  starts : Message → Action
  sends receives : Action

unfoldable pub act : System → Action → System
unfolding send_at receive_at start_at
act s (starts m) = start_at s.sender s m
act s sends = send_at s.sender s
act s receives = receive_at s.receiver s

unfoldable pub run : System → List Action → System
unfolding act
run s [] = s
run s (a ∷ actions) = run (act s a) actions

-- After roudi has cleared the segments: `cells` is what they hold.
abbrev pub start : Registry → (ℕ → ℕ → ℤ) → System
start mapped cells = record {
  ready = 0;
  segment_id = 0;
  offset = 0;
  cells = cells;
  mapped = mapped;
  sender = idle;
  receiver = polling;
  sent = [];
  values = [];
  received = [];
  contents = [];
}

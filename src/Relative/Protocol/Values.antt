-- ===== src/Relative/Protocol/Values.antt =====
-- The values that the receiver reads.
use cpp_code.Prelude.{ℕ, ◌≡◌, some, List, [], ◌∷◌, ◌++◌, arith}
use cpp_code.Relative.{get_base}
use cpp_code.Relative.Protocol.{
  Message, idle, polling, System, starts, sends, receives, act, run, Action, store_cell, send_at,
  receive_at,
}

-- The steps of one sender whose wait ends at once, and those of the receiver for one message.
abbrev pub whole_send : Message → List Action
whole_send m = starts m ∷ sends ∷ sends ∷ sends ∷ sends ∷ sends ∷ []

abbrev pub whole_receive : List Action
whole_receive = receives ∷ receives ∷ receives ∷ receives ∷ receives ∷ receives ∷ receives ∷ []

abbrev pub IsQuiet : System → Type 0
IsQuiet s = (s.sender ≡ idle) × (s.receiver ≡ polling) × (s.ready ≡ 0)

sent_state :
    (s : System) (m : Message)
    → IsQuiet s
    → run s (whole_send m) ≡ record s {
      ready = 1;
      segment_id = m.segment;
      offset = m.offset;
      cells = store_cell s.cells m;
      sent = s.sent ++ (m.segment, m.offset) ∷ [];
      values = s.values ++ m.content ∷ [];
    }
unfolding run act send_at
sent_state s m q = ground arith

-- Where nothing else runs, a message that is sent and then received arrives with its value, if the
-- receiver has mapped its segment, and the control segment is clear again.
pub exchange :
    (s : System) (m : Message) (base : ℕ)
    → IsQuiet s
    → get_base s.mapped m.segment ≡ some base
    → let s' = run (run s (whole_send m)) whole_receive in
      IsQuiet s'
      × (s'.segment_id ≡ 0)
      × (s'.offset ≡ 0)
      × (s'.received ≡ s.received ++ (m.segment, m.offset) ∷ [])
      × (s'.contents ≡ s.contents ++ some m.content ∷ [])
unfolding run act receive_at
exchange s m base q known = rw (sent_state s m q) (ground arith)

-- A sender stores its value before it waits for the control segment. Let a message be published,
-- and a second sender store its value at the same segment and offset before the receiver has read:
-- then the receiver reads the second value for the first message.
pub exchange_overwritten :
    (s : System) (m later : Message) (base : ℕ)
    → IsQuiet s
    → get_base s.mapped m.segment ≡ some base
    → later.segment ≡ m.segment
    → later.offset ≡ m.offset
    → let s' = run (run (run s (whole_send m)) (starts later ∷ sends ∷ [])) whole_receive in
      (s'.received ≡ s.received ++ (m.segment, m.offset) ∷ [])
      × (s'.contents ≡ s.contents ++ some later.content ∷ [])
unfolding run act send_at receive_at
exchange_overwritten s m later base q known same same' = rw (sent_state s m q) (ground arith)

-- ===== src/Relative/Protocol/Order.antt =====
-- Every message is received once, and in order.
use cpp_code.Prelude.{
  ℕ, ◌≡◌, refl, ◌≢◌, List, [], ◌∷◌, ◌++◌, arith, ◌==◌, if◌then◌else◌, append-nil,
}
use cpp_code.Prelude.Int.{ℤ}
use cpp_code.Relative.{Registry}
use cpp_code.Relative.Protocol.{
  Sender, idle, storing, waiting, filling_segment, filling_offset, publishing, Receiver, polling,
  reading_segment, clearing_segment, clearing_offset, releasing, reading_offset, loading, System,
  send_at, receive_at, Action, starts, sends, receives, act, run, start,
}

abbrev SenderAt : Sender → System → Type 0
SenderAt (filling_segment m) s = s.ready ≡ 0
SenderAt (filling_offset m) s = (s.ready ≡ 0) × (s.segment_id ≡ m.segment)
SenderAt (publishing m) s = (s.ready ≡ 0) × (s.segment_id ≡ m.segment) × (s.offset ≡ m.offset)
SenderAt other s = Unit {0}

abbrev ReceiverAt : Receiver → System → Type 0
ReceiverAt polling s = Unit {0}
ReceiverAt (reading_offset segment) s = (s.ready ≢ 0) × (segment ≡ s.segment_id)
ReceiverAt (loading segment offset) s =
    (s.ready ≢ 0) × (segment ≡ s.segment_id) × (offset ≡ s.offset)
ReceiverAt other s = s.ready ≢ 0

-- What was published and not received yet.
abbrev pub outstanding : Receiver → System → List (ℕ × ℕ)
outstanding polling s = if s.ready == 0 then [] else (s.segment_id, s.offset) ∷ []
outstanding clearing_segment s = []
outstanding clearing_offset s = []
outstanding releasing s = []
outstanding other s = (s.segment_id, s.offset) ∷ []

pub record Inv (s : System) : Type 0 where
  pub at_sender : SenderAt s.sender s
  pub at_receiver : ReceiverAt s.receiver s
  pub all : s.received ++ outstanding s.receiver s ≡ s.sent

send-Inv : (p : Sender) (s : System) → s.sender ≡ p → Inv s → Inv (send_at p s)
unfolding send_at
send-Inv idle s e v = ground arith
send-Inv (storing m) s e v = ground arith
send-Inv (waiting m) s e v = ground arith
send-Inv (filling_segment m) s e v = ground arith
send-Inv (filling_offset m) s e v = ground arith
send-Inv (publishing m) s e v = ground (arith, append-nil s.received)

receive-Inv : (p : Receiver) (s : System) → s.receiver ≡ p → Inv s → Inv (receive_at p s)
unfolding receive_at
receive-Inv polling s e v = ground arith
receive-Inv reading_segment s e v = ground arith
receive-Inv (reading_offset segment) s e v = ground arith
receive-Inv (loading segment offset) s e v =
    ground (arith, append-nil (s.received ++ (segment, offset) ∷ []))
receive-Inv clearing_segment s e v = ground arith
receive-Inv clearing_offset s e v = ground arith
receive-Inv releasing s e v = ground arith

act-Inv : (s : System) (a : Action) → Inv s → Inv (act s a)
unfolding act
act-Inv s (starts m) v = ground arith
act-Inv s sends v = send-Inv s.sender s refl v
act-Inv s receives v = receive-Inv s.receiver s refl v

run-Inv : (s : System) (actions : List Action) → Inv s → Inv (run s actions)
unfolding run
run-Inv s [] v = v
run-Inv s (a ∷ actions) v = run-Inv (act s a) actions (act-Inv s a v)

-- Under every interleaving of the steps of senders, one after the other, with those of the
-- receiver, the receiver reads exactly the segments and offsets that were published, each once and
-- in order; at most one is outstanding, the one in the control segment.
pub run_ordered :
    (mapped : Registry) (cells : ℕ → ℕ → ℤ) (actions : List Action)
    → let s = run (start mapped cells) actions in s.received ++ outstanding s.receiver s ≡ s.sent
run_ordered mapped cells actions =
    (run-Inv (start mapped cells) actions
      (record { at_sender = tt; at_receiver = tt; all = refl })).all

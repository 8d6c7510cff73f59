-- ===== src/Relative/Protocol/Delivery.antt =====
-- The contents that the receiver reads, under every interleaving.
use cpp_code.Prelude.{
  ℕ, ◌≡◌, refl, ap, ◌≢◌, inl, inr, Option, none, some, List, [], ◌∷◌, ◌++◌, arith, Option-cases,
  append-nil,
}
use cpp_code.Prelude.Int.{ℤ}
use cpp_code.Relative.{Registry, get_base}
use cpp_code.Relative.Protocol.{
  Message, Sender, idle, storing, waiting, filling_segment, filling_offset, publishing, Receiver,
  polling, reading_segment, clearing_segment, clearing_offset, releasing, reading_offset, loading,
  System, send_at, receive_at, Action, starts, sends, receives, act, run, start,
}
use cpp_code.Relative.Protocol.Order.{outstanding}

abbrev pub IsMapped : System → ℕ → Type 0
IsMapped s segment = get_base s.mapped segment ≢ none

-- The place of the message is not that of one that was published and is not read.
abbrev pub IsUnused : List (ℕ × ℕ) → Message → Type 0
IsUnused [] m = Unit {0}
IsUnused ((segment, offset) ∷ places) m =
    ((segment ≡ m.segment) → (offset ≡ m.offset) → ⊥) × IsUnused places m

-- What is published and not read, as it stands in the cells.
abbrev pub unread : (ℕ → ℕ → ℤ) → List (ℕ × ℕ) → List (Option ℤ)
unread cells [] = []
unread cells ((segment, offset) ∷ places) = some (cells segment offset) ∷ unread cells places

abbrev AllMapped : System → List (ℕ × ℕ) → Type 0
AllMapped s [] = Unit {0}
AllMapped s ((segment, offset) ∷ places) = IsMapped s segment × AllMapped s places

pub somes : List ℤ → List (Option ℤ)
somes [] = []
somes (v ∷ vs) = some v ∷ somes vs

somes-append : (vs : List ℤ) (v : ℤ) → somes (vs ++ v ∷ []) ≡ somes vs ++ some v ∷ []
unfolding somes
somes-append [] v = refl
somes-append (x ∷ vs) v = ap (λ t. some x ∷ t) (somes-append vs v)

abbrev IsStored : System → Message → Type 0
IsStored s m = (s.cells m.segment m.offset ≡ m.content) × IsMapped s m.segment

abbrev SenderAt : Sender → System → Type 0
SenderAt idle s = Unit {0}
SenderAt (storing m) s = IsMapped s m.segment × IsUnused (outstanding s.receiver s) m
SenderAt (waiting m) s = IsStored s m
SenderAt (filling_segment m) s = (s.ready ≡ 0) × IsStored s m
SenderAt (filling_offset m) s = (s.ready ≡ 0) × (s.segment_id ≡ m.segment) × IsStored s m
SenderAt (publishing m) s =
    (s.ready ≡ 0) × (s.segment_id ≡ m.segment) × (s.offset ≡ m.offset) × IsStored s m

abbrev ReceiverAt : Receiver → System → Type 0
ReceiverAt polling s = Unit {0}
ReceiverAt (reading_offset segment) s = (s.ready ≢ 0) × (segment ≡ s.segment_id)
ReceiverAt (loading segment offset) s =
    (s.ready ≢ 0) × (segment ≡ s.segment_id) × (offset ≡ s.offset)
ReceiverAt other s = s.ready ≢ 0

record Inv (s : System) : Type 0 where
  at_sender : SenderAt s.sender s
  at_receiver : ReceiverAt s.receiver s
  known : AllMapped s (outstanding s.receiver s)
  all : s.contents ++ unread s.cells (outstanding s.receiver s) ≡ somes s.values

send-Inv : (p : Sender) (s : System) → s.sender ≡ p → Inv s → Inv (send_at p s)
unfolding send_at
send-Inv idle s e v = ground arith
send-Inv (storing m) s e v = ground arith
send-Inv (waiting m) s e v = ground arith
send-Inv (filling_segment m) s e v = ground arith
send-Inv (filling_offset m) s e v = ground arith
send-Inv (publishing m) s e v =
    ground (arith, append-nil s.contents, somes-append s.values m.content)

receive-Inv : (p : Receiver) (s : System) → s.receiver ≡ p → Inv s → Inv (receive_at p s)
unfolding receive_at
receive-Inv polling s e v = ground arith
receive-Inv reading_segment s e v = ground arith
receive-Inv (reading_offset segment) s e v = ground arith
receive-Inv (loading segment offset) s e v = elim (Option-cases (get_base s.mapped segment)) [
  | inl unmapped ↦ ground (arith, unmapped)
  | inr (base, found) ↦
      ground (arith, found, append-nil (s.contents ++ some (s.cells segment offset) ∷ []))
]
receive-Inv clearing_segment s e v = ground arith
receive-Inv clearing_offset s e v = ground arith
receive-Inv releasing s e v = ground arith

-- A sender is started with a segment that the receiver has mapped, and at a place that no message
-- has that is published and not read.
abbrev pub IsFresh : System → Action → Type 0
IsFresh s (starts m) = IsMapped s m.segment × IsUnused (outstanding s.receiver s) m
IsFresh s other = Unit {0}

abbrev pub AllFresh : System → List Action → Type 0
AllFresh s [] = Unit {0}
AllFresh s (a ∷ actions) = IsFresh s a × AllFresh (act s a) actions

act-Inv : (s : System) (a : Action) → IsFresh s a → Inv s → Inv (act s a)
unfolding act
act-Inv s (starts m) f v = ground arith
act-Inv s sends f v = send-Inv s.sender s refl v
act-Inv s receives f v = receive-Inv s.receiver s refl v

run-Inv : (s : System) (actions : List Action) → AllFresh s actions → Inv s → Inv (run s actions)
unfolding run
run-Inv s [] f v = v
run-Inv s (a ∷ actions) f v = run-Inv (act s a) actions f.1 (act-Inv s a f.0 v)

-- Let any steps of senders, one after the other, and of the receiver be taken, where each sender is
-- started with a segment that the receiver has mapped and at a place that no message has that is
-- published and not read. Then the contents that the receiver has read and the one that it is still
-- to read, as it stands in memory, are those that the senders have published, each once and in
-- order, and none is lost to an unknown segment.
pub run_delivers :
    (mapped : Registry) (cells : ℕ → ℕ → ℤ) (actions : List Action)
    → AllFresh (start mapped cells) actions
    → let s = run (start mapped cells) actions in
      s.contents ++ unread s.cells (outstanding s.receiver s) ≡ somes s.values
unfolding somes
run_delivers mapped cells actions fresh =
    (run-Inv (start mapped cells) actions fresh
      (record { at_sender = tt; at_receiver = tt; known = tt; all = refl })).all

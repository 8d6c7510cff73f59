-- ===== src/UdpClient/Waiting.antt =====
-- What the counter counts, and when the session's wait ends.
use native.Mathlib.Nat.{add_assoc}
use cpp_code.Prelude.{
  ℕ, ◌+◌, ◌≤◌, ◌<◌, ◌≡◌, refl, subst, Bool, false, not, ◌&&◌, List, [], ◌∷◌, arith, ◌==◌,
  if◌then◌else◌,
}
use cpp_code.UdpClient.{
  received, timed_out, Course, throws, answers, Client, new, request_count, awaited_count,
  time_flush_request, hello_request, client_session, Turn, session_turn, flush_ends, hello_ends,
  turn, turns,
}

-- How often a close that throws is counted, of the requests that run.
twice : Bool → Course → ℕ
twice none_runs throws = 0
twice none_runs (answers race close_throws) = if not none_runs && close_throws then 1 else 0

pub closes_thrown : Client → List Turn → ℕ
unfolding twice
closes_thrown s [] = 0
closes_thrown s (session_turn random ∷ ts) = closes_thrown (turn s (session_turn random)) ts
closes_thrown s (flush_ends course ∷ ts) =
    twice (s.flushes == 0) course + closes_thrown (turn s (flush_ends course)) ts
closes_thrown s (hello_ends course ∷ ts) =
    twice (s.hellos == 0) course + closes_thrown (turn s (hello_ends course)) ts

-- The requests that have ended, as the loop's index and the running ones say it.
record Inv (s : Client) (thrown : ℕ) : Type 0 where
  counts : s.counter + s.flushes + s.hellos ≡ s.i + thrown
  bounded : s.i ≤ request_count

session-Inv : (s : Client) (random thrown : ℕ) → Inv s thrown → Inv (client_session s random) thrown
unfolding client_session
session-Inv s random thrown v = ground arith

flush-Inv :
    (s : Client) (course : Course) (thrown : ℕ)
    → Inv s thrown
    → Inv (time_flush_request s course) (thrown + twice (s.flushes == 0) course)
unfolding time_flush_request twice
flush-Inv s throws thrown v = ground arith
flush-Inv s (answers received close_throws) thrown v = ground arith
flush-Inv s (answers timed_out close_throws) thrown v = ground arith

hello-Inv :
    (s : Client) (course : Course) (thrown : ℕ)
    → Inv s thrown
    → Inv (hello_request s course) (thrown + twice (s.hellos == 0) course)
unfolding hello_request twice
hello-Inv s throws thrown v = ground arith
hello-Inv s (answers received close_throws) thrown v = ground arith
hello-Inv s (answers timed_out close_throws) thrown v = ground arith

turns-Inv :
    (s : Client) (ts : List Turn) (thrown : ℕ)
    → Inv s thrown
    → Inv (turns s ts) (thrown + closes_thrown s ts)
unfolding turns turn closes_thrown
turns-Inv s [] thrown v = subst (Inv s) (omega arith) v
turns-Inv s (session_turn random ∷ ts) thrown v =
    turns-Inv (client_session s random) ts thrown (session-Inv s random thrown v)
turns-Inv s (flush_ends course ∷ ts) thrown v =
    rw (← add_assoc) (turns-Inv (time_flush_request s course) ts _ (flush-Inv s course thrown v))
turns-Inv s (hello_ends course ∷ ts) thrown v =
    rw (← add_assoc) (turns-Inv (hello_request s course) ts _ (hello-Inv s course thrown v))

-- Each request that has ended is counted once, whether it was answered, timed out or threw, and a
-- second time where its socket's close threw: after any turns, the counter and the requests that
-- run are together those spawned and the closes that threw.
pub requests_counted :
    (ts : List Turn)
    → let s = turns new ts in s.counter + s.flushes + s.hellos ≡ s.i + closes_thrown new ts
requests_counted ts =
    let v : Inv new 0 = record { counts = refl; bounded = omega arith } in
    omega (arith, (turns-Inv new ts 0 v).counts)

turn-overtaken :
    (s : Client) (t : Turn)
    → awaited_count < s.counter
    → s.completed ≡ false
    → (awaited_count < (turn s t).counter) × ((turn s t).completed ≡ false)
unfolding turn
turn-overtaken s (session_turn random) h off = ground arith
turn-overtaken s (flush_ends throws) h off = ground arith
turn-overtaken s (flush_ends (answers received close_throws)) h off = ground arith
turn-overtaken s (flush_ends (answers timed_out close_throws)) h off = ground arith
turn-overtaken s (hello_ends throws) h off = ground arith
turn-overtaken s (hello_ends (answers received close_throws)) h off = ground arith
turn-overtaken s (hello_ends (answers timed_out close_throws)) h off = ground arith

turns-overtaken :
    (s : Client) (ts : List Turn)
    → awaited_count < s.counter
    → s.completed ≡ false
    → (turns s ts).completed ≡ false
unfolding turns
turns-overtaken s [] h off = off
turns-overtaken s (t ∷ ts) h off =
    let (h', off') = turn-overtaken s t h off in turns-overtaken (turn s t) ts h' off'

-- Let the session be in its wait, with all 100000 requests spawned and none running any more, and
-- let the counter have counted each of them once, and once more for each close that threw. Then,
-- where the session has not seen the counter at 10000 before, it never ends its wait.
pub all_ended_hangs :
    (s : Client) (thrown : ℕ) (after : List Turn)
    → s.counter + s.flushes + s.hellos ≡ s.i + thrown
    → s.i ≡ request_count
    → s.flushes ≡ 0
    → s.hellos ≡ 0
    → s.completed ≡ false
    → (turns s after).completed ≡ false
all_ended_hangs s thrown after counts all no_flush no_hello off =
    turns-overtaken s after (omega (arith, counts, all, no_flush, no_hello)) off

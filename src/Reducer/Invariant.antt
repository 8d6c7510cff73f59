-- ===== src/Reducer/Invariant.antt =====
-- What holds of a StateReducer between two calls.
use cpp_code.Prelude.{
  ℕ, ◌^◌, ◌<◌, ◌≡◌, ◌⊎◌, inr, refl, List, [], ◌∷◌, none, some, arith, true, false,
}
use cpp_code.Prelude.Int.{ℤ, pos, ltb_ℤ}
use cpp_code.Reducer.{StateReducer, new, push, run, is_business}

pub record Inv (r : StateReducer) : Type 0 where
  pub fits : r.business_threshold < 2 ^ 64
  pub bounded : (r.business_count < r.business_threshold) ⊎ (r.business_count ≡ 0)
  pub shut_empty : r.window_start ≡ none → r.business_count ≡ 0
  pub count_last : r.business_count ≡ 0 → r.last_business_state ≡ none

push-Inv : (r : StateReducer) (now state : ℤ) → Inv r → Inv (push r now state).0
unfolding push
push-Inv r now state v = ground arith

new-Inv : (ms m : ℕ) → m < 2 ^ 64 → Inv (new ms m)
unfolding new
new-Inv ms m h = record {
  fits = h;
  bounded = inr refl;
  shut_empty = λ _. refl;
  count_last = λ _. refl;
}

run-Inv : (r : StateReducer) (calls : List (ℤ × ℤ)) → Inv r → Inv (run r calls).0
unfolding run
run-Inv r [] v = v
run-Inv r ((now, state) ∷ calls) v = run-Inv (push r now state).0 calls (push-Inv r now state v)

-- After any history of calls on a new reducer whose threshold is a 64-bit word, the number of
-- business states counted stays below the threshold or is 0 (so the counter never wraps), it is
-- 0 while no window is open, and where it is 0 no business state is remembered.
pub run-new-Inv : (ms m : ℕ) (calls : List (ℤ × ℤ)) → m < 2 ^ 64 → Inv (run (new ms m) calls).0
run-new-Inv ms m calls h = run-Inv (new ms m) calls (new-Inv ms m h)

-- The rules say that only 0 to 4 enter the window. A state that is none of 0, 1 to 4 and 6 and
-- above (5, or a negative one), met with no window open and a positive threshold, opens one: the
-- call returns 0, and all that it changes is that a window now begins at the call's time.
pub push_undocumented :
    (r : StateReducer) (now state : ℤ)
    → Inv r
    → 0 < r.business_threshold
    → r.window_start ≡ none
    → ltb_ℤ state (pos 6) ≡ true
    → is_business state ≡ false
    → push r now state ≡ (record r { window_start = some now }, pos 0)
unfolding push
push_undocumented r now state v pos_m shut small nb = ground arith

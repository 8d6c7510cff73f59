-- ===== src/Reducer/Window.antt =====
-- The documented rules of the confirmation window, over the list of the frames that it holds,
-- and the proof that StateReducer implements them.
use cpp_code.Prelude.{
  ℕ, ◌+◌, ◌*◌, ◌^◌, ◌<◌, ◌≡◌, ◌⊎◌, inr, refl, ap₂, List, [], ◌∷◌, ◌++◌, Option, none, some, arith,
  true, leb, if◌then◌else◌, ◌∙◌, Bool, false, ◌||◌,
}
use cpp_code.Prelude.Int.{◌+ℤ◌, ◌-ℤ◌, ℤ, pos, ◌≤ℤ◌, leb_ℤ, eq_ℤ}
use cpp_code.Reducer.{StateReducer, new, push, run, is_business, value_or, expired_since}

-- The rules' own words. A business state is 1, 2, 3 or 4.
unfoldable pub documented_business : ℤ → Bool
documented_business s = eq_ℤ s (pos 1) || eq_ℤ s (pos 2) || eq_ℤ s (pos 3) || eq_ℤ s (pos 4)

-- The window that the first frame opened, of length `n`, is over.
pub window_over : List (ℤ × ℤ) → ℤ → ℤ → Bool
window_over [] n now = false
window_over ((t, s) ∷ frames) n now = leb_ℤ (t +ℤ n) now

-- The last business state, or 0 where there is none.
pub last_or_zero : ℤ → List (ℤ × ℤ) → ℤ
last_or_zero last [] = last
last_or_zero last ((t, s) ∷ frames) =
    last_or_zero (if documented_business s then s else last) frames

-- The business states among the frames, and the last of them.
pub businesses : List (ℤ × ℤ) → ℕ
businesses [] = 0
businesses ((t, s) ∷ frames) = businesses frames + (if documented_business s then 1 else 0)

or_else : Option ℤ → Option ℤ → Option ℤ
or_else none o = o
or_else (some a) o = some a

pub last_business : List (ℤ × ℤ) → Option ℤ
unfolding or_else
last_business [] = none
last_business ((t, s) ∷ frames) =
    or_else (last_business frames) (if documented_business s then some s else none)

pub first_time : List (ℤ × ℤ) → Option ℤ
first_time [] = none
first_time ((t, s) ∷ frames) = some t

-- The rules: `n` is the window's length and `m` the threshold.
pub documented_push : ℤ → ℕ → List (ℤ × ℤ) → ℤ → ℤ → List (ℤ × ℤ) × ℤ
documented_push n m frames now state =
    let frames' = frames ++ (now, state) ∷ [] in
    if leb_ℤ (pos 6) state
    then ([], state)
    else if window_over frames n now
    then ([], (if documented_business state then state else last_or_zero (pos 0) frames))
    else if leb m (businesses frames')
    then ([], pos 5)
    else (frames', pos 0)

pub documented_run : ℤ → ℕ → List (ℤ × ℤ) → List (ℤ × ℤ) → List ℤ
documented_run n m frames [] = []
documented_run n m frames ((now, state) ∷ calls) =
    let (frames', out) = documented_push n m frames now state in
    out ∷ documented_run n m frames' calls

-- The states that the rules speak of: 0, 1 to 4, and 6 and above.
abbrev pub IsDocumented : ℤ → Type 0
IsDocumented s = (s ≡ pos 0) ⊎ (documented_business s ≡ true) ⊎ (pos 6 ≤ℤ s)

abbrev pub AllDocumented : List (ℤ × ℤ) → Type 0
AllDocumented [] = Unit {0}
AllDocumented ((t, s) ∷ calls) = IsDocumented s × AllDocumented calls

-- The code's tests decide what the rules say.
is_business-documented : (s : ℤ) → is_business s ≡ documented_business s
unfolding is_business documented_business
is_business-documented s = ground arith

expired-over :
    (frames : List (ℤ × ℤ)) (n now : ℤ)
    → expired_since (first_time frames) n now ≡ window_over frames n now
unfolding expired_since first_time window_over ◌+ℤ◌ ◌-ℤ◌
expired-over [] n now = refl
expired-over ((t, s) ∷ frames) n now = ground arith

last_or_zero-value_or :
    (last : ℤ) (frames : List (ℤ × ℤ))
    → last_or_zero last frames ≡ value_or (last_business frames) last
unfolding last_or_zero last_business value_or or_else
last_or_zero-value_or last [] = refl
last_or_zero-value_or last ((t, s) ∷ frames) =
    last_or_zero-value_or (if documented_business s then s else last) frames ∙ ground (arith)

businesses-append :
    (frames : List (ℤ × ℤ)) (t s : ℤ)
    → businesses (frames ++ (t, s) ∷ [])
      ≡ businesses frames + (if documented_business s then 1 else 0)
unfolding businesses
businesses-append [] t s = refl
businesses-append ((u, x) ∷ frames) t s = omega (arith, businesses-append frames t s)

last_business-append :
    (frames : List (ℤ × ℤ)) (t s : ℤ)
    → last_business (frames ++ (t, s) ∷ [])
      ≡ (if documented_business s then some s else last_business frames)
unfolding last_business
last_business-append [] t s = ground arith
last_business-append ((u, x) ∷ frames) t s = ground (arith, last_business-append frames t s)

first_time-append :
    (frames : List (ℤ × ℤ)) (t s : ℤ)
    → first_time (frames ++ (t, s) ∷ []) ≡ or_else (first_time frames) (some t)
unfolding first_time or_else
first_time-append [] t s = refl
first_time-append ((u, x) ∷ frames) t s = refl

-- The reducer's fields are what the frames amount to.
pub record Represents (frames : List (ℤ × ℤ)) (r : StateReducer) : Type 0 where
  pub start : r.window_start ≡ first_time frames
  pub count : r.business_count ≡ businesses frames
  pub last : r.last_business_state ≡ last_business frames
  pub below : (businesses frames < r.business_threshold) ⊎ (businesses frames ≡ 0)

push-Represents :
    (frames : List (ℤ × ℤ)) (r : StateReducer) (now state : ℤ)
    → r.business_threshold < 2 ^ 64
    → IsDocumented state
    → Represents frames r
    → let (r', out) = push r now state in
      let (frames', out') =
        documented_push r.confirm_window r.business_threshold frames now state in
      Represents frames' r' × (out ≡ out')
unfolding push documented_push or_else first_time businesses last_business
push-Represents frames r now state w d v = ground (
  arith,
  businesses-append frames now state,
  last_business-append frames now state,
  first_time-append frames now state,
  is_business-documented state,
  expired-over frames r.confirm_window now,
  last_or_zero-value_or (pos 0) frames,
)

push_config :
    (r : StateReducer) (now state : ℤ)
    → ((push r now state).0.confirm_window ≡ r.confirm_window)
      × ((push r now state).0.business_threshold ≡ r.business_threshold)
unfolding push
push_config r now state = ground arith

run-documented :
    (frames calls : List (ℤ × ℤ)) (r : StateReducer)
    → r.business_threshold < 2 ^ 64
    → Represents frames r
    → AllDocumented calls
    → (run r calls).1 ≡ documented_run r.confirm_window r.business_threshold frames calls
unfolding run documented_run
run-documented frames [] r w v d = refl
run-documented frames ((now, state) ∷ calls) r w v d =
    let (r', out) = push r now state in
    let (frames', out') = documented_push r.confirm_window r.business_threshold frames now state in
    let step = push-Represents frames r now state w d.0 v in
    let config = push_config r now state in
    let rest = run-documented frames' calls r' (omega arith) step.0 d.1 in
    ap₂ ◌∷◌ step.1 (rw (config.0, config.1) at rest)

-- On any history of calls whose states are 0, 1 to 4, or 6 and above, and for any threshold that
-- is a 64-bit word, a new reducer returns what the documented rules of the confirmation window
-- return, call by call.
pub run-new_documented :
    (ms m : ℕ) (calls : List (ℤ × ℤ))
    → m < 2 ^ 64
    → AllDocumented calls
    → (run (new ms m) calls).1 ≡ documented_run (pos (ms * 1000000)) m [] calls
unfolding new first_time businesses last_business
run-new_documented ms m calls w d =
    run-documented [] calls _ w
      (record { start = refl; count = refl; last = refl; below = inr refl }) d

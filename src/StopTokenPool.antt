-- ===== src/StopTokenPool.antt =====
-- cpp_test/stand_cpp/011.stop_token/011.stop_token.cpp: ThreadPool and test_stop_token. Tasks are
-- numbers. add_task is two steps, the test of the flag and what it does under the mutex; stop sets
-- the flag and then holds the mutex, and is one step where its joins return.
pub mod Joining
mod Tests
use cpp_code.Prelude.{
  ℕ, zero, suc, ◌+◌, ◌-◌, ◌*◌, ◌/◌, ◌%◌, ◌^◌, ◌≤◌, ◌<◌, ◌≡◌, refl, sym, ap, ap₂, ◌∙◌, subst, ◌≢◌,
  ◌↔◌, ◌⊎◌, inl, inr, Bool, true, false, not, ◌&&◌, ◌||◌, Option, none, some, List, [], ◌∷◌, ◌++◌,
  arith, ltb, leb, ◌==◌, if◌then◌else◌, Bool-cases, Option-cases,
}

-- `adding` are the calls of add_task between the flag and the mutex; `joined` are the tasks that
-- stop has asked to stop and joined.
pub record Pool : Type 0 where
  pub is_running : Bool
  pub adding : List ℕ
  pub workers : List ℕ
  pub joined : List ℕ

abbrev pub new : Pool
new = record { is_running = true; adding = []; workers = []; joined = [] }

-- What add_task returns is the flag.
unfoldable pub add_task : Pool → ℕ → Pool
add_task p task = if p.is_running then record p { adding = p.adding ++ task ∷ [] } else p

-- The list without its i-th task, and the task.
unfoldable pub taken : List ℕ → ℕ → Option ℕ × List ℕ
taken [] i = (none, [])
taken (task ∷ adding) zero = (some task, adding)
taken (task ∷ adding) (suc i) = let (got, rest) = taken adding i in (got, task ∷ rest)

entered : Pool → Option ℕ × List ℕ → Pool
entered p (none, adding) = p
entered p (some task, adding) = record p { adding = adding; workers = p.workers ++ task ∷ [] }

-- The i-th of the waiting calls gets the mutex: a mutex lets any of them in.
unfoldable pub enter : Pool → ℕ → Pool
unfolding taken entered
enter p i = entered p (taken p.adding i)

unfoldable pub stop : Pool → Pool
stop p = record p { is_running = false; workers = []; joined = p.joined ++ p.workers }

none_left : List ℕ → Bool
none_left [] = true
none_left (task ∷ tasks) = false

-- The jthreads of the workers that are left are destroyed with the pool: each is joined, and the
-- stop source of its token is not asked. Whether the destructor returns, where a task runs until it
-- is asked, as test_stop_token does.
unfoldable pub destroyed : Pool → Bool
unfolding none_left
destroyed p = none_left p.workers

printed : Option ℕ → Option ℕ
printed none = none
printed (some n) = some (suc n)

-- test_stop_token, where the token's answers are given: how often it prints, or none where the
-- token has not answered true within them.
unfoldable pub test_stop_token : List Bool → Option ℕ
unfolding printed
test_stop_token [] = none
test_stop_token (true ∷ answers) = some 0
test_stop_token (false ∷ answers) = printed (test_stop_token answers)

pub data Action : Type 0 where
  adds enters : ℕ → Action
  stops : Action

unfoldable pub act : Pool → Action → Pool
unfolding add_task enter stop
act p (adds task) = add_task p task
act p (enters i) = enter p i
act p stops = stop p

unfoldable pub history : Pool → List Action → Pool
unfolding act
history p [] = p
history p (a ∷ actions) = history (act p a) actions

-- The tasks that the calls of a history accept.
unfoldable pub accepted : Pool → List Action → List ℕ
unfolding act
accepted p [] = []
accepted p (adds task ∷ actions) =
    (if p.is_running then task ∷ [] else []) ++ accepted (act p (adds task)) actions
accepted p (enters i ∷ actions) = accepted (act p (enters i)) actions
accepted p (stops ∷ actions) = accepted (act p stops) actions

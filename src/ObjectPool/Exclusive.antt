-- ===== src/ObjectPool/Exclusive.antt =====
-- Who holds a slot, and what the sensors have.
use cpp_code.Prelude.{
  ℕ, zero, suc, ◌+◌, ◌≤◌, ◌<◌, ◌≡◌, refl, ◌∙◌, List, [], ◌∷◌, arith, ltb, if◌then◌else◌,
}
use cpp_code.ObjectPool.{pool_size, MpmcLoffli, Sensor, Worker, Demo, new, worker_at, turn, turns}
use cpp_code.ObjectPool.Held.{held, held_count, EachWritten, AllWritten-kept, EachWritten-kept}
use cpp_code.ObjectPool.Turns.{Moved, worker-Moved}

-- The slots that some worker could not free.
abbrev pub lost : List Worker → ℕ
lost [] = 0
lost (w ∷ ws) = w.unfreed + lost ws

module _ {F : Type 0} (queue : MpmcLoffli F) where
  abbrev AllOwn : F → List Worker → Type 0
  AllOwn f ws = (slot : ℕ) → 1 ≤ held slot ws → (queue.free f slot ≡ 0) × (slot < pool_size)

  record AllMoved (t : ℕ) (f f' : F) (sensors sensors' : ℕ → Sensor) (ws ws' : List Worker)
      : Type 0 where
    free : (slot : ℕ) → queue.free f' slot + held slot ws' ≡ queue.free f slot + held slot ws
    size : queue.size f' + held_count ws' ≡ queue.size f + held_count ws
    kept : (slot : ℕ) → queue.free f slot ≡ 0 → sensors' slot ≡ sensors slot
    written : EachWritten t sensors ws → EachWritten t sensors' ws'
    unfreed : lost ws' ≡ lost ws

  first-AllMoved :
      (t : ℕ) (f f' : F) (sensors sensors' : ℕ → Sensor) (w w' : Worker) (ws : List Worker)
      → AllOwn f (w ∷ ws)
      → Moved queue t f f' sensors sensors' w w'
      → AllMoved t f f' sensors sensors' (w ∷ ws) (w' ∷ ws)
  first-AllMoved t f f' sensors sensors' w w' ws own v = record {
    free = λ slot. omega (arith, v.free slot);
    size = omega (arith, v.size);
    kept = v.kept;
    written = λ (first, rest). (
      v.written first,
      EachWritten-kept (suc t) sensors sensors' ws
          (λ slot h. v.kept slot (own slot (omega (arith, h))).0) rest,
    );
    unfreed = omega (arith, v.unfreed);
  }

  later-AllMoved :
      (t : ℕ) (f f' : F) (sensors sensors' : ℕ → Sensor) (w : Worker) (ws ws' : List Worker)
      → AllOwn f (w ∷ ws)
      → AllMoved (suc t) f f' sensors sensors' ws ws'
      → AllMoved t f f' sensors sensors' (w ∷ ws) (w ∷ ws')
  later-AllMoved t f f' sensors sensors' w ws ws' own v = record {
    free = λ slot. omega (arith, v.free slot);
    size = omega (arith, v.size);
    kept = v.kept;
    written = λ (first, rest). (
      AllWritten-kept t sensors sensors' w.acquired
          (λ slot h. v.kept slot (own slot (omega (arith, h))).0) first,
      v.written rest,
    );
    unfreed = omega (arith, v.unfreed);
  }

  worker_at-AllMoved :
      (t : ℕ) (f : F) (sensors : ℕ → Sensor) (ws : List Worker) (k : ℕ)
      → AllOwn f ws
      → let (f', sensors', ws') = worker_at queue t f sensors ws k in
        AllMoved t f f' sensors sensors' ws ws'
  unfolding worker_at
  worker_at-AllMoved t f sensors [] k own = record {
    free = λ slot. refl;
    size = refl;
    kept = λ slot h. refl;
    written = λ v. v;
    unfreed = refl;
  }
  worker_at-AllMoved t f sensors (w ∷ ws) zero own =
      first-AllMoved t f _ sensors _ w _ ws own
        (worker-Moved queue t f sensors w (λ slot h. own slot (omega (arith, h))))
  worker_at-AllMoved t f sensors (w ∷ ws) (suc k) own =
      later-AllMoved t f _ sensors _ w ws _ own
        (worker_at-AllMoved (suc t) f sensors ws k (λ slot h. own slot (omega (arith, h))))

  -- Each slot is in the list or held by one worker.
  pub record Inv (s : Demo F) : Type 0 where
    pub each :
        (slot : ℕ)
        → queue.free s.loffli slot + held slot s.workers ≡ (if ltb slot pool_size then 1 else 0)
    pub size : queue.size s.loffli + held_count s.workers ≡ pool_size
    pub written : EachWritten 0 s.sensors s.workers
    pub unfreed : lost s.workers ≡ 0

  owned :
      (free held slot : ℕ)
      → free + held ≡ (if ltb slot pool_size then 1 else 0)
      → 1 ≤ held
      → (free ≡ 0) × (slot < pool_size)
  owned free held slot e h = ground arith

  pub turn-Inv : (s : Demo F) (k : ℕ) → Inv s → Inv (turn queue s k)
  unfolding turn
  turn-Inv s k v =
      let moved =
        worker_at-AllMoved 0 s.loffli s.sensors s.workers k
          (λ slot h. owned _ _ slot (v.each slot) h) in
      record {
        each = λ slot. moved.free slot ∙ v.each slot;
        size = moved.size ∙ v.size;
        written = moved.written v.written;
        unfreed = moved.unfreed ∙ v.unfreed;
      }

  pub turns-Inv : (s : Demo F) (ks : List ℕ) → Inv s → Inv (turns queue s ks)
  unfolding turns
  turns-Inv s [] v = v
  turns-Inv s (k ∷ ks) v = turns-Inv (turn queue s k) ks (turn-Inv s k v)

  pub new-Inv :
      (f : F)
      → ((slot : ℕ) → queue.free f slot ≡ (if ltb slot pool_size then 1 else 0))
      → queue.size f ≡ pool_size
      → Inv (new f)
  new-Inv f all size = record {
    each = λ slot. omega (arith, all slot);
    size = omega (arith, size);
    written = (tt, (tt, (tt, (tt, tt))));
    unfreed = refl;
  }

  -- From a list of all slots of the pool, in whatever order the workers take their turns, each slot
  -- is either in the list or held by exactly one worker, each sensor that a worker holds has what
  -- that worker wrote into it on one of its rounds, and no worker has failed to free a slot.
  pub exclusive :
      (f : F) (ks : List ℕ)
      → ((slot : ℕ) → queue.free f slot ≡ (if ltb slot pool_size then 1 else 0))
      → queue.size f ≡ pool_size
      → let s = turns queue (new f) ks in
        ((slot : ℕ)
          → queue.free s.loffli slot + held slot s.workers ≡ (if ltb slot pool_size then 1 else 0))
        × EachWritten 0 s.sensors s.workers
        × (lost s.workers ≡ 0)
  exclusive f ks all size =
      let v = turns-Inv (new f) ks (new-Inv f all size) in (v.each, v.written, v.unfreed)

-- ===== src/TaskQueue/Worker.antt =====
-- LxcQueue (include_priv/lxcqueue.h, liblxcd/lxcqueue.cpp) and Task (liblxcd/common-task.cpp): the
-- task queue with its worker thread. A step is one section under the mutex, or the run of a task.
-- The threads' interleavings are the sequences of steps.
use ymir_project.Base.{
  ℕ, zero, suc, ◌≡◌, ◌≢◌, Bool, true, false, not, ◌&&◌, Option, none, some, List, [], ◌∷◌, ◌++◌,
  if◌then◌else◌,
}
use ymir_project.Buffer.{◌>>=◌}
use ymir_project.Host.{ℤ}
use ymir_project.TaskQueue.{Ptr, null, Queue, new_queue, is_empty, enqueue, dequeue}

-- A task with its callback and the callback's data, which may be null.
pub record Task (C D : Type 0) : Type 0 where
  pub m_callback : Option C
  pub m_data : Option D

-- invokeCallback(retCode): the call that is made, if one is.
unfoldable pub invoke_callback : {C D : Type 0} → Task C D → ℤ → Option (C × Option D × ℤ)
invoke_callback task code = do callback ← task.m_callback; some (callback, task.m_data, code)

unfoldable pub set_callback : {C D : Type 0} → Option C → Option D → Task C D → Task C D
set_callback cb d task = record { m_callback = cb; m_data = d }

unfoldable pub set_data : {C D : Type 0} → Option D → Task C D → Task C D
set_data d task = record task { m_data = d }

pub record LxcQueue (T : Type 0) : Type 0 where
  pub tasks : Queue T
  pub stopped : Bool

-- What the worker does after it has looked at the queue under the mutex.
pub data Turn (T : Type 0) : Type 0 where
  waits : Turn T
  leaves : Turn T
  takes : LxcQueue T → T → Turn T

pub data Phase (T : Type 0) : Type 0 where
  idle : Phase T
  running : T → Phase T
  finished : Phase T

module _ {T : Type 0} where
  unfoldable pub add_task : Ptr → T → LxcQueue T → Option (LxcQueue T)
  add_task p task q = do ts ← enqueue p task q.tasks; some (record q { tasks = ts })

  unfoldable pub stop : LxcQueue T → LxcQueue T
  stop q = record q { stopped = true }

  unfoldable pub is_finished : LxcQueue T → Bool
  is_finished q = is_empty q.tasks

  -- A null task is run: the program fails.
  abbrev pub taken : LxcQueue T → Queue T × Option T → Option (Turn T)
  taken q (ts, none) = none
  taken q (ts, some task) = some (takes (record q { tasks = ts }) task)

  -- The part of run() under the mutex.
  unfoldable pub turn : LxcQueue T → Option (Turn T)
  turn q =
      if is_empty q.tasks && not q.stopped
      then some waits
      else if q.stopped && is_empty q.tasks
      then some leaves
      else (dequeue q.tasks >>= taken q)

-- The queue, the worker, and the history: the tasks given to addTask, and those that were run, with
-- their return codes.
pub record System (T : Type 0) : Type 0 where
  pub queue : LxcQueue T
  pub phase : Phase T
  pub added : List T
  pub done : List (T × ℤ)

module _ {T : Type 0} where
  abbrev pub started : System T
  started = record {
    queue = record { tasks = new_queue (λ p. none); stopped = false };
    phase = idle;
    added = [];
    done = [];
  }

  pub data Step : System T → System T → Type 0 where
    adds :
        {s : System T} (p : Ptr) (task : T) (q : LxcQueue T)
        → p ≢ null
        → s.queue.tasks.heap p ≡ none
        → add_task p task s.queue ≡ some q
        → Step s (record s { queue = q; added = s.added ++ task ∷ [] })
    stops : {s : System T} → Step s (record s { queue = stop s.queue })
    takes_task :
        {s : System T} (q : LxcQueue T) (task : T)
        → s.phase ≡ idle
        → turn s.queue ≡ some (takes q task)
        → Step s (record s { queue = q; phase = running task })
    ends_task :
        {s : System T} (task : T) (code : ℤ)
        → s.phase ≡ running task
        → Step s (record s { phase = idle; done = s.done ++ (task, code) ∷ [] })
    leaves_loop :
        {s : System T}
        → s.phase ≡ idle
        → turn s.queue ≡ some leaves
        → Step s (record s { phase = finished })

  pub data Reachable : System T → Type 0 where
    begin : Reachable started
    then_step : {s t : System T} → Reachable s → Step s t → Reachable t

  -- run() with no other thread in between, for at most `fuel` rounds of its loop; `none` when the
  -- program fails, or the fuel does not suffice, or the worker would wait.
  unfoldable pub work : (T → ℤ) → ℕ → System T → Option (System T)
  work run zero s = none
  work run (suc fuel) s = turn s.queue >>= λ u. elim u [
    | waits ↦ none
    | leaves ↦ some (record s { phase = finished })
    | takes q task ↦ work run fuel (record s { queue = q; done = s.done ++ (task, run task) ∷ [] })
  ]

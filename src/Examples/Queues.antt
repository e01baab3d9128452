-- ===== src/Examples/Queues.antt =====
-- The theorems on the task queue at a queue of two tasks, which are numbers here.
use ymir_project.Base.{ℕ, ◌≡◌, refl, true, false, some, none, [], ◌∷◌, arith}
use ymir_project.Host.{pos}
use ymir_project.TaskQueue.{Queue, is_empty, node, new_queue, enqueue, dequeue, write}
use ymir_project.TaskQueue.Fifo.{IsQueue, Dequeued, dequeue-Dequeued}
use ymir_project.TaskQueue.Worker.{
  LxcQueue, turn, leaves, takes, idle, System, started, Reachable, begin, then_step, adds, stops,
  takes_task, ends_task, stop, add_task, work,
}
use ymir_project.TaskQueue.Order.{InOrder, Drained, Reachable-InOrder, work-Drained}

abbrev two : Queue ℕ
two = record {
  heap = write (write (λ p. none) 1 (some (node 70 2))) 2 (some (node 80 0));
  head = 1;
  tail = 2;
}

two-IsQueue : IsQueue two (70 ∷ 80 ∷ [])
unfolding write
two-IsQueue = record {
  cells = (1, 70) ∷ (2, 80) ∷ [];
  values = refl;
  chain = (
    λ e. absurd (omega arith),
    refl,
    (λ e. absurd (omega arith), tt),
    (λ e. absurd (omega arith), refl, tt, tt),
  );
  head_first = refl;
  tail_last = refl;
}

free_three : two.heap 3 ≡ none
unfolding write
free_three = refl

-- One task is added and the queue is stopped.
abbrev added_one : System ℕ
added_one = record {
  queue = record {
    tasks = record { heap = write (λ q. none) 1 (some (node 70 0)); head = 1; tail = 1 };
    stopped = false;
  };
  phase = idle;
  added = 70 ∷ [];
  done = [];
}

abbrev stopped_one : System ℕ
stopped_one = record added_one { queue = stop added_one.queue }

adds_one : add_task 1 70 started.queue ≡ some added_one.queue
unfolding add_task enqueue new_queue
adds_one = refl

no_cell : (started {T = ℕ}).queue.tasks.heap 1 ≡ none
unfolding new_queue
no_cell = refl

added_one-Reachable : Reachable added_one
added_one-Reachable =
    then_step begin (adds 1 70 added_one.queue (λ e. absurd (omega arith)) no_cell adds_one)

stopped_one-Reachable : Reachable stopped_one
stopped_one-Reachable = then_step added_one-Reachable stops

stopped_now : stopped_one.queue.stopped ≡ true
unfolding stop
stopped_now = refl

Reachable-InOrder_example : InOrder stopped_one
Reachable-InOrder_example = Reachable-InOrder {s = stopped_one} stopped_one-Reachable

work-Drained_example :
    (t : System ℕ) × (work (λ n. pos n) 2 stopped_one ≡ some t) × Drained stopped_one t
work-Drained_example = work-Drained (λ n. pos n) stopped_one stopped_one-Reachable refl stopped_now

-- The task is taken and run.
abbrev empty_again : LxcQueue ℕ
empty_again = record {
  tasks = record {
    heap = write (write (λ q. none) 1 (some (node 70 0))) 1 none;
    head = 0;
    tail = 0;
  };
  stopped = true;
}

abbrev ran_one : System ℕ
ran_one = record { queue = empty_again; phase = idle; added = 70 ∷ []; done = (70, pos 0) ∷ [] }

takes_one : turn stopped_one.queue ≡ some (takes empty_again 70)
unfolding turn stop dequeue is_empty write
takes_one = refl

leaves_now : turn empty_again ≡ some leaves
unfolding turn is_empty
leaves_now = refl

ran_one-Reachable : Reachable ran_one
ran_one-Reachable =
    then_step (then_step stopped_one-Reachable (takes_task empty_again 70 refl takes_one))
      (ends_task 70 (pos 0) refl)

dequeue-Dequeued_example : Dequeued two (70 ∷ 80 ∷ []) (dequeue two)
dequeue-Dequeued_example = dequeue-Dequeued two (70 ∷ 80 ∷ []) two-IsQueue

-- ===== src/TaskQueue/Order.antt =====
-- The worker of lxcqueue.cpp runs the tasks that were added, each once and in their order.
use ymir_project.Base.{
  ℕ, zero, suc, ◌<◌, ◌≡◌, ◌≢◌, refl, sym, ap, subst, ◌∙◌, Bool, true, false, Option, none, some,
  List, [], ◌∷◌, ◌++◌, map, map-append, append-nil, append_assoc, arith, length, length-append,
  Bool-cases, inl, inr, if◌then◌else◌, ==_ne,
}
use ymir_project.Host.{ℤ}
use ymir_project.TaskQueue.{Ptr, null, Queue, is_empty, enqueue}
use ymir_project.TaskQueue.Fifo.{
  IsQueue, new_queue-IsQueue, enqueue-append, dequeue-Dequeued, Cells, Chain, first, value_of,
}
use ymir_project.TaskQueue.Worker.{
  LxcQueue, Turn, waits, leaves, takes, Phase, idle, running, finished, add_task, stop, turn,
  System, Step, adds, stops, takes_task, ends_task, leaves_loop, Reachable, begin, then_step, work,
}

module _ {T : Type 0} where
  abbrev pub ran : T × ℤ → T
  ran d = d.0

  abbrev pub in_hand : Phase T → List T
  in_hand idle = []
  in_hand (running task) = task ∷ []
  in_hand finished = []

  -- The list queue holds what is left of the added tasks.
  pub record InOrder (s : System T) : Type 0 where
    pub waiting : List T
    pub is_queue : IsQueue s.queue.tasks waiting
    pub order : s.added ≡ map ran s.done ++ (in_hand s.phase ++ waiting)

  is_empty-nil : (q : Queue T) → IsQueue q [] → is_empty q ≡ true
  unfolding is_empty
  is_empty-nil q is = go is.cells is.values is.head_first
    where
      go : (cs : Cells T) → [] ≡ map value_of cs → q.head ≡ first cs → is_empty q ≡ true
      go [] vs hd = rw hd refl
      go (c ∷ cs) vs hd = absurd cc

  is_empty-cons : (q : Queue T) (x : T) (xs : List T) → IsQueue q (x ∷ xs) → is_empty q ≡ false
  unfolding is_empty
  is_empty-cons q x xs is = go is.cells is.values is.chain is.head_first
    where
      go :
          (cs : Cells T)
          → x ∷ xs ≡ map value_of cs
          → Chain q.heap cs
          → q.head ≡ first cs
          → is_empty q ≡ false
      go [] vs ch hd = absurd cc
      go (c ∷ cs) vs ch hd = rw (hd, ==_ne c.0 null ch.0) refl

  -- What the worker finds under the mutex.
  abbrev pub Found : LxcQueue T → List T → Option (Turn T) → Type 0
  Found q [] o = o ≡ some (if q.stopped then leaves else waits)
  Found q (x ∷ xs) o = (r : Queue T) × (o ≡ some (takes (record q { tasks = r }) x)) × IsQueue r xs

  turn_nil :
      (q : LxcQueue T) → IsQueue q.tasks [] → turn q ≡ some (if q.stopped then leaves else waits)
  unfolding turn
  turn_nil q is = elim (Bool-cases q.stopped) [
    | inl e ↦ rw (is_empty-nil q.tasks is, e) refl
    | inr e ↦ rw (is_empty-nil q.tasks is, e) refl
  ]

  turn_cons :
      (q : LxcQueue T) (x : T) (xs : List T) → IsQueue q.tasks (x ∷ xs) → Found q (x ∷ xs) (turn q)
  unfolding turn
  turn_cons q x xs is =
      let (r, e, is') = dequeue-Dequeued q.tasks (x ∷ xs) is in
      elim (Bool-cases q.stopped) [
        | inl b ↦ (r, rw (is_empty-cons q.tasks x xs is, b, e) refl, is')
        | inr b ↦ (r, rw (is_empty-cons q.tasks x xs is, b, e) refl, is')
      ]

  -- Under the mutex the worker does not fail: with tasks left it takes the oldest, whether the queue
  -- is stopped or not, and else it leaves if the queue is stopped and waits if it is not.
  pub turn-Found : (q : LxcQueue T) (xs : List T) → IsQueue q.tasks xs → Found q xs (turn q)
  turn-Found q [] is = turn_nil q is
  turn-Found q (x ∷ xs) is = turn_cons q x xs is

  takes_inj : {a b : LxcQueue T} {x y : T} → some (takes a x) ≡ some (takes b y) → a ≡ b
  takes_inj e = cc

  turn-takes :
      (q r : LxcQueue T) (task : T) (xs : List T)
      → IsQueue q.tasks xs
      → turn q ≡ some (takes r task)
      → (ys : List T) × (xs ≡ task ∷ ys) × IsQueue r.tasks ys
  turn-takes q r task [] is e = absurd (idle_turn q.stopped (sym (turn_nil q is) ∙ e))
    where
      idle_turn :
          (b : Bool) → some (if◌then◌else◌ {A = Turn T} b leaves waits) ≢ some (takes r task)
      idle_turn true f = cc
      idle_turn false f = cc
  turn-takes q r task (x ∷ xs) is e =
      let (r', e', is') = turn_cons q x xs is in
      let f : some (takes (record q { tasks = r' }) x) ≡ some (takes r task) = sym e' ∙ e in
      (xs, ap (λ z. z ∷ xs) cc, subst (λ (m : LxcQueue T). IsQueue m.tasks xs) (takes_inj f) is')

  turn-leaves :
      (q : LxcQueue T) (xs : List T)
      → IsQueue q.tasks xs
      → turn q ≡ some leaves
      → (q.stopped ≡ true) × (xs ≡ [])
  turn-leaves q [] is e = elim (Bool-cases q.stopped) [
    | inl b ↦ (b, refl)
    | inr b ↦ absurd (waiting_turn q.stopped b (sym (turn_nil q is) ∙ e))
  ]
    where
      waiting_turn :
          (b : Bool) → b ≡ false → some (if◌then◌else◌ {A = Turn T} b leaves waits) ≢ some leaves
      waiting_turn true f g = cc
      waiting_turn false f g = cc
  turn-leaves q (x ∷ xs) is e = let (r, e', is') = turn_cons q x xs is in absurd cc

  some_inj : {a b : LxcQueue T} → some a ≡ some b → a ≡ b
  some_inj e = cc

  stop-tasks : (q : LxcQueue T) → q.tasks ≡ (stop q).tasks
  unfolding stop
  stop-tasks q = refl

  add_task_lem :
      (p : Ptr) (task : T) (q : LxcQueue T) (ts : Queue T)
      → enqueue p task q.tasks ≡ some ts
      → add_task p task q ≡ some (record q { tasks = ts })
  unfolding add_task
  add_task_lem p task q ts f = rw f refl

  add_task-InOrder :
      (s : System T) (p : Ptr) (task : T) (q : LxcQueue T)
      → p ≢ null
      → s.queue.tasks.heap p ≡ none
      → add_task p task s.queue ≡ some q
      → InOrder s
      → InOrder (record s { queue = q; added = s.added ++ task ∷ [] })
  add_task-InOrder s p task q nz free e o =
      let (ts, e', is') = enqueue-append s.queue.tasks o.waiting p task o.is_queue nz free in
      record {
        waiting = o.waiting ++ task ∷ [];
        is_queue =
            subst (λ m. IsQueue m.tasks (o.waiting ++ task ∷ []))
              (some_inj (sym (add_task_lem p task s.queue ts e') ∙ e)) is';
        order =
            ap (λ l. l ++ task ∷ []) o.order
            ∙ append_assoc (map ran s.done) (in_hand s.phase ++ o.waiting) (task ∷ [])
            ∙ ap (◌++◌ (map ran s.done)) (append_assoc (in_hand s.phase) o.waiting (task ∷ []));
      }

  next_order :
      (done : List (T × ℤ)) (x : T) (code : ℤ) (xs : List T)
      → map ran done ++ x ∷ xs ≡ map ran (done ++ (x, code) ∷ []) ++ xs
  next_order done x code xs =
      rw (map-append ran done ((x, code) ∷ []), append_assoc (map ran done) (x ∷ []) xs) refl

  at_phase :
      (s : System T) (o : InOrder s) {p : Phase T}
      → s.phase ≡ p
      → s.added ≡ map ran s.done ++ (in_hand p ++ o.waiting)
  at_phase s o e = o.order ∙ ap (λ m. map ran s.done ++ (in_hand m ++ o.waiting)) e

  Step-InOrder : {s t : System T} → Step s t → InOrder s → InOrder t
  Step-InOrder {s} (adds p task q nz free e) o = add_task-InOrder s p task q nz free e o
  Step-InOrder {s} stops o = record {
    waiting = o.waiting;
    is_queue = subst (λ m. IsQueue m o.waiting) (stop-tasks s.queue) o.is_queue;
    order = o.order;
  }
  Step-InOrder {s} (takes_task q task i e) o =
      let (ys, e', is') = turn-takes s.queue q task o.waiting o.is_queue e in
      record {
        waiting = ys;
        is_queue = is';
        order = at_phase s o i ∙ ap (◌++◌ (map ran s.done)) e';
      }
  Step-InOrder {s} (ends_task task code r) o = record {
    waiting = o.waiting;
    is_queue = o.is_queue;
    order = at_phase s o r ∙ next_order s.done task code o.waiting;
  }
  Step-InOrder {s} (leaves_loop i e) o = record {
    waiting = o.waiting;
    is_queue = o.is_queue;
    order = at_phase s o i;
  }

  -- In every state that the threads can reach, the tasks that were added are, in this order, those
  -- that were run, the one in the worker's hand and those in the queue.
  pub Reachable-InOrder : {s : System T} → Reachable s → InOrder s
  Reachable-InOrder begin = record {
    waiting = [];
    is_queue = new_queue-IsQueue (λ p. none);
    order = refl;
  }
  Reachable-InOrder (then_step r st) = Step-InOrder st (Reachable-InOrder r)

  -- When the worker leaves its loop, it was stopped, and every task that was added has been run, once
  -- and in the order of addition.
  pub leaves-drained :
      {s : System T}
      → Reachable s
      → s.phase ≡ idle
      → turn s.queue ≡ some leaves
      → (s.queue.stopped ≡ true) × (map ran s.done ≡ s.added)
  leaves-drained {s} r i e =
      let o = Reachable-InOrder r in
      let (st, nothing) = turn-leaves s.queue o.waiting o.is_queue e in
      (st, sym (at_phase s o i ∙ ap (◌++◌ (map ran s.done)) nothing ∙ append-nil (map ran s.done)))

  -- What the loop leaves behind.
  pub record Drained (s t : System T) : Type 0 where
    pub ends : t.phase ≡ finished
    pub same_added : t.added ≡ s.added
    pub all_run : map ran t.done ≡ s.added

  left_loop :
      (run : T → ℤ) (n : ℕ) (s : System T)
      → turn s.queue ≡ some leaves
      → work run (suc n) s ≡ some (record s { phase = finished })
  unfolding work
  left_loop run n s e = rw e refl

  next_round :
      (run : T → ℤ) (n : ℕ) (s : System T) (q : LxcQueue T) (task : T)
      → turn s.queue ≡ some (takes q task)
      → work run (suc n) s
        ≡ work run n (record s { queue = q; done = s.done ++ (task, run task) ∷ [] })
  unfolding work
  next_round run n s q task e = rw e refl

  work_waiting :
      (run : T → ℤ) (n : ℕ) (s : System T) (xs : List T)
      → IsQueue s.queue.tasks xs
      → s.queue.stopped ≡ true
      → s.added ≡ map ran s.done ++ xs
      → length xs < n
      → (t : System T) × (work run n s ≡ some t) × Drained s t
  work_waiting run zero s xs is st o h = absurd (omega arith)
  work_waiting run (suc n) s [] is st o h = (
    record s { phase = finished },
    left_loop run n s (
        turn_nil s.queue is
        ∙ ap (λ (b : Bool). some (if◌then◌else◌ {A = Turn T} b leaves waits)) st),
    record { ends = refl; same_added = refl; all_run = sym (o ∙ append-nil (map ran s.done)) },
  )
  work_waiting run (suc n) s (x ∷ xs) is st o h =
      let (q, e, is') = turn_cons s.queue x xs is in
      let s' = record s {
        queue = record s.queue { tasks = q };
        done = s.done ++ (x, run x) ∷ [];
      } in
      let (t, e', d) =
        work_waiting run n s' xs is' st (o ∙ next_order s.done x (run x) xs) (omega arith) in
      (
        t,
        next_round run n s (record s.queue { tasks = q }) x e ∙ e',
        record { ends = d.ends; same_added = d.same_added; all_run = d.all_run },
      )

  -- Once a reachable queue is stopped and its worker is between two tasks, a run of the loop that no
  -- other thread disturbs does not fail and comes to its end within one round more than tasks
  -- were added, and then every added task has been run, in the order of addition.
  pub work-Drained :
      (run : T → ℤ) (s : System T)
      → Reachable s
      → s.phase ≡ idle
      → s.queue.stopped ≡ true
      → (t : System T) × (work run (suc (length s.added)) s ≡ some t) × Drained s t
  work-Drained run s r i st =
      let o = Reachable-InOrder r in
      work_waiting run (suc (length s.added)) s o.waiting o.is_queue st (at_phase s o i)
        (omega (arith, ap length (at_phase s o i), length-append {0} (map ran s.done) o.waiting))

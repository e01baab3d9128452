-- ===== src/TaskQueue.antt =====
-- Queue<T> of include_priv/lxcqueue.h and liblxcd/lxcqueue.cpp: a linked list with a head and a
-- tail pointer, over an explicit heap. `none` is an access through a pointer that is not allocated.
pub mod Fifo
pub mod Worker
pub mod Order
use ymir_project.Base.{ℕ, Bool, true, false, Option, none, some, ◌==◌, if◌then◌else◌}
use ymir_project.Buffer.{◌>>=◌}

abbrev pub Ptr : Type 0
Ptr = ℕ

abbrev pub null : Ptr
null = 0

pub record QueueNode (T : Type 0) : Type 0 where
  pub value : T
  pub next : Ptr

abbrev pub node : {T : Type 0} → T → Ptr → QueueNode T
node v n = record { value = v; next = n }

abbrev pub Heap : Type 0 → Type 0
Heap T = Ptr → Option (QueueNode T)

unfoldable pub write : {T : Type 0} → Heap T → Ptr → Option (QueueNode T) → Heap T
write h p c a = if a == p then c else h a

pub record Queue (T : Type 0) : Type 0 where
  pub heap : Heap T
  pub head : Ptr
  pub tail : Ptr

module _ {T : Type 0} where
  -- Queue()
  unfoldable pub new_queue : Heap T → Queue T
  new_queue h = record { heap = h; head = null; tail = null }

  unfoldable pub is_empty : Queue T → Bool
  is_empty q = q.head == null

  -- p->next = n
  unfoldable pub set_next : Heap T → Ptr → Ptr → Option (Heap T)
  set_next h p n = do c ← h p; some (write h p (some (record c { next = n })))

  -- enqueue(value); `fresh` is what `new` answers.
  unfoldable pub enqueue : Ptr → T → Queue T → Option (Queue T)
  enqueue fresh value q = do
    let h = write q.heap fresh (some (node value null))
    h ← if q.tail == null then some h else set_next h q.tail fresh
    some (record { heap = h; head = if q.head == null then fresh else q.head; tail = fresh })

  -- dequeue(): the new queue and the value; on the empty queue T(), here `none`.
  unfoldable pub dequeue : Queue T → Option (Queue T × Option T)
  dequeue q = if is_empty q then some (q, none) else (do
    c ← q.heap q.head
    some (
      record {
        heap = write q.heap q.head none;
        head = c.next;
        tail = if c.next == null then null else q.tail;
      },
      some c.value,
    ))

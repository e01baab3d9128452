-- ===== src/TaskQueue/Fifo.antt =====
-- The linked list of lxcqueue.cpp is a first-in first-out sequence.
use ymir_project.Base.{
  ◌≡◌, ◌≢◌, refl, sym, ap, ◌∙◌, Option, none, some, List, [], ◌∷◌, ◌++◌, map, map-append, ◌==◌,
  ==_ne, ==_self, if◌then◌else◌,
}
use ymir_project.TaskQueue.{
  Ptr, null, QueueNode, node, Heap, write, Queue, new_queue, is_empty, set_next, enqueue, dequeue,
}

abbrev pub Cells : Type 0 → Type 0
Cells T = List (Ptr × T)

module _ {T : Type 0} where
  abbrev pub first : Cells T → Ptr
  first [] = null
  first ((p, v) ∷ cs) = p

  abbrev pub last : Cells T → Ptr
  last [] = null
  last ((p, v) ∷ []) = p
  last ((p, v) ∷ c ∷ cs) = last (c ∷ cs)

  abbrev pub NotIn : Ptr → Cells T → Type 0
  NotIn a [] = Unit {0}
  NotIn a ((p, v) ∷ cs) = (a ≢ p) × NotIn a cs

  -- The cells are allocated, distinct, and linked in this order.
  abbrev pub Chain : Heap T → Cells T → Type 0
  Chain h [] = Unit {0}
  Chain h ((p, v) ∷ cs) = (p ≢ null) × (h p ≡ some (node v (first cs))) × NotIn p cs × Chain h cs

  abbrev pub value_of : Ptr × T → T
  value_of c = c.1

  -- The queue holds the sequence, in the cells `cs`.
  pub record IsQueue (q : Queue T) (xs : List T) : Type 0 where
    pub cells : Cells T
    pub values : xs ≡ map value_of cells
    pub chain : Chain q.heap cells
    pub head_first : q.head ≡ first cells
    pub tail_last : q.tail ≡ last cells

  -- Changes at an address outside the chain do not matter.
  frame :
      (h : Heap T) (p : Ptr) (c : Option (QueueNode T)) (cs : Cells T)
      → NotIn p cs
      → Chain h cs
      → Chain (write h p c) cs
  unfolding write
  frame h p c [] out ch = tt
  frame h p c ((a, v) ∷ cs) out ch =
      (ch.0, rw (==_ne a p (λ e. out.0 (sym e))) ch.1, ch.2, frame h p c cs out.1 ch.3)

  -- An address that is not allocated is in no chain.
  free-NotIn : (h : Heap T) (p : Ptr) (cs : Cells T) → h p ≡ none → Chain h cs → NotIn p cs
  free-NotIn h p [] e ch = tt
  free-NotIn h p ((a, v) ∷ cs) e ch =
      (λ same. cc (sym e ∙ ap h same ∙ ch.1), free-NotIn h p cs e ch.3)

  NotIn-append :
      (a p : Ptr) (v : T) (cs : Cells T) → NotIn a cs → a ≢ p → NotIn a (cs ++ (p, v) ∷ [])
  NotIn-append a p v [] out ne = (ne, tt)
  NotIn-append a p v ((b, u) ∷ cs) out ne = (out.0, NotIn-append a p v cs out.1 ne)

  last-ne : (a : Ptr) (c : Ptr × T) (cs : Cells T) → NotIn a (c ∷ cs) → a ≢ last (c ∷ cs)
  last-ne a c [] out = out.0
  last-ne a c (d ∷ cs) out = last-ne a d cs out.1

  -- The last cell's link is set to the new cell; no other address but that one changes.
  linked :
      (h : Heap T) (p : Ptr) (v : T) (c : Ptr × T) (cs : Cells T)
      → p ≢ null
      → NotIn p (c ∷ cs)
      → Chain h (c ∷ cs)
      → (g : Heap T) × (set_next (write h p (some (node v null))) (last (c ∷ cs)) p ≡ some g)
        × Chain g (c ∷ cs ++ (p, v) ∷ [])
        × ((b : Ptr) → b ≢ p → b ≢ last (c ∷ cs) → g b ≡ h b)
  unfolding set_next write
  linked h p v (a, u) [] nz out ch =
      let h' = write h p (some (node v null)) in
      (
        write h' a (some (node u p)),
        rw (==_ne a p (λ e. out.0 (sym e)), ch.1) refl,
        (
          ch.0,
          rw (==_self a) refl,
          (λ e. out.0 (sym e), tt),
          (nz, rw (==_ne p a out.0, ==_self p) refl, tt, tt),
        ),
        λ b ne far. rw (==_ne b a far, ==_ne b p ne) refl,
      )
  linked h p v (a, u) (d ∷ ds) nz out ch =
      let (g, e, ch', same) = linked h p v d ds nz out.1 ch.3 in
      (
        g,
        e,
        (
          ch.0,
          same a (λ f. out.0 (sym f)) (last-ne a d ds ch.2) ∙ ch.1,
          NotIn-append a p v (d ∷ ds) ch.2 (λ f. out.0 (sym f)),
          ch',
        ),
        λ b ne far. same b ne far,
      )

  last-append : (cs : Cells T) (p : Ptr) (v : T) → last (cs ++ (p, v) ∷ []) ≡ p
  last-append [] p v = refl
  last-append (c ∷ []) p v = refl
  last-append (c ∷ d ∷ cs) p v = last-append (d ∷ cs) p v

  last-ne_null : (h : Heap T) (c : Ptr × T) (cs : Cells T) → Chain h (c ∷ cs) → last (c ∷ cs) ≢ null
  last-ne_null h c [] ch = ch.0
  last-ne_null h c (d ∷ cs) ch = last-ne_null h d cs ch.3

  pub new_queue-IsQueue : (h : Heap T) → IsQueue (new_queue h) []
  unfolding new_queue
  new_queue-IsQueue h = record {
    cells = [];
    values = refl;
    chain = tt;
    head_first = refl;
    tail_last = refl;
  }

  -- enqueue does not fault and appends the value, whatever unused address it is given.
  pub enqueue-append :
      (q : Queue T) (xs : List T) (p : Ptr) (v : T)
      → IsQueue q xs
      → p ≢ null
      → q.heap p ≡ none
      → (r : Queue T) × (enqueue p v q ≡ some r) × IsQueue r (xs ++ v ∷ [])
  unfolding enqueue write
  enqueue-append q xs p v is nz free =
      appended is.cells is.values is.chain is.head_first is.tail_last
    where
      appended :
          (cs : Cells T)
          → xs ≡ map value_of cs
          → Chain q.heap cs
          → q.head ≡ first cs
          → q.tail ≡ last cs
          → (r : Queue T) × (enqueue p v q ≡ some r) × IsQueue r (xs ++ v ∷ [])
      appended [] vs ch hd tl = (
        record { heap = write q.heap p (some (node v null)); head = p; tail = p },
        rw (hd, tl) refl,
        record {
          cells = (p, v) ∷ [];
          values = ap (λ ys. ys ++ v ∷ []) vs;
          chain = (nz, rw (==_self p) refl, tt, tt);
          head_first = refl;
          tail_last = refl;
        },
      )
      appended (c ∷ cs) vs ch hd tl =
          let (g, e, ch', _) =
            linked q.heap p v c cs nz (free-NotIn q.heap p (c ∷ cs) free ch) ch in
          (
            record { heap = g; head = c.0; tail = p },
            rw
                (
                  hd,
                  tl,
                  ==_ne (last (c ∷ cs)) null (last-ne_null q.heap c cs ch),
                  ==_ne c.0 null ch.0,
                  e,
                )
                refl,
            record {
              cells = c ∷ cs ++ (p, v) ∷ [];
              values =
                  ap (λ ys. ys ++ v ∷ []) vs ∙ sym (map-append value_of (c ∷ cs) ((p, v) ∷ []));
              chain = ch';
              head_first = refl;
              tail_last = sym (last-append (c ∷ cs) p v);
            },
          )

  heads : {x y : T} {xs ys : List T} → x ∷ xs ≡ y ∷ ys → y ≡ x
  heads e = cc

  rest_last :
      (h : Heap T) (t a : Ptr) (v : T) (cs : Cells T)
      → Chain h cs
      → t ≡ last ((a, v) ∷ cs)
      → (if first cs == null then null else t) ≡ last cs
  rest_last h t a v [] ch e = refl
  rest_last h t a v (c ∷ cs) ch e = rw (==_ne c.0 null ch.0) e

  -- What dequeue answers for a queue that holds the sequence.
  abbrev pub Dequeued : Queue T → List T → Option (Queue T × Option T) → Type 0
  Dequeued q [] o = o ≡ some (q, none)
  Dequeued q (x ∷ ys) o = (r : Queue T) × (o ≡ some (r, some x)) × IsQueue r ys

  -- dequeue does not fault: it answers nothing and changes nothing on the empty queue, and else it
  -- takes the oldest value and leaves the others.
  pub dequeue-Dequeued : (q : Queue T) (xs : List T) → IsQueue q xs → Dequeued q xs (dequeue q)
  unfolding dequeue is_empty write
  dequeue-Dequeued q xs is = taken is.cells is.chain is.head_first is.tail_last xs is.values
    where
      taken :
          (cs : Cells T)
          → Chain q.heap cs
          → q.head ≡ first cs
          → q.tail ≡ last cs
          → (ys : List T) → ys ≡ map value_of cs
          → Dequeued q ys (dequeue q)
      taken [] ch hd tl [] vs = rw hd refl
      taken [] ch hd tl (y ∷ ys) vs = cc
      taken (c ∷ cs) ch hd tl [] vs = cc
      taken ((a, v) ∷ cs) ch hd tl (y ∷ ys) vs = (
        record {
          heap = write q.heap a none;
          head = first cs;
          tail = if first cs == null then null else q.tail;
        },
        rw (hd, ==_ne a null ch.0, ch.1)
            (ap
              (λ z. some (
                record {
                  heap = write q.heap a none;
                  head = first cs;
                  tail = if first cs == null then null else q.tail;
                },
                some z,
              ))
              (heads vs)),
        record {
          cells = cs;
          values = cc;
          chain = frame q.heap a none cs ch.2 ch.3;
          head_first = refl;
          tail_last = rest_last q.heap q.tail a v cs ch.3 tl;
        },
      )

-- ===== src/BoundedQueue.antt =====
-- src/common/core/utils/bounded_queue.hh: a FIFO queue with a maximal size.
use strij.Base.{
  ℕ, suc, subst, ◌+◌, ◌-◌, ◌≤◌, ◌<◌, Bool-cases, inl, inr, ◌≡◌, refl, sym, ap, ◌∙◌, Bool, true,
  false, List, [], ◌∷◌, ◌++◌, Option, none, some, arith, leb, if◌then◌else◌, length, length-append,
  append_assoc, append-nil,
}

pub record BoundedQueue {ℓ} (A : Type ℓ) : Type ℓ where
  pub max_size : ℕ
  pub queue : List A

-- A call of the queue.
pub data Op {ℓ} (A : Type ℓ) : Type ℓ where
  pushes : A → Op A
  pops : Op A
  clears : Op A

-- What a call answered; `cleared` has the items that went with it.
pub data Event {ℓ} (A : Type ℓ) : Type ℓ where
  pushed : A → Bool → Event A
  popped : Option A → Event A
  cleared : List A → Event A

module _ {ℓ} {A : Type ℓ} where
  -- `BoundedQueue::BoundedQueue`
  abbrev pub create : ℕ → BoundedQueue A
  create max_size = record { max_size = max_size; queue = [] }

  -- `Size`
  abbrev pub size : BoundedQueue A → ℕ
  size q = length q.queue

  -- `Full`
  abbrev pub full : BoundedQueue A → Bool
  full q = leb q.max_size (size q)

  -- `Push`
  unfoldable pub push : BoundedQueue A → A → BoundedQueue A × Bool
  push q item = if full q then (q, false) else (record q { queue = q.queue ++ item ∷ [] }, true)

  -- `TryPop`
  unfoldable pub try_pop : BoundedQueue A → Option (A × BoundedQueue A)
  try_pop q = elim q.queue [ [] ↦ none | item ∷ rest ↦ some (item, record q { queue = rest }) ]

  pub try_pop-none : (q : BoundedQueue A) → try_pop q ≡ none → q.queue ≡ []
  unfolding try_pop
  try_pop-none q e = ground (arith, e)

  pub try_pop-some :
      (q : BoundedQueue A) (item : A) (rest : BoundedQueue A)
      → try_pop q ≡ some (item, rest)
      → (q.queue ≡ item ∷ rest.queue) × (rest.max_size ≡ q.max_size)
  unfolding try_pop
  try_pop-some q item rest e = ground (arith, e)

  -- `Peek`
  unfoldable pub peek : BoundedQueue A → Option A
  peek q = elim q.queue [ [] ↦ none | item ∷ rest ↦ some item ]

  -- `Clear`
  abbrev pub clear : BoundedQueue A → BoundedQueue A
  clear q = record q { queue = [] }

  -- A loop of `Push` that ignores the answers.
  unfoldable pub push_all : BoundedQueue A → List A → BoundedQueue A
  push_all q [] = q
  push_all q (item ∷ items) = push_all (push q item).0 items

  -- While there is room, the items go to the back in their order.
  pub push_all-queue :
      (q : BoundedQueue A) (items : List A)
      → size q + length items ≤ q.max_size
      → push_all q items ≡ record q { queue = q.queue ++ items }
  unfolding push_all push
  push_all-queue q [] h = ap (λ l. record q { queue = l }) (sym (append-nil q.queue))
  push_all-queue q (item ∷ items) h =
      let pushed : push q item ≡ (record q { queue = q.queue ++ item ∷ [] }, true) = ground arith in
      rw pushed (
        push_all-queue (record q { queue = q.queue ++ item ∷ [] }) items
          (omega (arith, length-append q.queue (item ∷ [])))
        ∙ ap (λ l. record q { queue = l }) (append_assoc q.queue (item ∷ []) items))

  abbrev pop_of : BoundedQueue A → Option (A × BoundedQueue A) → Event A × BoundedQueue A
  pop_of q none = (popped none, q)
  pop_of q (some (item, rest)) = (popped (some item), rest)

  unfoldable pub call : BoundedQueue A → Op A → Event A × BoundedQueue A
  unfolding push try_pop
  call q (pushes item) = let (q', done) = push q item in (pushed item done, q')
  call q pops = pop_of q (try_pop q)
  call q clears = (cleared q.queue, clear q)

  -- A sequence of calls: the answers in order, and the queue that is left.
  unfoldable pub run : BoundedQueue A → List (Op A) → List (Event A) × BoundedQueue A
  unfolding call
  run q [] = ([], q)
  run q (op ∷ ops) =
      let (event, q') = call q op in let (events, final) = run q' ops in (event ∷ events, final)

  -- The items that were accepted, in order.
  abbrev pub accepted : List (Event A) → List A
  accepted [] = []
  accepted (pushed item true ∷ events) = item ∷ accepted events
  accepted (_ ∷ events) = accepted events

  -- The items that left, in order.
  abbrev pub departed : List (Event A) → List A
  departed [] = []
  departed (popped (some item) ∷ events) = item ∷ departed events
  departed (cleared items ∷ events) = items ++ departed events
  departed (_ ∷ events) = departed events

  -- The answers of a queue that holds `n` items of at most `max_size`: an item is accepted exactly if
  -- there is room, a pop fails exactly if the queue is empty, and a clear takes all items.
  abbrev pub Answers : ℕ → ℕ → List (Event A) → Type ℓ
  Answers max_size n [] = Unit
  Answers max_size n (pushed item true ∷ events) = (n < max_size) × Answers max_size (n + 1) events
  Answers max_size n (pushed item false ∷ events) = (max_size ≤ n) × Answers max_size n events
  Answers max_size n (popped none ∷ events) = (n ≡ 0) × Answers max_size n events
  Answers max_size n (popped (some item) ∷ events) = (0 < n) × Answers max_size (n - 1) events
  Answers max_size n (cleared items ∷ events) = (length items ≡ n) × Answers max_size 0 events

  -- What a run promises of its answers and the queue that is left.
  abbrev pub KeepsOrder : BoundedQueue A → List (Event A) × BoundedQueue A → Type ℓ
  KeepsOrder q (events, final) =
      Answers q.max_size (size q) events
      × (departed events ++ final.queue ≡ q.queue ++ accepted events)
      × (final.max_size ≡ q.max_size)

  push-full : (q : BoundedQueue A) (item : A) → q.max_size ≤ size q → push q item ≡ (q, false)
  unfolding push
  push-full q item h = ground (arith, h)

  push-room :
      (q : BoundedQueue A) (item : A)
      → size q < q.max_size
      → push q item ≡ (record q { queue = q.queue ++ item ∷ [] }, true)
  unfolding push
  push-room q item h = ground (arith, h)

  -- The rest of a run keeps the promise of `run-fifo`.
  abbrev Keeps : List (Op A) → Type ℓ
  Keeps ops = (q : BoundedQueue A) → KeepsOrder q (run q ops)

  pushes-KeepsOrder :
      (q : BoundedQueue A) (item : A) (ops : List (Op A))
      → Keeps ops
      → KeepsOrder q (run q (pushes item ∷ ops))
  unfolding run call
  pushes-KeepsOrder q item ops keeps = elim (Bool-cases (full q)) [
    | inl no_room ↦
        let fits : q.max_size ≤ size q = ground (arith, no_room) in
        let (answers, order, bound) = keeps q in
        rw (push-full q item fits) ((fits, answers), order, bound)
    | inr room ↦
        let fits : size q < q.max_size = ground (arith, room) in
        let (answers, order, bound) = keeps (record q { queue = q.queue ++ item ∷ [] }) in
        let longer : length (q.queue ++ item ∷ []) ≡ size q + 1 =
          omega (arith, length-append q.queue (item ∷ [])) in
        rw (push-room q item fits) (
          (
            fits,
            subst
                (λ n. Answers q.max_size n (run (record q { queue = q.queue ++ item ∷ [] }) ops).0)
                longer answers,
          ),
          order ∙ append_assoc q.queue (item ∷ []) _,
          bound,
        )
  ]

  pops-KeepsOrder :
      (max_size : ℕ) (items : List A) (ops : List (Op A))
      → Keeps ops
      → let q : BoundedQueue A = record { max_size = max_size; queue = items } in
        KeepsOrder q (run q (pops ∷ ops))
  unfolding run call try_pop
  pops-KeepsOrder max_size [] ops keeps =
      let (answers, order, bound) = keeps (record { max_size = max_size; queue = [] }) in
      ((refl, answers), order, bound)
  pops-KeepsOrder max_size (item ∷ items) ops keeps =
      let q : BoundedQueue A = record { max_size = max_size; queue = items } in
      let (answers, order, bound) = keeps q in
      let shorter : length items ≡ suc (length items) - 1 = omega arith in
      (
        (omega arith, subst (λ n. Answers max_size n (run q ops).0) shorter answers),
        ap (λ l. item ∷ l) order,
        bound,
      )

  -- First in, first out, over any sequence of calls: an item is accepted exactly if there is room, a
  -- pop yields an item exactly if there is one, and a clear takes all items; the items that left,
  -- followed by those that are left over, are those that were there at first, followed by those
  -- accepted since, in order.
  pub run-fifo : (q : BoundedQueue A) (ops : List (Op A)) → KeepsOrder q (run q ops)
  unfolding run call push try_pop
  run-fifo q [] = (tt, sym (append-nil q.queue), refl)
  run-fifo q (pushes item ∷ ops) = pushes-KeepsOrder q item ops (λ q'. run-fifo q' ops)
  run-fifo q (pops ∷ ops) = pops-KeepsOrder q.max_size q.queue ops (λ q'. run-fifo q' ops)
  run-fifo q (clears ∷ ops) =
      let (answers, order, bound) = run-fifo (clear q) ops in
      ((refl, answers), append_assoc q.queue _ _ ∙ ap (λ l. q.queue ++ l) order, bound)

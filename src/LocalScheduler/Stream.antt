-- ===== src/LocalScheduler/Stream.antt =====
-- The results of child tasks, from the node's own handlers or from the gateway.
use strij.Base.{
  ℕ, ◌≡◌, refl, sym, ap, subst, ◌∙◌, String, true, false, List, [], ◌∷◌, ◌++◌, Option, none, some,
  arith, if◌then◌else◌, lookup, lookup-erase, eq_refl, append_assoc, append-nil, Bool-cases, inl,
  inr,
}
use strij.Task.{TaskResult}
use strij.ResultStorage.{Delivery}
use strij.GatewayFrames.Results.{delivery_of, is_terminal, ends, stream, AllOf}
use strij.LocalScheduler.{LocalScheduler, get, send_to, send, handle_result}

-- The results of a child, each of which its handler sent or a frame from the gateway brought.
pub data Arrival : Type 0 where
  sent framed : TaskResult → Arrival

abbrev pub result_of : Arrival → TaskResult
result_of (sent r) = r
result_of (framed r) = r

abbrev pub results_of : List Arrival → List TaskResult
results_of [] = []
results_of (a ∷ arrivals) = result_of a ∷ results_of arrivals

abbrev pub arrive : String → LocalScheduler → Arrival → LocalScheduler
arrive id s (sent r) = send s id r
arrive id s (framed r) = handle_result s r (get s r.id)

abbrev pub arrive_all : String → LocalScheduler → List Arrival → LocalScheduler
arrive_all id s [] = s
arrive_all id s (a ∷ arrivals) = arrive_all id (arrive id s a) arrivals

same_handling :
    (s : LocalScheduler) (r : TaskResult) (found : Option ℕ)
    → handle_result s r found ≡ send_to s r.id r found
unfolding handle_result send_to
same_handling s r none = refl
same_handling s r (some receiver) = refl

arrive-send_to :
    (id : String) (s : LocalScheduler) (a : Arrival)
    → (result_of a).id ≡ id
    → arrive id s a ≡ send_to s id (result_of a) (get s id)
arrive-send_to id s (sent r) e = refl
arrive-send_to id s (framed r) e =
    same_handling s r (get s r.id) ∙ ap (λ i. send_to s i r (get s i)) e

late-arrivals :
    (id : String) (s : LocalScheduler) (arrivals : List Arrival)
    → AllOf id (results_of arrivals)
    → get s id ≡ none
    → arrive_all id s arrivals ≡ s
unfolding send_to
late-arrivals id s [] all e = refl
late-arrivals id s (a ∷ arrivals) all e =
    let same : arrive id s a ≡ s =
      arrive-send_to id s a all.0 ∙ ap (send_to s id (result_of a)) e in
    ap (λ t. arrive_all id t arrivals) same ∙ late-arrivals id s arrivals all.1 e

module _ (id : String) (receiver : ℕ) where
  send_to-terminal :
      (s : LocalScheduler) (r : TaskResult)
      → is_terminal r ≡ true
      → let s' = send_to s id r (some receiver) in
        (s'.deliveries ≡ s.deliveries ++ (receiver, delivery_of r) ∷ []) × (get s' id ≡ none)
  unfolding send_to
  send_to-terminal s r e = ground (arith, e, lookup-erase id id s.receivers, eq_refl id)

  send_to-more :
      (s : LocalScheduler) (r : TaskResult)
      → is_terminal r ≡ false
      → let s' = send_to s id r (some receiver) in
        (s'.deliveries ≡ s.deliveries ++ (receiver, delivery_of r) ∷ [])
        × (s'.receivers ≡ s.receivers)
  unfolding send_to
  send_to-more s r e = ground (arith, e)

  abbrev pub Streamed : List (ℕ × Delivery) → Option ℕ → LocalScheduler → Type 0
  Streamed deliveries left s = (s.deliveries ≡ deliveries) × (get s id ≡ left)

  -- Whichever way the results of a child task come, its receiver is given each of them once and in
  -- order up to the first that ends the task, a final one or a failure wherever it comes; then the
  -- task is forgotten, and later results of it change nothing.
  pub arrive_all-stream :
      (s : LocalScheduler) (arrivals : List Arrival)
      → AllOf id (results_of arrivals)
      → get s id ≡ some receiver
      → ((arrive_all id s arrivals).deliveries
          ≡ s.deliveries ++ stream receiver (results_of arrivals))
        × (get (arrive_all id s arrivals) id
            ≡ (if ends (results_of arrivals) then none else some receiver))
  arrive_all-stream s [] all e = (sym (append-nil s.deliveries), e)
  arrive_all-stream s (a ∷ arrivals) all e =
      let r = result_of a in
      let t = send_to s id r (some receiver) in
      let stepped : arrive id s a ≡ t = arrive-send_to id s a all.0 ∙ ap (send_to s id r) e in
      elim (Bool-cases (is_terminal r)) [
        | inl terminal ↦
            let last = send_to-terminal s r terminal in
            rw (terminal) (
              subst (Streamed _ _)
                (sym (
                  ap (λ u. arrive_all id u arrivals) stepped
                  ∙ late-arrivals id t arrivals all.1 last.1))
                (last.0, last.1))
        | inr going ↦
            let more = send_to-more s r going in
            let kept : get t id ≡ some receiver = ap (lookup id) more.1 ∙ e in
            let rest = arrive_all-stream t arrivals all.1 kept in
            let first : List (ℕ × Delivery) = (receiver, delivery_of r) ∷ [] in
            rw (going) (
              subst (Streamed _ _) (sym (ap (λ u. arrive_all id u arrivals) stepped)) (
                rest.0
                    ∙ ap (λ xs. xs ++ stream receiver (results_of arrivals)) more.0
                    ∙ append_assoc s.deliveries first (stream receiver (results_of arrivals)),
                rest.1,
              ))
      ]

-- ===== src/GatewayFrames/Results.antt =====
-- The results that a node sends for a task, and what the task's receiver is given of them.
use strij.Base.{
  ℕ, ◌≡◌, refl, sym, ap, subst, ◌∙◌, String, Bool, true, false, List, [], ◌∷◌, ◌++◌, Option, none,
  some, arith, if◌then◌else◌, lookup, lookup-erase, eq_refl, append_assoc, append-nil, Bool-cases,
  inl, inr,
}
use strij.Task.{TaskResult, is_task_result_ok, is_final_result}
use strij.ResultStorage.{Delivery, chunk, error_body, get, notify_client_disconnected}
use strij.GatewayFrames.{Gateway, handle_result, status_of}

-- What a result is to its receiver.
abbrev pub delivery_of : TaskResult → Delivery
delivery_of r =
    if is_task_result_ok r
    then chunk r.body (is_final_result r)
    else error_body r.body (status_of r)

-- A failure is the last result of a task, and so is one that says so.
abbrev pub is_terminal : TaskResult → Bool
is_terminal r = if is_task_result_ok r then is_final_result r else true

abbrev pub ends : List TaskResult → Bool
ends [] = false
ends (r ∷ rs) = if is_terminal r then true else ends rs

-- The deliveries up to the first result that ends the task.
abbrev pub stream : ℕ → List TaskResult → List (ℕ × Delivery)
stream receiver [] = []
stream receiver (r ∷ rs) =
    (receiver, delivery_of r) ∷ (if is_terminal r then [] else stream receiver rs)

abbrev pub handle_results : Gateway → List TaskResult → Gateway
handle_results g [] = g
handle_results g (r ∷ rs) = handle_results ((handle_result g r (get g.storage r.id)).0) rs

abbrev pub AllOf : String → List TaskResult → Type 0
AllOf id [] = Unit {0}
AllOf id (r ∷ rs) = (r.id ≡ id) × AllOf id rs

-- A task that is not in the storage is sent nothing.
late-results :
    (g : Gateway) (id : String) (rs : List TaskResult)
    → AllOf id rs
    → get g.storage id ≡ none
    → handle_results g rs ≡ g
unfolding handle_result
late-results g id [] a e = refl
late-results g id (r ∷ rs) a e =
    let unknown : get g.storage r.id ≡ none = ap (get g.storage) a.0 ∙ e in
    let same : (handle_result g r (get g.storage r.id)).0 ≡ g = rw (unknown) refl in
    ap (λ t. handle_results t rs) same ∙ late-results g id rs a.1 e

module _ (receiver : ℕ) where
  handle_result_terminal :
      (g : Gateway) (r : TaskResult)
      → is_terminal r ≡ true
      → let g' = (handle_result g r (some receiver)).0 in
        (g'.storage.deliveries ≡ g.storage.deliveries ++ (receiver, delivery_of r) ∷ [])
        × (get g'.storage r.id ≡ none)
  unfolding handle_result notify_client_disconnected
  handle_result_terminal g r e =
      ground (arith, e, lookup-erase r.id r.id g.storage.receivers, eq_refl r.id)

  handle_result_more :
      (g : Gateway) (r : TaskResult)
      → is_terminal r ≡ false
      → let g' = (handle_result g r (some receiver)).0 in
        (g'.storage.deliveries ≡ g.storage.deliveries ++ (receiver, delivery_of r) ∷ [])
        × (g'.storage.receivers ≡ g.storage.receivers)
  unfolding handle_result
  handle_result_more g r e = ground (arith, e)

  -- The gateway has the deliveries, and this receiver for the task.
  abbrev pub Streamed : String → List (ℕ × Delivery) → Option ℕ → Gateway → Type 0
  Streamed id deliveries left g = (g.storage.deliveries ≡ deliveries) × (get g.storage id ≡ left)

  -- Whatever results come for a task, its receiver is given each of them once and in order up to the
  -- first that ends the task, a final one or a failure wherever it comes; then the task is gone from
  -- the storage, and later results for it change nothing.
  pub handle_results-stream :
      (g : Gateway) (id : String) (rs : List TaskResult)
      → AllOf id rs
      → get g.storage id ≡ some receiver
      → ((handle_results g rs).storage.deliveries ≡ g.storage.deliveries ++ stream receiver rs)
        × (get (handle_results g rs).storage id ≡ (if ends rs then none else some receiver))
  handle_results-stream g id [] a e = (sym (append-nil g.storage.deliveries), e)
  handle_results-stream g id (r ∷ rs) a e =
      let found : get g.storage r.id ≡ some receiver = ap (get g.storage) a.0 ∙ e in
      let t = (handle_result g r (some receiver)).0 in
      let stepped : (handle_result g r (get g.storage r.id)).0 ≡ t =
        ap (λ o. (handle_result g r o).0) found in
      elim (Bool-cases (is_terminal r)) [
        | inl terminal ↦
            let last = handle_result_terminal g r terminal in
            let gone : get t.storage id ≡ none = ap (get t.storage) (sym a.0) ∙ last.1 in
            rw (terminal) (
              subst (Streamed id _ _)
                (sym (ap (λ u. handle_results u rs) stepped ∙ late-results t id rs a.1 gone))
                (last.0, gone))
        | inr going ↦
            let more = handle_result_more g r going in
            let kept : get t.storage id ≡ some receiver = ap (lookup id) more.1 ∙ e in
            let rest = handle_results-stream t id rs a.1 kept in
            let first : List (ℕ × Delivery) = (receiver, delivery_of r) ∷ [] in
            rw (going) (
              subst (Streamed id _ _) (sym (ap (λ u. handle_results u rs) stepped)) (
                rest.0
                    ∙ ap (λ xs. xs ++ stream receiver rs) more.0
                    ∙ append_assoc g.storage.deliveries first (stream receiver rs),
                rest.1,
              ))
      ]

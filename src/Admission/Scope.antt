-- ===== src/Admission/Scope.antt =====
-- `AdmissionScope` (src/nodeagent/core/admission_controller.cc) and `AdmissionTrackingSender`
-- (src/nodeagent/core/admission_tracking_sender.hh): the capacity of a task is released when its
-- last result is sent, or else when its sender is destroyed.
use strij.Base.{
  ℕ, ◌≡◌, refl, ap, ◌∙◌, String, Bool, true, false, not, ◌||◌, List, [], ◌∷◌, ◌++◌, arith, Assoc,
  if◌then◌else◌, append_assoc, append-nil, sym, ◌⊎◌, inl, inr, Bool-cases,
}
use strij.Task.{TaskResult, is_task_result_ok, is_final_result}
use strij.Admission.{Controller, release}

pub record AdmissionScope : Type 0 where
  pub task_type : String
  pub requirements : Assoc ℕ
  pub released : Bool

-- `AdmissionScope::Release`, with the controller that the scope shares. Its destructor is the same.
unfoldable pub release_scope : Controller → AdmissionScope → Controller × AdmissionScope
release_scope c scope =
    if scope.released
    then (c, scope)
    else (release c scope.task_type scope.requirements, record scope { released = true })

-- The sender that is wrapped is the list of the results that it was handed, oldest first.
pub record TrackingSender : Type 0 where
  pub sent : List TaskResult
  pub scope : AdmissionScope

-- `AdmissionTrackingSender::Send`
unfoldable pub send : Controller → TrackingSender → TaskResult → Controller × TrackingSender
unfolding release_scope is_task_result_ok
send c s r =
    let forwarded = s.sent ++ r ∷ [] in
    if is_final_result r || not (is_task_result_ok r)
    then (let (c', scope) = release_scope c s.scope in
        (c', record { sent = forwarded; scope = scope }))
    else (c, record s { sent = forwarded })

unfoldable pub send_all :
    Controller → TrackingSender → List TaskResult → Controller × TrackingSender
send_all c s [] = (c, s)
send_all c s (r ∷ rs) = let (c', s') = send c s r in send_all c' s' rs

-- The sender's life: the results that a handler sends, and the destructor.
unfoldable pub live : Controller → TrackingSender → List TaskResult → Controller
unfolding send_all
live c s rs = let (c', s') = send_all c s rs in (release_scope c' s'.scope).0

-- One result is forwarded, and leaves the scope as it is or releases it.
send_cases :
    (c : Controller) (s : TrackingSender) (r : TaskResult)
    → ((send c s r).1.sent ≡ s.sent ++ r ∷ [])
      × ((((send c s r).0 ≡ c) × ((send c s r).1.scope ≡ s.scope))
          ⊎ (((send c s r).0 ≡ (release_scope c s.scope).0)
              × ((send c s r).1.scope ≡ (release_scope c s.scope).1)))
unfolding send
send_cases c s r = elim (Bool-cases (is_final_result r || not (is_task_result_ok r))) [
  | inl ends ↦ rw ends (refl, inr (refl, refl))
  | inr goes_on ↦ rw goes_on (refl, inl (refl, refl))
]

live-cons :
    (c : Controller) (s : TrackingSender) (r : TaskResult) (rs : List TaskResult)
    → live c s (r ∷ rs) ≡ live (send c s r).0 (send c s r).1 rs
unfolding live
live-cons c s r rs = refl

live-nil : (c : Controller) (s : TrackingSender) → live c s [] ≡ (release_scope c s.scope).0
unfolding live
live-nil c s = refl

-- A released scope is not released again.
released_live :
    (c : Controller) (s : TrackingSender) (rs : List TaskResult)
    → s.scope.released ≡ true
    → live c s rs ≡ c
released_live c s [] h = live-nil c s ∙ unfold release_scope in rw h
released_live c s (r ∷ rs) h =
    let step = send_cases c s r in
    let scope_released : (send c s r).1.scope.released ≡ true =
      unfold release_scope in ground (arith, step) in
    let same : (send c s r).0 ≡ c = unfold release_scope in ground (arith, step) in
    live-cons c s r rs ∙ released_live (send c s r).0 (send c s r).1 rs scope_released ∙ same

-- Whatever results a handler sends, none at all, failures, or more after the last: the capacity of
-- a scope that is not released yet is released exactly once.
pub live-releases_once :
    (c : Controller) (s : TrackingSender) (rs : List TaskResult)
    → s.scope.released ≡ false
    → live c s rs ≡ release c s.scope.task_type s.scope.requirements
live-releases_once c s [] h = live-nil c s ∙ unfold release_scope in rw h
live-releases_once c s (r ∷ rs) h = live-cons c s r rs ∙ (elim (send_cases c s r).1 [
  | inl (same, kept) ↦
      live-releases_once (send c s r).0 (send c s r).1 rs (ground (arith, h, kept))
      ∙ rw (same, kept)
  | inr (released, spent) ↦
      released_live (send c s r).0 (send c s r).1 rs
        (unfold release_scope in ground (arith, h, spent))
      ∙ released
      ∙ unfold release_scope in rw h
])

-- Every result reaches the wrapped sender, in order.
pub send_all-sent :
    (c : Controller) (s : TrackingSender) (rs : List TaskResult)
    → (send_all c s rs).1.sent ≡ s.sent ++ rs
unfolding send_all
send_all-sent c s [] = sym (append-nil s.sent)
send_all-sent c s (r ∷ rs) =
    send_all-sent (send c s r).0 (send c s r).1 rs
    ∙ ap (λ l. l ++ rs) (send_cases c s r).0
    ∙ append_assoc s.sent (r ∷ []) rs

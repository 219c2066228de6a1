-- ===== src/Task.antt =====
-- src/common/core/utils/task_status.hh and task_status.cc: what a task's result says of success,
-- and its status as an HTTP status. The messages are those of api/common/task/task.proto.
use strij.Base.{
  ℕ, ◌≡◌, ◌≤◌, ◌<◌, ◌⊎◌, arith, String, Bool, true, false, List, Assoc, Option, none, some, ◌==◌,
  if◌then◌else◌,
}

-- `task::DataRef`
pub record DataRef : Type 0 where
  pub source : String
  pub key : String
  pub sha : String

-- `task::Task`, with the fields that the program's core reads.
pub record Task : Type 0 where
  pub id : String
  pub type : String
  pub body : List ℕ
  pub requirements : Assoc ℕ
  pub deps : List DataRef

-- `task::TaskStatus`; `unnamed` stands for the values that the schema does not name.
pub data TaskStatus : Type 0 where
  ok malformed_request not_found unimplemented : TaskStatus
  deadline_exceeded capacity_refused internal unavailable : TaskStatus
  unnamed : ℕ → TaskStatus

-- `task::TaskResult`; an optional field that is not set is `none`.
pub record TaskResult : Type 0 where
  pub id : String
  pub body : List ℕ
  pub is_final : Option Bool
  pub status : Option TaskStatus

abbrev pub is_ok : TaskStatus → Bool
is_ok ok = true
is_ok _ = false

-- `IsTaskResultOk`
unfoldable pub is_task_result_ok : TaskResult → Bool
is_task_result_ok r = elim r.status [ none ↦ true | some s ↦ is_ok s ]

-- `!result.has_is_final() || result.is_final()`
abbrev pub is_final_result : TaskResult → Bool
is_final_result r = elim r.is_final [ none ↦ true | some final ↦ final ]

-- `TaskStatusToHttpStatus`
unfoldable pub task_status_to_http_status : TaskStatus → ℕ
task_status_to_http_status ok = 200
task_status_to_http_status malformed_request = 400
task_status_to_http_status not_found = 404
task_status_to_http_status unimplemented = 501
task_status_to_http_status deadline_exceeded = 504
task_status_to_http_status capacity_refused = 429
task_status_to_http_status internal = 500
task_status_to_http_status unavailable = 503
task_status_to_http_status (unnamed n) = 500

-- `HttpStatusPhrase`
unfoldable pub http_status_phrase : ℕ → String
http_status_phrase s =
    if s == 200
    then "OK"
    else if s == 400
    then "Bad Request"
    else if s == 404
    then "Not Found"
    else if s == 429
    then "Too Many Requests"
    else if s == 501
    then "Not Implemented"
    else if s == 503
    then "Service Unavailable"
    else if s == 504
    then "Gateway Timeout"
    else "Internal Server Error"

-- A result with a status is a success if its HTTP status is 200, and otherwise its HTTP status is
-- one of the error classes, 400 to 599, also for statuses that the schema does not name.
pub result-http_status :
    (r : TaskResult) (s : TaskStatus)
    → r.status ≡ some s
    → ((is_task_result_ok r ≡ true) × (task_status_to_http_status s ≡ 200))
      ⊎ ((is_task_result_ok r ≡ false)
          × (400 ≤ task_status_to_http_status s)
          × (task_status_to_http_status s < 600))
unfolding is_task_result_ok task_status_to_http_status
result-http_status r s e = ground (arith, e)

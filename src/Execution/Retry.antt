-- ===== src/Execution/Retry.antt =====
-- execution/retry.py, and the orders and results of execution/models.py that it reads. An error text that
-- names a timeout or a full buffer is treated as any other: the source has the same statements in both
-- branches.
use ghost_grid.Common.{
  ℕ, ◌+◌, String, Bool, true, false, Option, none, some, [], leb, if◌then◌else◌, string_eq, Dict,
  lookup, insert, erase, get_or,
}

pub data OrderStatus : Type 0 where
  pending sent fill reject failed : OrderStatus

pub record OrderRetry : Type 0 where
  pub request_id : String
  pub attempt : ℕ
  pub max_attempts : ℕ
  pub last_error : Option String
  pub status : OrderStatus

-- `OrderRetry(request_id=request_id)`
abbrev pub fresh_retry : String → OrderRetry
fresh_retry request_id = record {
  request_id = request_id;
  attempt = 1;
  max_attempts = 2;
  last_error = none;
  status = pending;
}

pub record RetryMetrics : Type 0 where
  pub retries_attempted : ℕ
  pub retries_succeeded : ℕ
  pub retries_failed : ℕ
  pub abort_by_rejection : ℕ
  pub abort_by_error : ℕ

pub record RetryOrchestrator : Type 0 where
  pub metrics : RetryMetrics
  pub retries : Dict String OrderRetry

unfoldable pub new_orchestrator : RetryOrchestrator
new_orchestrator = record {
  metrics = record {
    retries_attempted = 0;
    retries_succeeded = 0;
    retries_failed = 0;
    abort_by_rejection = 0;
    abort_by_error = 0;
  };
  retries = [];
}

-- How a call ends: by a retry, at the limit of attempts, or by the status of the result.
pub data Verdict : Type 0 where
  again spent rejected errored : Verdict

abbrev of_status : Option OrderStatus → Verdict
of_status (some reject) = rejected
of_status (some failed) = errored
of_status _ = again

abbrev pub verdict : OrderRetry → Option OrderStatus → Verdict
verdict retry status = if leb retry.max_attempts retry.attempt then spent else of_status status

abbrev pub is_again : Verdict → Bool
is_again again = true
is_again _ = false

abbrev count_verdict : RetryMetrics → Verdict → RetryMetrics
count_verdict m again = record m { retries_attempted = m.retries_attempted + 1 }
count_verdict m spent = record m { retries_failed = m.retries_failed + 1 }
count_verdict m rejected = record m { abort_by_rejection = m.abort_by_rejection + 1 }
count_verdict m errored = record m { abort_by_error = m.abort_by_error + 1 }

abbrev pub tracker : RetryOrchestrator → String → OrderRetry
tracker r request_id = get_or (lookup request_id r.retries) (fresh_retry request_id)

-- `should_retry`; of the fill result it reads the status.
unfoldable pub should_retry :
    RetryOrchestrator → String → Option OrderStatus → Option String → RetryOrchestrator × Bool
should_retry r request_id status error =
    let retry = tracker r request_id in
    let v = verdict retry status in
    (
      record {
        metrics = count_verdict r.metrics v;
        retries =
            if is_again v
            then insert request_id
                (record retry { attempt = retry.attempt + 1; last_error = error }) r.retries
            else erase request_id r.retries;
      },
      is_again v,
    )

unfoldable pub mark_success : RetryOrchestrator → String → RetryOrchestrator
mark_success r request_id = record {
  metrics = record r.metrics { retries_succeeded = r.metrics.retries_succeeded + 1 };
  retries = erase request_id r.retries;
}

unfoldable pub mark_failed : RetryOrchestrator → String → RetryOrchestrator
mark_failed r request_id = record {
  metrics = record r.metrics { retries_failed = r.metrics.retries_failed + 1 };
  retries = erase request_id r.retries;
}

unfoldable pub get_retry_info : RetryOrchestrator → String → Option OrderRetry
get_retry_info r request_id = lookup request_id r.retries

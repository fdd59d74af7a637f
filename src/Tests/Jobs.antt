-- ===== src/Tests/Jobs.antt =====
-- Concrete runs of the jobs and of the monthly quota.
use rssi_as_a_service.Prelude.{
  ℕ, ◌≡◌, refl, true, List, [], ◌∷◌, ◌==◌, none, some, if◌then◌else◌, String, Result, ok, err, ◌+◌,
}
use rssi_as_a_service.Assistant.Usage.{
  Usage, Call, called, asked, document_charter, assistant_reply, find_quota, logged, Agrees,
  play_all, ensure_quota_available, estimate_cost_usd, sonnet,
}
use rssi_as_a_service.Assistant.Counting.{Guarded, ensure_quota_available-Guarded}
use rssi_as_a_service.Assistant.Jobs.{
  AiJob, pending, mark_job_running, mark_job_done, conclude, work, generate_task, deliver_all,
  Settled, deliver_all-Settled,
}

abbrev empty : Usage
empty = record { quotas = []; logs = [] }

empty-Agrees : Agrees empty
unfolding find_quota logged
empty-Agrees tenant month = refl

abbrev calls : List Call
calls =
    called 1 202611 document_charter 400 600
    ∷ asked 2 202611
    ∷ called 1 202611 assistant_reply 10 20
    ∷ []

ensure_quota_available-Guarded_example :
    Agrees (play_all 1000 calls empty)
    × Guarded 1000 1 202611
        (play_all 1000 calls empty)
        (ensure_quota_available 1000 1 202611 (play_all 1000 calls empty))
ensure_quota_available-Guarded_example =
    ensure_quota_available-Guarded 1000 1 202611 calls empty empty-Agrees

-- A charter of 400 tokens in and 600 out costs 0.0102 dollar.
charter_cost : estimate_cost_usd sonnet 400 600 ≡ 10200
unfolding estimate_cost_usd
charter_cost = refl

-- The state counts the attempts; the third succeeds.
abbrev third_time : ℕ → ℕ → ℕ × Result String (List ℕ)
third_time retries count = (count + 1, (if retries == 2 then ok (9 ∷ []) else err "timeout"))

abbrev job : AiJob
job = record { status = pending; result_ref = 4 ∷ []; error_message = ""; finished_at = none }

deliver_all-Settled_example :
    Settled ℕ 50
      (λ count. true)
      ""
      third_time
      (λ count. count)
      (deliver_all ℕ 50 (λ count. true) "" third_time (λ count. count) 3 0 (some job, 0))
deliver_all-Settled_example =
    deliver_all-Settled ℕ 50 (λ count. true) "" third_time (λ count. count) job 0

succeeds :
    deliver_all ℕ 50 (λ count. true) "" third_time (λ count. count) 3 0 (some job, 0)
    ≡ some (some (mark_job_done 50 (9 ∷ []) (mark_job_running job)), 3)
unfolding deliver_all generate_task work conclude mark_job_running mark_job_done
succeeds = refl

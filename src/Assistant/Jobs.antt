-- ===== src/Assistant/Jobs.antt =====
-- backend/apps/ai_assistant/tasks.py, and the jobs of services.py. What a task looks up, generates and
-- gives up on is a parameter over the rest of the tables, `S`: `generate` is given the number of the
-- attempt, since the answer of the model is not the same twice, and what it wrote before it raised
-- stays.
use rssi_as_a_service.Prelude.{
  ℕ, zero, suc, ◌+◌, ◌<◌, String, ◌≡◌, refl, ap, ◌∙◌, Bool, true, false, List, Option, none, some,
  ltb, if◌then◌else◌, Result, ok, err, arith, Bool-cases, inl, inr, ltb→lt, ◌++◌,
}

pub data JobStatus : Type 0 where
  pending running done failed : JobStatus

pub record AiJob : Type 0 where
  pub status : JobStatus
  pub result_ref : List ℕ
  pub error_message : String
  pub finished_at : Option ℕ

abbrev pub is_finished : JobStatus → Bool
is_finished pending = false
is_finished running = false
is_finished done = true
is_finished failed = true

unfoldable pub mark_job_running : AiJob → AiJob
mark_job_running job = record job { status = running }

unfoldable pub mark_job_done : ℕ → List ℕ → AiJob → AiJob
mark_job_done now ref job = record job {
  status = done;
  result_ref = job.result_ref ++ ref;
  finished_at = some now;
}

unfoldable pub mark_job_failed : ℕ → String → AiJob → AiJob
mark_job_failed now message job = record job {
  status = failed;
  error_message = message;
  finished_at = some now;
}

-- A delivery ends, or the queue will deliver again.
pub data Verdict : Type 0 where
  ended retry : Verdict

abbrev pub max_retries : ℕ
max_retries = 2

module _ {ℓ} (S : Type ℓ) (now : ℕ) (is_found : S → Bool) (not_found : String)
    (generate : ℕ → S → S × Result String (List ℕ)) (give_up : S → S) where
  abbrev pub World : Type ℓ
  World = Option AiJob × S

  -- After the attempt: the job is done, given back to the queue, or failed.
  unfoldable pub conclude : ℕ → AiJob → S × Result String (List ℕ) → World × Verdict
  conclude retries job (s, ok ref) = ((some (mark_job_done now ref job), s), ended)
  conclude retries job (s, err exc) =
      if ltb retries max_retries
      then ((some job, s), retry)
      else ((some (mark_job_failed now exc job), give_up s), ended)

  unfoldable pub work : ℕ → AiJob → S → World × Verdict
  work retries job s =
      if is_found s
      then conclude retries job (generate retries s)
      else ((some (mark_job_failed now not_found job), s), ended)

  -- One delivery of the task, with the number of those before it.
  unfoldable pub generate_task : ℕ → World → World × Verdict
  generate_task retries (none, s) = ((none, s), ended)
  generate_task retries (some job, s) =
      if is_finished job.status
      then ((some job, s), ended)
      else work retries (mark_job_running job) s

  abbrev pub settle : Verdict → World → Option World → Option World
  settle ended next later = some next
  settle retry next later = later

  -- The queue, which delivers a task again as long as it asks for it, for a number of deliveries.
  unfoldable pub deliver_all : ℕ → ℕ → World → Option World
  deliver_all zero retries world = none
  deliver_all (suc n) retries world =
      let (next, verdict) = generate_task retries world in
      let later = deliver_all n (suc retries) next in settle verdict next later

  abbrev pub Finished : World → Type 0
  Finished (none, s) = ⊥
  Finished (some job, s) = is_finished job.status ≡ true

  -- The queue comes to an end: the job is finished, and further deliveries change nothing.
  abbrev pub Settled : Option World → Type ℓ
  Settled result =
      (end : World) × (result ≡ some end)
      × Finished end
      × ((retries : ℕ) → generate_task retries end ≡ (end, ended))

  Finished-stays :
      (world : World) (retries : ℕ) → Finished world → generate_task retries world ≡ (world, ended)
  unfolding generate_task
  Finished-stays (none, s) retries h = absurd h
  Finished-stays (some job, s) retries h = rw h refl

  -- What a delivery of a job gives: an end, with the job finished; or, while retries are left, another.
  abbrev Delivered : ℕ → World × Verdict → Type 0
  Delivered retries (next, ended) = Finished next
  Delivered retries ((none, s), retry) = ⊥
  Delivered retries ((some job, s), retry) = retries < max_retries

  conclude-Delivered :
      (retries : ℕ) (job : AiJob) (out : S × Result String (List ℕ))
      → Delivered retries (conclude retries job out)
  unfolding conclude mark_job_done mark_job_failed
  conclude-Delivered retries job (s, ok ref) = refl
  conclude-Delivered retries job (s, err exc) = elim (Bool-cases (ltb retries max_retries)) [
    | inl left ↦ rw left (ltb→lt retries max_retries left)
    | inr last ↦ rw last refl
  ]

  generate_task-Delivered :
      (retries : ℕ) (job : AiJob) (s : S) → Delivered retries (generate_task retries (some job, s))
  unfolding generate_task work mark_job_failed
  generate_task-Delivered retries job s = elim (Bool-cases (is_finished job.status)) [
    | inl over ↦ rw over over
    | inr live ↦ rw live (elim (Bool-cases (is_found s)) [
      | inl there ↦
          rw there (conclude-Delivered retries (mark_job_running job) (generate retries s))
      | inr gone ↦ rw gone refl
    ])
  ]

  deliver_all-step :
      (n retries : ℕ) (world : World) (out : World × Verdict)
      → generate_task retries world ≡ out
      → deliver_all (suc n) retries world ≡ settle out.1 out.0 (deliver_all n (suc retries) out.0)
  unfolding deliver_all
  deliver_all-step n retries world out h =
      ap (λ (o : World × Verdict). settle o.1 o.0 (deliver_all n (suc retries) o.0)) h

  settles :
      (n retries : ℕ) (job : AiJob) (s : S) (out : World × Verdict)
      → retries + n ≡ max_retries
      → generate_task retries (some job, s) ≡ out
      → Delivered retries out
      → Settled (deliver_all (suc n) retries (some job, s))
  settles n retries job s (next, ended) size e h = (
    next,
    deliver_all-step n retries (some job, s) (next, ended) e,
    h,
    (λ r. Finished-stays next r h),
  )
  settles n retries job s ((none, s'), retry) size e h = absurd h
  settles zero retries job s ((some job', s'), retry) size e h = absurd (omega (arith, size, h))
  settles (suc n) retries job s ((some job', s'), retry) size e h =
      let (end, result, finished, stays) =
        settles n (suc retries) job' s' (generate_task (suc retries) (some job', s'))
          (omega (arith, size)) refl (generate_task-Delivered (suc retries) job' s') in
      (
        end,
        deliver_all-step (suc n) retries (some job, s) ((some job', s'), retry) e ∙ result,
        finished,
        stays,
      )

  -- Whatever the attempts give, three deliveries at most bring a job to an end, done or failed, from
  -- where further deliveries change nothing.
  pub deliver_all-Settled : (job : AiJob) (s : S) → Settled (deliver_all 3 0 (some job, s))
  deliver_all-Settled job s =
      settles 2 0 job s (generate_task 0 (some job, s)) refl refl (generate_task-Delivered 0 job s)

-- ===== src/Assistant/Counting.antt =====
-- backend/apps/ai_assistant: the counter of a month is the sum of the log of its calls.
use rssi_as_a_service.Prelude.{
  ℕ, ◌+◌, ◌≤◌, ◌<◌, ◌≡◌, refl, ap, sym, ◌∙◌, ◌&&◌, List, [], ◌∷◌, Option, none, some, ◌==◌,
  if◌then◌else◌, Result, ok, err, arith, Bool-cases, Option-cases, inl, inr, ==-refl,
}
use rssi_as_a_service.Assistant.Usage.{
  UsageQuota, UsageLog, Usage, UseCase, UsageError, ai_disabled, quota_exceeded, remaining_tokens,
  find_quota, get_or_create_current_quota, ensure_quota_available, add_tokens, record_usage, logged,
  used, Agrees, Call, called, asked, play, play_all, estimate_cost_usd, model_of,
}

first_row :
    (q : UsageQuota) (rows : List UsageQuota) → find_quota q.tenant q.period (q ∷ rows) ≡ some q
unfolding find_quota
first_row q rows = rw (==-refl q.tenant, ==-refl q.period) refl

-- What creating the row of a month changes: nothing that is counted.
abbrev Opened : ℕ → ℕ → ℕ → Usage → Type 0
Opened limit tenant period usage =
    ((t m : ℕ)
      → used (find_quota t m (get_or_create_current_quota limit tenant period usage).1.quotas)
        ≡ used (find_quota t m usage.quotas))
    × ((get_or_create_current_quota limit tenant period usage).1.logs ≡ usage.logs)
    × (find_quota tenant period (get_or_create_current_quota limit tenant period usage).1.quotas
        ≡ some (get_or_create_current_quota limit tenant period usage).0)

created :
    (limit tenant period : ℕ) (rows : List UsageQuota) (t m : ℕ)
    → find_quota tenant period rows ≡ none
    → used (
        find_quota t m (
          record { tenant = tenant; period = period; tokens_used = 0; monthly_token_limit = limit }
          ∷ rows))
      ≡ used (find_quota t m rows)
unfolding find_quota
created limit tenant period rows t m missing = elim (Bool-cases (tenant == t && period == m)) [
  | inl same ↦
      let agree : find_quota t m rows ≡ none = ground (arith, same, missing) in
      rw same (ap used (sym agree))
  | inr other ↦ rw other refl
]

get_or_create-Opened : (limit tenant period : ℕ) (usage : Usage) → Opened limit tenant period usage
get_or_create-Opened limit tenant period usage =
    elim (Option-cases (find_quota tenant period usage.quotas)) [
      | inl missing ↦
          let q : UsageQuota = record {
            tenant = tenant;
            period = period;
            tokens_used = 0;
            monthly_token_limit = limit;
          } in
          let after : get_or_create_current_quota limit tenant period usage
              ≡ (q, record usage { quotas = q ∷ usage.quotas }) =
            unfold get_or_create_current_quota in rw (missing, get_or_create_current_quota) refl in
          rw after (
            (λ t m. created limit tenant period usage.quotas t m missing),
            refl,
            first_row q usage.quotas,
          )
      | inr (q, found) ↦
          let after : get_or_create_current_quota limit tenant period usage ≡ (q, usage) =
            unfold get_or_create_current_quota in rw (found, get_or_create_current_quota) refl in
          rw after ((λ t m. refl), refl, found)
    ]

add_tokens-used :
    (tenant period n : ℕ) (rows : List UsageQuota) (t m : ℕ) (q : UsageQuota)
    → find_quota tenant period rows ≡ some q
    → used (find_quota t m (add_tokens tenant period n rows))
      ≡ used (find_quota t m rows) + (if tenant == t && period == m then n else 0)
unfolding add_tokens find_quota
add_tokens-used tenant period n [] t m q h = cc h
add_tokens-used tenant period n (r ∷ rows) t m q h =
    ground (arith, h, add_tokens-used tenant period n rows t m q)

logged-more :
    (tenant period : ℕ) (use_case : UseCase) (i o cost : ℕ) (rows : List UsageLog) (t m : ℕ)
    → logged t m (
        record {
          tenant = tenant;
          use_case = use_case;
          month = period;
          tokens_input = i;
          tokens_output = o;
          cost = cost;
        }
        ∷ rows)
      ≡ logged t m rows + (if tenant == t && period == m then i + o else 0)
unfolding logged
logged-more tenant period use_case i o cost rows t m = ground arith

get_or_create-Agrees :
    (limit tenant period : ℕ) (usage : Usage)
    → Agrees usage
    → Agrees (get_or_create_current_quota limit tenant period usage).1
get_or_create-Agrees limit tenant period usage h t m =
    let (counts, logs, _) = get_or_create-Opened limit tenant period usage in
    counts t m ∙ (h t m ∙ ap (logged t m) (sym logs))

record_usage-Agrees :
    (limit tenant period : ℕ) (use_case : UseCase) (i o : ℕ) (usage : Usage)
    → Agrees usage
    → Agrees (record_usage limit tenant period use_case i o usage)
unfolding record_usage
record_usage-Agrees limit tenant period use_case i o usage h t m =
    let log : UsageLog = record {
      tenant = tenant;
      use_case = use_case;
      month = period;
      tokens_input = i;
      tokens_output = o;
      cost = estimate_cost_usd (model_of use_case) i o;
    } in
    let noted : Usage = record usage { logs = log ∷ usage.logs } in
    let (counts, logs, found) = get_or_create-Opened limit tenant period noted in
    let opened : Usage = (get_or_create_current_quota limit tenant period noted).1 in
    add_tokens-used tenant period (i + o) opened.quotas t m
      (get_or_create_current_quota limit tenant period noted).0 found
    ∙ (ap (λ k. k + (if tenant == t && period == m then i + o else 0)) (counts t m ∙ h t m)
        ∙ (sym (
              logged-more tenant period use_case i o (estimate_cost_usd (model_of use_case) i o)
                usage.logs t m)
            ∙ ap (logged t m) (sym logs)))

play-Agrees : (limit : ℕ) (c : Call) (usage : Usage) → Agrees usage → Agrees (play limit c usage)
unfolding play
play-Agrees limit (called tenant period use_case i o) usage h =
    record_usage-Agrees limit tenant period use_case i o usage h
play-Agrees limit (asked tenant period) usage h = get_or_create-Agrees limit tenant period usage h

play_all-Agrees :
    (limit : ℕ) (calls : List Call) (usage : Usage)
    → Agrees usage
    → Agrees (play_all limit calls usage)
unfolding play_all
play_all-Agrees limit [] usage h = h
play_all-Agrees limit (c ∷ calls) usage h =
    play_all-Agrees limit calls (play limit c usage) (play-Agrees limit c usage h)

-- The limit of a month: that of its row, or the one of the settings.
abbrev pub limit_of : ℕ → Option UsageQuota → ℕ
limit_of default_limit none = default_limit
limit_of default_limit (some q) = q.monthly_token_limit

abbrev pub Guarded : ℕ → ℕ → ℕ → Usage → Result UsageError (UsageQuota × Usage) → Type 0
Guarded default_limit tenant period usage (ok _) =
    logged tenant period usage.logs < limit_of default_limit (find_quota tenant period usage.quotas)
Guarded default_limit tenant period usage (err quota_exceeded) =
    limit_of default_limit (find_quota tenant period usage.quotas) ≤ logged tenant period usage.logs
Guarded default_limit tenant period usage (err ai_disabled) = ⊥

ensure-Guarded :
    (default_limit tenant period : ℕ) (usage : Usage) (out : Result UsageError (UsageQuota × Usage))
    → Agrees usage
    → ensure_quota_available default_limit tenant period usage ≡ out
    → Guarded default_limit tenant period usage out
unfolding ensure_quota_available get_or_create_current_quota remaining_tokens
ensure-Guarded default_limit tenant period usage (ok out) h e =
    elim (Option-cases (find_quota tenant period usage.quotas)) [
      | inl missing ↦ rw missing (ground (arith, h tenant period, e, missing))
      | inr (q, found) ↦ rw found (ground (arith, h tenant period, e, found))
    ]
ensure-Guarded default_limit tenant period usage (err quota_exceeded) h e =
    elim (Option-cases (find_quota tenant period usage.quotas)) [
      | inl missing ↦ rw missing (ground (arith, h tenant period, e, missing))
      | inr (q, found) ↦ rw found (ground (arith, h tenant period, e, found))
    ]
ensure-Guarded default_limit tenant period usage (err ai_disabled) h e =
    elim (Option-cases (find_quota tenant period usage.quotas)) [
      | inl missing ↦ ground (arith, e, missing)
      | inr (q, found) ↦ ground (arith, e, found)
    ]

-- After any calls, from a state where each month's counter is the sum of its log, it still is, and a
-- client is refused in a month exactly when the tokens of the log have reached the limit.
pub ensure_quota_available-Guarded :
    (default_limit tenant period : ℕ) (calls : List Call) (start : Usage)
    → Agrees start
    → Agrees (play_all default_limit calls start)
      × Guarded default_limit tenant period
          (play_all default_limit calls start)
          (ensure_quota_available default_limit tenant period (play_all default_limit calls start))
ensure_quota_available-Guarded default_limit tenant period calls start h =
    let now = play_all default_limit calls start in
    let agrees = play_all-Agrees default_limit calls start h in
    (
      agrees,
      ensure-Guarded default_limit tenant period now
          (ensure_quota_available default_limit tenant period now) agrees refl,
    )

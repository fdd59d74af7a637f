-- ===== src/Billing/Capacity.antt =====
-- backend/apps/billing/capacity.py: the platform's scarce resources, the guards that refuse before
-- anything is written, and the alerts to the operator.
pub mod Sent
pub mod Alerts
use rssi_as_a_service.Prelude.{
  ℕ, ◌+◌, ◌-◌, ◌*◌, Bool, true, false, ◌&&◌, ◌||◌, not, List, [], ◌∷◌, Option, none, some, ltb, leb,
  ◌==◌, str_eq, if◌then◌else◌, Result, ok, err, count_of, some_of,
}
use rssi_as_a_service.Billing.Model.{
  Subscription, BreachIntelligenceUsage, Resource, monitored_slots, monthly_scans, AlertKey, Db,
  Env, is_operational, monitored_assets_quota,
}

-- `PlatformCapacityError`, with the numbers that its operator message quotes.
pub data PlatformCapacityError : Type 0 where
  slots_exceeded : (projected capacity remaining : ℕ) → PlatformCapacityError
  scans_exceeded : (used capacity remaining : ℕ) → PlatformCapacityError

pub record ResourceUsage : Type 0 where
  pub resource : Resource
  pub used : ℕ
  pub capacity : ℕ

unfoldable pub remaining : ResourceUsage → ℕ
remaining u = u.capacity - u.used

-- `exclude(id=…)`, where there is one.
abbrev pub is_excluded : Option ℕ → ℕ → Bool
is_excluded none i = false
is_excluded (some e) i = i == e

-- The loop of `projected_monitored_slots`.
unfoldable pub committed_slots : Option ℕ → List Subscription → ℕ
unfolding is_operational monitored_assets_quota
committed_slots excluding [] = 0
committed_slots excluding (s ∷ rows) =
    let rest = committed_slots excluding rows in
    if is_operational s && not (is_excluded excluding s.id)
    then monitored_assets_quota s + rest
    else rest

unfoldable pub projected_monitored_slots : ℕ → Option ℕ → Db → ℕ
projected_monitored_slots additional excluding db =
    committed_slots excluding db.subscriptions + additional

unfoldable pub monitored_slots_committed : Db → ℕ
unfolding projected_monitored_slots
monitored_slots_committed db = projected_monitored_slots 0 none db

unfoldable pub monitored_slots_used : Db → ℕ
monitored_slots_used db = count_of (λ a. a.is_active) db.monitored

-- `Sum("requests_consumed")` over the rows of this month.
unfoldable pub requests_since : ℕ → List BreachIntelligenceUsage → ℕ
requests_since start [] = 0
requests_since start (u ∷ rows) =
    let rest = requests_since start rows in
    if leb start u.created_at then u.requests_consumed + rest else rest

unfoldable pub monthly_scans_used : Env → Db → ℕ
monthly_scans_used env db = requests_since env.month_start db.usages

unfoldable pub snapshot : Env → Db → List ResourceUsage
unfolding monitored_slots_committed monthly_scans_used
snapshot env db =
    record {
      resource = monitored_slots;
      used = monitored_slots_committed db;
      capacity = env.monitored_slot_pool;
    }
    ∷ record {
      resource = monthly_scans;
      used = monthly_scans_used env db;
      capacity = env.monthly_scan_cap;
    }
    ∷ []

unfoldable pub ensure_monitored_slots_available :
    Env → ℕ → Option ℕ → Db → Result PlatformCapacityError (Unit {0})
unfolding projected_monitored_slots
ensure_monitored_slots_available env additional excluding db =
    if additional == 0
    then ok tt
    else let capacity = env.monitored_slot_pool in
      let projected = projected_monitored_slots additional excluding db in
      if ltb capacity projected
      then err (slots_exceeded projected capacity (capacity - (projected - additional)))
      else ok tt

unfoldable pub ensure_scan_budget_available : Env → ℕ → Db → Result PlatformCapacityError (Unit {0})
unfolding monthly_scans_used
ensure_scan_budget_available env additional db =
    if additional == 0
    then ok tt
    else let capacity = env.monthly_scan_cap in
      let used = monthly_scans_used env db in
      if ltb capacity (used + additional)
      then err (scans_exceeded used capacity (capacity - used))
      else ok tt

-- The thresholds in percent, sorted, without a repetition.
unfoldable pub alert_thresholds : Env → List ℕ
alert_thresholds env =
    let w = env.alert_warning_ratio in
    let c = env.alert_critical_ratio in
    if w == c then w ∷ [] else if ltb w c then w ∷ c ∷ [] else c ∷ w ∷ []

-- `int((p / 100) * 100)`. For p ≤ 100 the product in double precision falls just below p at 29, 57
-- and 58 alone.
unfoldable pub threshold_key : ℕ → ℕ
threshold_key p = if p == 29 || (p == 57 || p == 58) then p - 1 else p

-- `usage.ratio < threshold`, multiplied out; the ratio of a resource with no capacity is 0.
unfoldable pub is_below : ResourceUsage → ℕ → Bool
is_below u percent =
    if u.capacity == 0 then ltb 0 percent else ltb (u.used * 100) (percent * u.capacity)

abbrev pub same_resource : Resource → Resource → Bool
same_resource monitored_slots monitored_slots = true
same_resource monthly_scans monthly_scans = true
same_resource _ _ = false

abbrev pub same_key : AlertKey → AlertKey → Bool
same_key a b =
    same_resource a.resource b.resource && (a.month == b.month && a.threshold == b.threshold)

-- `cache.get(key)`. A key lives 40 days and carries its month, so within the month it stays set.
unfoldable pub is_cached : AlertKey → Db → Bool
is_cached key db = some_of (same_key key) db.alert_cache

abbrev pub alert_key : Env → ResourceUsage → ℕ → AlertKey
alert_key env u percent = record {
  resource = u.resource;
  month = env.month;
  threshold = threshold_key percent;
}

-- Nothing is sent: below the threshold, already alerted, or the mail does not leave.
unfoldable pub is_silent : Env → ResourceUsage → ℕ → Db → Bool
unfolding is_cached
is_silent env u percent db =
    let key = alert_key env u percent in
    is_below u percent || (is_cached key db || not (env.mail_sent key))

-- `send_mail` and then `cache.set`: a cache that fails after the mail has left is passed over.
abbrev pub remember : Env → AlertKey → Db → Db
remember env key db = record db {
  alert_cache = if env.cache_written key then key ∷ db.alert_cache else db.alert_cache;
  alert_mails = key ∷ db.alert_mails;
}

-- One turn of the inner loop: a threshold of a resource.
unfoldable pub check_threshold : Env → ResourceUsage → ℕ → Db → Db
check_threshold env u percent db =
    if is_silent env u percent db then db else remember env (alert_key env u percent) db

unfoldable pub check_each : Env → ResourceUsage → List ℕ → Db → Db
check_each env u [] db = db
check_each env u (p ∷ ps) db = check_each env u ps (check_threshold env u p db)

unfoldable pub check_usages : Env → List ResourceUsage → Db → Db
check_usages env [] db = db
check_usages env (u ∷ us) db = check_usages env us (check_each env u (alert_thresholds env) db)

unfoldable pub check_alert_thresholds : Env → Db → Db
unfolding check_usages
check_alert_thresholds env db =
    if str_eq env.platform_alert_email "" then db else check_usages env (snapshot env db) db

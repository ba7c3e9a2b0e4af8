-- ===== src/Scheduler/Asked.antt =====
-- `SchedulerService.schedule` of agent/scheduler.py: what a user asks for becomes a pending job.
use kirakira_agent_online.Prelude.{
  ℕ, zero, suc, ◌+◌, ◌/◌, ◌%◌, min, max, String, Bool, false, ◌&&◌, ◌||◌, not, Option, some, List,
  [], ◌∷◌, ◌++◌, ◌==◌, ltb, leb, str_eq, str_append, is_empty, strip, text_or, if◌then◌else◌,
  Result, ok, err, ◌>>=◌, ◌>>◌, refuse_if, ℤ, pos, negsuc, at_least, count,
}
use kirakira_agent_online.Scheduler.{
  pending, is_waiting, JobTrigger, at, after, every, ScheduledMessage, seconds, CronFire,
}
use kirakira_agent_online.Scheduler.Duration.{parse_duration, is_cron_expr}

-- The tools' context, the empty text for what is missing.
pub record ToolContext : Type 0 where
  pub channel : String
  pub chat_id : String
  pub timezone : String

-- `str.lower`, the decimal digits, the zones, `parse_when_at`, `datetime.fromisoformat` in a zone, and
-- `next_cron_fire`; an error is the text of the exception.
pub record Calendar : Type 0 where
  pub lower : String → String
  pub digit : ℕ → Option ℕ
  pub has_zone : String → Bool
  pub parse_when_at : String → String → ℕ → Result String ℕ
  pub from_isoformat : String → String → Result String ℕ
  pub next_cron_fire : CronFire

pub record ScheduleCall : Type 0 where
  pub message : String
  pub run_at : String
  pub delay_seconds : ℤ
  pub interval_seconds : ℤ
  pub repeat_count : ℤ
  pub tier : String
  pub trigger : String
  pub when : String
  pub prompt : String
  pub timezone : String
  pub name : String
  pub request_time : String
  pub channel : String
  pub chat_id : String

-- The local variables of `schedule` once the time is known.
pub record Timing : Type 0 where
  pub scheduled_at : ℕ
  pub trigger : JobTrigger
  pub cron_expr : String
  pub interval : ℕ
  pub repeats : ℤ

-- `max(1, min(1000, n))`
abbrev pub clamp_repeats : ℤ → ℕ
clamp_repeats (pos n) = max 1 (min 1000 n)
clamp_repeats (negsuc n) = 1

abbrev pub as_error : Result String ℕ → Result String ℕ
as_error (ok n) = ok n
as_error (err e) = err (str_append "Error: " e)

unfoldable pub one_time : ScheduleCall → JobTrigger → ℕ → Timing
one_time a trigger t = record {
  scheduled_at = t;
  trigger = trigger;
  cron_expr = "";
  interval = at_least 0 a.interval_seconds;
  repeats = pos (clamp_repeats a.repeat_count);
}

unfoldable pub every_cron : ScheduleCall → ℕ → Timing
every_cron a t = record {
  scheduled_at = t;
  trigger = every;
  cron_expr = strip a.when;
  interval = at_least 0 a.interval_seconds;
  repeats = negsuc 0;
}

unfoldable pub every_interval : ℕ → ℕ → Timing
every_interval now secs = record {
  scheduled_at = now + seconds secs;
  trigger = every;
  cron_expr = "";
  interval = secs;
  repeats = negsuc 0;
}

unfoldable pub trigger_time : Calendar → ScheduleCall → String → String → ℕ → Result String Timing
unfolding one_time every_cron every_interval strip is_cron_expr
trigger_time cal a trigger tz now =
    if str_eq trigger "at"
    then (as_error (cal.parse_when_at a.when tz now) >>= λ t. ok (one_time a at t))
    else if str_eq trigger "after"
    then (as_error
          (if is_empty a.request_time then ok now else cal.from_isoformat a.request_time tz)
        >>= λ base. as_error (parse_duration cal.digit a.when) >>= λ d.
            ok (one_time a after (base + seconds d)))
    else if is_cron_expr a.when
    then (as_error (cal.next_cron_fire (strip a.when) tz now) >>= λ t. ok (every_cron a t))
    else (as_error (parse_duration cal.digit a.when) >>= λ d.
        refuse_if (d == 0) "Error: every interval must be positive" >> ok (every_interval now d))

-- The branch of a call that names a trigger.
unfoldable pub triggered : Calendar → ScheduleCall → String → String → ℕ → Result String Timing
unfolding trigger_time
triggered cal a trigger tz now = do
  refuse_if (not (str_eq trigger "at" || str_eq trigger "after" || str_eq trigger "every"))
      "Error: trigger must be at, after, or every"
  refuse_if (is_empty (strip a.when)) "Error: when is required with trigger"
  trigger_time cal a trigger tz now

unfoldable pub timing : Calendar → ScheduleCall → String → ℕ → Result String Timing
unfolding triggered
timing cal a tz now =
    let trigger = cal.lower (strip a.trigger) in
    if not (is_empty trigger)
    then triggered cal a trigger tz now
    else if not (is_empty a.run_at)
    then (as_error (cal.parse_when_at a.run_at tz now) >>= λ t. ok (one_time a at t))
    else if ltb 0 (at_least 0 a.delay_seconds)
    then ok (one_time a after (now + seconds (at_least 0 a.delay_seconds)))
    else err "Error: provide trigger/when, run_at, or a positive delay_seconds"

abbrev pub show_digit : ℕ → String
show_digit d =
    if d == 0
    then "0"
    else if d == 1
    then "1"
    else if d == 2
    then "2"
    else if d == 3
    then "3"
    else if d == 4
    then "4"
    else if d == 5
    then "5"
    else if d == 6
    then "6"
    else if d == 7
    then "7"
    else if d == 8
    then "8"
    else "9"

-- `"%d" % n`: as many rounds as `n` has digits at most.
unfoldable pub show_from : ℕ → ℕ → String
show_from zero n = show_digit (n % 10)
show_from (suc fuel) n =
    let rest = show_from fuel (n / 10) in
    if ltb n 10 then show_digit n else str_append rest (show_digit (n % 10))

unfoldable pub show_number : ℕ → String
unfolding show_from
show_number n = show_from n n

abbrev pub max_active_jobs : ℕ
max_active_jobs = 10

abbrev pub active : List ScheduledMessage → ℕ
active jobs = count (λ j. is_waiting j.status) jobs

-- What the call gives the job besides its time.
pub record JobText : Type 0 where
  pub channel : String
  pub chat_id : String
  pub message : String
  pub prompt : String
  pub timezone : String
  pub name : String
  pub is_soft : Bool

unfoldable pub new_job : ℕ → ℕ → JobText → Timing → ScheduledMessage
new_job id created_at x t = record {
  id = id;
  channel = x.channel;
  chat_id = x.chat_id;
  message = x.message;
  run_at = some t.scheduled_at;
  interval_seconds = t.interval;
  remaining_runs = t.repeats;
  status = pending;
  created_at = created_at;
  last_error = "";
  is_soft = x.is_soft;
  trigger = t.trigger;
  cron_expr = t.cron_expr;
  timezone = x.timezone;
  prompt = x.prompt;
  name = x.name;
}

abbrev pub needs_interval : Timing → Bool
needs_interval t = elim t.trigger [
  | every ↦ false
  | _ ↦ elim t.repeats [ pos n ↦ ltb 1 n && t.interval == 0 | negsuc n ↦ false ]
]

-- The checks once the time is known, and the new job.
unfoldable pub admit :
    (id now_utc : ℕ)
    → JobText
    → Timing
    → List ScheduledMessage
    → Result String (ScheduledMessage × List ScheduledMessage)
unfolding new_job
admit id now_utc x t jobs = do
  refuse_if (leb t.scheduled_at now_utc) "Error: scheduled time must be in the future"
  refuse_if (needs_interval t) "Error: interval_seconds is required when repeat_count > 1"
  refuse_if (leb max_active_jobs (active jobs)) (
      str_append "Error: schedule_capacity_reached active="
        (str_append (show_number (active jobs)) " max=10"))
  ok (new_job id now_utc x t, jobs ++ (new_job id now_utc x t ∷ []))

-- The checks of the texts.
unfoldable pub job_text : Calendar → ToolContext → ScheduleCall → Result String JobText
unfolding strip
job_text cal context a =
    let channel = strip (text_or a.channel context.channel) in
    let chat_id = strip (text_or a.chat_id context.chat_id) in
    let tier = cal.lower (strip a.tier) in
    let tz = text_or (strip a.timezone) (text_or context.timezone "UTC") in
    do
      refuse_if (is_empty channel || is_empty chat_id)
          "Error: schedule requires an active channel/chat context"
      refuse_if (not (str_eq tier "instant" || str_eq tier "soft"))
          "Error: tier must be instant or soft"
      refuse_if (str_eq tier "instant" && is_empty (strip a.message))
          "Error: message is required for tier=instant"
      refuse_if (str_eq tier "soft" && is_empty (strip a.prompt))
          "Error: prompt is required for tier=soft"
      refuse_if (not (cal.has_zone tz)) (str_append "Error: invalid timezone: " tz)
      ok (record {
        channel = channel;
        chat_id = chat_id;
        message = strip a.message;
        prompt = strip a.prompt;
        timezone = tz;
        name = strip a.name;
        is_soft = str_eq tier "soft";
      })

-- `now` and `now_utc` are the two readings of the clock.
unfoldable pub schedule :
    Calendar
    → ToolContext
    → ScheduleCall
    → (id now now_utc : ℕ) → List ScheduledMessage
    → Result String (ScheduledMessage × List ScheduledMessage)
unfolding job_text timing admit
schedule cal context a id now now_utc jobs = do
  x ← job_text cal context a
  t ← timing cal a x.timezone now
  admit id now_utc x t jobs

-- ===== src/Samples/Scheduled.antt =====
-- The local scheduler at concrete inputs.
use kirakira_agent_online.Prelude.{
  ℕ, ◌+◌, ◌-◌, ◌≤◌, ◌≡◌, refl, true, false, Option, none, some, List, [], ◌∷◌, ok, err, arith, pos,
  negsuc, if◌then◌else◌, ◌&&◌, leb, find,
}
use kirakira_agent_online.Scheduler.{pending, after, every, ScheduledMessage, CronFire, fire_job}
use kirakira_agent_online.Scheduler.Duration.{parse_duration, is_cron_expr}
use kirakira_agent_online.Scheduler.Asked.{
  ToolContext, Calendar, ScheduleCall, active, show_number, schedule,
}
use kirakira_agent_online.Scheduler.Service.{
  SchedulerService, no_jobs, after_save, fired, due_jobs, ServiceStep, asked, looks, fires,
  ServiceSteps, here, then_step,
}
use kirakira_agent_online.Scheduler.Service.Capacity.{named, JobsWithin, active_bounded}
use kirakira_agent_online.Scheduler.Service.Rows.{times}
use kirakira_agent_online.Scheduler.Service.Budget.{sent_bounded}

abbrev ascii_digit : ℕ → Option ℕ
ascii_digit c = if leb b'0' c && leb c b'9' then some (c - b'0') else none

parse_duration_runs :
    (parse_duration ascii_digit " 1h30m " ≡ ok 5400)
    × (parse_duration ascii_digit "30m1h" ≡ err "invalid duration; examples: 30s, 5m, 2h, 1h30m")
unfolding parse_duration
parse_duration_runs = (refl, refl)

is_cron_expr_runs : (is_cron_expr "0 9  * * 1-5" ≡ true) × (is_cron_expr "5m" ≡ false)
unfolding is_cron_expr
is_cron_expr_runs = (refl, refl)

show_number_runs : (show_number 10 ≡ "10") × (show_number 307 ≡ "307")
unfolding show_number
show_number_runs = (refl, refl)

-- A cron expression that fires a second later.
abbrev next_second : CronFire
next_second expr tz t = ok (t + 1)

abbrev calendar : Calendar
calendar = record {
  lower = λ s. s;
  digit = ascii_digit;
  has_zone = λ tz. true;
  parse_when_at = λ text tz now. err "Invalid isoformat string";
  from_isoformat = λ text tz. err "Invalid isoformat string";
  next_cron_fire = next_second;
}

abbrev in_chat : ToolContext
in_chat = record { channel = "telegram"; chat_id = "7"; timezone = "" }

-- Two messages, the first in a minute, the second half a minute later.
abbrev twice : ScheduleCall
twice = record {
  message = "stretch";
  run_at = "";
  delay_seconds = pos 60;
  interval_seconds = pos 30;
  repeat_count = pos 2;
  tier = "instant";
  trigger = "";
  when = "";
  prompt = "";
  timezone = "";
  name = "";
  request_time = "";
  channel = "";
  chat_id = "";
}

abbrev twice_job : ScheduledMessage
twice_job = record {
  id = 4;
  channel = "telegram";
  chat_id = "7";
  message = "stretch";
  run_at = some 60_000_000;
  interval_seconds = 30;
  remaining_runs = pos 2;
  status = pending;
  created_at = 1;
  last_error = "";
  is_soft = false;
  trigger = after;
  cron_expr = "";
  timezone = "UTC";
  prompt = "";
  name = "";
}

twice_asked : schedule calendar in_chat twice 4 0 1 [] ≡ ok (twice_job, twice_job ∷ [])
unfolding schedule
twice_asked = refl

abbrev twice_waits : SchedulerService
twice_waits = after_save true (twice_job ∷ []) no_jobs

-- The job is due after 61 seconds, and fires.
abbrev twice_again : ScheduledMessage
twice_again = record twice_job { run_at = some 90_000_000; remaining_runs = pos 1 }

abbrev looked : SchedulerService
looked = record twice_waits { due = 4 ∷ [] }

looks_once : ServiceStep calendar twice_waits looked
unfolding due_jobs
looks_once = looks 61_000_000 refl

-- The process is killed before the save.
fires_once : ServiceStep calendar looked (fired false none 4 [] twice_again looked)
unfolding fire_job find
fires_once = fires false none 4 [] 61_500_000 twice_job twice_again refl refl refl

none_yet : JobsWithin []
none_yet = record { unique = λ k. omega arith; within = omega arith }

twice_steps : ServiceSteps calendar twice_waits (fired false none 4 [] twice_again looked)
twice_steps = then_step (then_step here looks_once) fires_once

sent_bounded_example :
    times 4 no_jobs.unsaved + times 4 (fired false none 4 [] twice_again looked).sent
    ≤ times 4 no_jobs.sent + 2 + times 4 (fired false none 4 [] twice_again looked).unsaved
sent_bounded_example =
    sent_bounded calendar in_chat twice 4 0 1 1 twice_job (twice_job ∷ []) no_jobs
      (fired false none 4 [] twice_again looked) (record { memory = none_yet; file = none_yet })
      refl refl refl twice_asked refl refl twice_steps

asks_once : ServiceStep calendar no_jobs twice_waits
asks_once = asked true in_chat twice 4 0 1 twice_job (twice_job ∷ []) refl refl twice_asked

active_bounded_example : (active looked.jobs ≤ 10) × ((k : ℕ) → named k looked.jobs ≤ 1)
active_bounded_example =
    active_bounded calendar looked (then_step (then_step here asks_once) looks_once)

-- A job that repeats, and one whose only run is long over.
abbrev old_jobs : List ScheduledMessage
old_jobs =
    record twice_job { trigger = every; remaining_runs = negsuc 0 }
    ∷ record twice_job { id = 5; interval_seconds = 0; remaining_runs = pos 1 }
    ∷ []

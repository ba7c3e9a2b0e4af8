-- ===== src/Store/RateLimit.antt =====
-- The rate limiter of cloud/store.py (`consume_rate_limit`): one counter for a subject, a scope and a
-- window of time.
pub mod Window
use kirakira_agent_online.Prelude.{
  ℕ, ◌+◌, ◌-◌, ◌%◌, max, String, Bool, true, false, ◌&&◌, ◌||◌, not, Option, none, some, List, [],
  ◌∷◌, ◌++◌, ◌==◌, leb, str_eq, cut, if◌then◌else◌, is_some, find, update, ℤ, at_least,
}

pub record RateLimitCounter : Type 0 where
  pub subject_key : String
  pub scope : String
  pub window_start : ℕ
  pub used : ℕ  -- `count`
  pub expires_at : ℕ

pub record RateLimitDecision : Type 0 where
  pub allowed : Bool
  pub limit : ℕ
  pub remaining : ℕ
  pub retry_after_seconds : ℕ

-- A request, at the second `epoch`. `seen` are the counters that its first query reads, before
-- another transaction may have inserted one.
pub record Request : Type 0 where
  pub subject_key : String
  pub scope : String
  pub limit : ℤ
  pub window_seconds : ℤ
  pub epoch : ℕ
  pub seen : List RateLimitCounter

-- The primary key of the counters.
pub record Bucket : Type 0 where
  pub key : String
  pub bucket_scope : String
  pub window_start : ℕ

unfoldable pub bucket_of : Request → Bucket
bucket_of r = record {
  key = cut 256 r.subject_key;
  bucket_scope = cut 64 r.scope;
  window_start = r.epoch - r.epoch % at_least 1 r.window_seconds;
}

-- `window_start + bounded_window - epoch` is positive.
unfoldable pub retry_after : Request → ℕ
retry_after r =
    max 1 (r.epoch - r.epoch % at_least 1 r.window_seconds + at_least 1 r.window_seconds - r.epoch)

unfoldable pub in_bucket : Bucket → RateLimitCounter → Bool
in_bucket b c =
    str_eq c.subject_key b.key && str_eq c.scope b.bucket_scope && c.window_start == b.window_start

unfoldable pub new_counter : Request → RateLimitCounter
unfolding bucket_of retry_after
new_counter r = record {
  subject_key = (bucket_of r).key;
  scope = (bucket_of r).bucket_scope;
  window_start = (bucket_of r).window_start;
  used = 1;
  expires_at = r.epoch + retry_after r;
}

unfoldable pub increased : RateLimitCounter → RateLimitCounter
increased c = record c { used = c.used + 1 }

unfoldable pub decision : Request → Bool → ℕ → RateLimitDecision
decision r allowed remaining = record {
  allowed = allowed;
  limit = at_least 1 r.limit;
  remaining = remaining;
  retry_after_seconds = retry_after r;
}

-- With the counter's row.
unfoldable pub consume_counter :
    Request → RateLimitCounter → List RateLimitCounter → RateLimitDecision × List RateLimitCounter
unfolding increased decision
consume_counter r c rows = if leb (at_least 1 r.limit) c.used then (decision r false 0, rows) else (
  decision r true (at_least 1 r.limit - (c.used + 1)),
  update (in_bucket (bucket_of r)) increased rows,
)

-- One attempt on the rows as they are.
unfoldable pub attempt : Request → List RateLimitCounter → RateLimitDecision × List RateLimitCounter
unfolding consume_counter new_counter decision
attempt r rows = elim (find (in_bucket (bucket_of r)) rows) [
  | none ↦ (decision r true (at_least 1 r.limit - 1), rows ++ (new_counter r ∷ []))
  | some c ↦ consume_counter r c rows
]

-- A first attempt that saw no counter inserts one; where the primary key refuses it, the second attempt
-- finds the row of the other transaction.
unfoldable pub consume_rate_limit :
    Request → List RateLimitCounter → RateLimitDecision × List RateLimitCounter
unfolding attempt
consume_rate_limit r rows =
    if is_some (find (in_bucket (bucket_of r)) r.seen)
    then attempt r rows
    else if is_some (find (in_bucket (bucket_of r)) rows)
    then attempt r rows
    else (decision r true (at_least 1 r.limit - 1), rows ++ (new_counter r ∷ []))

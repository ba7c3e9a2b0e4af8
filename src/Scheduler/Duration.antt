-- ===== src/Scheduler/Duration.antt =====
-- The texts of agent/scheduler.py that are no dates: `parse_duration` and `is_cron_expr`. Which code points
-- are decimal digits is a parameter.
use Prim.Native.Char.{code}
use Prim.Native.String.{String}
use kirakira_agent_online.Prelude.{
  ℕ, suc, ◌+◌, ◌*◌, Bool, true, false, ◌||◌, not, Option, none, some, ◌==◌, if◌then◌else◌, Result,
  ok, err, is_space, is_empty, strip, is_some,
}

-- `(\d+)`, read up to the first code point that is no digit: whether there was one, and its value.
unfoldable pub read_digits : (ℕ → Option ℕ) → ℕ → Bool → String → Bool × ℕ × String
read_digits digit n seen String.[] = (seen, n, String.[])
read_digits digit n seen (String.◌∷◌ c s) = elim (digit (code c)) [
  | none ↦ (seen, n, String.◌∷◌ c s)
  | some v ↦ read_digits digit (n * 10 + v) true s
]

-- `(?:(\d+)u)?` for one unit `u`
abbrev pub read_unit : ℕ → String → Bool × ℕ × String → Option ℕ × String
read_unit unit s (false, n, rest) = (none, s)
read_unit unit s (true, n, String.[]) = (none, s)
read_unit unit s (true, n, String.◌∷◌ c rest) = if code c == unit then (some n, rest) else (none, s)

unfoldable pub read_part : (ℕ → Option ℕ) → ℕ → String → Option ℕ × String
unfolding read_digits
read_part digit unit s = read_unit unit s (read_digits digit 0 false s)

-- `int(item or 0)`
abbrev pub or_zero : Option ℕ → ℕ
or_zero none = 0
or_zero (some n) = n

-- `parse_duration`, in seconds
unfoldable pub parse_duration : (ℕ → Option ℕ) → String → Result String ℕ
unfolding read_part strip
parse_duration digit value =
    let (days, s1) = read_part digit b'd' (strip value) in
    let (hours, s2) = read_part digit b'h' s1 in
    let (minutes, s3) = read_part digit b'm' s2 in
    let (secs, s4) = read_part digit b's' s3 in
    if not (is_empty s4) || not (is_some days || is_some hours || is_some minutes || is_some secs)
    then err "invalid duration; examples: 30s, 5m, 2h, 1h30m"
    else ok (((or_zero days * 24 + or_zero hours) * 60 + or_zero minutes) * 60 + or_zero secs)

-- `len(value.split())`
unfoldable pub count_words : Bool → String → ℕ
unfolding is_space
count_words in_word String.[] = 0
count_words in_word (String.◌∷◌ c s) =
    let rest = count_words (not (is_space (code c))) s in
    if is_space (code c) || in_word then rest else suc rest

unfoldable pub is_cron_expr : String → Bool
unfolding count_words strip
is_cron_expr value = let n = count_words false (strip value) in n == 5 || n == 6

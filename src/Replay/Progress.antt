-- ===== src/Replay/Progress.antt =====
-- `ModelRun.record_usage`.
use candlepilot.Prelude.{
  ℕ, suc, ◌+◌, String, Bool, true, false, Option, none, some, List, [], ◌∷◌, if◌then◌else◌, not,
  ◌&&◌,
}
use candlepilot.Risk.Permission.{is_listed}
use candlepilot.Replay.{ModelRun, Usage}
use candlepilot.Replay.Spec.{nonzero_or}

abbrev pub new_run : ModelRun
new_run = record {
  decisions_done = 0;
  decisions_total = 0;
  calls_failed = 0;
  usage_calls = 0;
  priced_calls = 0;
  input_tokens = 0;
  cached_input_tokens = 0;
  cache_creation_input_tokens = 0;
  output_tokens = 0;
  total_tokens = 0;
  physical_calls_seen = [];
  error = none;
  provider_failed = false;
  last_successful_at = none;
  live_result = none;
}

-- Whether a call was not counted before.
abbrev pub is_new_call : Option String → List String → Bool
is_new_call none seen = true
is_new_call (some id) seen = not (is_listed id seen)

-- `seen.add(id)`
abbrev pub add_seen : Option String → List String → List String
add_seen none seen = seen
add_seen (some id) seen = if is_listed id seen then seen else id ∷ seen

abbrev pub count_if : Bool → ℕ → ℕ
count_if true n = suc n
count_if false n = n

unfoldable pub record_usage : ModelRun → Usage → Bool → ModelRun
record_usage run usage is_priced =
    let input = nonzero_or usage.input_tokens 0 in
    let output = nonzero_or usage.output_tokens 0 in
    let new_call = is_new_call usage.physical_call_id run.physical_calls_seen in
    record run {
      physical_calls_seen = add_seen usage.physical_call_id run.physical_calls_seen;
      usage_calls = count_if new_call run.usage_calls;
      input_tokens = run.input_tokens + input;
      cached_input_tokens =
          run.cached_input_tokens
          + nonzero_or usage.cached_input_tokens (nonzero_or usage.cache_read_input_tokens 0);
      cache_creation_input_tokens =
          run.cache_creation_input_tokens + nonzero_or usage.cache_creation_input_tokens 0;
      output_tokens = run.output_tokens + output;
      total_tokens = run.total_tokens + nonzero_or usage.total_tokens (input + output);
      priced_calls = count_if (is_priced && new_call) run.priced_calls;
    }

-- ===== src/Client/Runs.antt =====
-- The theorems on the watches of a client at concrete runs.
use tip_olg_nats_agent_core.Common.{
  ◌⊎◌, ℕ, ◌≡◌, refl, String, Bool, true, false, Option, none, some, List, [], ◌∷◌, arith, lookup,
  insert, delete, modify, nat_key, is_some,
}
use tip_olg_nats_agent_core.Errors.{Error, nil, is_nil, joined}
use tip_olg_nats_agent_core.Strings.{
  trim_space, any_char, is_letter, count_verbs, is_digit, remove_verbs, sprintf,
}
use tip_olg_nats_agent_core.Subjects.Validate.{token_char}
use tip_olg_nats_agent_core.Kv.Keys.{build_desired_config_key, key_pattern_error, validate_token}
use tip_olg_nats_agent_core.Kv.Start.{
  Attempt, Watched, by_ready, watch_desired_config, keyed, awaited, wait_for_watch_ready, stop,
}
use tip_olg_nats_agent_core.Client.Watches.{
  Watches, set_stop, call_stop, register_watch, build_watch, set_watch, watch, stop_all_watches,
}
use tip_olg_nats_agent_core.Client.Rewatch.{
  restore_all_active_watches, copy_each, copy_one, ask, restore_copies, rebuild_each, rebuild_one,
  take_over_watches, take_over_watch, failure,
}
use tip_olg_nats_agent_core.Client.Reached.{IsReached, created, watched, restored}
use tip_olg_nats_agent_core.Client.Kept.{IsKept, IsReached-IsKept, stop_all_watches_lem}
use tip_olg_nats_agent_core.Client.Leaked.{
  restore_all_active_watches-panics, stop_all_watches-leaks,
}
use tip_olg_nats_agent_core.Client.Examples.{ascii}

methods : Unit {0}
unfolding watch set_watch build_watch watch_desired_config keyed build_desired_config_key
    key_pattern_error trim_space any_char count_verbs remove_verbs validate_token token_char
    is_letter is_digit awaited wait_for_watch_ready register_watch set_stop delete insert modify
    sprintf lookup restore_all_active_watches copy_each copy_one ask restore_copies rebuild_each
    rebuild_one take_over_watches take_over_watch call_stop stop joined failure
methods = tt

abbrev pub attempts : ℕ → Attempt
attempts n = record {
  key_value_err = nil;
  watch_err = nil;
  woken = by_ready;
  gives_up = true;
  ends = true;
}

abbrev pub not_done : ℕ → Error
not_done n = nil

abbrev pub pattern : String
pattern = "desired.%s"

abbrev none_yet : Watches
none_yet = record {
  next_id = 0;
  active = [];
  watchers = record { unstopped = []; made = 0; lingering = []; sunk = [] };
  asked = 0;
  sunk = [];
}

-- The client with one watch, which has the id 1 and was made anew `asked` times, or is still to be made.
abbrev with_one : ℕ → Bool → Option ℕ → List (ℕ × Watched) → ℕ → ℕ → Watches
with_one n has_ctx held live made asked = record {
  next_id = n;
  active = (1, record { target = "ap1"; handler = 7; has_ctx = has_ctx; stop_fn = held }) ∷ [];
  watchers = record { unstopped = live; made = made; lingering = []; sunk = [] };
  asked = asked;
  sunk = [];
}

abbrev pub again : Watches
again = with_one 1 true (some 1) ((1, ("ap1", 7)) ∷ []) 2 2

pub watched_again : IsReached ascii pattern true attempts not_done again
unfolding methods
watched_again =
    restored (with_one 1 true (some 0) ((0, ("ap1", 7)) ∷ []) 1 0) again nil
      (watched "ap1" (some 7) none_yet (omega arith) created) refl

IsReached-IsKept_example :
    IsKept again
    × (is_some (restore_all_active_watches ascii pattern true attempts not_done again) ≡ true)
IsReached-IsKept_example = IsReached-IsKept ascii pattern true attempts not_done again watched_again

stop_all_watches_lem_example :
    ((stop_all_watches ascii pattern true attempts again).0.active ≡ [])
    × ((n : ℕ)
        → lookup n (stop_all_watches ascii pattern true attempts again).0.watchers.unstopped ≡ none)
    × ((is_nil (stop_all_watches ascii pattern true attempts again).1 ≡ false)
        ⊎ ((stop_all_watches ascii pattern true attempts again).0.watchers.lingering
            ≡ again.watchers.lingering))
stop_all_watches_lem_example =
    stop_all_watches_lem ascii pattern true attempts not_done again watched_again

restore_all_active_watches-panics_example :
    restore_all_active_watches ascii pattern true attempts not_done
      (watch ascii pattern true attempts false "ap1" (some 7) none_yet).0
    ≡ none
unfolding methods
restore_all_active_watches-panics_example =
    restore_all_active_watches-panics ascii pattern true attempts not_done
      (with_one 1 false (some 0) ((0, ("ap1", 7)) ∷ []) 1 0) 1
      (record { target = "ap1"; handler = 7; has_ctx = false; stop_fn = some 0 }) refl refl

stop_all_watches-leaks_example :
    lookup 0
      (stop_all_watches ascii pattern true attempts (
        with_one 1 true (some 1) ((0, ("ap1", 7)) ∷ (1, ("ap1", 7)) ∷ []) 2 2)).0.watchers.unstopped
    ≡ some ("ap1", 7)
unfolding methods
stop_all_watches-leaks_example =
    stop_all_watches-leaks ascii pattern true attempts not_done none_yet
      (with_one 1 true (some 0) ((0, ("ap1", 7)) ∷ []) 1 2) nil "ap1" 7 0 1
      (record { target = "ap1"; handler = 7; has_ctx = true; stop_fn = some 0 }) created
      (omega arith) refl refl refl refl refl

-- ===== src/Registry/Examples.antt =====
-- The theorems on the registry at a concrete registry and intent.
use Prim.Native.String.{◌++◌}
use tip_olg_nats_agent_core.Common.{
  String, ◌≡◌, refl, ◌↔◌, false, some, List, [], ◌∷◌, arith, lookup, insert, modify, nat_key,
  string_key,
}
use tip_olg_nats_agent_core.Strings.{trim_space, any_char}
use tip_olg_nats_agent_core.Errors.{nil}
use tip_olg_nats_agent_core.Results.{ok}
use tip_olg_nats_agent_core.Registry.{
  Registry, Entry, RegId, AddSpec, Snapshot, kind_configure, kind_action, new, add, remove,
  mark_active, clear_active_handles, activate, new_entry, snapshot_from_entry, validate_add_spec,
  registration_key, bump,
}
use tip_olg_nats_agent_core.Registry.Keys.{registration_key_inj}
use tip_olg_nats_agent_core.Registry.Invariant.{IsValid}
use tip_olg_nats_agent_core.Registry.Behaviour.{Call, adds, marks_active, run, run-new-IsValid}
use tip_olg_nats_agent_core.Registry.Intents.{IsTaken, is_ok, add_refused_iff, remove-add}
use tip_olg_nats_agent_core.Registry.Handles.{Hands, clear_active_handles-Hands}

abbrev spec : AddSpec
spec = record {
  kind = kind_configure;
  target = "vyos";
  action = "";
  subject = "cmd.configure.vyos";
  queue_group = "";
  callback = some 1;
}

abbrev other : AddSpec
other = record spec { kind = kind_action; subject = "cmd.action.vyos.trace" }

abbrev calls : List Call
calls = adds spec ∷ marks_active 1 (some 7) ∷ []

-- One registered intent, with the live subscription 7.
abbrev live_registry : Registry
live_registry = run new calls

live_registry-IsValid : IsValid live_registry
live_registry-IsValid = run-new-IsValid calls (omega arith)

abbrev entry : Entry
entry = activate (some 7) (new_entry 1 spec)

there : lookup 1 live_registry.entries ≡ some entry
unfolding new add mark_active lookup insert activate new_entry validate_add_spec trim_space bump
    modify
there = refl

held : entry.active_sub ≡ some 7
unfolding activate
held = refl

counter : live_registry.next_id ≡ 1
unfolding new add mark_active lookup insert activate new_entry validate_add_spec trim_space bump
    modify
counter = refl

-- What Add returns for the other intent.
abbrev snap : Snapshot
snap = record {
  id = 2;
  kind = kind_action;
  target = "vyos";
  action = "";
  subject = "cmd.action.vyos.trace";
  queue_group = "";
  active = false;
  last_activation_err = "";
}

accepted : (add live_registry other).1 ≡ ok snap
unfolding new add mark_active lookup insert activate new_entry validate_add_spec trim_space bump
    modify registration_key snapshot_from_entry
accepted = refl

spec_fine : validate_add_spec other ≡ nil
unfolding validate_add_spec trim_space
spec_fine = refl

run-new-IsValid_example : IsValid (run new calls)
run-new-IsValid_example = run-new-IsValid calls (omega arith)

add_refused_iff_example :
    (is_ok (add live_registry other).1 ≡ false)
    ↔ IsTaken live_registry
        (other.kind ++ ("|" ++ (trim_space other.subject ++ ("|" ++ trim_space other.queue_group))))
unfolding registration_key
add_refused_iff_example = add_refused_iff live_registry live_registry-IsValid other spec_fine

remove-add_example :
    ((i : RegId)
      → lookup i (remove (add live_registry other).0 snap.id).0.entries
        ≡ lookup i live_registry.entries)
    × ((k : String)
        → lookup k (remove (add live_registry other).0 snap.id).0.by_key
          ≡ lookup k live_registry.by_key)
remove-add_example =
    remove-add live_registry live_registry-IsValid other spec_fine snap (omega (arith, counter))
      accepted

clear_active_handles-Hands_example : Hands 7 (clear_active_handles live_registry).1
clear_active_handles-Hands_example = clear_active_handles-Hands live_registry 1 entry 7 there held

registration_key_inj_example :
    (◌≡◌ {A = String} "action" "action")
    × (trim_space "a.b" ≡ trim_space " a.b")
    × (trim_space "q|r" ≡ trim_space "q|r ")
unfolding any_char trim_space registration_key
registration_key_inj_example =
    registration_key_inj "action" "action" "a.b" " a.b" "q|r" "q|r " refl refl refl refl refl

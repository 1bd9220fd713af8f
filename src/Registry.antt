-- ===== src/Registry.antt =====
-- internal/registry: the subscription intents that a client has registered, and which of them have a
-- live NATS subscription. Each method runs under the registry's lock, so it is one step on the state;
-- Add takes its number from the atomic counter before it takes the lock, and keeps it on a conflict.
-- An id is the number n of its text "sub-n". A callback and a NATS subscription are pointers: numbers
-- that stand for them, `none` for nil.
pub mod Keys
pub mod Invariant
pub mod Preservation
pub mod Behaviour
pub mod Intents
pub mod Handles
mod Examples
use Prim.Native.Nat.{◌%◌, ◌/◌, ◌^◌}
use Prim.Native.String.{◌++◌}
use tip_olg_nats_agent_core.Common.{
  ℕ, zero, suc, ◌+◌, String, ◌==◌, Bool, true, false, ◌&&◌, Option, none, some, List, [], ◌∷◌, ltb,
  nat_eq, is_some, length, lookup, insert, delete, modify, map_values, nat_key, string_key,
  if◌then◌else◌,
}
use tip_olg_nats_agent_core.Strings.{trim_space}
use tip_olg_nats_agent_core.Errors.{
  Error, nil, external, runtime, fault, fault_at, validation, registry_conflict, other,
  validation_error, is_nil, error_text,
}
use tip_olg_nats_agent_core.Results.{Result, ok, err}

-- Kind is a string type with four constants.
abbrev pub Kind : Type 0
Kind = String

abbrev pub kind_configure : Kind
kind_configure = "configure"

abbrev pub kind_action : Kind
kind_action = "action"

abbrev pub kind_result : Kind
kind_result = "result"

abbrev pub kind_status : Kind
kind_status = "status"

abbrev pub RegId : Type 0
RegId = ℕ

-- *nats.Subscription, and nats.MsgHandler
abbrev pub Sub : Type 0
Sub = Option ℕ

abbrev pub Callback : Type 0
Callback = Option ℕ

-- AddSpec
pub record AddSpec : Type 0 where
  pub kind : Kind
  pub target : String
  pub action : String
  pub subject : String
  pub queue_group : String
  pub callback : Callback

-- entry
pub record Entry : Type 0 where
  pub id : RegId
  pub key : String
  pub kind : Kind
  pub target : String
  pub action : String
  pub subject : String
  pub queue_group : String
  pub callback : Callback
  pub active_sub : Sub
  pub active : Bool
  pub last_activation_err : String

-- ActivationRecord
pub record ActivationRecord : Type 0 where
  pub id : RegId
  pub kind : Kind
  pub subject : String
  pub queue_group : String
  pub callback : Callback
  pub active_sub : Sub
  pub active : Bool

-- Snapshot
pub record Snapshot : Type 0 where
  pub id : RegId
  pub kind : Kind
  pub target : String
  pub action : String
  pub subject : String
  pub queue_group : String
  pub active : Bool
  pub last_activation_err : String

-- ActiveHandle
pub record ActiveHandle : Type 0 where
  pub id : RegId
  pub subject : String
  pub sub : Sub

-- Registry
pub record Registry : Type 0 where
  pub next_id : ℕ
  pub entries : List (RegId × Entry)
  pub by_key : List (String × RegId)

-- New
unfoldable pub new : Registry
new = record { next_id = 0; entries = []; by_key = [] }

-- validateAddSpec
unfoldable pub validate_add_spec : AddSpec → Error
validate_add_spec spec =
    if trim_space spec.kind == ""
    then validation_error "registry_add" "registration kind is required"
    else if trim_space spec.subject == ""
    then validation_error "registry_add" "registration subject is required"
    else if is_some spec.callback
    then nil
    else validation_error "registry_add" "registration callback is required"

-- registrationKey
unfoldable pub registration_key : Kind → String → String → String
registration_key kind subject queue_group =
    kind ++ ("|" ++ (trim_space subject ++ ("|" ++ trim_space queue_group)))

-- The decimal digits of a number below 10 ^ fuel.
unfoldable pub decimal : ℕ → ℕ → String
decimal zero n = ""
decimal (suc fuel) n =
    let more = decimal fuel (n / 10) in (if ltb n 10 then "" else more) ++ digit (n % 10)
  where
    digit : ℕ → String
    digit d =
        if nat_eq d 0
        then "0"
        else if nat_eq d 1
        then "1"
        else if nat_eq d 2
        then "2"
        else if nat_eq d 3
        then "3"
        else if nat_eq d 4
        then "4"
        else if nat_eq d 5
        then "5"
        else if nat_eq d 6
        then "6"
        else if nat_eq d 7
        then "7"
        else if nat_eq d 8
        then "8"
        else "9"

-- fmt.Sprintf("sub-%d", n); a uint64 has at most 20 digits.
unfoldable pub id_text : RegId → String
unfolding decimal
id_text n = "sub-" ++ decimal 20 n

-- snapshotFromEntry
unfoldable pub snapshot_from_entry : Entry → Snapshot
snapshot_from_entry e = record {
  id = e.id;
  kind = e.kind;
  target = e.target;
  action = e.action;
  subject = e.subject;
  queue_group = e.queue_group;
  active = e.active;
  last_activation_err = e.last_activation_err;
}

-- activationFromEntry
unfoldable pub activation_from_entry : Entry → ActivationRecord
activation_from_entry e = record {
  id = e.id;
  kind = e.kind;
  subject = e.subject;
  queue_group = e.queue_group;
  callback = e.callback;
  active_sub = e.active_sub;
  active = e.active;
}

-- atomic.AddUint64(&r.nextID, 1)
unfoldable pub bump : ℕ → ℕ
bump n = (n + 1) % 2 ^ 64

unfoldable pub new_entry : RegId → AddSpec → Entry
new_entry id spec = record {
  id = id;
  key = registration_key spec.kind spec.subject spec.queue_group;
  kind = spec.kind;
  target = spec.target;
  action = spec.action;
  subject = spec.subject;
  queue_group = spec.queue_group;
  callback = spec.callback;
  active_sub = none;
  active = false;
  last_activation_err = "";
}

conflict : AddSpec → RegId → Error
conflict spec existing =
    runtime
      (fault_at registry_conflict "registry_add" spec.subject
        "subscription registration already exists" false)
      (external other ("conflicts with existing registration " ++ id_text existing))

-- Add
unfoldable pub add : Registry → AddSpec → Registry × Result Snapshot
unfolding new_entry conflict
add r spec =
    let invalid = validate_add_spec spec in
    let id = bump r.next_id in
    let key = registration_key spec.kind spec.subject spec.queue_group in
    let e = new_entry id spec in
    if is_nil invalid
    then elim (lookup key r.by_key) [
      | some existing ↦ (record r { next_id = id }, err (conflict spec existing))
      | none ↦ (
        record { next_id = id; entries = insert id e r.entries; by_key = insert key id r.by_key },
        ok (snapshot_from_entry e),
      )
    ]
    else (r, err invalid)

-- GetActivationRecord
unfoldable pub get_activation_record : Registry → RegId → Option ActivationRecord
get_activation_record r id = elim (lookup id r.entries) [
  | none ↦ none
  | some e ↦ some (activation_from_entry e)
]

-- ListActivations, and RestoreRecords, which calls it
unfoldable pub list_activations : List (RegId × Entry) → List ActivationRecord
list_activations [] = []
list_activations ((id, e) ∷ m) = activation_from_entry e ∷ list_activations m

unfoldable pub restore_records : Registry → List ActivationRecord
restore_records r = list_activations r.entries

-- List
unfoldable pub list : List (RegId × Entry) → List Snapshot
list [] = []
list ((id, e) ∷ m) = snapshot_from_entry e ∷ list m

-- What MarkActive does to its entry, and the stale handle that it returns for it.
unfoldable pub activate : Sub → Entry → Entry
activate none e = record e { active_sub = none; active = false }
activate (some s) e = record e { active_sub = some s; active = true; last_activation_err = "" }

unfoldable pub stale : Sub → Sub → Sub
stale none old = old
stale (some s) none = none
stale (some s) (some old) = if nat_eq old s then none else some old

-- MarkActive
unfoldable pub mark_active : Registry → RegId → Sub → Registry × Sub
mark_active r id sub = elim (lookup id r.entries) [
  | none ↦ (r, none)
  | some e ↦ (record r { entries = modify id (activate sub) r.entries }, stale sub e.active_sub)
]

unfoldable pub deactivate : Error → Entry → Entry
deactivate activation_err e = record e {
  active_sub = none;
  active = false;
  last_activation_err =
      if is_nil activation_err then e.last_activation_err else error_text activation_err;
}

-- MarkInactive
unfoldable pub mark_inactive : Registry → RegId → Error → Registry
mark_inactive r id activation_err = elim (lookup id r.entries) [
  | none ↦ r
  | some e ↦ record r { entries = modify id (deactivate activation_err) r.entries }
]

-- The loop of ClearActiveHandles: the handles that it collects.
unfoldable pub handles : List (RegId × Entry) → List ActiveHandle
handles [] = []
handles ((id, e) ∷ m) = elim e.active_sub [
  | none ↦ handles m
  | some s ↦ record { id = e.id; subject = e.subject; sub = some s } ∷ handles m
]

unfoldable pub detach : Entry → Entry
detach e = record e { active_sub = none; active = false }

-- ClearActiveHandles
unfoldable pub clear_active_handles : Registry → Registry × List ActiveHandle
clear_active_handles r = (record r { entries = map_values detach r.entries }, handles r.entries)

-- Remove
unfoldable pub remove : Registry → RegId → Registry × Option ActiveHandle
remove r id = elim (lookup id r.entries) [
  | none ↦ (r, none)
  | some e ↦ (
    record r { entries = delete id r.entries; by_key = delete e.key r.by_key },
    some (record { id = e.id; subject = e.subject; sub = e.active_sub }),
  )
]

-- The loop of Counts.
unfoldable pub count_active : List (RegId × Entry) → ℕ
count_active [] = 0
count_active ((id, e) ∷ m) =
    if is_some e.active_sub && e.active then suc (count_active m) else count_active m

-- Counts
unfoldable pub counts : Registry → ℕ × ℕ
counts r = (length r.entries, count_active r.entries)

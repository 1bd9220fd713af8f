-- ===== src/Client/Watches.antt =====
-- agentcore/client.go: the watches of a client. What watchMu guards is one state. A context is present or
-- nil, and the answers of its Err are given one after another; a stop function is the number of the
-- watch that it stops.
use Prim.Native.Nat.{◌%◌, ◌^◌}
use tip_olg_nats_agent_core.Common.{
  ℕ, ◌+◌, String, Bool, Option, none, some, List, [], ◌∷◌, lookup, insert, delete, modify, nat_key,
}
use tip_olg_nats_agent_core.Strings.{Unicode}
use tip_olg_nats_agent_core.Errors.{Error, nil, joined, facade_validation_error, to_public_error}
use tip_olg_nats_agent_core.Results.{Result, ok, err}
use tip_olg_nats_agent_core.Kv.Start.{Attempt, Watchers, watch_desired_config, stop}

-- activeWatch, without its id, which is its key
pub record ActiveWatch : Type 0 where
  pub target : String
  pub handler : ℕ
  pub has_ctx : Bool
  pub stop_fn : Option ℕ

-- What watchMu guards, with the watches of internal/kv, how often the Err of a context was asked, and
-- what the error sink of the client got.
pub record Watches : Type 0 where
  pub next_id : ℕ
  pub active : List (ℕ × ActiveWatch)
  pub watchers : Watchers
  pub asked : ℕ
  pub sunk : List Error

unfoldable pub set_stop : ℕ → ActiveWatch → ActiveWatch
set_stop n i = record i { stop_fn = some n }

module _ (u : Unicode) (key_pattern : String) (has_sink : Bool) (w : ℕ → Attempt) where
  -- A stop function that may be nil.
  unfoldable pub call_stop : Option ℕ → Watches → Watches × Error
  call_stop none c = (c, nil)
  call_stop (some n) c =
      let (r, e) = stop u key_pattern has_sink w n c.watchers in (record c { watchers = r }, e)

  -- WatchDesiredConfig under its first lock: the id
  unfoldable pub register_watch : Bool → String → ℕ → Watches → Watches × ℕ
  register_watch has_ctx target handler c =
      let id = (c.next_id + 1) % 2 ^ 64 in
      let intent : ActiveWatch = record {
        target = target;
        handler = handler;
        has_ctx = has_ctx;
        stop_fn = none;
      } in
      (record c { next_id = id; active = insert id intent c.active }, id)

  -- buildWatch
  unfoldable pub build_watch : String → ℕ → Watches → Watches × Result ℕ
  build_watch target handler c =
      let (r, answer) =
        watch_desired_config u key_pattern has_sink w target (some handler) c.watchers in
      (record c { watchers = r }, answer)

  -- WatchDesiredConfig under its last lock; it writes through the pointer, which the map need not have
  unfoldable pub set_watch : ℕ → Result ℕ → Watches → Watches × Error
  set_watch id (err e) c = (record c { active = delete id c.active }, to_public_error e)
  set_watch id (ok n) c = (record c { active = modify id (set_stop n) c.active }, nil)

  -- Client.WatchDesiredConfig: the id that its stop function knows, with the error
  unfoldable pub watch : Bool → String → Option ℕ → Watches → Watches × ℕ × Error
  watch has_ctx target none c =
      (c, 0, facade_validation_error "watch_desired_config" "watch handler is required")
  watch has_ctx target (some handler) c =
      let (c1, id) = register_watch has_ctx target handler c in
      let (c2, answer) = build_watch target handler c1 in
      let (c3, e) = set_watch id answer c2 in (c3, id, e)

  -- The function that Client.WatchDesiredConfig returns, of its id.
  unfoldable pub stop_watch : ℕ → Watches → Watches × Error
  stop_watch id c = elim (lookup id c.active) [
    | none ↦ (c, nil)
    | some i ↦ call_stop i.stop_fn (record c { active = delete id c.active })
  ]

  -- The second loop of stopAllWatches, of the map that its first loop reads.
  unfoldable pub stop_each : List (ℕ × ActiveWatch) → Error → Watches → Watches × Error
  stop_each [] sum c = (c, sum)
  stop_each ((id, i) ∷ rest) sum c =
      let (c', e) = call_stop i.stop_fn c in stop_each rest (joined sum e) c'

  -- stopAllWatches
  unfoldable pub stop_all_watches : Watches → Watches × Error
  stop_all_watches c = stop_each c.active nil (record c { active = [] })

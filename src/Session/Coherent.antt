-- ===== src/Session/Coherent.antt =====
-- The manager's health, handles and flags agree after each hold of the lock in session.go and
-- callbacks.go.
use tip_olg_nats_agent_core.Common.{
  ℕ, String, Bool, true, false, not, ◌&&◌, ◌||◌, Option, none, some, ◌≡◌, refl, sym, is_some,
  if◌then◌else◌,
}
use tip_olg_nats_agent_core.Errors.{Error}
use tip_olg_nats_agent_core.Session.{
  Manager, ConnectionState, fresh, connecting, connected, reconnecting, draining, closed, degraded,
}
use tip_olg_nats_agent_core.Session.Health.{set_degraded, set_subscription_counts}
use tip_olg_nats_agent_core.Session.Lifecycle.{
  new_manager, start_begin, start_commit, start_finish, is_chan, close_choice, close_begin,
  close_finish, on_disconnect, on_closed, rebind_commit,
}

-- What a health state says of the readiness of JetStream and of the bucket, and of a connection.
unfoldable pub agrees : ConnectionState → Bool → Bool → Bool → Bool
agrees fresh js kv nc = not js && not kv && not nc
agrees connecting js kv nc = true
agrees connected js kv nc = js && kv && nc
agrees reconnecting js kv nc = not js && not kv
agrees draining js kv nc = true
agrees closed js kv nc = not js && not kv
agrees degraded js kv nc = not js && not kv

-- The health agrees with the handles, which are there together, and the two flags of Close agree.
pub record IsCoherent (m : Manager) : Type 0 where
  pub healthy :
      agrees m.health.state m.health.jet_stream_ready m.health.kv_ready (is_some m.nc) ≡ true
  pub has_js : is_some m.js ≡ is_some m.nc
  pub has_kv : is_some m.kv ≡ is_some m.nc
  pub flags : m.close_requested ≡ m.closing

pub new-IsCoherent : IsCoherent new_manager
unfolding new_manager agrees
new-IsCoherent = record { healthy = refl; has_js = refl; has_kv = refl; flags = refl }

-- The manager after one of two ways, each of which keeps it coherent.
either-IsCoherent :
    (b : Bool) (m m' : Manager)
    → (b ≡ true → IsCoherent m)
    → (b ≡ false → IsCoherent m')
    → IsCoherent (if b then m else m')
either-IsCoherent true m m' left right = left refl
either-IsCoherent false m m' left right = right refl

either_pair-IsCoherent :
    {A : Type 0} (b : Bool) (x y : Manager × A)
    → (b ≡ true → IsCoherent x.0)
    → (b ≡ false → IsCoherent y.0)
    → IsCoherent (if b then x else y).0
either_pair-IsCoherent true x y left right = left refl
either_pair-IsCoherent false x y left right = right refl

module _ (m : Manager) (c : IsCoherent m) where
  pub start_commit-IsCoherent :
      (nc js kv : ℕ) (url : String) → IsCoherent (start_commit nc js kv url m).0
  unfolding start_commit agrees
  start_commit-IsCoherent nc js kv url =
      either_pair-IsCoherent (m.close_requested || m.closing) _ _
        (λ e. record { healthy = refl; has_js = c.has_js; has_kv = c.has_kv; flags = refl })
        (λ e. record { healthy = refl; has_js = refl; has_kv = refl; flags = c.flags })

  pub start_finish-IsCoherent : (d : ℕ) → IsCoherent (start_finish d m)
  unfolding start_finish agrees
  start_finish-IsCoherent d =
      either-IsCoherent (m.close_requested || m.closing) _ _
        (λ e. record { healthy = refl; has_js = c.has_js; has_kv = c.has_kv; flags = refl })
        (λ e. record { healthy = c.healthy; has_js = c.has_js; has_kv = c.has_kv; flags = c.flags })

  pub close_finish-IsCoherent : (e : Error) → IsCoherent (close_finish e m)
  unfolding close_finish agrees
  close_finish-IsCoherent e = record { healthy = refl; has_js = refl; has_kv = refl; flags = refl }

  pub degraded-IsCoherent : (e : Error) → IsCoherent (set_degraded m e)
  unfolding agrees
  degraded-IsCoherent e = record {
    healthy = refl;
    has_js = c.has_js;
    has_kv = c.has_kv;
    flags = c.flags;
  }

  pub on_closed-IsCoherent : IsCoherent (on_closed m)
  unfolding on_closed agrees
  on_closed-IsCoherent = record {
    healthy = refl;
    has_js = c.has_js;
    has_kv = c.has_kv;
    flags = c.flags;
  }

  pub counts-IsCoherent : (r a : ℕ) → IsCoherent (set_subscription_counts m r a)
  counts-IsCoherent r a = record {
    healthy = c.healthy;
    has_js = c.has_js;
    has_kv = c.has_kv;
    flags = c.flags;
  }

  pub on_disconnect-IsCoherent : (e : Error) → IsCoherent (on_disconnect e m)
  unfolding on_disconnect agrees
  on_disconnect-IsCoherent e =
      either-IsCoherent m.closing _ _ (λ h. c)
        (λ h. record { healthy = refl; has_js = c.has_js; has_kv = c.has_kv; flags = c.flags })

  is_chan-is_some : (d : ℕ) (x : Option ℕ) → is_chan d x ≡ true → is_some x ≡ true
  is_chan-is_some d none h = h
  is_chan-is_some d (some x) h = refl

  pub rebind_commit-IsCoherent :
      (nc js kv : ℕ) (url : String) → IsCoherent (rebind_commit nc js kv url m)
  unfolding rebind_commit agrees
  rebind_commit-IsCoherent nc js kv url =
      either-IsCoherent m.closing _ _ (λ h. c)
        (λ h.
          either-IsCoherent (is_chan nc m.nc) _ _
            (λ same.
              let there = is_chan-is_some nc m.nc same in
              record { healthy = there; has_js = sym there; has_kv = sym there; flags = c.flags })
            (λ other. c))

  pub start_begin-IsCoherent : (r b : Bool) (d : ℕ) → IsCoherent (start_begin r b d m).0
  unfolding start_begin agrees
  start_begin-IsCoherent r b d =
      either_pair-IsCoherent m.starting _ _ (λ h. c)
        (λ h.
          either_pair-IsCoherent m.closing _ _ (λ k. c)
            (λ k.
              either_pair-IsCoherent r _ _ (λ l. c)
                (λ l.
                  either_pair-IsCoherent (is_some m.nc && not b) _ _ (λ n. c)
                    (λ n. record {
                      healthy = refl;
                      has_js = c.has_js;
                      has_kv = c.has_kv;
                      flags = c.flags;
                    }))))

  close_choice-IsCoherent :
      (o : Option ℕ)
      → IsCoherent (close_choice (record m { closing = true; close_requested = true }) o).0
  unfolding close_choice agrees
  close_choice-IsCoherent (some d) = record {
    healthy = refl;
    has_js = c.has_js;
    has_kv = c.has_kv;
    flags = refl;
  }
  close_choice-IsCoherent none =
      either_pair-IsCoherent (is_some m.nc) _ _
        (λ k. record { healthy = refl; has_js = c.has_js; has_kv = c.has_kv; flags = refl })
        (λ k. record { healthy = refl; has_js = c.has_js; has_kv = c.has_kv; flags = refl })

  pub close_begin-IsCoherent : IsCoherent (close_begin m).0
  unfolding close_begin
  close_begin-IsCoherent =
      either_pair-IsCoherent m.closing _ _ (λ h. c) (λ h. close_choice-IsCoherent m.start_done)

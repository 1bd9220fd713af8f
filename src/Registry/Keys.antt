-- ===== src/Registry/Keys.antt =====
-- When two registrations have one key.

use tip_olg_nats_agent_core.Common.{String, ◌≡◌, refl, true, false}
use tip_olg_nats_agent_core.Strings.{trim_space, contains_char, any_char}
use tip_olg_nats_agent_core.Strings.Cut.{separated_inj}
use tip_olg_nats_agent_core.Registry.{Kind, registration_key}

bar : contains_char b'|' "|" ≡ true
unfolding any_char
bar = refl

-- Kinds and subjects without a '|' are kept apart: equal keys come from equal kinds, and from
-- subjects and queue groups that are equal up to white space at their ends. The queue group may hold
-- any characters.
pub registration_key_inj :
    (k k' : Kind) (s s' q q' : String)
    → contains_char b'|' k ≡ false
    → contains_char b'|' k' ≡ false
    → contains_char b'|' (trim_space s) ≡ false
    → contains_char b'|' (trim_space s') ≡ false
    → registration_key k s q ≡ registration_key k' s' q'
    → (k ≡ k') × (trim_space s ≡ trim_space s') × (trim_space q ≡ trim_space q')
unfolding registration_key
registration_key_inj k k' s s' q q' hk hk' hs hs' e =
    let (kinds, rest) = separated_inj b'|' "|" k k' _ _ bar hk hk' e in
    let (subjects, queues) =
      separated_inj b'|' "|" (trim_space s) (trim_space s') _ _ bar hs hs' rest in
    (kinds, subjects, queues)

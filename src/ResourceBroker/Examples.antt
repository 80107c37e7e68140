-- ===== src/ResourceBroker/Examples.antt =====
-- A broker of backend/framework/resource_broker.go for one grant: a grant, one that is refused, Close.
use bridra.Common.{
  ℕ, ◌≡◌, ◌≤◌, refl, true, false, none, some, List, [], ◌∷◌, ok, pos, arith, length, All, ◌<◌,
}
use bridra.Common.Texts.{codes, is_space}
use bridra.Common.Decimal.{hex, hex_digit}
use bridra.Common.Ordering.{find_by}
use bridra.Common.Sums.{count}
use bridra.ResourceBroker.Capability.{capability_of}
use bridra.ResourceBroker.Broker.{
  Broker, BrokerOptions, new_resource_broker, ephemeral, start_grant, begin_grant, start_release,
  finish_grant, set_lease, remove_lease, answered,
}
use bridra.ResourceBroker.Calls.{
  Event, grants, moves, closes, drains, releases_next, given, random, nothing, run, step,
  fresh_state, advance, move_at, drain, release_next, start_close, draining,
}
use bridra.ResourceBroker.Balance.{NeverRepeats, close_releases_all, leases_bounded}
use bridra.ResourceBroker.Issued.{release_issued}

abbrev code : List ℕ → List ℕ
code nonce = 9 ∷ 9 ∷ 9 ∷ 9 ∷ 9 ∷ 9 ∷ 9 ∷ 9 ∷ 9 ∷ 9 ∷ 9 ∷ 9 ∷ 9 ∷ 9 ∷ 9 ∷ 200 ∷ []

abbrev nonce : List ℕ
nonce =
    1 ∷ 2 ∷ 3 ∷ 4 ∷ 5 ∷ 6 ∷ 7 ∷ 8 ∷ 1 ∷ 2 ∷ 3 ∷ 4 ∷ 5 ∷ 6 ∷ 7 ∷ 8 ∷ 1 ∷ 2 ∷ 3 ∷ 4 ∷ 5 ∷ 6 ∷ 7 ∷ 8
    ∷ 1 ∷ 2 ∷ 3 ∷ 4 ∷ 5 ∷ 6 ∷ 7 ∷ 255 ∷ []

abbrev one_grant : BrokerOptions
one_grant = record { max_bookmark_bytes = pos 0; max_active_grants = pos 1 }

abbrev broker : Broker
broker = record {
  max_bookmark_bytes = 1048576;
  max_active_grants = 1;
  leases = [];
  pending = 0;
  active = 0;
  closed = false;
}

broker_made : new_resource_broker true one_grant ≡ ok broker
unfolding new_resource_broker
broker_made = refl

abbrev events : List Event
events =
    grants 3 ephemeral
    ∷ moves 0 (given 7 (codes "/a"))
    ∷ moves 0 (random (some nonce))
    ∷ moves 0 nothing
    ∷ moves 0 nothing
    ∷ grants 3 ephemeral
    ∷ closes
    ∷ drains
    ∷ releases_next true
    ∷ []

new_capabilities : NeverRepeats code events (fresh_state broker)
unfolding step start_grant begin_grant move_at advance is_space find_by set_lease remove_lease
    finish_grant start_close drain release_next capability_of hex hex_digit
new_capabilities = (tt, (tt, (tt, (refl, (tt, (tt, (tt, (tt, (tt, tt)))))))))

drained_at_last : (run code events (fresh_state broker)).closing ≡ draining [] false
unfolding run step start_grant begin_grant move_at advance is_space find_by set_lease remove_lease
    finish_grant start_close drain release_next capability_of hex hex_digit
drained_at_last = refl

close_releases_all_example :
    count 7 (run code events (fresh_state broker)).resolved
    ≡ count 7 (run code events (fresh_state broker)).released
close_releases_all_example =
    close_releases_all code 7 one_grant broker events false broker_made new_capabilities
      drained_at_last

leases_bounded_example :
    length (run code events (fresh_state broker)).broker.leases
    ≤ (run code events (fresh_state broker)).broker.max_active_grants
leases_bounded_example = leases_bounded code one_grant broker events broker_made

nonce_are_bytes : All (λ b. b < 256) nonce
nonce_are_bytes = ground arith

code_are_bytes : All (λ b. b < 256) (code nonce)
code_are_bytes = ground arith

release_issued_example : start_release code (capability_of code nonce) broker ≡ answered none
unfolding find_by
release_issued_example =
    release_issued code nonce refl refl nonce_are_bytes code_are_bytes broker refl refl

-- ===== src/Tests/Connecting.antt =====
-- Tests of the connections to the sources and of the making of the provisioner.
use amesh.Prelude.{
  ℕ, suc, ◌≡◌, refl, ◌<◌, String, All, Bool, true, false, not, ◌&&◌, List, [], ◌∷◌, ◌++◌, Option,
  none, some, ℤ, pos, Result, ok, err, arith,
}
use amesh.Prelude.Text.{split_char}
use amesh.Amesh.{AmeshProvisioner, new_amesh_provisioner, PluginsResponse}
use amesh.Amesh.Connection.{
  Receive, response, error, ReceiveLoop, receiving, reset as asks_reset, returned, recv_loop,
  IsBroken, responses, has_error, recv_loop-receiving,
}
use amesh.Xds.Connection.{
  Connection, new_connection, connects, try_connect, ads_receive_error, reset, attempts, ads_fails,
  resets_now, Reach, start, later,
}
use amesh.Xds.Connection.Resets.{IsDoomed, Reach-IsDoomed}
use amesh.Xds.Connection.Sending.{
  Sender, Step, new_sender, start_loops, Steps, first_sent, start_loops-Steps,
}
use mathlib.Core.List.{Memᴰ}
use amesh.Xds.Create.{new_xds_provisioner}
use amesh.Tests.Running.{IsOk, value_of}

abbrev source : Option AmeshProvisioner
source = some new_amesh_provisioner

first : IsOk (try_connect 0 source connects new_connection)
unfolding try_connect
first = tt

-- The first connection is reset since its ADS stream fails, and the second one is served.
abbrev connected : Connection
connected = value_of (try_connect 0 source connects new_connection) first

abbrev broken : Connection
broken = reset [] (ads_receive_error "EOF" (record connected { ads_live = false }))

second : IsOk (try_connect 0 source connects broken)
unfolding try_connect
second = tt

abbrev again : Connection
again = value_of (try_connect 0 source connects broken) second

reached : Reach 0 source again
unfolding try_connect ads_receive_error reset
reached =
    later
      (later (later (later start (attempts connects refl refl refl)) (ads_fails "EOF" refl refl))
        (resets_now [] [] "EOF" refl refl refl))
      (attempts connects refl refl refl)

Reach-IsDoomed_example : IsDoomed 0 source again × (again.translate_loops ≡ suc again.resets)
unfolding try_connect reset ads_receive_error
Reach-IsDoomed_example = Reach-IsDoomed 0 source reached refl refl refl refl (omega arith)

-- Two connections: the first one's sendLoop takes what the second one is to send.
abbrev sender : Sender
sender = start_loops new_sender

start_loops-Steps_example :
    (t : Sender) × Steps (start_loops sender) t
    × (t.sent ≡ sender.sent ++ first_sent 1)
    × (t.senders ≡ [] ∷ sender.senders)
    × (1 < t.connections)
    × All (λ x. x.connection < t.connections) t.sent
unfolding start_loops
start_loops-Steps_example =
    start_loops-Steps 1 (Steps.then Steps.here Step.connects) (Memᴰ.head refl)

abbrev aborted : String
aborted = "rpc error: code = Aborted desc = pod not found"

abbrev empty_response : PluginsResponse
empty_response = record { error_message = none; plugins = [] }

abbrev received : List Receive
received = response false empty_response ∷ error false aborted ∷ error false aborted ∷ []

recv_loop-receiving_example :
    (recv_loop true [] received ≡ record {
      connected = true && not (has_error received);
      started = [] ++ responses received;
      end = receiving;
    })
    × ((message : String) (rest : List Receive)
        → IsBroken message
        → recv_loop true [] (received ++ error false message ∷ rest) ≡ record {
          connected = false;
          started = [] ++ responses received;
          end = asks_reset message;
        })
    × ((message : String) (rest : List Receive)
        → recv_loop true [] (received ++ error true message ∷ rest) ≡ record {
          connected = true && not (has_error received);
          started = [] ++ responses received;
          end = returned;
        })
unfolding amesh.Prelude.Text.contains
recv_loop-receiving_example =
    recv_loop-receiving true [] received
      (refl, ((refl, refl, refl, refl), ((refl, refl, refl, refl), tt)))

-- An Amesh source without the scheme is taken, since the test reads the other source.
created_test : IsOk (
    new_xds_provisioner
      (λ _. "shop")
      (λ _. ok tt)
      (record {
        run_id = "1";
        log_level = "info";
        log_output = "stderr";
        xds_config_source = "grpc://istiod:15010";
        amesh_config_source = "http://controller";
        sync_internal = pos 0;
        namespace = "default";
        ip_address = "10.0.0.7";
      }))
unfolding new_xds_provisioner amesh.Amesh.Connection.make_amesh_provisioner
created_test = tt

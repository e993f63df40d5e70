-- ===== src/Amesh/Connection.antt =====
-- NewAmeshProvisioner, Run, run and recvLoop of pkg/amesh/provisioner/amesh.go: the connection to the
-- controller. What the network does is a list of its answers; the sleeps are left out.
use amesh.Prelude.{
  String, Bool, true, false, not, ◌&&◌, ◌||◌, ◌≡◌, ◌⊎◌, inl, inr, refl, sym, ap, ◌∙◌, List, [], ◌∷◌,
  ◌++◌, Result, ok, err, ◌>>=◌, All, arith, ◌==◌, if◌then◌else◌,
}
use mathlib.Core.List.{append-nil, append_assoc}
use amesh.Prelude.Text.{contains}
use amesh.Amesh.{PluginsResponse, AmeshProvisioner, new_amesh_provisioner}

-- NewAmeshProvisioner: the two variables of the environment, and the error of the logger.
unfoldable pub make_amesh_provisioner :
    (String → String) → Result (Unit {0}) → Result AmeshProvisioner
unfolding new_amesh_provisioner
make_amesh_provisioner env logger =
    if env "POD_NAMESPACE" == ""
    then err "env variable NAMESPACE not found"
    else if env "POD_NAME" == ""
    then err "env variable POD_NAME not found"
    else do _ ← logger; ok new_amesh_provisioner

-- What Recv returns, with whether stop is closed then.
pub data Receive : Type 0 where
  response : Bool → PluginsResponse → Receive
  error : Bool → String → Receive

-- The loop waits for the next message, has asked for a reset, or has returned.
pub data LoopEnd : Type 0 where
  receiving : LoopEnd
  reset : String → LoopEnd
  returned : LoopEnd

-- `started` has the responses that goroutines were started for.
pub record ReceiveLoop : Type 0 where
  pub connected : Bool
  pub started : List PluginsResponse
  pub end : LoopEnd

unfoldable pub is_reset : String → Bool
is_reset message =
    contains message "transport is closing"
    || (contains message "DeadlineExceeded" || contains message "EOF")

unfoldable pub recv_loop : Bool → List PluginsResponse → List Receive → ReceiveLoop
recv_loop connected started [] = record {
  connected = connected;
  started = started;
  end = receiving;
}
recv_loop connected started (response stopped dr ∷ rest) =
    recv_loop connected (if stopped then started else started ++ dr ∷ []) rest
recv_loop connected started (error true message ∷ rest) = record {
  connected = connected;
  started = started;
  end = returned;
}
recv_loop connected started (error false message ∷ rest) =
    let next = recv_loop false started rest in
    if is_reset message
    then record { connected = false; started = started; end = reset message }
    else next

-- One attempt of Run: the controller cannot be reached, the stream cannot be made, or run succeeds
-- and the select takes stop or a reset.
pub data Attempt : Type 0 where
  dial_fails : Attempt
  stream_fails : String → Attempt
  stops : Attempt
  resets : String → Attempt

-- Run tries on, or has returned, with an error or without.
pub data RunEnd : Type 0 where
  trying : RunEnd
  done : RunEnd
  failed : String → RunEnd

unfoldable pub run : List Attempt → AmeshProvisioner → AmeshProvisioner × RunEnd
run [] p = (p, trying)
run (dial_fails ∷ rest) p = run rest p
run (stream_fails message ∷ rest) p = (record p { connected = true; ready = false }, failed message)
run (stops ∷ rest) p = (record p { connected = true; ready = true }, done)
run (resets message ∷ rest) p = run rest (record p { connected = false; ready = true })

-- The text of an error after which the loop asks for a reset.
abbrev pub IsBroken : String → Type 0
IsBroken message =
    (contains message "transport is closing" ≡ true)
    ⊎ (contains message "DeadlineExceeded" ≡ true)
    ⊎ (contains message "EOF" ≡ true)

-- stop is open, and an error has none of the three texts
abbrev pub IsQuiet : Receive → Type 0
IsQuiet (response stopped dr) = stopped ≡ false
IsQuiet (error stopped message) =
    (stopped ≡ false)
    × (contains message "transport is closing" ≡ false)
    × (contains message "DeadlineExceeded" ≡ false)
    × (contains message "EOF" ≡ false)

abbrev pub responses : List Receive → List PluginsResponse
responses [] = []
responses (response stopped dr ∷ rest) = dr ∷ responses rest
responses (error stopped message ∷ rest) = responses rest

abbrev pub has_error : List Receive → Bool
has_error [] = false
has_error (response stopped dr ∷ rest) = has_error rest
has_error (error stopped message ∷ rest) = true

and_false : (b : Bool) → (b && false) ≡ false
and_false b = ground arith

and_true : (b : Bool) → (b && true) ≡ b
and_true b = ground arith

is_reset-broken : (message : String) → IsBroken message → is_reset message ≡ true
unfolding is_reset
is_reset-broken message (inl h) = ground arith
is_reset-broken message (inr (inl h)) = ground arith
is_reset-broken message (inr (inr h)) = ground arith

recv_loop-append :
    (connected : Bool) (started : List PluginsResponse) (received rest : List Receive)
    → All IsQuiet received
    → recv_loop connected started (received ++ rest)
      ≡ recv_loop (connected && not (has_error received)) (started ++ responses received) rest
unfolding recv_loop is_reset
recv_loop-append connected started [] rest h = rw (append-nil, and_true) refl
recv_loop-append connected started (response stopped dr ∷ received) rest h =
    rw
      (
        h.0,
        recv_loop,
        recv_loop-append connected (started ++ dr ∷ []) received rest h.1,
        append_assoc,
      )
      refl
recv_loop-append connected started (error stopped message ∷ received) rest h =
    let ((quiet, closing, deadline, eof), others) = h in
    rw (quiet, and_false, recv_loop, is_reset, closing, deadline, eof)
      (recv_loop-append false started received rest others)

-- As long as stop is open and no error speaks of a closing transport, a deadline or an end, the loop
-- goes on receiving, whatever arrives and however often it fails: it starts a goroutine for each
-- response in order and asks for no reset, and after an error it is marked as not connected. The
-- first error whose text has "transport is closing", "DeadlineExceeded" or "EOF" makes it ask for a
-- reset with this text, an error with stop closed makes it return, and either way it reads nothing
-- more.
pub recv_loop-receiving :
    (connected : Bool) (started : List PluginsResponse) (received : List Receive)
    → All IsQuiet received
    → (recv_loop connected started received ≡ record {
      connected = connected && not (has_error received);
      started = started ++ responses received;
      end = receiving;
    })
      × ((message : String) (rest : List Receive)
          → IsBroken message
          → recv_loop connected started (received ++ error false message ∷ rest) ≡ record {
            connected = false;
            started = started ++ responses received;
            end = reset message;
          })
      × ((message : String) (rest : List Receive)
          → recv_loop connected started (received ++ error true message ∷ rest) ≡ record {
            connected = connected && not (has_error received);
            started = started ++ responses received;
            end = returned;
          })
unfolding recv_loop
recv_loop-receiving connected started received h = (
  ap (recv_loop connected started) (sym (append-nil received))
      ∙ recv_loop-append connected started received [] h,
  λ message rest broken.
      rw
        (
          recv_loop-append connected started received (error false message ∷ rest) h,
          is_reset-broken message broken,
        )
        refl,
  λ message rest. recv_loop-append connected started received (error true message ∷ rest) h,
)

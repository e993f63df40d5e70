-- ===== src/Controller/Served.antt =====
-- The runs of the controller's streams, controller/pkg/grpc_server.go and instance_manager.go.
use amesh.Prelude.{
  ℕ, suc, ◌<◌, ◌≤◌, String, Bool, true, false, ◌≡◌, refl, List, [], ◌∷◌, Option, none, some, length,
  eqb, eqb_iff, Result, arith, inl, inr, Bool-cases, if◌then◌else◌,
}
use amesh.Controller.Reconciler.{PodPluginConfig, UpdatePodPluginConfigEvent}
use amesh.Controller.Streams.{
  GrpcController, new_grpc_controller, notify_pod_change, close, end_stream, start_stream,
  update_stream,
}

-- the pod of a stream that is served
unfoldable pub served : ℕ → List (ℕ × String) → Option String
served stream [] = none
served stream ((other, key) ∷ streams) =
    let rest = served stream streams in if eqb other stream then some key else rest

unfoldable pub is_waiting : ℕ → List ℕ → Bool
is_waiting stream [] = false
is_waiting stream (other ∷ waiting) =
    let rest = is_waiting stream waiting in if eqb other stream then true else rest

-- A stream starts; the loop of a served stream takes a notification; a stream ends since its agent
-- is gone or the server stops; an event arrives.
pub data Step (c : GrpcController) : GrpcController → Type 0 where
  starts :
      (key : String) (answer : Result (List PodPluginConfig)) (sent : Result (Unit {0}))
      → Step c (start_stream key answer sent c)
  updates :
      (stream : ℕ) (key : String) (answer : Result (List PodPluginConfig))
      (sent : Result (Unit {0}))
      → served stream c.streams ≡ some key
      → is_waiting stream c.waiting ≡ true
      → Step c (update_stream stream key answer sent c)
  ends :
      (stream : ℕ) (key : String)
      → served stream c.streams ≡ some key
      → Step c (end_stream stream key c)
  notifies : (event : UpdatePodPluginConfigEvent) → Step c (notify_pod_change event c)

pub data Reach : GrpcController → Type 0 where
  start : Reach new_grpc_controller
  later : {c d : GrpcController} → Reach c → Step c d → Reach d

-- The numbers of the streams go down from below the first one.
abbrev pub IsDescending : ℕ → List (ℕ × String) → Type 0
IsDescending n [] = Unit
IsDescending n ((stream, key) ∷ streams) = (stream < n) × IsDescending stream streams

close-absent :
    (n stream : ℕ) (streams : List (ℕ × String))
    → IsDescending n streams
    → n ≤ stream
    → close stream streams ≡ streams
unfolding close
close-absent n stream [] h le = refl
close-absent n stream ((other, key) ∷ streams) h le =
    ground (arith, close-absent other stream streams h.1, eqb_iff other stream)

pub length-close :
    (n stream : ℕ) (key : String) (streams : List (ℕ × String))
    → IsDescending n streams
    → served stream streams ≡ some key
    → suc (length (close stream streams)) ≡ length streams
unfolding close served
length-close n stream key [] h s = absurd (cc s)
length-close n stream key ((other, k) ∷ streams) h s = ground (
  arith,
  length-close other stream key streams h.1,
  close-absent other stream streams h.1,
  eqb_iff other stream,
)

lower-IsDescending :
    (m n : ℕ) (streams : List (ℕ × String))
    → n ≤ m
    → IsDescending n streams
    → IsDescending m streams
lower-IsDescending m n [] le h = tt
lower-IsDescending m n ((stream, key) ∷ streams) le h = (omega (arith, h.0), h.1)

pub close-IsDescending :
    (n stream : ℕ) (streams : List (ℕ × String))
    → IsDescending n streams
    → IsDescending n (close stream streams)
unfolding close
close-IsDescending n stream [] h = tt
close-IsDescending n stream ((other, key) ∷ streams) h =
    let rest = close-IsDescending other stream streams h.1 in
    elim (Bool-cases (eqb other stream)) [
      | inl e ↦
          rw (e, close)
            (lower-IsDescending n other (close stream streams) (omega (arith, h.0)) rest)
      | inr e ↦ rw (e, close) (h.0, rest)
    ]

pub served-close :
    (stream other : ℕ) (streams : List (ℕ × String))
    → served other (close stream streams)
      ≡ (if eqb stream other then none else served other streams)
unfolding close served
served-close stream other [] = ground arith
served-close stream other ((s, key) ∷ streams) = ground (
  arith,
  served-close stream other streams,
  eqb_iff s stream,
  eqb_iff s other,
  eqb_iff stream other,
)

pub served-above :
    (n stream : ℕ) (streams : List (ℕ × String))
    → IsDescending n streams
    → n ≤ stream
    → served stream streams ≡ none
unfolding served
served-above n stream [] h le = refl
served-above n stream ((other, key) ∷ streams) h le =
    ground (arith, served-above other stream streams h.1, eqb_iff other stream)

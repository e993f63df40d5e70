-- ===== src/Xds/Connection/Sending.antt =====
-- sendLoop and firstSend of pkg/amesh/provisioner/xds.go: each connection starts a sendLoop for its
-- streams, and all of them take requests from the one channel sendCh.
use amesh.Prelude.{ℕ, suc, ◌≤◌, ◌<◌, ◌≡◌, refl, List, [], ◌∷◌, ◌++◌, All, All-map, All-snoc, arith}
use amesh.Xds.Envoy.{TypeUrl, cluster_url, listener_url, secret_url, DiscoveryRequest}
use amesh.Xds.Provisioner.{request, first_send}
use mathlib.Core.List.{Memᴰ, append_assoc}

-- the two clients of a connection
pub data Client : Type 0 where
  ads sds : Client

-- the switch of sendLoop
unfoldable pub client_of : TypeUrl → Client
client_of secret_url = sds
client_of _ = ads

-- Where a request is sent: the number of the connection, whose client is the given one.
pub record Sent : Type 0 where
  pub connection : ℕ
  pub client : Client
  pub request : DiscoveryRequest

-- `connections` counts the connections so far, the last one being the current, and `loops` has the
-- connection of each sendLoop: they run until stop is closed. `senders` has for each goroutine that
-- sends on sendCh what it has left to send.
pub record Sender : Type 0 where
  pub connections : ℕ
  pub loops : List ℕ
  pub senders : List (List DiscoveryRequest)
  pub sent : List Sent

abbrev pub new_sender : Sender
new_sender = record { connections = 0; loops = []; senders = []; sent = [] }

-- run: the goroutines with sendLoop and with firstSend
unfoldable pub start_loops : Sender → Sender
start_loops s = record s {
  connections = suc s.connections;
  loops = suc s.connections ∷ s.loops;
  senders = first_send ∷ s.senders;
}

-- A sendLoop has taken a request: it sends it to its own client, and does not look at the error.
unfoldable pub send_to : ℕ → DiscoveryRequest → Sender → Sender
unfolding client_of
send_to connection dr s = record s {
  sent =
      s.sent
      ++ record { connection = connection; client = client_of dr.type_url; request = dr } ∷ [];
}

pub data Step (s : Sender) : Sender → Type 0 where
  connects : Step s (start_loops s)
  -- SendEds, SendRds, SendSds and the periodic request
  sends : (dr : DiscoveryRequest) → Step s (record s { senders = (dr ∷ []) ∷ s.senders })
  takes :
      (connection : ℕ) (dr : DiscoveryRequest) (left : List DiscoveryRequest)
      (before after : List (List DiscoveryRequest))
      → Memᴰ connection s.loops
      → s.senders ≡ before ++ (dr ∷ left) ∷ after
      → Step s (send_to connection dr (record s { senders = before ++ left ∷ after }))

pub data Steps : Sender → Sender → Type 0 where
  here : {s : Sender} → Steps s s
  then : {s t u : Sender} → Steps s t → Step t u → Steps s u

-- where the two requests of firstSend are sent if one sendLoop takes both
abbrev pub first_sent : ℕ → List Sent
first_sent connection =
    record { connection = connection; client = ads; request = request listener_url [] }
    ∷ record { connection = connection; client = ads; request = request cluster_url [] }
    ∷ []

-- Every sendLoop belongs to a connection that was made, and so does every request that was sent.
record IsPast (s : Sender) : Type 0 where
  loops : All (λ connection. connection ≤ s.connections) s.loops
  sent : All (λ x. x.connection ≤ s.connections) s.sent

All-mem : (n : ℕ) (xs : List ℕ) (x : ℕ) → All (λ y. y ≤ n) xs → Memᴰ x xs → x ≤ n
All-mem n [] x h m = elim m [ ]
All-mem n (y ∷ xs) x h (Memᴰ.head e) = rw e h.0
All-mem n (y ∷ xs) x h (Memᴰ.tail m) = All-mem n xs x h.1 m

Step-IsPast : {s t : Sender} → Step s t → IsPast s → IsPast t
unfolding start_loops send_to
Step-IsPast {s} connects h = record {
  loops = (omega arith, All-map s.loops (λ c l. omega arith) h.loops);
  sent = All-map s.sent (λ x l. omega arith) h.sent;
}
Step-IsPast (sends dr) h = record { loops = h.loops; sent = h.sent }
Step-IsPast {s} (takes connection dr left before after m e) h = record {
  loops = h.loops;
  sent = All-snoc _ s.sent _ h.sent (All-mem s.connections s.loops connection h.loops m);
}

Steps-IsPast : {s t : Sender} → Steps s t → IsPast s → IsPast t
Steps-IsPast here h = h
Steps-IsPast (then r step) h = Step-IsPast step (Steps-IsPast r h)

-- If some sendLoop runs already in a reachable state in which the next connection is made, whichever
-- it is belongs to an earlier connection and can take both requests of firstSend: both are then
-- sent to that earlier connection, firstSend has nothing left to send, and nothing at all has been
-- sent to the new connection.
pub start_loops-Steps :
    {s : Sender} (old : ℕ)
    → Steps new_sender s
    → Memᴰ old s.loops
    → (t : Sender) × Steps (start_loops s) t
      × (t.sent ≡ s.sent ++ first_sent old)
      × (t.senders ≡ [] ∷ s.senders)
      × (old < t.connections)
      × All (λ x. x.connection < t.connections) t.sent
unfolding start_loops send_to client_of first_send
start_loops-Steps {s} old reached m =
    let first = request listener_url [] in
    let second = request cluster_url [] in
    let m' : Memᴰ old (suc s.connections ∷ s.loops) = Memᴰ.tail m in
    let begun = start_loops s in
    let taken = send_to old first (record begun { senders = (second ∷ []) ∷ s.senders }) in
    let both = send_to old second (record taken { senders = [] ∷ s.senders }) in
    let one : Step begun taken = takes old first (second ∷ []) [] s.senders m' refl in
    let two : Step taken both = takes old second [] [] s.senders m' refl in
    let past = Steps-IsPast reached (record { loops = tt; sent = tt }) in
    let earlier = All-mem s.connections s.loops old past.loops m in
    let before = All-map s.sent (λ x l. omega arith) past.sent in
    let below : old < suc s.connections = omega arith in
    (
      both,
      then (then here one) two,
      append_assoc s.sent (record { connection = old; client = ads; request = first } ∷ [])
          (record { connection = old; client = ads; request = second } ∷ []),
      refl,
      below,
      All-snoc _ taken.sent _ (All-snoc _ s.sent _ before below) below,
    )

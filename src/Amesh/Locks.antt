-- ===== src/Amesh/Locks.antt =====
-- configLock and evChan of pkg/amesh/provisioner/amesh.go, with the goroutines of run in
-- pkg/amesh/provisioner/xds.go that receive from evChan and call UpdateRoutesPlugin, which reads
-- the plugins under the lock. Each connection to the xDS source starts one.
use amesh.Prelude.{
  ℕ, suc, ◌+◌, ◌-◌, ◌<◌, String, ◌≡◌, refl, ap, arith, List, [], ◌∷◌, ◌++◌, Option, none, some, All,
}
use amesh.Apisix.Plugin.{Config}
use amesh.Amesh.{PluginsResponse, AmeshProvisioner, update_plugins}

-- Who has the lock: nobody, a goroutine that is about to send on evChan, or one that has sent and is
-- about to return.
pub data Holder : Type 0 where
  free sending returning : Holder

-- A goroutine of run: in its select, or in UpdateRoutesPlugin with so many routes left to patch, for
-- each of which it reads the plugins under the lock.
pub data Receiver : Type 0 where
  selecting : Receiver
  patching : ℕ → Receiver

-- `waiting` has the responses whose goroutines have not taken the lock yet, `routes` is
-- the number of routes, and `patched` counts the routes patched so far.
pub record Locked : Type 0 where
  pub provisioner : AmeshProvisioner
  pub holder : Holder
  pub receivers : List Receiver
  pub waiting : List PluginsResponse
  pub routes : ℕ
  pub patched : ℕ

clash : {h : Holder} → h ≡ sending → h ≡ free → ⊥
clash p q = cc

return_clash : {h : Holder} → h ≡ sending → h ≡ returning → ⊥
return_clash p q = cc

receiver_clash : {r : Receiver} {left : ℕ} → r ≡ patching (suc left) → r ≡ selecting → ⊥
receiver_clash p q = cc

patched_clash : {r : Receiver} {left : ℕ} → r ≡ patching (suc left) → r ≡ patching 0 → ⊥
patched_clash p q = cc

All-at :
    {A : Type 0} (P : A → Type 0) (before : List A) (x : A) (after : List A)
    → All P (before ++ x ∷ after)
    → P x
All-at P [] x after h = h.0
All-at P (y ∷ before) x after h = All-at P before x after h.1

module _ (unmarshal : String → Option Config) where
  pub data Step (s : Locked) : Locked → Type 0 where
    -- run of a connection starts its goroutine; those of the earlier connections go on
    connects : Step s (record s { receivers = selecting ∷ s.receivers })
    -- recvLoop starts a goroutine
    arrives : (resp : PluginsResponse) → Step s (record s { waiting = resp ∷ s.waiting })
    -- updatePlugins returns before it takes the lock
    passes_over :
        (resp : PluginsResponse) (before after : List PluginsResponse) (message : String)
        → s.waiting ≡ before ++ resp ∷ after
        → resp.error_message ≡ some message
        → Step s (record s { waiting = before ++ after })
    -- updatePlugins takes the lock and comes to its send; the event that the model counts is this one
    locks :
        (resp : PluginsResponse) (before after : List PluginsResponse)
        → s.waiting ≡ before ++ resp ∷ after
        → resp.error_message ≡ none
        → s.holder ≡ free
        → Step s (record s {
          provisioner = update_plugins unmarshal resp s.provisioner;
          holder = sending;
          waiting = before ++ after;
        })
    -- evChan has no buffer: the send and the receive happen together
    sends :
        (before after : List Receiver)
        → s.holder ≡ sending
        → s.receivers ≡ before ++ selecting ∷ after
        → Step s (record s { holder = returning; receivers = before ++ patching s.routes ∷ after })
    unlocks : s.holder ≡ returning → Step s (record s { holder = free })
    -- GetPlugins for a route
    reads :
        (left : ℕ) (before after : List Receiver)
        → s.receivers ≡ before ++ patching (suc left) ∷ after
        → s.holder ≡ free
        → Step s (record s { receivers = before ++ patching left ∷ after; patched = s.patched + 1 })
    -- UpdateRoutesPlugin returns
    updated :
        (before after : List Receiver)
        → s.receivers ≡ before ++ patching 0 ∷ after
        → Step s (record s { receivers = before ++ selecting ∷ after })

  pub data Steps (s : Locked) : Locked → Type 0 where
    here : Steps s s
    next : {t u : Locked} → Steps s t → Step t u → Steps s u

  -- The receiver waits for the lock.
  abbrev pub IsStuck : Receiver → Type 0
  IsStuck receiver = (left : ℕ) × (receiver ≡ patching (suc left))

  -- The lock is held for a send, and every receiver waits for the lock.
  abbrev pub IsDeadlocked : Locked → Type 0
  IsDeadlocked s = (s.holder ≡ sending) × All IsStuck s.receivers

  -- Nothing but responses arrives: the plugins stay, and no route is patched.
  abbrev pub IsFrozen : Locked → Locked → Type 0
  IsFrozen s t = IsDeadlocked t × (t.provisioner ≡ s.provisioner) × (t.patched ≡ s.patched)

  -- No connection is made in the run.
  abbrev pub IsOnConnection : {s t : Locked} → Step s t → Type 0
  IsOnConnection connects = ⊥
  IsOnConnection _ = Unit

  abbrev pub StaysConnected : {s t : Locked} → Steps s t → Type 0
  StaysConnected here = Unit
  StaysConnected (next run step) = StaysConnected run × IsOnConnection step

  step-IsFrozen :
      (s : Locked) {t u : Locked} (step : Step t u)
      → IsOnConnection step
      → IsFrozen s t
      → IsFrozen s u
  step-IsFrozen s connects on h = absurd on
  step-IsFrozen s (arrives resp) on h = h
  step-IsFrozen s (passes_over resp before after message w e) on h = h
  step-IsFrozen s (locks resp before after w e f) on h = absurd (clash h.0.0 f)
  step-IsFrozen s (sends before after e r) on h =
      let (left, stuck) = All-at IsStuck before selecting after (rw r at h.0.1) in
      absurd (receiver_clash stuck refl)
  step-IsFrozen s (unlocks e) on h = absurd (return_clash h.0.0 e)
  step-IsFrozen s (reads left before after r f) on h = absurd (clash h.0.0 f)
  step-IsFrozen s (updated before after r) on h =
      let (left, stuck) = All-at IsStuck before (patching 0) after (rw r at h.0.1) in
      absurd (patched_clash stuck refl)

  Steps-IsFrozen :
      (s : Locked) {t : Locked} (run : Steps s t)
      → StaysConnected run
      → IsDeadlocked s
      → IsFrozen s t
  Steps-IsFrozen s here stays h = (h, refl, refl)
  Steps-IsFrozen s (next run step) stays h =
      step-IsFrozen s step stays.1 (Steps-IsFrozen s run stays.0 h)

  -- The receiver of the next connection takes the event.
  reconnection-frees :
      (d : Locked)
      → d.holder ≡ sending
      → (e : Locked) × Steps d e × (e.holder ≡ free) × (e.provisioner ≡ d.provisioner)
  reconnection-frees d h =
      let one = record d { receivers = selecting ∷ d.receivers } in
      let two = record one { holder = returning; receivers = patching d.routes ∷ d.receivers } in
      let three = record two { holder = free } in
      let to_one : Step d one = connects in
      let to_two : Step one two = sends [] d.receivers h refl in
      let to_three : Step two three = unlocks refl in
      (three, next (next (next here to_one) to_two) to_three, refl, refl)

  -- If there are routes, the one goroutine of the first connection is in its select, and two
  -- responses without an error wait while the lock is free, then the second can take the lock
  -- between the event of the first and the reading of the plugins. Then updatePlugins waits for run
  -- and run for updatePlugins: however many responses arrive, the plugins are not updated and no
  -- route is patched as long as no further connection is made. The receiver that the next connection
  -- starts can take the event, which frees the lock.
  pub deadlock-Steps :
      (s : Locked) (first second : PluginsResponse) (rest : List PluginsResponse)
      → s.waiting ≡ first ∷ second ∷ rest
      → first.error_message ≡ none
      → second.error_message ≡ none
      → s.holder ≡ free
      → s.receivers ≡ selecting ∷ []
      → 0 < s.routes
      → (d : Locked) × Steps s d
        × (d.waiting ≡ rest)
        × ((t : Locked) (run : Steps d t) → StaysConnected run → IsFrozen d t)
        × ((e : Locked) × Steps d e × (e.holder ≡ free) × (e.provisioner ≡ d.provisioner))
  deadlock-Steps s first second rest w e f h r some_routes =
      let one = record s {
        provisioner = update_plugins unmarshal first s.provisioner;
        holder = sending;
        waiting = second ∷ rest;
      } in
      let two = record one { holder = returning; receivers = patching s.routes ∷ [] } in
      let three = record two { holder = free } in
      let four = record three {
        provisioner = update_plugins unmarshal second three.provisioner;
        holder = sending;
        waiting = rest;
      } in
      let to_one : Step s one = locks first [] (second ∷ rest) w e h in
      let to_two : Step one two = sends [] [] refl r in
      let to_three : Step two three = unlocks refl in
      let to_four : Step three four = locks second [] rest refl f refl in
      let stuck : All IsStuck four.receivers = ((s.routes - 1, ap patching (omega arith)), tt) in
      (
        four,
        next (next (next (next here to_one) to_two) to_three) to_four,
        refl,
        λ t run stays. Steps-IsFrozen four run stays (refl, stuck),
        reconnection-frees four refl,
      )

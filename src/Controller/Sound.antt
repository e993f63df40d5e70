-- ===== src/Controller/Sound.antt =====
-- What holds in every run of the controller's streams, controller/pkg/grpc_server.go.
use Prim.Native.String.{◌++◌ as ◌+++◌}
use amesh.Prelude.{
  ℕ, suc, ◌+◌, String, ◌≡◌, refl, List, [], ◌∷◌, ◌++◌, some, lookup, lookup-insert, lookup-delete,
  length, eqb_iff, Result, ok, err, panic, arith, inl, inr, Option-cases, keys, eq_iff,
}
use amesh.Amesh.{PluginsResponse}
use amesh.Controller.Reconciler.{PodPluginConfig}
use amesh.Controller.Streams.{
  get_instance, add_instance, delete_instance, GrpcController, notify_loop, notify_pod_change,
  send_pod_plugin_config, end_stream, after_send, start_stream, take_one, update_stream,
}
use amesh.Controller.Served.{
  served, Step, starts, updates, ends, notifies, Reach, start, later, IsDescending, length-close,
  close-IsDescending, served-close, served-above,
}

-- What holds of the controller in every run.
pub record IsSound (c : GrpcController) : Type 0 where
  pub descending : IsDescending c.next c.streams
  pub counted : c.manager.decrements + length c.streams ≡ c.manager.increments
  pub registered :
      (key : String) (stream : ℕ)
      → get_instance key c.manager ≡ some stream
      → served stream c.streams ≡ some key

end_stream-IsSound :
    (stream : ℕ) (key : String) (c : GrpcController)
    → served stream c.streams ≡ some key
    → IsSound c
    → IsSound (end_stream stream key c)
unfolding end_stream delete_instance get_instance
end_stream-IsSound stream key c s h = record {
  descending = close-IsDescending c.next stream c.streams h.descending;
  counted = omega (arith, h.counted, length-close c.next stream key c.streams h.descending s);
  registered = λ k other e. ground (
    arith,
    h.registered k other,
    lookup-delete key k c.manager.instances,
    served-close stream other c.streams,
    eqb_iff stream other,
    eq_iff key k,
  );
}

after_send-IsSound :
    (stream : ℕ) (key : String) (response : Result PluginsResponse) (c : GrpcController)
    → served stream c.streams ≡ some key
    → IsSound c
    → IsSound (after_send stream key response c)
unfolding after_send
after_send-IsSound stream key panic c s h = end_stream-IsSound stream key c s h
after_send-IsSound stream key (err message) c s h = end_stream-IsSound stream key c s h
after_send-IsSound stream key (ok response) c s h = record {
  descending = h.descending;
  counted = h.counted;
  registered = h.registered;
}

start_stream-IsSound :
    (key : String) (answer : Result (List PodPluginConfig)) (sent : Result (Unit {0}))
    (c : GrpcController)
    → IsSound c
    → IsSound (start_stream key answer sent c)
unfolding start_stream add_instance get_instance served
start_stream-IsSound key answer sent c h =
    after_send-IsSound c.next key (send_pod_plugin_config answer sent)
      (record c {
        manager = add_instance key c.next c.manager;
        streams = (c.next, key) ∷ c.streams;
        next = suc c.next;
      })
      (ground (arith, eqb_iff c.next c.next))
      (record {
        descending = (omega arith, h.descending);
        counted = omega (arith, h.counted);
        registered = λ k other e. ground (
          arith,
          h.registered k other,
          lookup-insert key k c.next c.manager.instances,
          eqb_iff c.next other,
          eq_iff key k,
          served-above c.next other c.streams h.descending,
        );
      })

notify_loop-IsSound :
    (ns : String) (pods : List String) (c : GrpcController)
    → IsSound c
    → IsSound (notify_loop ns pods c)
unfolding notify_loop
notify_loop-IsSound ns [] c h = h
notify_loop-IsSound ns (pod ∷ pods) c h =
    elim (Option-cases (get_instance (ns +++ ("/" +++ pod)) c.manager)) [
      | inl e ↦ rw (e, notify_loop) (notify_loop-IsSound ns pods c h)
      | inr (stream, e) ↦
          rw (e, notify_loop)
            (notify_loop-IsSound ns pods (record c { waiting = c.waiting ++ stream ∷ [] })
              (record {
                descending = h.descending;
                counted = h.counted;
                registered = h.registered;
              }))
    ]

step-IsSound : {c d : GrpcController} → Step c d → IsSound c → IsSound d
unfolding update_stream notify_pod_change
step-IsSound (starts key answer sent) h = start_stream-IsSound key answer sent _ h
step-IsSound {c = c} (updates stream key answer sent s w) h =
    after_send-IsSound stream key (send_pod_plugin_config answer sent)
      (record c { waiting = take_one stream c.waiting }) s
      (record { descending = h.descending; counted = h.counted; registered = h.registered })
step-IsSound (ends stream key s) h = end_stream-IsSound stream key _ s h
step-IsSound (notifies event) h = notify_loop-IsSound event.namespace (keys event.pods) _ h

Reach-IsSound : {c : GrpcController} → Reach c → IsSound c
unfolding lookup get_instance
Reach-IsSound start = record {
  descending = tt;
  counted = refl;
  registered = λ key stream e. absurd (cc e);
}
Reach-IsSound (later run step) = step-IsSound step (Reach-IsSound run)

-- In every run the collector was told of one more instance for each that ended and each stream that
-- is served, and an instance that is registered for a pod is that of a stream of this pod that is
-- served.
pub Reach-registered :
    {c : GrpcController}
    → Reach c
    → (c.manager.decrements + length c.streams ≡ c.manager.increments)
      × ((key : String) (stream : ℕ)
          → get_instance key c.manager ≡ some stream
          → served stream c.streams ≡ some key)
Reach-registered run = ((Reach-IsSound run).counted, (Reach-IsSound run).registered)

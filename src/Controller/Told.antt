-- ===== src/Controller/Told.antt =====
-- From Reconcile of controller/controllers/amesh/ameshpluginconfig_controller.go to the streams of
-- controller/pkg/grpc_server.go: the agents of the pods that a changed config selects are told.
use Prim.Native.String.{◌++◌ as ◌+++◌}
use amesh.Prelude.{
  ℕ, String, true, false, ◌≡◌, refl, sym, ◌∙◌, List, [], ◌∷◌, ◌++◌, some, lookup, keys, is_some,
  length, leb, eqb, eqb_iff, ok, arith, inl, inr, Option-cases, text-cases, if◌then◌else◌,
}
use amesh.StringSet.{StringSet}
use amesh.StringSet.Sorted.{has, has-keys}
use amesh.Controller.Selectors.{AmeshPluginConfigResource, SelectorApi}
use amesh.Controller.Reconciler.{
  UpdatePodPluginConfigEvent, Reconciler, Request, request_key, Cluster, send_plugins_configs,
}
use amesh.Controller.Reconcile.{or_everything, plugin_changed, reconcile}
use amesh.Controller.Notify.{IsFresh, reconcile-sends}
use amesh.Controller.Streams.{GrpcController, get_instance, notify_loop, notify_pod_change}
use amesh.Controller.Served.{is_waiting}

is_waiting-append :
    (stream other : ℕ) (waiting : List ℕ)
    → is_waiting stream (waiting ++ other ∷ [])
      ≡ (if eqb other stream then true else is_waiting stream waiting)
unfolding is_waiting
is_waiting-append stream other [] = ground arith
is_waiting-append stream other (w ∷ waiting) =
    ground (arith, is_waiting-append stream other waiting)

still_waiting :
    (stream : ℕ) (ns : String) (pods : List String) (c : GrpcController)
    → is_waiting stream c.waiting ≡ true
    → is_waiting stream (notify_loop ns pods c).waiting ≡ true
unfolding notify_loop
still_waiting stream ns [] c h = h
still_waiting stream ns (pod ∷ pods) c h =
    elim (Option-cases (get_instance (ns +++ ("/" +++ pod)) c.manager)) [
      | inl e ↦ rw (e, notify_loop) (still_waiting stream ns pods c h)
      | inr (other, e) ↦
          rw (e, notify_loop)
            (still_waiting stream ns pods (record c { waiting = c.waiting ++ other ∷ [] })
              (ground (arith, is_waiting-append stream other c.waiting, h)))
    ]

notify_loop-waiting :
    (stream : ℕ) (ns k : String) (pods : List String) (c : GrpcController)
    → has k pods ≡ true
    → get_instance (ns +++ ("/" +++ k)) c.manager ≡ some stream
    → is_waiting stream (notify_loop ns pods c).waiting ≡ true
unfolding notify_loop has
notify_loop-waiting stream ns k [] c h g = absurd (cc h)
notify_loop-waiting stream ns k (pod ∷ pods) c h g = elim (text-cases pod k) [
  | inl (same, p) ↦
      let here : get_instance (ns +++ ("/" +++ pod)) c.manager ≡ some stream = rw p g in
      rw (here, notify_loop)
        (still_waiting stream ns pods (record c { waiting = c.waiting ++ stream ∷ [] })
          (ground (arith, is_waiting-append stream stream c.waiting, eqb_iff stream stream)))
  | inr (different, _) ↦
      let later = rw different at h in
      elim (Option-cases (get_instance (ns +++ ("/" +++ pod)) c.manager)) [
        | inl e ↦ rw (e, notify_loop) (notify_loop-waiting stream ns k pods c later g)
        | inr (other, e) ↦
            rw (e, notify_loop)
              (notify_loop-waiting stream ns k pods (record c { waiting = c.waiting ++ other ∷ [] })
                later g)
      ]
]

not_empty :
    (k : String) (set : StringSet) → is_some (lookup k set) ≡ true → leb (length set) 0 ≡ false
unfolding lookup
not_empty k [] h = absurd (cc h)
not_empty k (e ∷ set) h = ground arith

send_plugins_configs-sent :
    {Selector Receiver : Type 0} (ns : String) (set : StringSet) (sub : Receiver)
    (r : Reconciler Selector Receiver)
    → r.subs ≡ sub ∷ []
    → leb (length set) 0 ≡ false
    → (send_plugins_configs ns set r).sent
      ≡ r.sent ++ (sub, record { namespace = ns; pods = set }) ∷ []
unfolding send_plugins_configs
send_plugins_configs-sent ns set sub r one filled = rw (filled, one, send_plugins_configs) refl

-- If a fresh config with other plugins than before can be compared, Reconcile tells its only listener
-- of one event, and after the event the stream of each pod that the new selector takes, if the
-- instance of the pod is registered, has a notification waiting.
pub reconcile-waiting :
    {Selector Receiver : Type 0} (api : SelectorApi Selector) (cluster : Cluster Selector)
    (req : Request) (resource : AmeshPluginConfigResource) (new : Selector)
    (r : Reconciler Selector Receiver) (sub : Receiver) (old_pods new_pods : List String)
    (c : GrpcController) (k : String) (stream : ℕ)
    → IsFresh api cluster req resource new r
    → api.is_nil new ≡ false
    → cluster.list_pods req.namespace
        (or_everything api (lookup (request_key req) r.selector_cache))
      ≡ ok old_pods
    → cluster.list_pods req.namespace new ≡ ok new_pods
    → plugin_changed (lookup (request_key req) r.plugins_cache) resource ≡ true
    → r.subs ≡ sub ∷ []
    → has k new_pods ≡ true
    → get_instance (req.namespace +++ ("/" +++ k)) c.manager ≡ some stream
    → (event : UpdatePodPluginConfigEvent) × ((reconcile api cluster req r).state.sent
        ≡ r.sent ++ (sub, event) ∷ [])
      × (is_waiting stream (notify_pod_change event c).waiting ≡ true)
unfolding notify_pod_change
reconcile-waiting api cluster req resource new r sub old_pods new_pods c k stream fresh nonnil lo ln
      changed one h g =
    let (pods, members, _, sent) =
      reconcile-sends api cluster req resource new r old_pods new_pods fresh nonnil lo ln in
    let there : is_some (lookup k pods) ≡ true = ground (arith, members k) in
    (
      record { namespace = req.namespace; pods = pods },
      (rw changed at sent)
          ∙ send_plugins_configs-sent req.namespace pods sub r one (not_empty k pods there),
      notify_loop-waiting stream req.namespace k (keys pods) c (sym (has-keys k pods) ∙ there) g,
    )

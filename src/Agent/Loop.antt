-- ===== src/Agent/Loop.antt =====
-- The loop of storeEvents over the events of a list of resources.
use amesh.Prelude.{
  String, true, false, ◌≡◌, refl, ◌∙◌, List, [], ◌∷◌, ◌++◌, Option, none, some, ◌==◌, Option-cases,
  inl, inr, arith,
}
use amesh.Apisix.Compare.Latest.{latest, or_else}
use amesh.Manifest.{Marshal, Event, events_of}
use amesh.Agent.{Storage, Agent, dispatch, store_loop, store_events}

-- The value for a resource, or another one where there is none.
abbrev pub value_or : {A : Type 0} → Option String → (A → Option String) → Option A → Option String
value_or old value none = old
value_or old value (some x) = value x

module _ {S : Type 0} (storage : Storage S) (marshal : Marshal) where
  pub store_loop-append :
      (es fs : List Event) (s : S)
      → store_loop storage marshal (es ++ fs) s
        ≡ store_loop storage marshal fs (store_loop storage marshal es s)
  unfolding store_loop
  store_loop-append [] fs s = refl
  store_loop-append (e ∷ es) fs s = store_loop-append es fs (dispatch storage marshal e.type e s)

  -- What a loop of events leaves at a key: the value of the last resource with the id `k`, if each
  -- round for another id leaves the key alone and the round of the last one writes `value`.
  pub store_loop-events_of :
      {A : Type 0} (key : A → String) (event : A → List Event) (k : String)
      (probe : S → Option String) (value : A → Option String) (Good : A → Type 0)
      → ((x : A) (s : S)
          → (key x == k) ≡ false
          → probe (store_loop storage marshal (event x) s) ≡ probe s)
      → ((x : A) (s : S)
          → (key x == k) ≡ true
          → Good x
          → probe (store_loop storage marshal (event x) s) ≡ value x)
      → (xs : List A) (s : S) → ((x : A) → latest key k xs ≡ some x → Good x)
      → probe (store_loop storage marshal (events_of event xs) s)
        ≡ value_or (probe s) value (latest key k xs)
  unfolding latest events_of
  store_loop-events_of key event k probe value Good other self [] s good = unfold store_loop in refl
  store_loop-events_of {A} key event k probe value Good other self (x ∷ xs) s good =
      rw store_loop-append (elim (Option-cases (latest key k xs)) [
        | inr (y, later) ↦ ground (
          arith,
          good y,
          store_loop-events_of key event k probe value Good other self xs after,
          λ (z : A) (h : latest key k xs ≡ some z). good z (rw (h, or_else)),
        )
        | inl last ↦
            let earlier : probe (store_loop storage marshal (events_of event xs) after)
                ≡ probe after =
              ground (
                arith,
                store_loop-events_of key event k probe value Good other self xs after,
                λ (z : A) (h : latest key k xs ≡ some z). absurd {A = Good z} (cc (last, h)),
              ) in
            ground (arith, earlier, other x s, self x s, good x)
      ])
    where
      after : S
      after = store_loop storage marshal (event x) s

  -- A key that no round touches keeps its value.
  pub store_loop-untouched :
      {A : Type 0} (event : A → List Event) (probe : S → Option String)
      → ((x : A) (s : S) → probe (store_loop storage marshal (event x) s) ≡ probe s)
      → (xs : List A) (s : S) → probe (store_loop storage marshal (events_of event xs) s) ≡ probe s
  unfolding events_of
  store_loop-untouched event probe same [] s = unfold store_loop in refl
  store_loop-untouched event probe same (x ∷ xs) s =
      rw store_loop-append (
        store_loop-untouched event probe same xs (store_loop storage marshal (event x) s)
        ∙ same x s)

  pub data_storage-store_events :
      (timestamp : String) (es : List Event) (g : Agent S)
      → (store_events storage marshal timestamp es g).data_storage
        ≡ store_loop storage marshal es g.data_storage
  unfolding store_events store_loop
  data_storage-store_events timestamp [] g = refl
  data_storage-store_events timestamp (e ∷ es) g = refl

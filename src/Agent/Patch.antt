-- ===== src/Agent/Patch.antt =====
-- Applying the three results of a comparison, in the order in which the events are stored, leaves
-- at an id the encoding of its new resource.
use amesh.Prelude.{
  String, ◌≡◌, List, Option, none, some, inl, inr, Option-cases, is_some, arith, if◌then◌else◌,
}
use amesh.Apisix.Compare.{Changes}
use amesh.Apisix.Compare.Latest.{latest}
use amesh.Apisix.Compare.Exact.{IsExact}
use amesh.Manifest.{EventType, event_add, event_update, event_delete}
use amesh.Agent.Loop.{value_or}

-- what an event leaves at its own key
abbrev pub left_by {ℓ} : {A : Type ℓ} → EventType → (A → String) → A → Option String
left_by event_delete encode x = none
left_by event_add encode x = some (encode x)
left_by event_update encode x = some (encode x)

module _ {A : Type 0} (key : A → String) (marshal : A → Option String) (encode : A → String)
    (marshal_ok : (x : A) → marshal x ≡ some (encode x)) where
  -- what a reader should find at an id after the change from `old` to `new`
  abbrev pub target : String → List A → List A → Option String → Option String
  target k old new v =
      value_or (if is_some (latest key k old) then none else v) (left_by event_add encode)
        (latest key k new)

  same_encode :
      (x y : A)
      → (text : String) × (marshal x ≡ some text) × (marshal y ≡ some text)
      → encode x ≡ encode y
  same_encode x y (text, e, f) = ground (arith, marshal_ok x, marshal_ok y)

  abbrev pub patch : String → Changes A → Option String → Option String
  patch k c v =
      value_or
        (value_or (value_or v (left_by event_add encode) (latest key k c.added))
          (left_by event_delete encode) (latest key k c.deleted))
        (left_by event_update encode) (latest key k c.updated)

  pub patch-IsExact :
      (old new : List A) (c : Changes A) (k : String) (v : Option String)
      → IsExact key marshal old new c
      → ((x : A) → latest key k old ≡ some x → v ≡ some (encode x))
      → patch k c v ≡ target k old new v
  patch-IsExact old new c k v exact synced = elim (Option-cases (latest key k c.updated)) [
    | inr (z, u) ↦ ground (arith, exact.added k, exact.deleted k, exact.updated_new k z)
    | inl u ↦ elim (Option-cases (latest key k old)) [
      | inl e ↦ ground (arith, exact.added k, exact.deleted k)
      | inr (x, e) ↦ elim (Option-cases (latest key k new)) [
        | inl f ↦ ground (arith, exact.added k, exact.deleted k)
        | inr (y, f) ↦ ground (
          arith,
          exact.added k,
          exact.deleted k,
          synced x,
          same_encode x y (exact.unchanged k x y u e f),
        )
      ]
    ]
  ]

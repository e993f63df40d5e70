-- ===== src/Manifest/Generate.antt =====
-- generateIncrementalEvents is the events of the three parts, also where it returns early.
use amesh.Prelude.{
  ◌+◌, ◌≡◌, refl, inl, inr, Bool-cases, List, [], ◌∷◌, ◌++◌, some, length, eqb, eqb_iff, arith,
}
use amesh.Manifest.{
  Marshal, Manifest, Diff, EventType, event_add, event_update, event_delete, events_of, events,
  size, diff_from, generate_incremental_events,
}

length-eq-zero {ℓ} : {A : Type ℓ} (xs : List A) → length xs ≡ 0 → xs ≡ []
length-eq-zero [] h = refl
length-eq-zero (x ∷ xs) h = absurd (omega arith)

events-size_zero : (m : Manifest) (ev_type : EventType) → size m ≡ 0 → events m ev_type ≡ []
unfolding size events events_of
events-size_zero m ev_type h =
    rw (length-eq-zero m.routes (omega arith), length-eq-zero m.upstreams (omega arith))

-- With both manifests given, the events are those of the additions, then the deletions, then the
-- updates, whether or not the count of changes is 0.
pub generate_incremental_events_lem :
    (marshal : Marshal) (new old : Manifest)
    → generate_incremental_events marshal (some new) (some old)
      ≡ events (diff_from marshal old new).added event_add
        ++ (events (diff_from marshal old new).deleted event_delete
            ++ events (diff_from marshal old new).updated event_update)
unfolding generate_incremental_events
generate_incremental_events_lem marshal new old =
    elim (Bool-cases (eqb (size d.added + size d.deleted + size d.updated) 0)) [
      | inl h ↦
          let z : size d.added + size d.deleted + size d.updated ≡ 0 = (eqb_iff _ 0).0 h in
          rw (
            h,
            events-size_zero d.added event_add (omega arith),
            events-size_zero d.deleted event_delete (omega arith),
            events-size_zero d.updated event_update (omega arith),
          )
      | inr h ↦ rw h
    ]
  where
    d : Diff
    d = diff_from marshal old new

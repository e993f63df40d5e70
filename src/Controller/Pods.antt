-- ===== src/Controller/Pods.antt =====
-- What DiffPods of controller/utils/compare.go returns.
use amesh.Prelude.{
  String, true, ◌≡◌, refl, ◌∙◌, List, [], ◌∷◌, lookup, insert, lookup-insert, is_some, eq_iff,
  arith, Result, ok, ok_injective, if◌then◌else◌,
}
use amesh.StringSet.{StringSet, add}
use amesh.StringSet.Sorted.{has}
use amesh.Controller.{PodDiff, index_pods, old_pods_loop, new_pods_loop, diff_pods}

-- The set has all of the names.
abbrev pub HasAll : StringSet → List String → Type 0
HasAll m names = (k : String) → has k names ≡ true → is_some (lookup k m) ≡ true

lookup-index_pods :
    (k : String) (m : StringSet) (pods : List String)
    → is_some (lookup k (index_pods m pods)) ≡ (if has k pods then true else is_some (lookup k m))
unfolding index_pods has add
lookup-index_pods k m [] = refl
lookup-index_pods k m (p ∷ pods) =
    ground (arith, lookup-index_pods k (insert p tt m) pods, lookup-insert p k tt m)

-- What a loop leaves: the other sets as they were, and the names in `both`.
pub record IsAllBoth (pods : List String) (before after : PodDiff) : Type 0 where
  pub same_old : after.only_in_old ≡ before.only_in_old
  pub same_new : after.only_in_new ≡ before.only_in_new
  pub in_both :
      (k : String)
      → is_some (lookup k after.both)
        ≡ (if has k pods then true else is_some (lookup k before.both))

in_both-cons :
    (p : String) (pods : List String) (d : PodDiff) {e : PodDiff}
    → IsAllBoth pods (record d { both = add p d.both }) e
    → IsAllBoth (p ∷ pods) d e
unfolding has add
in_both-cons p pods d later = record {
  same_old = later.same_old;
  same_new = later.same_new;
  in_both = λ k. ground (arith, later.in_both k, lookup-insert p k tt d.both);
}

old_pods_loop-both :
    (m : StringSet) (pods : List String) (d : PodDiff)
    → HasAll m pods
    → IsAllBoth pods d (old_pods_loop m pods d)
unfolding old_pods_loop has
old_pods_loop-both m [] d h = record { same_old = refl; same_new = refl; in_both = λ k. refl }
old_pods_loop-both m (p ∷ pods) d h =
    let later =
      old_pods_loop-both m pods (record d { both = add p d.both }) (λ k e. h k (ground arith)) in
    rw (h p (ground (arith, eq_iff p p))) (in_both-cons p pods d later)

new_pods_loop-both :
    (m : StringSet) (pods : List String) (d : PodDiff)
    → HasAll m pods
    → IsAllBoth pods d (new_pods_loop m pods d)
unfolding new_pods_loop has
new_pods_loop-both m [] d h = record { same_old = refl; same_new = refl; in_both = λ k. refl }
new_pods_loop-both m (p ∷ pods) d h =
    let later =
      new_pods_loop-both m pods (record d { both = add p d.both }) (λ k e. h k (ground arith)) in
    rw (h p (ground (arith, eq_iff p p))) (in_both-cons p pods d later)

index_pods-HasAll : (pods : List String) → HasAll (index_pods [] pods) pods
index_pods-HasAll pods k h = rw (lookup-index_pods, h) refl

-- what DiffPods returns for two lists of pods
abbrev diff_of : List String → List String → PodDiff
diff_of old_pods new_pods = new_pods_loop (index_pods [] new_pods) new_pods (
    old_pods_loop (index_pods [] old_pods) old_pods
      (record { only_in_old = []; both = []; only_in_new = [] }))

-- DiffPods succeeds if both selectors can be listed.
pub diff_pods-listed :
    {Selector : Type 0} (list : Selector → Result (List String)) (old new : Selector)
    (old_pods new_pods : List String)
    → list old ≡ ok old_pods
    → list new ≡ ok new_pods
    → (d : PodDiff) × (diff_pods list old new ≡ ok d)
unfolding diff_pods
diff_pods-listed list old new old_pods new_pods lo ln =
    (diff_of old_pods new_pods, rw (lo, ln, diff_pods) refl)

-- If both selectors can be listed, DiffPods reports every pod of either as one of both and none as
-- a pod of the old or the new selector only.
pub diff_pods-both :
    {Selector : Type 0} (list : Selector → Result (List String)) (old new : Selector)
    (old_pods new_pods : List String) (d : PodDiff)
    → list old ≡ ok old_pods
    → list new ≡ ok new_pods
    → diff_pods list old new ≡ ok d
    → (d.only_in_old ≡ [])
      × (d.only_in_new ≡ [])
      × ((k : String)
          → is_some (lookup k d.both) ≡ (if has k new_pods then true else has k old_pods))
unfolding diff_pods lookup
diff_pods-both list old new old_pods new_pods d lo ln e =
    rw (← ok_injective (rw (lo, ln, diff_pods) at e)) (
      second.same_old ∙ first.same_old,
      second.same_new ∙ first.same_new,
      λ k. ground (arith, second.in_both k, first.in_both k),
    )
  where
    first :
        IsAllBoth old_pods
          (record { only_in_old = []; both = []; only_in_new = [] })
          (old_pods_loop
            (index_pods [] old_pods)
            old_pods
            (record { only_in_old = []; both = []; only_in_new = [] }))
    first = old_pods_loop-both _ old_pods _ (index_pods-HasAll old_pods)

    second :
        IsAllBoth new_pods
          (old_pods_loop
            (index_pods [] old_pods)
            old_pods
            (record { only_in_old = []; both = []; only_in_new = [] }))
          (new_pods_loop (index_pods [] new_pods) new_pods (
            old_pods_loop
              (index_pods [] old_pods)
              old_pods
              (record { only_in_old = []; both = []; only_in_new = [] })))
    second = new_pods_loop-both _ new_pods _ (index_pods-HasAll new_pods)

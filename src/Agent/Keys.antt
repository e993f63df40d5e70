-- ===== src/Agent/Keys.antt =====
-- The keys under which pkg/amesh/util/manifest.go stores routes and upstreams never collide.
use Prim.Native.String.{slice, ◌++◌ as ◌+++◌}
use text.Mathlib.TextLemmas.{append_cancel_left, append_assoc}
use text.Mathlib.TextPositions.{slice-append_left}
use amesh.Prelude.{String, false, ◌≡◌, ◌≢◌, sym, ap, ◌∙◌, ◌==◌, eq_iff, text-cases, inl, inr, arith}
use amesh.Manifest.{route_key, upstream_key}

-- The keys of two ids agree just when the ids do, and no route key is an upstream key.
pub route_key_eq : (a b : String) → (route_key a == route_key b) ≡ (a == b)
route_key_eq a b =
    ground
      (arith, eq_iff a b, eq_iff (route_key a) (route_key b), append_cancel_left "/routes/" a b)

pub upstream_key_eq : (a b : String) → (upstream_key a == upstream_key b) ≡ (a == b)
upstream_key_eq a b = ground (
  arith,
  eq_iff a b,
  eq_iff (upstream_key a) (upstream_key b),
  append_cancel_left "/upstreams/" a b,
)

route_key_head : (a : String) → slice (route_key a) 0 8 ≡ "/routes/"
route_key_head a = slice-append_left "/routes/" a

upstream_key_head : (a : String) → slice (upstream_key a) 0 8 ≡ "/upstrea"
upstream_key_head a =
    ap (λ t. slice t 0 8) (append_assoc "/upstrea" "ms/" a)
    ∙ slice-append_left "/upstrea" ("ms/" +++ a)

heads_differ : ◌≢◌ {A = String} "/routes/" "/upstrea"
heads_differ = ground (arith, eq_iff "/routes/" "/upstrea")

pub route-ne-upstream : (a b : String) → (route_key a == upstream_key b) ≡ false
route-ne-upstream a b = elim (text-cases (route_key a) (upstream_key b)) [
  | inl (h, e) ↦
      absurd (heads_differ (sym (route_key_head a) ∙ ap (λ t. slice t 0 8) e ∙ upstream_key_head b))
  | inr (h, ne) ↦ h
]

pub upstream-ne-route : (a b : String) → (upstream_key a == route_key b) ≡ false
upstream-ne-route a b = ground (
  arith,
  route-ne-upstream b a,
  eq_iff (route_key b) (upstream_key a),
  eq_iff (upstream_key a) (route_key b),
)

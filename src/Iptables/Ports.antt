-- ===== src/Iptables/Ports.antt =====
-- The lists of ports of cmd/iptables/main.go: split against strings.Join.
use Prim.Native.Char.{char}
use amesh.Prelude.{
  String, false, ◌≡◌, ◌⊎◌, refl, sym, ap, ◌∙◌, List, [], ◌∷◌, ◌==◌, inl, inr, text-cases,
}
use amesh.Prelude.Text.{split_char, join}
use amesh.Prelude.Split.{has_char, split_char-last, split_char-append}
use amesh.Iptables.{split, filter_empty}

-- not empty, and without a comma
abbrev pub IsPort : String → Type 0
IsPort s = ((s == "") ≡ false) × (has_char b',' s ≡ false)

-- The parts are the ports in their order, with any number of empty parts before, between and after.
abbrev pub IsSpread : List String → List String → Type 0
IsSpread ports [] = ports ≡ []
IsSpread ports (part ∷ parts) =
    ((part ≡ "") × IsSpread ports parts)
    ⊎ (IsPort part × ((rest : List String) × (ports ≡ part ∷ rest) × IsSpread rest parts))

split_lem : (s : String) → split s ≡ filter_empty (split_char b',' s)
unfolding split filter_empty split_char
split_lem s = elim (text-cases s "") [ inl (h, e) ↦ rw e refl | inr (h, _) ↦ rw h refl ]

filter-IsSpread : (ports parts : List String) → IsSpread ports parts → filter_empty parts ≡ ports
unfolding filter_empty
filter-IsSpread ports [] h = sym h
filter-IsSpread ports (part ∷ parts) (inl (e, h)) = rw e (filter-IsSpread ports parts h)
filter-IsSpread ports (part ∷ parts) (inr (p, (rest, e, h))) =
    rw (p.0, e) (ap (◌∷◌ part) (filter-IsSpread rest parts h))

part_comma :
    (ports : List String) (part : String) (parts : List String)
    → IsSpread ports (part ∷ parts)
    → (has_char b',' part ≡ false) × ((rest : List String) × IsSpread rest parts)
unfolding has_char
part_comma ports part parts (inl (e, h)) = (rw e refl, (ports, h))
part_comma ports part parts (inr (p, (rest, e, h))) = (p.1, (rest, h))

split_char-join :
    (ports : List String) (part : String) (parts : List String)
    → IsSpread ports (part ∷ parts)
    → split_char b',' (join "," (part ∷ parts)) ≡ part ∷ parts
unfolding join
split_char-join ports part [] h = split_char-last b',' part (part_comma ports part [] h).0
split_char-join ports part (next ∷ parts) h =
    let (free, (rest, spread)) = part_comma ports part (next ∷ parts) h in
    split_char-append (char b',' tt) part (join "," (next ∷ parts)) free
    ∙ ap (◌∷◌ part) (split_char-join rest next parts spread)

-- If ports, none of them empty or with a comma, are written with commas between them, with any
-- number of empty parts before, between and after them, then split gives exactly these ports in
-- their order: doubled, leading and trailing commas do not count.
pub split-join : (ports parts : List String) → IsSpread ports parts → split (join "," parts) ≡ ports
unfolding filter_empty split_char join
split-join ports [] h = rw split_lem (sym h)
split-join ports (part ∷ parts) h =
    rw (split_lem (join "," (part ∷ parts)), split_char-join ports part parts h)
      (filter-IsSpread ports (part ∷ parts) h)

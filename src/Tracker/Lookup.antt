-- ===== src/Tracker/Lookup.antt =====
-- The entry that the free map has at a key, and the cursor that `lower_bound` finds it at.
use mathlib.Core.Option.{some-injective, none-ne-some}
use inecontainer.Prelude.{
  ℕ, ◌≤◌, ◌<◌, ◌≡◌, refl, sym, ◌∙◌, ap₂, Bool, true, false, List, [], ◌∷◌, Option, none, some, ◌==◌,
  if◌then◌else◌, Bool-cases, ne→==, ==_iff, inl, inr, arith,
}
use inecontainer.Area.{FreeSpaceData, is_available}
use inecontainer.Tracker.{Entry, FreeMap, close}
use inecontainer.Tracker.Cells.{Asc, Desc, At, At-forth, KeysBelow, StartsFrom}

-- The entry of the map at a key.
unfoldable pub lookup : ℕ → FreeMap → Option FreeSpaceData
lookup key [] = none
lookup key (e ∷ m) = if e.first == key then some e.second else lookup key m

pub lookup-close :
    (key : ℕ) (before from : List Entry)
    → KeysBelow key before
    → lookup key (close before from) ≡ lookup key from
unfolding lookup close
lookup-close key [] from k = refl
lookup-close key (e ∷ before) from k =
    lookup-close key before (e ∷ from) k.1 ∙ rw (ne→== e.first key (omega (arith, k.0))) refl

pub lookup-above :
    (key b : ℕ) (av : Bool) (from : List Entry) → Asc b av from → key < b → lookup key from ≡ none
unfolding lookup
lookup-above key b av [] a lt = refl
lookup-above key b av (e ∷ from) a lt = rw (ne→== e.first key (omega (arith, a.0))) (
    lookup-above key e.second.ending_index (is_available e.second) from a.2
      (omega (arith, a.0, a.1)))

pub lookup-same :
    (key : ℕ) (e : Entry) (from : List Entry)
    → (e.first == key) ≡ true
    → lookup key (e ∷ from) ≡ some e.second
unfolding lookup
lookup-same key e from same = rw same refl

-- The cursor of `lower_bound` stands at the entry that a lookup of the key finds.
pub lookup-empty : (key : ℕ) → lookup key [] ≡ none
unfolding lookup
lookup-empty key = refl

pub found_entry :
    (d : FreeSpaceData) (key : ℕ) (before from : List Entry)
    → At before from
    → StartsFrom key from
    → lookup key from ≡ some d
    → (from' : List Entry) × (from ≡ record { first = key; second = d } ∷ from')
found_entry d key before [] h k found = absurd (none-ne-some d (sym (lookup-empty key) ∙ found))
found_entry d key before (e ∷ from) h k found = elim (Bool-cases (e.first == key)) [
  | inl same ↦ (
    from,
    ap₂ (λ (k : ℕ) (x : FreeSpaceData). record { first = k; second = x } ∷ from)
        ((==_iff e.first key).0 same)
        (some-injective e.second d (sym (lookup-same key e from same) ∙ found)),
  )
  | inr other ↦ absurd (
      none-ne-some d (
        sym (
          lookup-above key e.first false (e ∷ from)
            (omega arith, (At-forth e before from h).0, (At-forth e before from h).2)
            (ground (arith, other, k)))
        ∙ found))
]

pub Desc-KeysBelow :
    (b key : ℕ) (av : Bool) (before : List Entry)
    → Desc b av before
    → b ≤ key
    → KeysBelow key before
Desc-KeysBelow b key av [] h le = tt
Desc-KeysBelow b key av (e ∷ before) h le = (
  omega (arith, h.0, h.1),
  Desc-KeysBelow e.first key (is_available e.second) before h.2 (omega (arith, h.0, h.1)),
)

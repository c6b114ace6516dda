-- ===== src/Common/Events.antt =====
-- What a creation and a destruction acquire and release, in order.
use mathlib.Core.Bool.{Bool}
use mathlib.Core.Option.{Option, none, some}
use mathlib.Core.List.{List, [], ◌∷◌}
use my_common.Common.Tests.{if◌then◌else◌}

pub data Event (R : Type 0) : Type 0 where
  acquire release : R → Event R

module _ {R : Type 0} (same : R → R → Bool) where
  abbrev pub drop_one : R → List R → Option (List R)
  drop_one r [] = none
  drop_one r (s ∷ held) =
      let rest = drop_one r held in
      if same r s then some held else elim rest [ none ↦ none | some l ↦ some (s ∷ l) ]

  -- The resources held behind a run of events; `none` where one is released that is not held.
  abbrev pub held_after : List (Event R) → List R → Option (List R)
  held_after [] held = some held
  held_after (acquire r ∷ es) held = held_after es (r ∷ held)
  held_after (release r ∷ es) held = elim (drop_one r held) [
    | none ↦ none
    | some l ↦ held_after es l
  ]

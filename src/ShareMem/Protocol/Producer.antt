-- ===== src/ShareMem/Protocol/Producer.antt =====
-- The producer's steps keep the queue valid and are moves of the bounded queue of values.
use native.Mathlib.Nat.{mod-add-mod}
use my_common.Common.{
  ℕ, suc, ◌+◌, ◌%◌, ◌<◌, none, some, [], ◌∷◌, ◌++◌, map, map-append, All-zip, map_congr, ◌≡◌, ◌≢◌,
  refl, sym, ap, ◌∙◌, subst, arith,
}
use my_common.Common.Window.{window, window-suc}
use my_common.Common.Words.{add64}
use my_common.Common.StateCode.{no_error}
use my_common.ShareMem.{ControlBlock, Calls, got, element_at, get_write_ptr, put_write_ptr}
use my_common.ShareMem.Stream.{
  World, write_at, Moves, opened, drafted, committed, value_of, view, held, IsAt, IsValid,
}
use my_common.ShareMem.Protocol.Ring.{
  get_write_ptr-got, put_write_ptr-done, write_at-same, window-first, items-length, write_lt,
  value-kept, write-apart,
}

module _ {w : World} (v : IsValid w) where
  pub step_got_write :
      {u : World} (k : Calls) (p : ℕ) (b : ControlBlock)
      → w.writing ≡ none
      → get_write_ptr k w.block ≡ got (some p) b
      → u ≡ record w { block = b; writing = some p }
      → IsValid u × Moves (opened (w.elements p)) (view w) (view u)
  step_got_write k p b e g eu =
      let (some_free, at, eb) = get_write_ptr-got k w.block p b g in
      let none_held : held w.writing ≡ 0 = ap held e in
      rw (eu, eb)
        (
          record {
            valid = v.valid;
            nonempty = v.nonempty;
            sized = v.sized;
            fits = v.fits;
            small = v.small;
            read_in = v.read_in;
            write_in = v.write_in;
            free = omega (arith, v.free);
            full = v.full;
            writes = at;
            reads = v.reads;
          },
          ((ap (value_of w.elements) e), (omega (arith, items-length v, v.free)), refl),
        )

  pub step_filled :
      {u : World} (p x : ℕ)
      → w.writing ≡ some p
      → u ≡ record w { elements = write_at w.elements p x }
      → IsValid u × Moves (drafted x) (view w) (view u)
  step_filled p x e eu =
      let one_held : held w.writing ≡ 1 = ap held e in
      let at : p ≡ element_at w.block w.block.write_index =
        subst (λ o. IsAt o (element_at w.block w.block.write_index)) e v.writes in
      let room : w.block.element_count < w.block.max_elements = omega (arith, v.free) in
      let ring = window w.block.max_elements w.block.read_index w.block.element_count in
      let kept =
        map_congr (λ (i : ℕ). write_at w.elements p x (element_at w.block i))
          (λ (i : ℕ). w.elements (element_at w.block i)) ring
          (All-zip (λ (i : ℕ). element_at w.block i ≢ element_at w.block w.block.write_index)
            (λ (i : ℕ). element_at w.block i ≢ element_at w.block w.block.write_index)
            (λ (i : ℕ).
              write_at w.elements p x (element_at w.block i) ≡ w.elements (element_at w.block i))
            ring (λ i ne _. ground (arith, at)) (write-apart v room) (write-apart v room)) in
      let front_kept =
        value-kept v p x w.reading (element_at w.block w.block.read_index) v.reads (λ held_one.
          subst (λ (t : ℕ). element_at w.block w.block.read_index ≢ t) (sym at)
            (window-first (λ (i : ℕ). element_at w.block i ≢ element_at w.block w.block.write_index)
              w.block.max_elements w.block.read_index w.block.element_count (omega (arith, v.full))
              (write-apart v room))) in
      let new =
        ap (value_of (write_at w.elements p x)) e ∙ ap some (write_at-same w.elements p x) in
      rw eu (
        record {
          valid = v.valid;
          nonempty = v.nonempty;
          sized = v.sized;
          fits = v.fits;
          small = v.small;
          read_in = v.read_in;
          write_in = v.write_in;
          free = v.free;
          full = v.full;
          writes = v.writes;
          reads = v.reads;
        },
        (
          (w.elements p),
          (ap (value_of w.elements) e),
          (λ i. record {
            items = kept i;
            draft = new i;
            front = front_kept i;
            room = w.block.max_elements;
          }),
        ),
      )

  pub step_put_write :
      {u : World} (k : Calls) (p : ℕ) (b : ControlBlock)
      → w.writing ≡ some p
      → put_write_ptr k w.block ≡ (no_error, b)
      → u ≡ record w { block = b; writing = none }
      → IsValid u × Moves (committed (w.elements p)) (view w) (view u)
  step_put_write k p b e g eu =
      let eb = put_write_ptr-done k w.block b g in
      let one_held : held w.writing ≡ 1 = ap held e in
      let at : p ≡ element_at w.block w.block.write_index =
        subst (λ o. IsAt o (element_at w.block w.block.write_index)) e v.writes in
      let next : add64 w.block.element_count 1 ≡ suc w.block.element_count =
        omega (arith, v.free, v.small) in
      let f = λ (i : ℕ). w.elements (element_at w.block i) in
      let ring = window w.block.max_elements w.block.read_index w.block.element_count in
      let behind = (w.block.read_index + w.block.element_count) % w.block.max_elements in
      let longer =
        ap (λ (n : ℕ). map f (window w.block.max_elements w.block.read_index n)) next
        ∙ ap (map f)
            (window-suc w.block.max_elements w.block.read_index w.block.element_count v.read_in)
        ∙ map-append f ring (behind ∷ [])
        ∙ ap (λ (t : ℕ). map f ring ++ (t ∷ []))
            (ap w.elements (sym (at ∙ ap (element_at w.block) v.write_in))) in
      rw (eu, eb)
        (
          record {
            valid = v.valid;
            nonempty = v.nonempty;
            sized = v.sized;
            fits = v.fits;
            small = v.small;
            read_in = v.read_in;
            write_in =
                ap (λ (t : ℕ). t % w.block.max_elements)
                  (omega (arith, write_lt v, v.small) ∙ ap (λ (t : ℕ). t + 1) v.write_in)
                ∙ mod-add-mod (w.block.read_index + w.block.element_count) w.block.max_elements 1
                ∙ ap (λ (t : ℕ). t % w.block.max_elements) (omega (arith, next));
            free = omega (arith, v.free, next);
            full = omega (arith, v.full, next);
            writes = tt;
            reads = v.reads;
          },
          (
            (ap (value_of w.elements) e),
            (λ i. record {
              items = longer i;
              draft = none;
              front = value_of w.elements w.reading;
              room = w.block.max_elements;
            }),
          ),
        )

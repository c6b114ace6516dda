-- ===== src/ShareMem/Protocol/Consumer.antt =====
-- The consumer's steps keep the queue valid and are moves of the bounded queue of values.
use native.Mathlib.Nat.{mod-lt}
use my_common.Common.{
  ℕ, suc, ◌+◌, ◌-◌, ◌%◌, none, some, ◌∷◌, map, ◌≡◌, refl, sym, ap, ap₂, ◌∙◌, subst, arith,
}
use my_common.Common.Window.{window, mod-step}
use my_common.Common.Words.{add64, sub64}
use my_common.Common.StateCode.{no_error}
use my_common.ShareMem.{ControlBlock, Calls, got, element_at, get_read_ptr, put_read_ptr}
use my_common.ShareMem.Stream.{World, Moves, taken, released, value_of, view, held, IsAt, IsValid}
use my_common.ShareMem.Protocol.Ring.{get_read_ptr-got, put_read_ptr-done}

module _ {w : World} (v : IsValid w) where
  pub step_got_read :
      {u : World} (k : Calls) (p : ℕ) (b : ControlBlock)
      → w.reading ≡ none
      → get_read_ptr k w.block ≡ got (some p) b
      → u ≡ record w { block = b; reading = some p }
      → IsValid u × Moves (taken (w.elements p)) (view w) (view u)
  step_got_read k p b e g eu =
      let (some_full, at, eb) = get_read_ptr-got k w.block p b g in
      let none_held : held w.reading ≡ 0 = ap held e in
      let f = λ (i : ℕ). w.elements (element_at w.block i) in
      let later =
        window w.block.max_elements ((w.block.read_index + 1) % w.block.max_elements)
          (w.block.element_count - 1) in
      let first =
        ap (λ (n : ℕ). map f (window w.block.max_elements w.block.read_index n))
          (let some : w.block.element_count ≡ suc (w.block.element_count - 1) =
              omega (arith, v.full) in
            some) in
      rw (eu, eb)
        (
          record {
            valid = v.valid;
            nonempty = v.nonempty;
            sized = v.sized;
            fits = v.fits;
            small = v.small;
            read_in = v.read_in;
            write_in = v.write_in;
            free = v.free;
            full = omega (arith, v.full);
            writes = v.writes;
            reads = at;
          },
          (
            (map f later),
            (ap (value_of w.elements) e),
            (first ∙ ap (λ (t : ℕ). t ∷ map f later) (ap w.elements (sym at))),
            refl,
          ),
        )

  pub step_put_read :
      {u : World} (k : Calls) (p : ℕ) (b : ControlBlock)
      → w.reading ≡ some p
      → put_read_ptr k w.block ≡ (no_error, b)
      → u ≡ record w { block = b; reading = none }
      → IsValid u × Moves (released (w.elements p)) (view w) (view u)
  step_put_read k p b e g eu =
      let eb = put_read_ptr-done k w.block b g in
      let n = w.block.max_elements in
      let one_held : held w.reading ≡ 1 = ap held e in
      let at : p ≡ element_at w.block w.block.read_index =
        subst (λ o. IsAt o (element_at w.block w.block.read_index)) e v.reads in
      let step : w.block.read_index + 1 ≡ add64 w.block.read_index 1 =
        omega (arith, v.read_in, v.small) in
      let some_full : w.block.element_count ≡ suc (w.block.element_count - 1) =
        omega (arith, v.full) in
      let less : w.block.element_count - 1 ≡ sub64 w.block.element_count 1 =
        omega (arith, v.full, v.free, v.small) in
      let f = λ (i : ℕ). w.elements (element_at w.block i) in
      rw (eu, eb)
        (
          record {
            valid = v.valid;
            nonempty = v.nonempty;
            sized = v.sized;
            fits = v.fits;
            small = v.small;
            read_in = mod-lt (add64 w.block.read_index 1) v.nonempty;
            write_in =
                v.write_in
                ∙ ap (λ (t : ℕ). (w.block.read_index + t) % n) some_full
                ∙ sym (mod-step n w.block.read_index (w.block.element_count - 1))
                ∙ ap₂ (λ (s t : ℕ). (s % n + t) % n) step less;
            free = omega (arith, v.free, less, some_full);
            full = omega (arith, v.full, less);
            writes = v.writes;
            reads = tt;
          },
          (
            (map f (window n (add64 w.block.read_index 1 % n) (sub64 w.block.element_count 1))),
            (ap (value_of w.elements) e),
            (ap (λ (t : ℕ). map f (window n w.block.read_index t)) some_full
                ∙ ap₂ (λ (s t : ℕ). f w.block.read_index ∷ map f (window n (s % n) t)) step less
                ∙ ap
                    (λ (t : ℕ).
                      t
                      ∷ map f (
                          window n (add64 w.block.read_index 1 % n)
                            (sub64 w.block.element_count 1)))
                    (ap w.elements (sym at))),
            refl,
          ),
        )

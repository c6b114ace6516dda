-- ===== src/JsonEx/Ids.antt =====
-- JsonMakeIds and JsonParseIds of common/JsonEx.c: a list of ids in JSON, and back.
use my_common.Common.{
  ℕ, ◌+◌, ◌*◌, ◌%◌, ◌^◌, ◌<◌, Bool, true, false, none, some, List, [], ◌∷◌, ◌++◌, map, length,
  length-map, ◌==◌, ◌≡◌, refl, sym, ap, ◌∙◌, arith,
}
use mathlib.Core.List.{append_assoc, append-nil}
use my_common.Common.StateCode.{no_error}
use my_common.Common.Events.{acquire, release}
use my_common.Cjson.{Cjson, Laws, saturate}
use my_common.JsonEx.{
  ParsedIds, document, block, add_numbers, add_number_array, make_ids, ids_of, parse_ids,
  finish_ids, parse_number_array,
}
use my_common.JsonEx.Arrays.{
  take_beyond, are_numbers, leading_ints, numbers_read, parse_number_array-numbers_in,
}

-- What an array of ids is read as.
abbrev pub ids_read : List ℕ → ParsedIds
ids_read [] = record {
  code = no_error;
  ids = none;
  count = some 0;
  events = acquire document ∷ release document ∷ [];
}
ids_read (n ∷ ns) = record {
  code = no_error;
  ids = some (map saturate (n ∷ ns));
  count = some (length (n ∷ ns));
  events = acquire document ∷ acquire block ∷ release document ∷ [];
}

module _ (c : Cjson) (laws : Laws c) where
  open c use {
    Value, items, is_number, value_int, array, number, of_uint, add_to_array, parse, print,
  }

  abbrev numbers : List ℕ → List Value
  numbers ns = map (λ n. number (of_uint n)) ns

  add_numbers-items :
      (memory : ℕ → Bool) (i : ℕ) (ns : List ℕ) (v : Value)
      → ((j : ℕ) → memory j ≡ true)
      → (w : Value) × (add_numbers c memory i ns v ≡ (no_error, w))
        × (items w ≡ items v ++ numbers ns)
  unfolding add_numbers
  add_numbers-items memory i [] v ok = (v, refl, sym (append-nil (items v)))
  add_numbers-items memory i (n ∷ ns) v ok =
      let (w, e, l) =
        add_numbers-items memory (i + 1) ns (add_to_array v (number (of_uint n))) ok in
      (
        w,
        rw (ok i) e,
        l
            ∙ ap (λ k. k ++ numbers ns) (laws.items-add_to_array v (number (of_uint n)))
            ∙ append_assoc (items v) (number (of_uint n) ∷ []) (numbers ns),
      )

  reads :
      (vs : List Value) (ns : List ℕ)
      → map is_number vs ≡ map is_number (numbers ns)
      → map value_int vs ≡ map value_int (numbers ns)
      → (are_numbers c vs ≡ true) × (leading_ints c vs ≡ map saturate ns)
  reads [] [] k i = (refl, refl)
  reads [] (n ∷ ns) k i = cc
  reads (v ∷ vs) [] k i = cc
  reads (v ∷ vs) (n ∷ ns) k i =
      let rest = reads vs ns (cc) (cc) in
      let is : is_number v ≡ true = cc (laws.is_number-number (of_uint n)) in
      let int : value_int v ≡ saturate n = cc (laws.value_int-number n) in
      rw (is, int) (rest.0, ap (λ l. saturate n ∷ l) rest.1)

  reads_length :
      (vs : List Value) (ns : List ℕ)
      → map is_number vs ≡ map is_number (numbers ns)
      → length vs ≡ length ns
  reads_length vs ns k =
      sym (length-map vs is_number)
      ∙ ap length k
      ∙ length-map (numbers ns) is_number
      ∙ length-map ns (λ n. number (of_uint n))

  -- The array is read to its end.
  parsed :
      (w : Value) (ns : List ℕ)
      → map is_number (items w) ≡ map is_number (numbers ns)
      → map value_int (items w) ≡ map value_int (numbers ns)
      → parse_number_array c (some w) none true (length (items w))
        ≡ record { code = no_error; stored = map saturate ns; count = some (length ns) }
  parsed w ns k i =
      let is = reads (items w) ns k i in
      parse_number_array-numbers_in c w none (length (items w))
      ∙ ap (numbers_read c) (take_beyond (length (items w)) (items w) (omega arith))
      ∙ rw (is.0, is.1, reads_length (items w) ns k) refl

  finish_ids-read :
      (n : ℕ) (ns : List ℕ)
      → length (n ∷ ns) < 2 ^ 30
      → finish_ids c (4 * length (n ∷ ns) % 2 ^ 32) (record {
        code = no_error;
        stored = map saturate (n ∷ ns);
        count = some (length (n ∷ ns));
      })
        ≡ some (ids_read (n ∷ ns))
  finish_ids-read n ns small = ground (arith, length-map ns saturate)

  ids_of-read :
      (w : Value) (ns : List ℕ)
      → map is_number (items w) ≡ map is_number (numbers ns)
      → map value_int (items w) ≡ map value_int (numbers ns)
      → length ns < 2 ^ 30
      → ids_of c true (some w) ≡ some (ids_read ns)
  ids_of-read w [] k i small = rw (reads_length (items w) [] k) refl
  ids_of-read w (n ∷ ns) k i small =
      let some_ids : (length (items w) == 0) ≡ false =
        ground (arith, reads_length (items w) (n ∷ ns) k) in
      rw (some_ids, parsed w (n ∷ ns) k i, reads_length (items w) (n ∷ ns) k)
        (finish_ids-read n ns small)

  -- Of fewer than 2^30 ids JsonMakeIds with memory makes a text from which JsonParseIds with
  -- memory reads as many ids, each as it was up to 2^31 - 1 and as 2^31 - 1 where it was
  -- greater, or a null pointer where there were none; the document is deleted, and just the
  -- block of ids is left, if cJSON reads the arrays of numbers that it prints.
  pub make_ids-parse_ids :
      (memory : ℕ → Bool) (ns : List ℕ)
      → ((j : ℕ) → memory j ≡ true)
      → length ns < 2 ^ 30
      → (t : List ℕ) × (make_ids c true memory (some ns) true ≡ (no_error, some t))
        × (parse_ids c true (some t) true ≡ some (ids_read ns))
  unfolding make_ids add_number_array parse_ids
  make_ids-parse_ids memory ns ok small =
      let (v, made, is) = add_numbers-items memory 0 ns array ok in
      let (w, e, k, i) = laws.parse-print v in
      let is' : items v ≡ numbers ns = is ∙ ap (λ l. l ++ numbers ns) laws.items-array in
      (
        print v,
        rw made refl,
        rw e (ids_of-read w ns (k ∙ ap (map is_number) is') (i ∙ ap (map value_int) is') small),
      )

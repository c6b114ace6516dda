-- ===== src/JsonStruct/RoundTrip.antt =====
-- A struct of ints and strings to JSON by cjson_extension.c, back to a struct, and to JSON again.
use my_common.Common.{
  ℕ, zero, suc, ◌+◌, ◌^◌, ◌≤◌, ◌<◌, inl, inr, true, false, not, Option, none, some, List, [], ◌∷◌,
  ◌++◌, length, length-append, ◌==◌, Bool-cases, ◌≡◌, refl, sym, ap, ◌∙◌, arith,
}
use my_common.Common.Strings.{str_eq, str_eq_iff}
use my_common.Common.StateCode.{no_error}
use my_common.Cjson.{Cjson}
use my_common.JsonStruct.{
  FieldType, FieldDef, field_def, Fields, end, field, Table, table, Bytes, put, word, zeros, copy,
  done, next_if_ok, next_offset, offset_of, name_of, string_size, parse_found, parse_struct,
  parse_fields, parse_field,
}
use mathlib.Core.Path.{fun_ext}
use my_common.JsonStruct.Within.{put-off, length-copy}
use my_common.JsonStruct.Encode.{
  made, add_member, word_at, string_at, encode_struct, encode_fields, encode_field,
}
use my_common.JsonStruct.Contents.{
  Has, put-Has, Has-below, word_at-Has, string_at-Has, string_at-more, string_at-read,
}
use my_common.JsonStruct.Flat.{
  ObjectLaws, flat_size, lies, end_of, is_flat, is_new, has_distinct_fields, is_some, text_fits,
  texts_fit, and_parts, and-false, str_eq_self, lies-le,
}

module _ (c : Cjson) (laws : ObjectLaws c) (room : ℕ) (a : ℕ) (m : Bytes) (b : ℕ)
    (bytes : (x : ℕ) → m x < 256) where
  open c use {Value, object, get_item_exact, add_to_object}

  -- What a field's item writes, and that it encodes as before wherever it is written.
  data Writes (d : FieldDef) (next : Option ℕ) (w : Value) : Type 0 where
    writes :
        (bs : List ℕ)
        → ((k : Bytes)
            → parse_field c d next w (b + offset_of d) k
              ≡ done no_error (put (b + offset_of d) bs k))
        → (end_of (offset_of d) (flat_size d next) ≡ offset_of d + length bs)
        → ((k : Bytes)
            → Has (b + offset_of d) bs k
            → encode_field c room d (b + offset_of d) k ≡ made w)
        → Writes d next w

  -- The item of a field.
  abbrev Item : FieldDef → Option ℕ → Type 0
  Item d next = (w : Value) × (encode_field c room d (a + offset_of d) m ≡ made w) × Writes d next w

  string-Item :
      (n : List ℕ) (o s : ℕ) (nested : Table) (k e : ℕ) (els : Table) (t : FieldType)
      (next : Option ℕ) (size : ℕ) (text : Option (List ℕ))
      → string_size s o next ≡ size
      → string_at size (a + o) m ≡ text
      → (size == 0) ≡ false
      → is_some text ≡ true
      → size ≤ room
      → Item (field_def n FieldType.string o s nested k e els t) next
  unfolding parse_struct encode_struct
  string-Item n o s nested k e els t next zero text es et z i r = cc
  string-Item n o s nested k e els t next (suc size) none es et z i r = cc
  string-Item n o s nested k e els t next (suc size) (some x) es et z i r =
      let (nonzero, short) = string_at-read (suc size) (a + o) m x et in
      let full : length (copy x size ++ (0 ∷ [])) ≡ suc size =
        omega (arith, length-append (copy x size) (0 ∷ []), length-copy x size) in
      let before : string_at room (a + o) m ≡ some x =
        string_at-more (suc size) room (a + o) m x r et in
      (
        c.string x,
        rw before refl,
        writes (copy x size ++ (0 ∷ [])) (λ k'. rw (laws.value_string-string x, es) refl)
            (rw (es, z) (ap (λ l. o + l) (sym full)))
            (λ k' h.
              rw (string_at-Has x size room (b + o) k' nonzero (omega arith) (omega arith) h) refl),
      )

  field-Item :
      (d : FieldDef) (next : Option ℕ) (lo : ℕ)
      → lies lo (offset_of d) (flat_size d next) ≡ true
      → text_fits room d next a m ≡ true
      → Item d next
  unfolding parse_struct encode_struct
  field-Item (field_def n FieldType.int o s nested k e els t) next lo f x =
      let w = word_at (a + o) m in
      let small : w < 2 ^ 32 =
        omega (arith, bytes (a + o), bytes (a + o + 1), bytes (a + o + 2), bytes (a + o + 3)) in
      (
        c.number (c.of_int w),
        refl,
        writes (word w) (λ k'. rw (laws.value_int-int w small) refl) refl
            (λ k' h. rw (word_at-Has w (b + o) k' small h) refl),
      )
  field-Item (field_def n FieldType.string o s nested k e els t) next lo f x =
      string-Item n o s nested k e els t next (string_size s o next)
        (string_at (string_size s o next) (a + o) m) refl refl (ground arith) (ground arith)
        (ground arith)
  field-Item (field_def n _ o s nested k e els t) next lo f x = cc

  -- An object that has the items of the fields.
  abbrev Items : Fields → Value → Type 0
  Items end v = Unit {0}
  Items (field d rest) v =
      ((w : Value) × (encode_field c room d (a + offset_of d) m ≡ made w)
        × (get_item_exact v (name_of d) ≡ some w)
        × Writes d (next_offset rest) w)
      × Items rest v

  -- The fields encode as they did in the first struct.
  abbrev Back : Fields → Bytes → Type 0
  Back end k = Unit {0}
  Back (field d rest) k =
      (encode_field c room d (b + offset_of d) k ≡ encode_field c room d (a + offset_of d) m)
      × Back rest k

  Back-encode :
      (fs : Fields) (k : Bytes) (root : Value)
      → Back fs k
      → encode_fields c room fs b k root ≡ encode_fields c room fs a m root
  unfolding encode_struct
  Back-encode end k root h = refl
  Back-encode (field d rest) k root h =
      ap (λ x. add_member c (name_of d) x root (encode_fields c room rest b k)) h.0
      ∙ ap (add_member c (name_of d) (encode_field c room d (a + offset_of d) m) root)
          (fun_ext (λ v. Back-encode rest k v h.1))

  parse-Back :
      (fs : Fields) (lo : ℕ) (v : Value) (k : Bytes)
      → is_flat lo fs ≡ true
      → Items fs v
      → (k' : Bytes) × (parse_fields c fs v b k ≡ done no_error k')
        × Back fs k'
        × ((x : ℕ) → x < b + lo → k' x ≡ k x)
  unfolding parse_struct
  parse-Back end lo v k f h = (k, refl, tt, λ x l. refl)
  parse-Back (field d rest) lo v k f ((w, e, g, writes bs p l back), hs) =
      let next_lo = end_of (offset_of d) (flat_size d (next_offset rest)) in
      let lies_low : lo ≤ offset_of d =
        lies-le lo (offset_of d) (flat_size d (next_offset rest)) (and_parts f).0 in
      let k1 = put (b + offset_of d) bs k in
      let (k', q, rest_back, same) = parse-Back rest next_lo v k1 ((and_parts f).1) hs in
      (
        k',
        ap (λ o. next_if_ok o (parse_fields c rest v b))
              (ap
                  (λ x.
                    parse_found c x
                      (λ item. parse_field c d (next_offset rest) item (b + offset_of d) k) k)
                  g
                ∙ p k)
            ∙ q,
        (
          back k' (
                Has-below bs (b + offset_of d) (b + next_lo) k1 k' (omega (arith, l)) same
                  (put-Has bs (b + offset_of d) k))
              ∙ sym e,
          rest_back,
        ),
        λ x below. same x (omega (arith, l)) ∙ put-off bs (b + offset_of d) k x (inl (omega arith)),
      )

  -- The names behind a field are new behind it too.
  later_new :
      (root w : Value) (d : FieldDef) (rest : Fields)
      → is_new (name_of d) rest ≡ true
      → ((k : List ℕ) → is_new k (field d rest) ≡ false → get_item_exact root k ≡ none)
      → (k : List ℕ) → is_new k rest ≡ false
      → get_item_exact (add_to_object root (name_of d) w) k ≡ none
  later_new root w d rest u none_yet k h = elim (Bool-cases (str_eq (name_of d) k)) [
    | inl y ↦
        let same : name_of d ≡ k = (str_eq_iff (name_of d) k).0 y in
        cc (sym u ∙ ap (λ j. is_new j rest) same ∙ h)
    | inr n ↦
        laws.get-add_other root w (name_of d) k n
        ∙ none_yet k (and-false (not (str_eq k (name_of d))) h)
  ]

  encode_fields-Items :
      (fs : Fields) (root : Value) (lo : ℕ)
      → is_flat lo fs ≡ true
      → texts_fit room fs a m ≡ true
      → has_distinct_fields fs ≡ true
      → ((k : List ℕ) → is_new k fs ≡ false → get_item_exact root k ≡ none)
      → (v : Value) × (encode_fields c room fs a m root ≡ made v)
        × Items fs v
        × ((j : List ℕ) (x : Value) → get_item_exact root j ≡ some x → get_item_exact v j ≡ some x)
  unfolding encode_struct
  encode_fields-Items end root lo f t u none_yet = (root, refl, tt, λ j x g. g)
  encode_fields-Items (field d rest) root lo f t u none_yet =
      let (w, e, ws) = field-Item d (next_offset rest) lo (and_parts f).0 (and_parts t).0 in
      let next_lo = end_of (offset_of d) (flat_size d (next_offset rest)) in
      let root' = add_to_object root (name_of d) w in
      let absent : get_item_exact root (name_of d) ≡ none =
        none_yet (name_of d) (rw (str_eq_self (name_of d)) refl) in
      let (v, q, hs, kept) =
        encode_fields-Items rest root' next_lo (and_parts f).1 (and_parts t).1 (and_parts u).1
          (later_new root w d rest (and_parts u).0 none_yet) in
      (
        v,
        ap (λ y. add_member c (name_of d) y root (encode_fields c room rest a m)) e ∙ q,
        ((w, e, kept (name_of d) w (laws.get-add_new root w (name_of d) absent), ws), hs),
        λ j x g. kept j x (laws.get-add_kept root w x (name_of d) j g),
      )

  -- A struct of ints and of strings with their zeros inside their arrays, by a table of fields
  -- of different names one behind the other, becomes a JSON object with memory for its items;
  -- from that object cjson_parse_json_to_struct_internal makes a struct elsewhere that becomes
  -- the same object, if cJSON objects are read as they are put together.
  pub encode_struct-parse_struct :
      (fs : Fields) (size : ℕ) (k : Bytes)
      → is_flat 0 fs ≡ true
      → has_distinct_fields fs ≡ true
      → texts_fit room fs a m ≡ true
      → (v : Value) × (k' : Bytes) × (encode_struct c room (table fs) a m ≡ made v)
        × (parse_struct c (table fs) size v b k ≡ done no_error k')
        × (encode_struct c room (table fs) b k' ≡ made v)
  unfolding encode_struct parse_struct
  encode_struct-parse_struct fs size k f u t =
      let (v, e, hs, kept) = encode_fields-Items fs object 0 f t u (λ j h. laws.get-object j) in
      let (k', p, back, same) = parse-Back fs 0 v (put b (zeros size) k) f hs in
      (v, k', e, p, Back-encode fs k' object back ∙ e)

-- ===== src/JsonStruct/Bounds.antt =====
-- That cjson_extension.c writes only inside the struct, by tables whose fields lie inside it.
use my_common.Common.{
  ℕ, zero, suc, ◌+◌, ◌*◌, ◌≤◌, Bool, true, false, ◌&&◌, Option, none, some, List, [], ◌∷◌, ◌++◌,
  length, length-append, leb, if◌then◌else◌, ◌≡◌, refl, arith,
}
use my_common.Common.StateCode.{StateCode, no_error, invalid_param}
use my_common.Cjson.{Cjson}
use my_common.JsonStruct.{
  bool_word, FieldType, int, uint, float, double, string, bool, struct, array, max, FieldDef,
  field_def, Fields, end, field, Table, null, table, Bytes, put, word, zeros, copy, Outcome, done,
  next_offset, offset_of, name_of, string_size, is_empty, parse_element, copy_string, parse_structs,
  parse_scalars, parse_found, parse_struct, parse_fields, parse_field,
}
use my_common.JsonStruct.Within.{
  Kept, put-Within, Kept-wider, Kept-trans, next_if_ok-Kept, next_always-Kept, length-zeros,
  length-copy,
}

-- The bytes that an item of an array takes.
abbrev pub scalar_size : FieldType → ℕ
scalar_size double = 8
scalar_size _ = 4

-- Even an empty string takes a byte.
abbrev pub string_bytes : ℕ → ℕ
string_bytes zero = 1
string_bytes (suc n) = suc n

-- The fields of a table lie inside `size` bytes, those of its structs inside them.
unfoldable mutual
  pub fits_table : Table → ℕ → Bool
  fits_table null size = true
  fits_table (table fs) size = fits fs size

  pub fits : Fields → ℕ → Bool
  fits end size = true
  fits (field d rest) size = fits_field d (next_offset rest) size && fits rest size

  pub fits_field : FieldDef → Option ℕ → ℕ → Bool
  fits_field (field_def n double o s nested k e els t) next size = leb (o + 8) size
  fits_field (field_def n string o s nested k e els t) next size =
      leb (o + string_bytes (string_size s o next)) size
  fits_field (field_def n struct o s nested k e els t) next size =
      leb (o + s) size && fits_table nested s
  fits_field (field_def n array o s nested k e null t) next size =
      leb (o + k * e) size && leb (scalar_size t) e
  fits_field (field_def n array o s nested k e (table fs) t) next size =
      leb (o + k * e) size && fits fs e
  fits_field (field_def n max o s nested k e els t) next size = true
  fits_field (field_def n int o s nested k e els t) next size = leb (o + 4) size
  fits_field (field_def n uint o s nested k e els t) next size = leb (o + 4) size
  fits_field (field_def n float o s nested k e els t) next size = leb (o + 4) size
  fits_field (field_def n bool o s nested k e els t) next size = leb (o + 4) size

-- The lengths of the bytes of floats and doubles.
pub record Sizes (c : Cjson) : Type 0 where
  pub length-to_float : (d : c.Double) → length (c.to_float d) ≡ 4
  pub length-to_double : (d : c.Double) → length (c.to_double d) ≡ 8

module _ (c : Cjson) (sizes : Sizes c) where
  open c use {
    Value, items, get_item_exact, value_string, value_int, value_double, to_uint, to_float,
    to_double,
  }

  -- An item of any type writes at most the bytes that it takes.
  parse_element-Kept :
      (type : FieldType) (v : Value) (a : ℕ) (m : Bytes)
      → Kept a (a + scalar_size type) m (parse_element c type v a m)
  parse_element-Kept int v a m =
      put-Within a (a + 4) a (word (value_int v)) m (omega arith) (omega arith)
  parse_element-Kept uint v a m =
      put-Within a (a + 4) a (word (to_uint (value_double v))) m (omega arith) (omega arith)
  parse_element-Kept float v a m =
      put-Within a (a + 4) a (to_float (value_double v)) m (omega arith)
        (omega (arith, sizes.length-to_float (value_double v)))
  parse_element-Kept double v a m =
      put-Within a (a + 8) a (to_double (value_double v)) m (omega arith)
        (omega (arith, sizes.length-to_double (value_double v)))
  parse_element-Kept bool v a m =
      put-Within a (a + 4) a (bool_word c v) m (omega arith) (omega arith)
  parse_element-Kept string v a m = λ x out. refl
  parse_element-Kept struct v a m = λ x out. refl
  parse_element-Kept array v a m = λ x out. refl
  parse_element-Kept max v a m = λ x out. refl

  copy_string-Kept :
      (s : Option (List ℕ)) (n a : ℕ) (m : Bytes)
      → Kept a (a + string_bytes n) m (copy_string c s n a m)
  copy_string-Kept s zero a m = put-Within a (a + 1) a (0 ∷ []) m (omega arith) (omega arith)
  copy_string-Kept none (suc n) a m = tt
  copy_string-Kept (some s) (suc n) a m =
      put-Within a (a + suc n) a (copy s n ++ (0 ∷ [])) m (omega arith)
        (omega (arith, length-append (copy s n) (0 ∷ []), length-copy s n))

  parse_structs-Kept :
      (parse : Value → ℕ → Bytes → Outcome) (size limit : ℕ) (vs : List Value) (a : ℕ) (m : Bytes)
      → ((v : Value) (b : ℕ) (k : Bytes) → Kept b (b + size) k (parse v b k))
      → Kept a (a + limit * size) m (parse_structs c parse size limit vs a m)
  parse_structs-Kept parse size zero vs a m each = λ x out. refl
  parse_structs-Kept parse size (suc limit) [] a m each = λ x out. refl
  parse_structs-Kept parse size (suc limit) (v ∷ vs) a m each =
      next_if_ok-Kept a (a + suc limit * size) m (parse v a m)
        (parse_structs c parse size limit vs (a + size))
        (Kept-wider a (a + suc limit * size) a (a + size) m (parse v a m) (omega arith)
          (omega arith) (each v a m))
        (λ k.
          Kept-wider a (a + suc limit * size) (a + size) (a + size + limit * size) k
            (parse_structs c parse size limit vs (a + size) k) (omega arith) (omega arith)
            (parse_structs-Kept parse size limit vs (a + size) k each))

  parse_scalars-Kept :
      (type : FieldType) (size limit : ℕ) (vs : List Value) (a : ℕ) (code : StateCode) (m : Bytes)
      → scalar_size type ≤ size
      → Kept a (a + limit * size) m (parse_scalars c type size limit vs a code m)
  parse_scalars-Kept type size zero vs a code m h = λ x out. refl
  parse_scalars-Kept type size (suc limit) [] a code m h = λ x out. refl
  parse_scalars-Kept type size (suc limit) (v ∷ vs) a code m h =
      next_always-Kept a (a + suc limit * size) m (parse_element c type v a m)
        (parse_scalars c type size limit vs (a + size))
        (Kept-wider a (a + suc limit * size) a (a + scalar_size type) m (parse_element c type v a m)
          (omega arith) (omega arith) (parse_element-Kept type v a m))
        (λ d k.
          Kept-wider a (a + suc limit * size) (a + size) (a + size + limit * size) k
            (parse_scalars c type size limit vs (a + size) d k) (omega arith) (omega arith)
            (parse_scalars-Kept type size limit vs (a + size) d k h))

  pub parse_found-Kept :
      (lo hi : ℕ) (m : Bytes) (found : Option Value) (parse : Value → Outcome)
      → ((v : Value) → Kept lo hi m (parse v))
      → Kept lo hi m (parse_found c found parse m)
  parse_found-Kept lo hi m none parse h = λ x out. refl
  parse_found-Kept lo hi m (some v) parse h = h v

  unless-Kept :
      (b : Bool) (lo hi : ℕ) (m : Bytes) (o : Outcome)
      → Kept lo hi m o
      → Kept lo hi m (if b then done invalid_param m else o)
  unless-Kept true lo hi m o h = λ x out. refl
  unless-Kept false lo hi m o h = h

  -- A field of `n` bytes at the offset `o`.
  at_offset :
      (a size o n : ℕ) (m : Bytes) (r : Outcome)
      → leb (o + n) size ≡ true
      → Kept (a + o) (a + o + n) m r
      → Kept a (a + size) m r
  at_offset a size o n m r h k =
      Kept-wider a (a + size) (a + o) (a + o + n) m r (omega arith) (ground arith) k

  mutual
    unfolding parse_struct fits

    pub parse_struct-Kept :
        (t : Table) (size : ℕ) (v : Value) (a : ℕ) (m : Bytes)
        → fits_table t size ≡ true
        → Kept a (a + size) m (parse_struct c t size v a m)
    parse_struct-Kept null size v a m f = tt
    parse_struct-Kept (table fs) size v a m f =
        Kept-trans a (a + size) m (put a (zeros size) m)
          (parse_fields c fs v a (put a (zeros size) m))
          (put-Within a (a + size) a (zeros size) m (omega arith)
            (omega (arith, length-zeros size)))
          (parse_fields-Kept fs size v a (put a (zeros size) m) f)

    parse_fields-Kept :
        (fs : Fields) (size : ℕ) (v : Value) (a : ℕ) (m : Bytes)
        → fits fs size ≡ true
        → Kept a (a + size) m (parse_fields c fs v a m)
    parse_fields-Kept end size v a m f = λ x out. refl
    parse_fields-Kept (field d rest) size v a m f =
        next_if_ok-Kept a (a + size) m
          (parse_found c (get_item_exact v (name_of d))
            (λ item. parse_field c d (next_offset rest) item (a + offset_of d) m) m)
          (parse_fields c rest v a)
          (parse_found-Kept a (a + size) m (get_item_exact v (name_of d))
            (λ item. parse_field c d (next_offset rest) item (a + offset_of d) m)
            (λ item. parse_field-Kept d (next_offset rest) size item a m (ground arith)))
          (λ k. parse_fields-Kept rest size v a k (ground arith))

    pub parse_field-Kept :
        (d : FieldDef) (next : Option ℕ) (size : ℕ) (v : Value) (a : ℕ) (m : Bytes)
        → fits_field d next size ≡ true
        → Kept a (a + size) m (parse_field c d next v (a + offset_of d) m)
    parse_field-Kept (field_def n int o s nested k e els t) next size v a m f =
        at_offset a size o 4 m (parse_element c int v (a + o) m) f
          (parse_element-Kept int v (a + o) m)
    parse_field-Kept (field_def n uint o s nested k e els t) next size v a m f =
        at_offset a size o 4 m (parse_element c uint v (a + o) m) f
          (parse_element-Kept uint v (a + o) m)
    parse_field-Kept (field_def n float o s nested k e els t) next size v a m f =
        at_offset a size o 4 m (parse_element c float v (a + o) m) f
          (parse_element-Kept float v (a + o) m)
    parse_field-Kept (field_def n double o s nested k e els t) next size v a m f =
        at_offset a size o 8 m (parse_element c double v (a + o) m) f
          (parse_element-Kept double v (a + o) m)
    parse_field-Kept (field_def n bool o s nested k e els t) next size v a m f =
        at_offset a size o 4 m (parse_element c bool v (a + o) m) f
          (parse_element-Kept bool v (a + o) m)
    parse_field-Kept (field_def n string o s nested k e els t) next size v a m f =
        at_offset a size o (string_bytes (string_size s o next)) m
          (copy_string c (value_string v) (string_size s o next) (a + o) m) f
          (copy_string-Kept (value_string v) (string_size s o next) (a + o) m)
    parse_field-Kept (field_def n struct o s nested k e els t) next size v a m f =
        unless-Kept (is_empty (items v)) a (a + size) m (parse_struct c nested s v (a + o) m) (
          at_offset a size o s m (parse_struct c nested s v (a + o) m) (ground arith)
            (parse_struct-Kept nested s v (a + o) m (ground arith)))
    parse_field-Kept (field_def n array o s nested k e null t) next size v a m f =
        unless-Kept (is_empty (items v)) a (a + size) m
          (parse_scalars c t e k (items v) (a + o) no_error m)
          (at_offset a size o (k * e) m (parse_scalars c t e k (items v) (a + o) no_error m)
            (ground arith) (parse_scalars-Kept t e k (items v) (a + o) no_error m (ground arith)))
    parse_field-Kept (field_def n array o s nested k e (table fs) t) next size v a m f =
        let each = λ (w : Value) (b : ℕ) (j : Bytes). parse_fields c fs w b (put b (zeros e) j) in
        unless-Kept (is_empty (items v)) a (a + size) m
          (parse_structs c each e k (items v) (a + o) m)
          (at_offset a size o (k * e) m (parse_structs c each e k (items v) (a + o) m)
            (ground arith)
            (parse_structs-Kept each e k (items v) (a + o) m (λ w b j.
              Kept-trans b (b + e) j (put b (zeros e) j) (each w b j)
                (put-Within b (b + e) b (zeros e) j (omega arith) (omega (arith, length-zeros e)))
                (parse_fields-Kept fs e w b (put b (zeros e) j) (ground arith)))))
    parse_field-Kept (field_def n max o s nested k e els t) next size v a m f = λ x out. refl

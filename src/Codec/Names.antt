-- ===== src/Codec/Names.antt =====
-- That the searches in a codec table read back what they gave.
use my_common.Common.{
  ℕ, Bool, true, false, not, ◌&&◌, ◌||◌, Option, none, some, List, [], ◌∷◌, map, ◌==◌,
  if◌then◌else◌, Bool-cases, inl, inr, ◌≡◌, refl, sym, ap, ◌∙◌, arith,
}
use my_common.Common.Strings.{str_eq, str_eq_iff}
use my_common.Codec.{lower, str_case_eq, name_of, type_of}
use my_common.Codec.Acodec.{AcodecId, acodec_str_map, get_acodec_str, get_acodec_type}
use my_common.Codec.Vcodec.{VcodecType, max, vcodec_str_map, get_vcodec_str, get_vcodec_type}

-- What a name is read back as, where there is one.
abbrev pub read_back : (List ℕ → ℕ) → Option (List ℕ) → Option ℕ
read_back read none = none
read_back read (some s) = some (read s)

module _ {A : Type 0} where
  abbrev pub is_unused : List ℕ → List (A × List ℕ) → Bool
  is_unused s [] = true
  is_unused s ((c, str) ∷ entries) = not (str_case_eq str s) && is_unused s entries

  -- No two names of a table are the same but for their case.
  abbrev pub has_distinct_names : List (A × List ℕ) → Bool
  has_distinct_names [] = true
  has_distinct_names ((c, str) ∷ entries) = is_unused str entries && has_distinct_names entries

  module _ (value : A → ℕ) where
    abbrev pub has_entry : ℕ → List (A × List ℕ) → Bool
    has_entry id [] = false
    has_entry id ((c, str) ∷ entries) = (value c == id) || has_entry id entries

    name_of-unused :
        (id : ℕ) (str s : List ℕ) (entries : List (A × List ℕ))
        → is_unused str entries ≡ true
        → name_of value id entries ≡ some s
        → str_case_eq s str ≡ false
    unfolding name_of
    name_of-unused id str s [] u e = cc
    name_of-unused id str s ((d, t) ∷ entries) u e = elim (Bool-cases (value d == id)) [
      | inl y ↦ let same : t ≡ s = ground arith in rw (sym same) (ground arith)
      | inr n ↦ name_of-unused id str s entries (ground arith) (ground arith)
    ]

    type_of-first :
        (s str : List ℕ) (c : A) (entries : List (A × List ℕ)) (unknown : ℕ)
        → str_case_eq s str ≡ true
        → type_of value s ((c, str) ∷ entries) unknown ≡ value c
    unfolding type_of
    type_of-first s str c entries unknown y = rw y refl

    type_of-later :
        (s str : List ℕ) (c : A) (entries : List (A × List ℕ)) (unknown : ℕ)
        → str_case_eq s str ≡ false
        → type_of value s ((c, str) ∷ entries) unknown ≡ type_of value s entries unknown
    unfolding type_of
    type_of-later s str c entries unknown n = rw n refl

    -- What the rest of a table gives is read behind a name that it does not have.
    read_behind :
        (change : List ℕ → List ℕ) (id unknown : ℕ) (c : A) (str : List ℕ)
        (entries : List (A × List ℕ)) (named : Option (List ℕ))
        → ((s : List ℕ) → map lower (change s) ≡ map lower s)
        → is_unused str entries ≡ true
        → name_of value id entries ≡ named
        → read_back (λ s. type_of value (change s) ((c, str) ∷ entries) unknown) named
          ≡ read_back (λ s. type_of value (change s) entries unknown) named
    read_behind change id unknown c str entries none h u e = refl
    read_behind change id unknown c str entries (some s) h u e = ap some (
        type_of-later (change s) str c entries unknown
          (ap (λ l. str_eq l (map lower str)) (h s) ∙ name_of-unused id str s entries u e))

    name_of-type_of :
        (change : List ℕ → List ℕ) (id unknown : ℕ) (table : List (A × List ℕ))
        → ((s : List ℕ) → map lower (change s) ≡ map lower s)
        → has_distinct_names table ≡ true
        → read_back (λ s. type_of value (change s) table unknown) (name_of value id table)
          ≡ (if has_entry id table then some id else none)
    unfolding name_of
    name_of-type_of change id unknown [] h d = refl
    name_of-type_of change id unknown ((c, str) ∷ entries) h d = elim (Bool-cases (value c == id)) [
      | inl y ↦ rw y (
          ap some (
            type_of-first (change str) str c entries unknown
              ((str_eq_iff (map lower (change str)) (map lower str)).1 (h str))
            ∙ ground arith))
      | inr n ↦ rw n (
          read_behind change id unknown c str entries (name_of value id entries) h (ground arith)
            refl
          ∙ name_of-type_of change id unknown entries h (ground arith))
    ]

vcodec_names : has_distinct_names vcodec_str_map ≡ true
unfolding str_eq
vcodec_names = refl

acodec_names : (with_dolby_plus : Bool) → has_distinct_names (acodec_str_map with_dolby_plus) ≡ true
unfolding str_eq
acodec_names true = refl
acodec_names false = refl

-- For every number that an entry of the tables has, get_vcodec_str and get_acodec_str give a name
-- that get_vcodec_type and get_acodec_type read back as that number, in upper or lower case; for
-- all other numbers they give NULL.
pub get_str-get_type :
    (change : List ℕ → List ℕ) (vcodec : VcodecType → ℕ) (acodec : AcodecId → ℕ)
    (with_dolby_plus : Bool) (id : ℕ)
    → ((s : List ℕ) → map lower (change s) ≡ map lower s)
    → (read_back (λ s. get_vcodec_type vcodec (change s)) (get_vcodec_str vcodec id)
        ≡ (if has_entry vcodec id vcodec_str_map then some id else none))
      × (read_back
            (λ s. get_acodec_type acodec with_dolby_plus (change s))
            (get_acodec_str acodec with_dolby_plus id)
          ≡ (if has_entry acodec id (acodec_str_map with_dolby_plus) then some id else none))
unfolding get_vcodec_str get_vcodec_type get_acodec_str get_acodec_type
get_str-get_type change vcodec acodec with_dolby_plus id h = (
  name_of-type_of vcodec change id (vcodec max) vcodec_str_map h vcodec_names,
  name_of-type_of acodec change id 4294967295 (acodec_str_map with_dolby_plus) h
      (acodec_names with_dolby_plus),
)

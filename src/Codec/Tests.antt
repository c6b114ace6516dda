-- ===== src/Codec/Tests.antt =====
-- Concrete searches in the codec tables.
use my_common.Common.{
  ℕ, ◌-◌, false, ◌&&◌, some, List, [], ◌∷◌, map, leb, if◌then◌else◌, ◌≡◌, refl, ap₂, arith,
}
use my_common.Common.Strings.{bytes, str_eq}
use my_common.Codec.{lower, name_of, type_of}
use my_common.Codec.Acodec.{AcodecId, mp3, get_acodec_type}
use my_common.Codec.Vcodec.{VcodecType, h264, vc1, max, get_vcodec_str, get_vcodec_type}

abbrev upper : ℕ → ℕ
upper c = if leb 97 c && leb c 122 then c - 32 else c

lower-upper : (c : ℕ) → lower (upper c) ≡ lower c
lower-upper c = ground arith

lower-upper_all : (s : List ℕ) → map lower (map upper s) ≡ map lower s
lower-upper_all [] = refl
lower-upper_all (c ∷ cs) = ap₂ (λ x xs. x ∷ xs) (lower-upper c) (lower-upper_all cs)

abbrev vcodec : VcodecType → ℕ
vcodec h264 = 7
vcodec vc1 = 15
vcodec max = 100
vcodec _ = 3

abbrev acodec : AcodecId → ℕ
acodec mp3 = 7
acodec _ = 20

-- The other two names of VC1 are read, but not given.
test_vc1 : get_vcodec_type vcodec (bytes "Vc1smp5") ≡ 15
unfolding get_vcodec_type type_of str_eq
test_vc1 = refl

test_vc1_name : get_vcodec_str vcodec 15 ≡ some (bytes "vc1ap")
unfolding get_vcodec_str name_of
test_vc1_name = refl

test_unknown : get_acodec_type acodec false (bytes "h") ≡ 4294967295
unfolding get_acodec_type type_of str_eq
test_unknown = refl

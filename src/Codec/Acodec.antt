-- ===== src/Codec/Acodec.antt =====
-- The audio codecs of common/common.c: `g_acodec_str_map` and the two functions that search it.
use my_common.Common.{ℕ, Bool, Option, List, [], ◌∷◌, ◌++◌, if◌then◌else◌}
use my_common.Common.Strings.{bytes}
use my_common.Codec.{name_of, type_of}

-- The constants of `uapi_acodec_id` that the table has; `value` below gives their numbers.
pub data AcodecId : Type 0 where
  pcm mp2 aac mp3 amrnb amrwb g711 g726 adpcm ac3passthrough dtspassthrough truehd dolby_truehd :
      AcodecId
  dtshd dtsm6 dolby_plus ms12_ddp ms12_aac vorbis opus dra avs3 : AcodecId

-- `with_dolby_plus` says whether DOLBYPLUS_HACODEC_SUPPORT is defined.
abbrev pub acodec_str_map : Bool → List (AcodecId × List ℕ)
acodec_str_map with_dolby_plus =
    ((pcm, bytes "pcm")
      ∷ (mp2, bytes "mp2")
      ∷ (aac, bytes "aac")
      ∷ (mp3, bytes "mp3")
      ∷ (amrnb, bytes "amrnb")
      ∷ (amrwb, bytes "amrwb")
      ∷ (g711, bytes "g711")
      ∷ (g726, bytes "g726")
      ∷ (adpcm, bytes "adpcm")
      ∷ (ac3passthrough, bytes "ac3passthrough")
      ∷ (dtspassthrough, bytes "dtspassthrough")
      ∷ (truehd, bytes "truehd")
      ∷ (dolby_truehd, bytes "dolby_truehd")
      ∷ (dtshd, bytes "dtshd")
      ∷ (dtsm6, bytes "dtsm6")
      ∷ [])
    ++ ((if with_dolby_plus then ((dolby_plus, bytes "dolby_plus") ∷ []) else [])
        ++ ((ms12_ddp, bytes "ms12_ddp")
            ∷ (ms12_aac, bytes "ms12_aac")
            ∷ (vorbis, bytes "vorbis")
            ∷ (opus, bytes "opus")
            ∷ (dra, bytes "dra")
            ∷ (avs3, bytes "avs3a")
            ∷ []))

unfoldable pub get_acodec_str : (AcodecId → ℕ) → Bool → ℕ → Option (List ℕ)
get_acodec_str value with_dolby_plus acodec_id =
    name_of value acodec_id (acodec_str_map with_dolby_plus)

-- The result is the 32-bit pattern of the INT32.
unfoldable pub get_acodec_type : (AcodecId → ℕ) → Bool → List ℕ → ℕ
get_acodec_type value with_dolby_plus acodec_str =
    type_of value acodec_str (acodec_str_map with_dolby_plus) 4294967295

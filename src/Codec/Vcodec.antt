-- ===== src/Codec/Vcodec.antt =====
-- The video codecs of common/common.c: `g_vcodec_str_map` and the two functions that search it.
use my_common.Common.{ℕ, Option, List, [], ◌∷◌}
use my_common.Common.Strings.{bytes}
use my_common.Codec.{name_of, type_of}

-- The constants of `uapi_vcodec_type` that the source uses; `value` below gives their numbers.
pub data VcodecType : Type 0 where
  mpeg2 mpeg4 h263 sorenson vp6 vp6f vp6a h264 h265 h264_mvc avs avs2 avs3 real8 real9 vc1 vp8 :
      VcodecType
  vp9 av1 divx3 mjpeg max : VcodecType

abbrev pub vcodec_str_map : List (VcodecType × List ℕ)
vcodec_str_map =
    (mpeg2, bytes "mpeg2")
    ∷ (mpeg4, bytes "mpeg4")
    ∷ (h263, bytes "h263")
    ∷ (sorenson, bytes "sor")
    ∷ (vp6, bytes "vp6")
    ∷ (vp6f, bytes "vp6f")
    ∷ (vp6a, bytes "vp6a")
    ∷ (h264, bytes "h264")
    ∷ (h265, bytes "h265")
    ∷ (h264_mvc, bytes "mvc")
    ∷ (avs, bytes "avs")
    ∷ (avs2, bytes "avs2")
    ∷ (avs3, bytes "avs3")
    ∷ (real8, bytes "real8")
    ∷ (real9, bytes "real9")
    ∷ (vc1, bytes "vc1ap")
    ∷ (vc1, bytes "vc1smp5")
    ∷ (vc1, bytes "vc1smp8")
    ∷ (vp8, bytes "vp8")
    ∷ (vp9, bytes "vp9")
    ∷ (av1, bytes "av1")
    ∷ (divx3, bytes "divx3")
    ∷ (mjpeg, bytes "mjpeg")
    ∷ []

unfoldable pub get_vcodec_str : (VcodecType → ℕ) → ℕ → Option (List ℕ)
get_vcodec_str value vcodec_id = name_of value vcodec_id vcodec_str_map

unfoldable pub get_vcodec_type : (VcodecType → ℕ) → List ℕ → ℕ
get_vcodec_type value vcodec_str = type_of value vcodec_str vcodec_str_map (value max)

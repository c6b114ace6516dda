-- ===== src/JsonParse/Keys.antt =====
-- The tables of fields of common/JsonParse/JsonParsePriv.h, with the offsets and sizes that the structs
-- of common/media.h have where an int and a BOOL take four bytes.
use my_common.Common.{ℕ, List, [], ◌∷◌}
use my_common.Common.Strings.{bytes}
use my_common.JsonStruct.{
  FieldType, int, string, struct, max, FieldDef, field_def, Fields, end, field, null, table,
}
use my_common.JsonParse.{ListJsonMng}
use Prim.Native.String.{String}

-- An entry with zeros and null pointers behind its offset.
abbrev pub plain_field : String → FieldType → ℕ → FieldDef
plain_field name type offset = field_def (bytes name) type offset 0 null 0 0 null max

abbrev pub struct_field : String → ℕ → ℕ → Fields → FieldDef
struct_field name offset struct_size fields =
    field_def (bytes name) struct offset struct_size (table fields) 0 0 null max

-- A table with the entry with a null name at its end.
abbrev pub table_of : List FieldDef → Fields
table_of [] = end
table_of (d ∷ ds) = field d (table_of ds)

abbrev pub audio_param_key : Fields
audio_param_key = table_of (
    (plain_field "bEnable" int 0)
    ∷ (plain_field "strCodec" string 4)
    ∷ (plain_field "uiSamplerate" int 20)
    ∷ (plain_field "uiBitRate" int 24)
    ∷ (plain_field "uiDelay" int 28)
    ∷ (plain_field "strQuality" string 32)
    ∷ [])

abbrev pub video_param_key : Fields
video_param_key = table_of (
    (plain_field "bEnable" int 0)
    ∷ (plain_field "strCodec" string 4)
    ∷ (plain_field "strProfile" string 20)
    ∷ (plain_field "strResolution" string 36)
    ∷ (plain_field "uiFrameRate" int 68)
    ∷ (plain_field "uiBitRate" int 72)
    ∷ (plain_field "uiGops" int 76)
    ∷ (plain_field "strGopMode" string 80)
    ∷ (plain_field "uiQpMin" int 96)
    ∷ (plain_field "uiQpMax" int 100)
    ∷ (plain_field "uiRcType" int 104)
    ∷ [])

abbrev pub mux_param_key : Fields
mux_param_key = table_of (
    (plain_field "ts_id" int 0)
    ∷ (plain_field "pmt_pid" int 4)
    ∷ (plain_field "pcr_pid" int 8)
    ∷ (plain_field "video_pid" int 12)
    ∷ (plain_field "video_enable" int 16)
    ∷ (plain_field "audio_pid" int 20)
    ∷ (plain_field "audio_enable" int 24)
    ∷ (plain_field "ts_bitrate" int 28)
    ∷ (plain_field "pat_interval" int 32)
    ∷ (plain_field "pmt_interval" int 36)
    ∷ (plain_field "pcr_interval" int 40)
    ∷ (plain_field "sdt_interval" int 44)
    ∷ [])

abbrev pub mux_service_param_key : Fields
mux_service_param_key = table_of (
    (plain_field "service_id" int 0)
    ∷ (plain_field "ServiceName" string 4)
    ∷ (plain_field "ProviderName" string 68)
    ∷ (plain_field "ServiceType" int 132)
    ∷ [])

abbrev pub enc_param_key : Fields
enc_param_key = table_of (
    (struct_field "VEncInfo" 0 108 video_param_key)
    ∷ (struct_field "AEncInfo" 108 64 audio_param_key)
    ∷ (struct_field "TsMuxInfo" 172 48 mux_param_key)
    ∷ (struct_field "TsMuxServiceInfo" 220 136 mux_service_param_key)
    ∷ [])

abbrev pub prog_info_key : Fields
prog_info_key = table_of (
    (plain_field "channel_flag" int 0)
    ∷ (plain_field "vid_type" int 4)
    ∷ (plain_field "vid_pid" int 8)
    ∷ (plain_field "aud_type" int 12)
    ∷ (plain_field "aud_pid" int 16)
    ∷ (plain_field "pcr_pid" int 20)
    ∷ [])

abbrev pub transcode_decode_param_key : Fields
transcode_decode_param_key = table_of (
    (plain_field "sync" int 0)
    ∷ (plain_field "fail" int 4)
    ∷ (plain_field "ach1" int 8)
    ∷ (plain_field "ach2" int 12)
    ∷ (plain_field "av1" int 16)
    ∷ (plain_field "av2" int 20)
    ∷ (plain_field "adelay1" int 24)
    ∷ (plain_field "adelay2" int 28)
    ∷ (plain_field "fmt" int 32)
    ∷ (plain_field "sdi" int 36)
    ∷ (plain_field "cs" int 40)
    ∷ (plain_field "hdr" int 44)
    ∷ (plain_field "br" int 48)
    ∷ (plain_field "cr" int 52)
    ∷ (plain_field "hu" int 56)
    ∷ (plain_field "sa" int 60)
    ∷ (plain_field "errfmfiltervalue" int 64)
    ∷ [])

abbrev pub transcode_decode_pid_key : Fields
transcode_decode_pid_key = table_of (
    (plain_field "vp" int 0)
    ∷ (plain_field "vt" int 4)
    ∷ (plain_field "pp" int 8)
    ∷ (plain_field "ap1" int 12)
    ∷ (plain_field "ap2" int 16)
    ∷ (plain_field "at1" int 20)
    ∷ (plain_field "at2" int 24)
    ∷ [])

abbrev mng : String → Fields → ℕ → ListJsonMng
mng list_type key size = record { list_type = bytes list_type; key = key; size = size }

-- `g_satJsonList`.
abbrev pub json_list : List ListJsonMng
json_list =
    mng "venc" video_param_key 108
    ∷ (mng "aenc" audio_param_key 64
        ∷ (mng "tsmux" mux_param_key 48
            ∷ (mng "tsmuxservice" mux_service_param_key 136
                ∷ (mng "encinfo" enc_param_key 356
                    ∷ (mng "transcodeDecodePid" transcode_decode_pid_key 28
                        ∷ (mng "transcodeDecodeParam" transcode_decode_param_key 68
                            ∷ (mng "proginfo" prog_info_key 24 ∷ [])))))))

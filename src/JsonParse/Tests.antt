-- ===== src/JsonParse/Tests.antt =====
-- Concrete runs of JsonParse.c.
use my_common.Common.{ℕ, true, false, Option, none, some, [], ◌∷◌, ◌≡◌, refl}
use my_common.Common.Strings.{bytes, str_eq}
use my_common.JsonEx.{document}
use my_common.Cjson.Trees.{trees}
use my_common.JsonStruct.{Bytes}
use my_common.JsonStruct.Bounds.{Sizes}
use my_common.JsonStruct.Encode.{encode_struct_to_json, encode_struct}
use my_common.Common.StateCode.{no_error}
use my_common.JsonParse.{
  TextMemory, result, new_string, untouched, media_make_list_element, ListJsonMng,
  find_json_list_mng_node, parse_list_element, media_parse_list_element,
}
use my_common.JsonParse.Keys.{json_list, video_param_key, audio_param_key}
use my_common.JsonStruct.Flat.{is_flat}
use my_common.JsonParse.Lists.{
  in_block, in_range, size_for, byte_behind, quality_behind, parse_list_element-outside,
  parse_list_element-quality,
}
use my_common.JsonParse.Leaks.{left_over, leaked, media_parse_list_element-left}

abbrev memory : Bytes
memory x = 255

trees-Sizes : Sizes trees
trees-Sizes = record { length-to_float = λ d. refl; length-to_double = λ d. refl }

abbrev size_of : Option ListJsonMng → ℕ
size_of none = 0
size_of (some e) = e.size

test_size : size_of (find_json_list_mng_node json_list (bytes "encinfo")) ≡ 356
unfolding find_json_list_mng_node str_eq
test_size = refl

test_video : is_flat 0 video_param_key ≡ true
test_video = refl

test_audio : is_flat 0 audio_param_key ≡ false
test_audio = refl

abbrev enough : TextMemory
enough = record { has_object = true; has_number = true; has_text = true }

-- Where `*ppstrJson` is null the text of a channel is stored there, that of an encoder is lost.
test_new :
    media_make_list_element trees
      (λ a m. trees.of_int 7)
      enough
      200
      json_list
      (some (bytes "moch"))
      (some 500)
      (some none)
      (λ x. 0)
    ≡ result no_error (
        new_string (
          some (
            trees.print (
              trees.add_to_object trees.object (bytes "prog_id") (trees.number (trees.of_int 7))))))
unfolding media_make_list_element str_eq
test_new = refl

test_lost :
    media_make_list_element trees
      (λ a m. trees.of_int 7)
      enough
      200
      json_list
      (some (bytes "venc"))
      (some 500)
      (some none)
      (λ x. 0)
    ≡ result no_error untouched
unfolding media_make_list_element find_json_list_mng_node encode_struct_to_json encode_struct str_eq
test_lost = refl

-- A text with no number for the id of a channel: its document stays.
test_leaked : leaked trees (bytes "moch") (1 ∷ 5 ∷ []) ≡ document ∷ []
unfolding str_eq
test_leaked = refl

outside_block :
    in_block (some 100) (size_for (find_json_list_mng_node json_list (bytes "venc"))) 300 ≡ false
unfolding find_json_list_mng_node str_eq
outside_block = refl

outside_element :
    in_range 500 (size_for (find_json_list_mng_node json_list (bytes "venc"))) 300 ≡ false
unfolding find_json_list_mng_node str_eq
outside_element = refl

parse_list_element-outside_example :
    byte_behind memory 300
      (parse_list_element trees json_list (bytes "venc") (1 ∷ 5 ∷ []) 500 (some 100) memory)
    ≡ 255
parse_list_element-outside_example =
    parse_list_element-outside trees trees-Sizes (bytes "venc") (1 ∷ 5 ∷ []) 500 (some 100) memory
      300 outside_block outside_element

parse_list_element-quality_example :
    quality_behind trees trees-Sizes 500
      (parse_list_element trees json_list (bytes "aenc") (1 ∷ 5 ∷ []) 500 (some 100) memory)
    ≡ 0
parse_list_element-quality_example =
    parse_list_element-quality trees trees-Sizes (1 ∷ 5 ∷ []) 500 (some 100) memory

media_parse_list_element-left_example :
    left_over (some (leaked trees (bytes "moch") (1 ∷ 5 ∷ []))) (
      media_parse_list_element trees
        (λ d p m. m)
        json_list
        (some (bytes "moch"))
        (some (1 ∷ 5 ∷ []))
        (some 500)
        none
        memory)
    ≡ some (leaked trees (bytes "moch") (1 ∷ 5 ∷ []))
media_parse_list_element-left_example =
    media_parse_list_element-left trees (λ d p m. m) (bytes "moch") (1 ∷ 5 ∷ []) 500 none memory

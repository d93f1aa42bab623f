-- ===== src/StreamCapture/Tests.antt =====
-- Captures of a few bytes in chunks, and what is made of them.
use cluster_gate.Prelude.{
  false, [], ◌∷◌, ◌≡◌, none, some, true, refl, length, some_of, strip_prefix, if◌then◌else◌, trim,
  ◌==◌, trim_start, trim_end, utf16, arith, ℕ, is_blank, List,
}
use cluster_gate.StreamCapture.{concat, new_capture, push}
use cluster_gate.StreamCapture.Prefix.{push_all}
use cluster_gate.StreamCapture.Finish.{
  is_text_application, finish, StreamCaptureOptions, Node, decode, text_result, is_binary,
  has_text_suffix, drop_replacements, sentence, complete, inflate_prefix, collect,
}
use cluster_gate.StreamCapture.Finish.Whole.{IsShown, push_all-finish}

abbrev test_node : Node
test_node = record {
  lower = λ s. s;
  utf8 = λ bytes. bytes;
  byte_length = λ units. length units;
  decimal = λ n. if n == 2 then "2" else "5";
  decompress = λ d raw. (raw ∷ [], true);
}

abbrev test_options : StreamCaptureOptions
test_options = record {
  content_type = some "application/json; charset=utf-8";
  content_encoding = none;
  limit = 2;
  kind = none;
}

abbrev gzip_options : StreamCaptureOptions
gzip_options = record test_options { content_encoding = some "gzip" }

-- The note of a text of five bytes that is cut to two, and a compressed one whose chunks are whole.
cut_text :
    (finish test_node test_options
      (push_all (new_capture 2 false) ((97 ∷ 98 ∷ 99 ∷ []) ∷ (100 ∷ 101 ∷ []) ∷ []))
      complete).body
    ≡ utf16 "ab\n\n[… truncated: showing first 2 of 5 bytes]"
unfolding finish decode text_result is_binary is_text_application has_text_suffix some_of
    strip_prefix push_all push concat drop_replacements sentence utf16 trim trim_start trim_end
    is_blank
cut_text = refl

compressed_text :
    (finish test_node gzip_options
      (push_all (new_capture 2 true) ((97 ∷ 98 ∷ []) ∷ []))
      complete).body
    ≡ 97 ∷ 98 ∷ []
unfolding finish decode text_result is_binary is_text_application has_text_suffix some_of
    strip_prefix push_all push concat drop_replacements sentence utf16 trim trim_start trim_end
    inflate_prefix collect is_blank
compressed_text = refl

abbrev ab_chunks : List (List ℕ)
ab_chunks = (97 ∷ []) ∷ (98 ∷ []) ∷ []

push_all-finish_example :
    IsShown test_node test_options true complete
      (97 ∷ 98 ∷ [])
      (finish test_node test_options (push_all (new_capture 2 false) ab_chunks) complete)
unfolding is_text_application some_of strip_prefix concat trim trim_start trim_end has_text_suffix
    is_blank
push_all-finish_example =
    push_all-finish test_node test_options complete ab_chunks refl refl refl (omega arith)

-- ===== src/StreamCapture/Finish.antt =====
-- backend/src/lib/streamCapture.ts: what `finish` makes of the captured bytes for the request log. A
-- text is the list of its UTF-16 code units.
pub mod Whole
use mathlib.Core.Option
use Prim.Native.Char.{code}
use cluster_gate.Prelude.{
  ℕ, none, some, true, false, [], ◌∷◌, String, List, Option, Bool, if◌then◌else◌, not, str_eq,
  str_append, ◌&&◌, ◌||◌, ◌==◌, leb, ltb, ◌++◌, length, take, present, trim, strip_prefix,
  starts_with, some_of, utf16, ◌*◌,
}
use cluster_gate.StreamCapture.{StreamCapture, concat}

pub data CaptureEndState : Type 0 where
  complete still_open aborted : CaptureEndState

abbrev end_state_text : CaptureEndState → String
end_state_text complete = "complete"
end_state_text still_open = "stream still open"
end_state_text aborted = "stream aborted"

abbrev pub is_complete : CaptureEndState → Bool
is_complete complete = true
is_complete _ = false

pub record StreamCaptureResult : Type 0 where
  pub body : List ℕ
  pub truncated : Bool
  pub all_bytes : ℕ
  pub binary : Bool

pub record StreamCaptureOptions : Type 0 where
  pub content_type : Option String
  pub content_encoding : Option String
  pub limit : ℕ
  pub kind : Option String

pub data Decoder : Type 0 where
  gunzip inflater raw_inflater brotli : Decoder

-- Node: `toLowerCase`, the UTF-8 of a buffer, `Buffer.byteLength`, the digits of a number, and what
-- a decoder of zlib emits for a buffer, with whether it ends without an error.
pub record Node : Type 0 where
  pub lower : String → String
  pub utf8 : List ℕ → List ℕ
  pub byte_length : List ℕ → ℕ
  pub decimal : ℕ → String
  pub decompress : Decoder → List ℕ → List (List ℕ) × Bool

-- `\b` after a word character
abbrev ends_word : String → Bool
ends_word String.[] = true
ends_word (String.◌∷◌ c s) =
    let n = code c in
    not ((leb 48 n && leb n 57) || (leb 65 n && leb n 90) || n == 95 || (leb 97 n && leb n 122))

abbrev starts_with_word : String → String → Bool
starts_with_word s w = elim (strip_prefix w s) [ none ↦ false | some rest ↦ ends_word rest ]

abbrev text_applications : List String
text_applications =
    "json" ∷ "x-ndjson" ∷ "ndjson" ∷ "jsonl" ∷ "x-jsonlines" ∷ "xml" ∷ "javascript" ∷ "ecmascript"
    ∷ "graphql" ∷ "x-www-form-urlencoded" ∷ "problem+json" ∷ "problem+xml" ∷ []

-- `/\+(json|xml)\b/`
unfoldable pub has_text_suffix : String → Bool
unfolding strip_prefix
has_text_suffix String.[] = false
has_text_suffix (String.◌∷◌ c s) =
    let later = has_text_suffix s in
    starts_with_word (String.◌∷◌ c s) "+json" || starts_with_word (String.◌∷◌ c s) "+xml" || later

unfoldable pub is_text_application : String → Bool
unfolding strip_prefix some_of
is_text_application s = elim (strip_prefix "application/" s) [
  | none ↦ false
  | some rest ↦ some_of (starts_with_word rest) text_applications
]

-- A buffer without NUL and control bytes in its first 1024.
abbrev pub is_control : ℕ → Bool
is_control b = b == 0 || ltb b 9 || (ltb 13 b && ltb b 32)

unfoldable pub looks_like_text : List ℕ → Bool
unfolding some_of
looks_like_text buf = not (some_of is_control (take 1024 buf))

abbrev pub create_decoder : String → Option Decoder
create_decoder encoding =
    if str_eq encoding "gzip" || str_eq encoding "x-gzip"
    then some gunzip
    else if str_eq encoding "deflate"
    then some inflater
    else if str_eq encoding "deflate-raw"
    then some raw_inflater
    else if str_eq encoding "br"
    then some brotli
    else none

-- The events of a decoder until the promise settles.
unfoldable pub collect : ℕ → List ℕ → List (List ℕ) → Bool → Option (List ℕ)
collect max_output out [] true = some out
collect max_output [] [] false = none
collect max_output out [] false = some out
collect max_output out (chunk ∷ chunks) ends =
    let so_far = out ++ chunk in
    let later = collect max_output so_far chunks ends in
    if leb max_output (length so_far) then some (take max_output so_far) else later

-- A code unit U+FFFD at the cut is dropped.
unfoldable pub drop_replacements : List ℕ → List ℕ
drop_replacements [] = []
drop_replacements (u ∷ us) =
    let rest = drop_replacements us in
    elim rest [ [] ↦ if u == 65533 then [] else u ∷ [] | v ∷ vs ↦ u ∷ v ∷ vs ]

unfoldable pub sentence : List String → String
sentence [] = ""
sentence (w ∷ ws) = str_append w (sentence ws)

module _ (node : Node) (opts : StreamCaptureOptions) where
  abbrev pub is_text_content_type : Option Bool
  is_text_content_type = elim (present opts.content_type) [
    | none ↦ none
    | some s ↦
        let ct = trim (node.lower s) in
        some (starts_with "text/" ct || is_text_application ct || has_text_suffix ct)
  ]

  abbrev pub encoding : String
  encoding = trim (node.lower (Option.get_or opts.content_encoding ""))

  abbrev pub is_compressed : Bool
  is_compressed = not (str_eq encoding "") && not (str_eq encoding "identity")

  unfoldable pub inflate_prefix : List ℕ → String → ℕ → Option (List ℕ)
  unfolding collect
  inflate_prefix raw name max_output = elim (create_decoder name) [
    | none ↦ none
    | some d ↦ let (chunks, ends) = node.decompress d raw in collect max_output [] chunks ends
  ]

  -- The content's own decoding, with raw deflate as the second try.
  unfoldable pub decode : List ℕ → ℕ → Option (List ℕ)
  unfolding inflate_prefix
  decode raw max_output =
      if is_compressed
      then elim (inflate_prefix raw encoding max_output) [
        | some out ↦ some out
        | none ↦
            if str_eq encoding "deflate" then inflate_prefix raw "deflate-raw" max_output else none
      ]
      else some raw

  abbrev kind_text : String
  kind_text = Option.get_or opts.kind "stream"

  abbrev placeholder : List String → ℕ → Bool → StreamCaptureResult
  placeholder words total cut = record {
    body = utf16 (sentence words);
    truncated = cut;
    all_bytes = total;
    binary = true;
  }

  abbrev type_note : String
  type_note = elim (present opts.content_type) [ none ↦ "" | some t ↦ str_append ", " t ]

  abbrev size_note : CaptureEndState → ℕ → String
  size_note state total =
      if is_complete state
      then sentence (node.decimal total ∷ " bytes" ∷ [])
      else sentence (node.decimal total ∷ "+ bytes, " ∷ end_state_text state ∷ [])

  abbrev truncation_note : CaptureEndState → ℕ → ℕ → String
  truncation_note state shown total =
      let start = str_append "\n\n[… truncated: showing first " (node.decimal shown) in
      if is_complete state
      then sentence (
          start
          ∷ " of "
          ∷ node.decimal total
          ∷ " bytes"
          ∷ (if is_compressed then " (compressed size)" else "")
          ∷ "]"
          ∷ [])
      else sentence (start ∷ " bytes, " ∷ end_state_text state ∷ "]" ∷ [])

  unfoldable pub text_result : CaptureEndState → ℕ → Bool → List ℕ → StreamCaptureResult
  text_result state total raw_truncated decoded =
      let text = node.utf8 decoded in
      let is_long = ltb opts.limit (length text) in
      let is_cut = raw_truncated || leb (opts.limit * 4) (length decoded) || is_long in
      let kept = if is_long then take opts.limit text else text in
      let shown = drop_replacements kept in
      record {
        body =
            if is_cut
            then shown ++ utf16 (truncation_note state (node.byte_length shown) total)
            else kept;
        truncated = is_cut;
        all_bytes = total;
        binary = false;
      }

  unfoldable pub is_binary : List ℕ → Bool
  is_binary decoded = elim is_text_content_type [
    | some is_text ↦ not is_text
    | none ↦ not (looks_like_text decoded)
  ]

  unfoldable pub finish : StreamCapture → CaptureEndState → StreamCaptureResult
  unfolding decode text_result is_binary
  finish c state =
      let raw_truncated = not (is_complete state) || ltb c.captured c.total in
      if c.total == 0
      then record { body = []; truncated = false; all_bytes = 0; binary = false }
      else elim (decode (concat c.chunks) (opts.limit * 4)) [
        | none ↦
            placeholder
              ("["
                ∷ kind_text
                ∷ ": "
                ∷ node.decimal c.total
                ∷ " bytes, "
                ∷ Option.get_or opts.content_encoding "undefined"
                ∷ " encoded — not decodable for preview]"
                ∷ [])
              c.total raw_truncated
        | some decoded ↦
            if is_binary decoded
            then placeholder
                ("[binary " ∷ kind_text ∷ ": " ∷ size_note state c.total ∷ type_note ∷ "]" ∷ [])
                c.total false
            else text_result state c.total raw_truncated decoded
      ]

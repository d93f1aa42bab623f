-- ===== src/StreamCapture/Finish/Whole.antt =====
-- When the log shows the whole of a body that is not compressed.
use cluster_gate.Prelude.{
  ℕ, some, true, false, [], ◌∷◌, inl, inr, List, Bool, ◌≡◌, ◌≤◌, not, ◌&&◌, ◌||◌, ◌==◌, leb, ltb,
  length, Bool-cases, arith, refl, ap, sym, take, if◌then◌else◌, zero, suc, leb→le, ◌*◌, ◌++◌,
  utf16,
}
use cluster_gate.StreamCapture.{StreamCapture, concat, new_capture}
use cluster_gate.StreamCapture.Prefix.{push_all, push_all-prefix, take_all}
use cluster_gate.StreamCapture.Finish.{
  Node, StreamCaptureOptions, StreamCaptureResult, CaptureEndState, is_complete, decode, finish,
  text_result, is_compressed, is_text_content_type, is_binary, drop_replacements, truncation_note,
}

length-take_bound : (n : ℕ) (xs : List ℕ) → length (take n xs) ≤ n
length-take_bound zero xs = omega arith
length-take_bound (suc n) [] = omega arith
length-take_bound (suc n) (x ∷ xs) = omega (arith, length-take_bound n xs)

-- What `if over then take n text else text` keeps.
cut-take :
    (n : ℕ) (text : List ℕ) → (if ltb n (length text) then take n text else text) ≡ take n text
cut-take n text = elim (Bool-cases (ltb n (length text))) [
  | inl over ↦ rw over refl
  | inr fits ↦ rw fits (sym (take_all n text (ground arith)))
]

module _ (node : Node) (opts : StreamCaptureOptions) where
  -- The log's text: the body's, or the text of its first bytes, cut and without a character that the
  -- cut split, and the note.
  abbrev Shows : Bool → CaptureEndState → List ℕ → List ℕ → Type 0
  Shows true state bytes body = body ≡ node.utf8 bytes
  Shows false state bytes body =
      let shown = drop_replacements (take opts.limit (node.utf8 (take opts.limit bytes))) in
      body
      ≡ shown ++ utf16 (truncation_note node opts state (node.byte_length shown) (length bytes))

  abbrev pub IsShown : Bool → CaptureEndState → List ℕ → StreamCaptureResult → Type 0
  IsShown whole state bytes r =
      (r.truncated ≡ not whole)
      × (r.all_bytes ≡ length bytes)
      × (r.binary ≡ false)
      × Shows whole state bytes r.body

  text-whole :
      (state : CaptureEndState) (bytes : List ℕ)
      → is_complete state ≡ true
      → length bytes ≤ opts.limit
      → length (node.utf8 bytes) ≤ length bytes
      → (length bytes == 0) ≡ false
      → IsShown true state bytes (text_result node opts state (length bytes) false bytes)
  unfolding text_result
  text-whole state bytes done fits short some_bytes =
      let not_long : ltb opts.limit (length (node.utf8 bytes)) ≡ false = ground arith in
      let below : leb (opts.limit * 4) (length bytes) ≡ false = ground arith in
      rw (text_result, not_long, below) (refl, refl, refl, refl)

  text-cut :
      (state : CaptureEndState) (bytes : List ℕ)
      → IsShown false state bytes
          (text_result node opts state (length bytes) true (take opts.limit bytes))
  unfolding text_result
  text-cut state bytes =
      (refl, refl, refl, rw (cut-take opts.limit (node.utf8 (take opts.limit bytes))) refl)

  text-IsShown :
      (state : CaptureEndState) (bytes : List ℕ) (captured : ℕ)
      → captured ≡ length (take opts.limit bytes)
      → length (node.utf8 bytes) ≤ length bytes
      → (length bytes == 0) ≡ false
      → IsShown (is_complete state && leb (length bytes) opts.limit) state bytes (
          text_result node opts state
            (length bytes)
            (not (is_complete state) || ltb captured (length bytes))
            (take opts.limit bytes))
  text-IsShown state bytes captured kept short some_bytes =
      let bound = length-take_bound opts.limit bytes in
      elim (Bool-cases (is_complete state)) [
        | inr not_done ↦ rw not_done (text-cut state bytes)
        | inl done ↦ elim (Bool-cases (leb (length bytes) opts.limit)) [
          | inl fits ↦
              let all_kept = take_all opts.limit bytes (leb→le (length bytes) opts.limit fits) in
              let whole : ltb captured (length bytes) ≡ false =
                ground (arith, ap length all_kept) in
              rw (done, fits, whole, all_kept)
                (text-whole state bytes done (leb→le (length bytes) opts.limit fits) short
                  some_bytes)
          | inr over ↦
              let cut : ltb captured (length bytes) ≡ true = ground arith in
              rw (done, over, cut) (text-cut state bytes)
        ]
      ]

  finish-empty :
      (c : StreamCapture) (state : CaptureEndState)
      → c.total ≡ 0
      → finish node opts c state
        ≡ record { body = []; truncated = false; all_bytes = 0; binary = false }
  unfolding finish
  finish-empty c state nothing = let e : (c.total == 0) ≡ true = ground arith in rw (finish, e) refl

  text-not_binary :
      (decoded : List ℕ)
      → is_text_content_type node opts ≡ some true
      → is_binary node opts decoded ≡ false
  unfolding is_binary
  text-not_binary decoded is_text = rw (is_binary, is_text) refl

  decode-plain :
      (raw : List ℕ) (n : ℕ) → is_compressed node opts ≡ false → decode node opts raw n ≡ some raw
  unfolding decode
  decode-plain raw n plain = rw (decode, plain) refl

  finish-text :
      (c : StreamCapture) (state : CaptureEndState)
      → (c.total == 0) ≡ false
      → is_compressed node opts ≡ false
      → is_text_content_type node opts ≡ some true
      → finish node opts c state
        ≡ text_result node opts state c.total
            (not (is_complete state) || ltb c.captured c.total)
            (concat c.chunks)
  unfolding finish
  finish-text c state filled plain is_text =
      let raw = decode-plain (concat c.chunks) (opts.limit * 4) plain in
      rw (finish, filled) (rw raw (rw (text-not_binary (concat c.chunks) is_text) refl))

  finish-IsShown :
      (c : StreamCapture) (state : CaptureEndState) (bytes : List ℕ)
      → concat c.chunks ≡ take opts.limit bytes
      → c.captured ≡ length (take opts.limit bytes)
      → c.total ≡ length bytes
      → is_compressed node opts ≡ false
      → is_text_content_type node opts ≡ some true
      → node.utf8 [] ≡ []
      → length (node.utf8 bytes) ≤ length bytes
      → IsShown
          (length bytes == 0 || is_complete state && leb (length bytes) opts.limit)
          state
          bytes
          (finish node opts c state)
  finish-IsShown c state [] kept counted size plain is_text empty short =
      let e = finish-empty c state size in rw e (refl, refl, refl, sym empty)
  finish-IsShown c state (b ∷ bs) kept counted size plain is_text empty short =
      let filled : (c.total == 0) ≡ false = ground arith in
      let some_bytes : (length (b ∷ bs) == 0) ≡ false = ground arith in
      rw (some_bytes, finish-text c state filled plain is_text, kept, size)
        (text-IsShown state (b ∷ bs) c.captured counted short some_bytes)

  -- However a text that is not compressed is cut into chunks, its log shows it whole exactly if it is
  -- empty, or the stream is complete and the text has at most as many bytes as the limit; else the
  -- log shows the start that the limit allows, with the note. An empty buffer decodes to the empty text, and
  -- a text's UTF-16 is at most as long as its UTF-8.
  pub push_all-finish :
      (state : CaptureEndState) (chunks : List (List ℕ))
      → let bytes = concat chunks in
        is_compressed node opts ≡ false
        → is_text_content_type node opts ≡ some true
        → node.utf8 [] ≡ []
        → length (node.utf8 bytes) ≤ length bytes
        → IsShown
            (length bytes == 0 || is_complete state && leb (length bytes) opts.limit)
            state
            bytes
            (finish node opts
              (push_all (new_capture opts.limit (is_compressed node opts)) chunks)
              state)
  push_all-finish state chunks plain is_text empty short =
      let (kept, counted, size) = push_all-prefix opts.limit false chunks in
      rw plain (
        finish-IsShown (push_all (new_capture opts.limit false) chunks) state (concat chunks) kept
          counted size plain is_text empty short)

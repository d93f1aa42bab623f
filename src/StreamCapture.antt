-- ===== src/StreamCapture.antt =====
-- backend/src/lib/streamCapture.ts: what a StreamCapture keeps of the chunks of a streamed body. A
-- chunk is the list of its bytes (a text chunk is its UTF-8). Finish is what is made of them.
pub mod Prefix
pub mod Finish
mod Tests
use cluster_gate.Prelude.{
  ℕ, [], ◌∷◌, Bool, List, ◌++◌, if◌then◌else◌, leb, ◌+◌, ◌*◌, length, take, ◌-◌,
}

pub record StreamCapture : Type 0 where
  pub chunks : List (List ℕ)
  pub captured : ℕ
  pub total : ℕ
  pub raw_budget : ℕ

abbrev pub compressed_raw_factor : ℕ
compressed_raw_factor = 4

-- The constructor, for a limit and whether the body is compressed.
abbrev pub new_capture : ℕ → Bool → StreamCapture
new_capture limit compressed = record {
  chunks = [];
  captured = 0;
  total = 0;
  raw_budget = if compressed then limit * compressed_raw_factor else limit;
}

-- `buf.length <= remaining ? buf : buf.subarray(0, remaining)`
abbrev pub slice_of : ℕ → List ℕ → List ℕ
slice_of remaining buf = if leb (length buf) remaining then buf else take remaining buf

-- The difference `rawBudget - captured` is never negative, and nothing is kept where it is 0.
unfoldable pub push : StreamCapture → List ℕ → StreamCapture
push c chunk =
    let counted : StreamCapture = record c { total = c.total + length chunk } in
    let slice = slice_of (c.raw_budget - c.captured) chunk in
    if leb c.raw_budget c.captured
    then counted
    else record counted { chunks = c.chunks ++ slice ∷ []; captured = c.captured + length slice }

abbrev pub full : StreamCapture → Bool
full c = leb c.raw_budget c.captured

abbrev pub total_bytes : StreamCapture → ℕ
total_bytes c = c.total

-- `Buffer.concat(this.chunks)`
unfoldable pub concat : List (List ℕ) → List ℕ
concat [] = []
concat (b ∷ bs) = b ++ concat bs

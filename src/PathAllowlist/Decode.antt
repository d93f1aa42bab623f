-- ===== src/PathAllowlist/Decode.antt =====
-- safeDecode: `decodeURIComponent` of the language on UTF-16 code units, `none` where it throws.
use cluster_gate.Prelude.{
  ℕ, none, some, [], ◌∷◌, zero, suc, Option, if◌then◌else◌, List, ◌==◌, ◌++◌, leb, ltb, ◌*◌, ◌&&◌,
  ◌-◌, ◌||◌, ◌+◌, ◌/◌, ◌%◌,
}
use cluster_gate.PathAllowlist.{Text}

-- A unit of the text, or a byte that was written as % and two hexadecimal digits.
pub data Item : Type 0 where
  unit byte : ℕ → Item

-- What of a % and its two digits has been read.
pub data Reading : Type 0 where
  plain percent : Reading
  digit : Option ℕ → Reading

hex : ℕ → Option ℕ
hex c =
    if leb 48 c && leb c 57
    then some (c - 48)
    else if leb 65 c && leb c 70
    then some (c - 55)
    else if leb 97 c && leb c 102
    then some (c - 87)
    else none

with_item : Item → Option (List Item) → Option (List Item)
with_item i none = none
with_item i (some items) = some (i ∷ items)

with_byte : Option ℕ → Option ℕ → Option (List Item) → Option (List Item)
unfolding with_item
with_byte none l items = none
with_byte (some h) none items = none
with_byte (some h) (some l) items = with_item (byte (h * 16 + l)) items

items_of : Reading → Text → Option (List Item)
unfolding with_byte hex
items_of plain [] = some []
items_of percent [] = none
items_of (digit h) [] = none
items_of plain (c ∷ cs) =
    let rest = items_of (if c == 37 then percent else plain) cs in
    if c == 37 then rest else with_item (unit c) rest
items_of percent (c ∷ cs) = items_of (digit (hex c)) cs
items_of (digit h) (c ∷ cs) = with_byte h (hex c) (items_of plain cs)

-- The bytes that follow a first byte, what it contributes, and the smallest number that needs it.
followers : ℕ → ℕ
followers b = if ltb b 128 then 0 else if ltb b 224 then 1 else if ltb b 240 then 2 else 3

contribution : ℕ → ℕ
contribution b = if ltb b 224 then b - 192 else if ltb b 240 then b - 224 else b - 240

smallest : ℕ → ℕ
smallest b = if ltb b 224 then 128 else if ltb b 240 then 2048 else 65536

prepend : Text → Option Text → Option Text
prepend us none = none
prepend us (some t) = some (us ++ t)

-- A number of at least the smallest allowed, as one unit or as a surrogate pair.
emit : ℕ → ℕ → Option Text → Option Text
unfolding prepend
emit min n rest =
    if ltb n min || ltb 1114111 n || (leb 55296 n && leb n 57343)
    then none
    else if ltb n 65536
    then prepend (n ∷ []) rest
    else prepend ((55296 + (n - 65536) / 1024) ∷ (56320 + (n - 65536) % 1024) ∷ []) rest

-- UTF-8, with the bytes still to come, the number so far and the smallest allowed.
utf8 : ℕ → ℕ → ℕ → List Item → Option Text
unfolding emit followers contribution smallest
utf8 zero acc min [] = some []
utf8 (suc n) acc min [] = none
utf8 zero acc min (unit c ∷ is) = prepend (c ∷ []) (utf8 0 0 0 is)
utf8 (suc n) acc min (unit c ∷ is) = none
utf8 zero acc min (byte b ∷ is) =
    let rest = utf8 (followers b) (contribution b) (smallest b) is in
    if ltb b 128 then prepend (b ∷ []) rest else if ltb b 194 || ltb 244 b then none else rest
utf8 (suc n) acc min (byte b ∷ is) =
    let acc' = acc * 64 + (b - 128) in
    let rest = utf8 n acc' min is in
    if ltb b 128 || ltb 191 b then none else if n == 0 then emit min acc' rest else rest

decoded : Option (List Item) → Option Text
unfolding utf8
decoded none = none
decoded (some items) = utf8 0 0 0 items

unfoldable pub safe_decode : Text → Option Text
unfolding decoded items_of
safe_decode segment = decoded (items_of plain segment)

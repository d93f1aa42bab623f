-- ===== src/Proxy/Headers.antt =====
-- The headers of the request that proxyRequest forwards, before those that the route's own settings add
-- or remove. A list of names and values stands for the object; toLowerCase is a parameter.
use cluster_gate.Prelude.{
  none, some, true, false, [], ◌∷◌, inl, inr, String, List, Option, Bool, All, if◌then◌else◌, ◌≡◌,
  not, str_eq, Bool-cases, text_in, arith, filter_by, ◌&&◌, ap, Option-cases, sym, ◌∙◌,
  filter_by-holds, refl, find_first, eq_iff, ◌⊎◌, All-imp, absent-text_in, text_in-absent,
}
use cluster_gate.Proxy.Fields.{
  is_key, set_header, value_of, find_first-set_header_other, set_header-All,
}
use cluster_gate.Cookies.{cookies, is_own, strip_cookies}
use cluster_gate.Cookies.Stripped.{strip_cookies-reads}
use mathlib.Core.Option

-- The values of `req.headers`: a text, or an array of texts.
pub data HeaderValue : Type 0 where
  one : String → HeaderValue
  many : List String → HeaderValue

abbrev pub hop_by_hop_headers : List String
hop_by_hop_headers =
    "connection" ∷ "keep-alive" ∷ "proxy-authenticate" ∷ "proxy-authorization" ∷ "te" ∷ "trailers"
    ∷ "transfer-encoding" ∷ "host" ∷ "content-length" ∷ []

abbrev pub is_consumed : Option String → String → Bool
is_consumed none name = false
is_consumed (some h) name = str_eq name h

-- The headers that RFC 2616 reserves to one hop, and the two that each hop writes itself.
abbrev one_hop_names : List String
one_hop_names =
    "connection" ∷ "keep-alive" ∷ "proxy-authenticate" ∷ "proxy-authorization" ∷ "te" ∷ "trailers"
    ∷ "transfer-encoding" ∷ "host" ∷ "content-length" ∷ []

-- The headers with one value.
unfoldable pub single : List (String × HeaderValue) → List (String × String)
single [] = []
single ((key, many values) ∷ hs) = single hs
single ((key, one value) ∷ hs) = (key, value) ∷ single hs

-- Put back where a streamed request has a Content-Length.
unfoldable pub with_content_length : Option String → List (String × String) → List (String × String)
unfolding set_header
with_content_length none headers = headers
with_content_length (some length) headers = set_header "Content-Length" length headers

other-differs :
    (k key name : String) → str_eq key name ≡ true → str_eq k name ≡ false → str_eq key k ≡ false
other-differs k key name is other = elim (Bool-cases (str_eq key k)) [
  | inr differs ↦ differs
  | inl same ↦
      let e : key ≡ k = (eq_iff key k).0 same in
      let clash : str_eq k name ≡ true = ap (λ n. str_eq n name) (sym e) ∙ is in
      absurd (ground arith)
]

module _ (lower : String → String) where
  unfoldable pub may_pass : Option String → String → Bool
  may_pass consumed key =
      not (text_in (lower key) hop_by_hop_headers) && not (is_consumed consumed (lower key))

  -- The cookies of the gateway are taken out, and the header with them if none is left.
  abbrev pub with_cookies : String → String → List (String × String) → List (String × String)
  with_cookies key value rest =
      if str_eq key "cookie"
      then elim (strip_cookies lower (some value)) [ none ↦ rest | some c ↦ (key, c) ∷ rest ]
      else (key, value) ∷ rest

  unfoldable pub forward_headers :
      Option String → List (String × HeaderValue) → List (String × String)
  unfolding may_pass
  forward_headers consumed [] = []
  forward_headers consumed ((key, many values) ∷ hs) = forward_headers consumed hs
  forward_headers consumed ((key, one value) ∷ hs) =
      let rest = forward_headers consumed hs in
      if may_pass consumed key then with_cookies key value rest else rest

  abbrev pub IsEndToEnd : String → Type 0
  IsEndToEnd name = All (λ n. str_eq n name ≡ false) one_hop_names

  abbrev pub NotConsumed : Option String → String → Type 0
  NotConsumed none name = Unit
  NotConsumed (some consumed) name = str_eq name consumed ≡ false

  abbrev pub IsSafe : Option String → String × String → Type 0
  IsSafe consumed (key, value) =
      IsEndToEnd (lower key)
      × NotConsumed consumed (lower key)
      × (str_eq key "cookie" ≡ true → All (λ p. not (is_own lower p) ≡ true) (cookies value))

  may_pass-names :
      (consumed : Option String) (key : String)
      → may_pass consumed key ≡ true
      → IsEndToEnd (lower key) × NotConsumed consumed (lower key)
  unfolding may_pass
  may_pass-names none key h = (text_in-absent (lower key) hop_by_hop_headers (ground arith), tt)
  may_pass-names (some c) key h =
      (text_in-absent (lower key) hop_by_hop_headers (ground arith), ground arith)

  names-may_pass :
      (consumed : Option String) (key : String)
      → IsEndToEnd (lower key)
      → NotConsumed consumed (lower key)
      → may_pass consumed key ≡ true
  unfolding may_pass
  names-may_pass none key whole other =
      rw (absent-text_in (lower key) hop_by_hop_headers whole) refl
  names-may_pass (some c) key whole other =
      rw (absent-text_in (lower key) hop_by_hop_headers whole, other) refl

  cookies-strip_cookies :
      (value c : String)
      → strip_cookies lower (some value) ≡ some c
      → All (λ p. not (is_own lower p) ≡ true) (cookies c)
  cookies-strip_cookies value c stripped =
      let reads : cookies c ≡ filter_by (λ p. not (is_own lower p)) (cookies value) =
        ap (λ o. cookies (Option.get_or o "")) (sym stripped) ∙ strip_cookies-reads lower value in
      rw reads (filter_by-holds (λ p. not (is_own lower p)) (cookies value))

  with_cookies-IsSafe :
      (consumed : Option String) (key value : String) (rest : List (String × String))
      → may_pass consumed key ≡ true
      → All (IsSafe consumed) rest
      → All (IsSafe consumed) (with_cookies key value rest)
  with_cookies-IsSafe consumed key value rest passes h =
      let (whole, other) = may_pass-names consumed key passes in
      elim (Bool-cases (str_eq key "cookie")) [
        | inr not_cookie ↦ rw not_cookie ((whole, other, λ is. absurd (ground arith)), h)
        | inl is ↦ elim (Option-cases (strip_cookies lower (some value))) [
          | inl gone ↦ rw (is, gone) h
          | inr (c, kept) ↦
              rw (is, kept) ((whole, other, λ _. cookies-strip_cookies value c kept), h)
        ]
      ]

  forward_headers-All :
      (consumed : Option String) (hs : List (String × HeaderValue))
      → All (IsSafe consumed) (forward_headers consumed hs)
  unfolding forward_headers
  forward_headers-All consumed [] = tt
  forward_headers-All consumed ((key, many values) ∷ hs) = forward_headers-All consumed hs
  forward_headers-All consumed ((key, one value) ∷ hs) = elim (Bool-cases (may_pass consumed key)) [
    | inr stays ↦ rw stays (forward_headers-All consumed hs)
    | inl passes ↦ rw passes (
        with_cookies-IsSafe consumed key value (forward_headers consumed hs) passes
          (forward_headers-All consumed hs))
  ]

  -- Every other header is forwarded as it came.
  find_first-with_cookies :
      (k key value : String) (rest : List (String × String))
      → str_eq k "cookie" ≡ false
      → find_first (is_key k) (with_cookies key value rest)
        ≡ find_first (is_key k) ((key, value) ∷ rest)
  unfolding find_first
  find_first-with_cookies k key value rest other = elim (Bool-cases (str_eq key "cookie")) [
    | inr not_cookie ↦ rw not_cookie refl
    | inl is ↦
        let not_k = other-differs k key "cookie" is other in
        elim (Option-cases (strip_cookies lower (some value))) [
          | inl gone ↦ rw (is, gone, not_k) refl
          | inr (c, kept) ↦ rw (is, kept, not_k) refl
        ]
  ]

  find_first-forward_headers :
      (consumed : Option String) (k : String) (hs : List (String × HeaderValue))
      → may_pass consumed k ≡ true
      → str_eq k "cookie" ≡ false
      → find_first (is_key k) (forward_headers consumed hs) ≡ find_first (is_key k) (single hs)
  unfolding forward_headers single find_first
  find_first-forward_headers consumed k [] passes other = refl
  find_first-forward_headers consumed k ((key, many values) ∷ hs) passes other =
      find_first-forward_headers consumed k hs passes other
  find_first-forward_headers consumed k ((key, one value) ∷ hs) passes other =
      let later = find_first-forward_headers consumed k hs passes other in
      elim (Bool-cases (may_pass consumed key)) [
        | inl goes ↦ rw goes (
            find_first-with_cookies k key value (forward_headers consumed hs) other
            ∙ ground (arith, later))
        | inr stays ↦ elim (Bool-cases (str_eq key k)) [
          | inl same ↦
              let clash : may_pass consumed key ≡ true =
                ap (may_pass consumed) ((eq_iff key k).0 same) ∙ passes in
              absurd (ground arith)
          | inr differs ↦ rw (stays, differs) later
        ]
      ]

  -- A Content-Length that was put back, or a header that is safe.
  abbrev pub IsForwarded : Option String → Option String → String × String → Type 0
  IsForwarded length consumed p =
      (some p ≡ Option.map (λ n. ("Content-Length", n)) length) ⊎ IsSafe consumed p

  with_content_length-IsForwarded :
      (length consumed : Option String) (hs : List (String × String))
      → All (IsSafe consumed) hs
      → All (IsForwarded length consumed) (with_content_length length hs)
  unfolding with_content_length
  with_content_length-IsForwarded none consumed hs h = All-imp hs (λ p safe. inr safe) h
  with_content_length-IsForwarded (some n) consumed hs h =
      set_header-All (IsForwarded (some n) consumed) "Content-Length" n hs (inl refl)
        (All-imp hs (λ p safe. inr safe) h)

  value_of-with_content_length :
      (length : Option String) (k : String) (hs : List (String × String))
      → str_eq "Content-Length" k ≡ false
      → value_of k (with_content_length length hs) ≡ value_of k hs
  unfolding with_content_length
  value_of-with_content_length none k hs other = refl
  value_of-with_content_length (some n) k hs other =
      ap (Option.map (λ p. p.1)) (find_first-set_header_other k "Content-Length" n hs other)

  -- Of the request's headers none is forwarded under the nine names that are for one hop only, however
  -- they are spelled, but the Content-Length of a streamed request, nor the one that carried the API
  -- key; in the cookies the target reads none of the gateway's own. Every header under another name
  -- that has one value and is not cookie is forwarded with it. The route's own settings come later.
  pub forward_headers-IsSafe :
      (length consumed : Option String) (hs : List (String × HeaderValue)) (k : String)
      → IsEndToEnd (lower k)
      → NotConsumed consumed (lower k)
      → str_eq k "cookie" ≡ false
      → str_eq "Content-Length" k ≡ false
      → let sent = with_content_length length (forward_headers consumed hs) in
        All (IsForwarded length consumed) sent × (value_of k sent ≡ value_of k (single hs))
  forward_headers-IsSafe length consumed hs k whole other not_cookie not_length = (
    with_content_length-IsForwarded length consumed (forward_headers consumed hs)
        (forward_headers-All consumed hs),
    value_of-with_content_length length k (forward_headers consumed hs) not_length
        ∙ ap (Option.map (λ p. p.1)) (
            find_first-forward_headers consumed k hs (names-may_pass consumed k whole other)
              not_cookie),
  )

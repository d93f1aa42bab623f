-- ===== src/Proxy/Harden/Checks.antt =====
-- What a browser is told by a target through the gateway.
use cluster_gate.Prelude.{
  All-imp, ap, some, [], ◌∷◌, inl, inr, String, List, All, ◌≡◌, Bool-cases, find_first, refl,
  eq_iff, true, false, filter_by, text_in, Bool, not, count_by, str_eq, ◌++◌, arith, ◌≤◌,
  filter_by-holds, some_of, Option-cases, ◌∙◌, filter_by-All, find_first-holds, count_by-filter_by,
}
use cluster_gate.Proxy.Headers.{HeaderValue, one, many}
use cluster_gate.Proxy.Harden.{
  clean_cookies, is_named, is_dropped, values, add_sandbox, csp_header, sandbox_csp,
  harden_proxy_response_headers,
}
use cluster_gate.Proxy.Fields.{
  is_key, delete_header, set_header-All, find_first-set_header, find_first-set_header_other,
  find_first-filter_by, keys-differ,
}
use cluster_gate.Proxy.Harden.Cleaned.{
  IsAllowed, sets_own, set_cookies, clean_cookies-IsAllowed, set_cookies-clean_cookies,
  set_cookies-filter_by, set_cookies-set_header, find_first-clean_cookies, IsOther, other-stays,
  named-other,
}

text_in-last : (x : String) (xs : List String) → text_in x (xs ++ x ∷ []) ≡ true
unfolding text_in some_of
text_in-last x [] = rw ((eq_iff x x).1 refl) refl
text_in-last x (y ∷ xs) = ground (arith, text_in-last x xs)

module _ (lower : String → String) where
  abbrev pub HasSandbox : Bool → List (String × HeaderValue) → Type 0
  HasSandbox false hs = Unit
  HasSandbox true hs =
      (v : HeaderValue) × (find_first (is_key csp_header) hs ≡ some (csp_header, v))
      × (text_in sandbox_csp (values v) ≡ true)

  add_sandbox-HasSandbox :
      (hs : List (String × HeaderValue)) → HasSandbox true (add_sandbox lower hs)
  unfolding add_sandbox
  add_sandbox-HasSandbox hs =
      elim (Option-cases (find_first (is_named lower "content-security-policy") hs)) [
        | inl absent ↦
            rw (add_sandbox, absent)
              (
                one sandbox_csp,
                find_first-set_header csp_header (one sandbox_csp) hs,
                text_in-last sandbox_csp [],
              )
        | inr ((key, v), found) ↦
            rw (add_sandbox, found)
              (
                many (values v ++ sandbox_csp ∷ []),
                find_first-set_header csp_header (many (values v ++ sandbox_csp ∷ []))
                    (delete_header key hs),
                text_in-last sandbox_csp (values v),
              )
      ]

  module _ (lower_csp : lower csp_header ≡ "content-security-policy") where
    csp-IsAllowed : (v : HeaderValue) → IsAllowed lower (csp_header, v)
    csp-IsAllowed v = rw lower_csp (refl, refl)

    add_sandbox-IsAllowed :
        (hs : List (String × HeaderValue))
        → All (IsAllowed lower) hs
        → All (IsAllowed lower) (add_sandbox lower hs)
    unfolding add_sandbox
    add_sandbox-IsAllowed hs h =
        elim (Option-cases (find_first (is_named lower "content-security-policy") hs)) [
          | inl absent ↦
              rw (add_sandbox, absent)
                (set_header-All (IsAllowed lower) csp_header (one sandbox_csp) hs
                  (csp-IsAllowed (one sandbox_csp)) h)
          | inr ((key, v), found) ↦
              let v2 = many (values v ++ sandbox_csp ∷ []) in
              rw (add_sandbox, found)
                (set_header-All (IsAllowed lower) csp_header v2 (delete_header key hs)
                  (csp-IsAllowed v2)
                  (filter_by-All (λ p. not (is_key key p)) (IsAllowed lower) hs h))
        ]

    csp_not_cookie : str_eq (lower csp_header) "set-cookie" ≡ false
    csp_not_cookie = rw lower_csp refl

    -- The header that is deleted is not Set-Cookie.
    cookie-stays :
        (key : String) (v : HeaderValue)
        → is_named lower "content-security-policy" (key, v) ≡ true
        → (p : String × HeaderValue) → is_named lower "set-cookie" p ≡ true
        → not (is_key key p) ≡ true
    cookie-stays key v named p is =
        let e : lower key ≡ "content-security-policy" = (eq_iff (lower key) _).0 named in
        let other : str_eq (lower key) "set-cookie" ≡ false = rw e refl in
        let differs = named-other lower key "set-cookie" p is other in rw differs refl

    set_cookies-add_sandbox :
        (hs : List (String × HeaderValue))
        → set_cookies lower (add_sandbox lower hs) ≡ set_cookies lower hs
    unfolding add_sandbox
    set_cookies-add_sandbox hs =
        elim (Option-cases (find_first (is_named lower "content-security-policy") hs)) [
          | inl absent ↦
              rw (add_sandbox, absent)
                (set_cookies-set_header lower csp_header (one sandbox_csp) hs csp_not_cookie)
          | inr ((key, v), found) ↦
              let v2 = many (values v ++ sandbox_csp ∷ []) in
              let named =
                find_first-holds (is_named lower "content-security-policy") hs (key, v) found in
              rw (add_sandbox, found)
                (set_cookies-set_header lower csp_header v2 (delete_header key hs) csp_not_cookie
                  ∙ set_cookies-filter_by lower (λ p. not (is_key key p)) hs
                      (cookie-stays key v named))
        ]

    find_first-add_sandbox :
        (k : String) (hs : List (String × HeaderValue))
        → IsOther lower k
        → find_first (is_key k) (add_sandbox lower hs) ≡ find_first (is_key k) hs
    unfolding add_sandbox
    find_first-add_sandbox k hs (_, _, _, not_csp) =
        let differs : str_eq csp_header k ≡ false =
          named-other lower k "content-security-policy" (csp_header, one "") (rw lower_csp refl)
            not_csp in
        elim (Option-cases (find_first (is_named lower "content-security-policy") hs)) [
          | inl absent ↦
              rw (add_sandbox, absent)
                (find_first-set_header_other k csp_header (one sandbox_csp) hs differs)
          | inr ((key, v), found) ↦
              let v2 = many (values v ++ sandbox_csp ∷ []) in
              rw (add_sandbox, found)
                (find_first-set_header_other k csp_header v2 (delete_header key hs) differs
                  ∙ find_first-filter_by (is_key k) (λ p. not (is_key key p)) hs
                      (keys-differ k key (
                        named-other lower k "content-security-policy" (key, v)
                          (find_first-holds (is_named lower "content-security-policy") hs (key, v)
                            found)
                          not_csp)))
        ]

    harden-All :
        (sandbox : Bool) (hs : List (String × HeaderValue))
        → All (IsAllowed lower) (harden_proxy_response_headers lower sandbox hs)
    unfolding harden_proxy_response_headers
    harden-All sandbox hs =
        let stays : String × HeaderValue → Bool = λ p. not (is_dropped lower p) in
        let allowed =
          All-imp (filter_by stays hs) (λ p kept. (ground arith, ground arith))
            (filter_by-holds stays hs) in
        let cleaned = clean_cookies-IsAllowed lower (filter_by stays hs) allowed in
        elim (Bool-cases sandbox) [
          | inl on ↦
              rw on (add_sandbox-IsAllowed (clean_cookies lower (filter_by stays hs)) cleaned)
          | inr off ↦ rw off cleaned
        ]

    cookie-not_dropped :
        (p : String × HeaderValue)
        → is_named lower "set-cookie" p ≡ true
        → not (is_dropped lower p) ≡ true
    cookie-not_dropped p is =
        let e : lower p.0 ≡ "set-cookie" = (eq_iff (lower p.0) _).0 is in rw e refl

    set_cookies-harden :
        (sandbox : Bool) (hs : List (String × HeaderValue))
        → count_by (is_named lower "set-cookie") hs ≤ 1
        → set_cookies lower (harden_proxy_response_headers lower sandbox hs)
          ≡ filter_by (λ c. not (sets_own lower c)) (set_cookies lower hs)
    unfolding harden_proxy_response_headers
    set_cookies-harden sandbox hs once =
        let stays : String × HeaderValue → Bool = λ p. not (is_dropped lower p) in
        let cleaned =
          set_cookies-clean_cookies lower (filter_by stays hs)
            (omega (arith, count_by-filter_by (is_named lower "set-cookie") stays hs, once))
          ∙ ap (filter_by (λ c. not (sets_own lower c)))
              (set_cookies-filter_by lower stays hs cookie-not_dropped) in
        elim (Bool-cases sandbox) [
          | inl on ↦
              rw on (set_cookies-add_sandbox (clean_cookies lower (filter_by stays hs)) ∙ cleaned)
          | inr off ↦ rw off cleaned
        ]

    harden-HasSandbox :
        (sandbox : Bool) (hs : List (String × HeaderValue))
        → HasSandbox sandbox (harden_proxy_response_headers lower sandbox hs)
    unfolding harden_proxy_response_headers
    harden-HasSandbox false hs = tt
    harden-HasSandbox true hs =
        add_sandbox-HasSandbox (clean_cookies lower (filter_by (λ p. not (is_dropped lower p)) hs))

    find_first-harden :
        (sandbox : Bool) (k : String) (hs : List (String × HeaderValue))
        → IsOther lower k
        → find_first (is_key k) (harden_proxy_response_headers lower sandbox hs)
          ≡ find_first (is_key k) hs
    unfolding harden_proxy_response_headers
    find_first-harden sandbox k hs other =
        let stays : String × HeaderValue → Bool = λ p. not (is_dropped lower p) in
        let cleaned =
          find_first-clean_cookies lower k (filter_by stays hs) other.2
          ∙ find_first-filter_by (is_key k) stays hs (λ p. other-stays lower k p other) in
        elim (Bool-cases sandbox) [
          | inl on ↦
              rw on (
                find_first-add_sandbox k (clean_cookies lower (filter_by stays hs)) other ∙ cleaned)
          | inr off ↦ rw off cleaned
        ]

    -- Of a response with at most one Set-Cookie header, the browser gets no header that widens a worker's
    -- scope or shares the page's browsing context, of its cookies just those whose name, in lower case and
    -- without a prefix __host- or __secure-, does not begin with cg_, and with the sandbox its policy; a
    -- header of another name is the target's. Names of headers are compared in lower case, and that of
    -- Content-Security-Policy is content-security-policy. A cookie without a name passes.
    pub harden_proxy_response_headers-IsHardened :
        (sandbox : Bool) (hs : List (String × HeaderValue)) (k : String)
        → count_by (is_named lower "set-cookie") hs ≤ 1
        → IsOther lower k
        → let sent = harden_proxy_response_headers lower sandbox hs in
          All (IsAllowed lower) sent
          × (set_cookies lower sent
              ≡ filter_by (λ c. not (sets_own lower c)) (set_cookies lower hs))
          × HasSandbox sandbox sent
          × (find_first (is_key k) sent ≡ find_first (is_key k) hs)
    harden_proxy_response_headers-IsHardened sandbox hs k once other = (
      harden-All sandbox hs,
      set_cookies-harden sandbox hs once,
      harden-HasSandbox sandbox hs,
      find_first-harden sandbox k hs other,
    )

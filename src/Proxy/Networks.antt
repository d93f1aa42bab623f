-- ===== src/Proxy/Networks.antt =====
-- What the masks of is_ip_allowed compare.
use cluster_gate.Prelude.{
  ℕ, ◌≡◌, ◌/◌, ◌↔◌, ◌^◌, ◌*◌, arith, none, some, true, false, [], ◌∷◌, inl, inr, String, ◌<◌,
  has_char, some_of, split_at, parse_int, sym, ◌⊎◌, List, ◌∙◌, plus, ◌≤◌, ap, ◌-◌, ==_iff, ◌==◌,
  split_at-without,
}
use native.Mathlib.Nat.{
  mod-eq-sub-div-mul, div-mul-le_self, mul-div_cancel, div-eq_of_lt, one-le-pow, pow-le-pow_right,
}
use cluster_gate.Proxy.Address.{
  masked, is_ip_allowed, ip_in_cidr, ip_to_num, octets, host_bits, without_mapping,
}

masked-div : (e x : ℕ) → masked e x ≡ x / 2 ^ e * 2 ^ e
masked-div e x = let m : ℕ = 2 ^ e in omega (arith, mod-eq-sub-div-mul x m, div-mul-le_self x m)

masked_iff : (e x y : ℕ) → (masked e x ≡ masked e y) ↔ (x / 2 ^ e ≡ y / 2 ^ e)
masked_iff e x y = (
  λ h.
      let m : ℕ = 2 ^ e in
      let positive : 0 < m = one-le-pow e 2 (omega arith) in
      let same : x / m * m ≡ y / m * m = sym (masked-div e x) ∙ h ∙ masked-div e y in
      sym (mul-div_cancel (x / m) positive)
      ∙ ap (λ n. n / m) same
      ∙ mul-div_cancel (y / m) positive,
  λ h. masked-div e x ∙ ap (λ n. n * 2 ^ e) h ∙ sym (masked-div e y),
)

-- An entry with b bits, up to 32, admits exactly the addresses whose first b bits are those of the
-- entry's range, both read as ip_to_num reads them.
pub ip_in_cidr_iff :
    (ip cidr range bits : String) (b : ℕ)
    → split_at 47 cidr ≡ range ∷ bits ∷ []
    → parse_int bits ≡ some (plus b)
    → b ≤ 32
    → (ip_in_cidr ip cidr ≡ true) ↔ (ip_to_num ip / 2 ^ (32 - b) ≡ ip_to_num range / 2 ^ (32 - b))
unfolding ip_in_cidr host_bits
ip_in_cidr_iff ip cidr range bits b parts parsed small =
    let e : ℕ = 32 - b in
    let (there, back) = masked_iff e (ip_to_num ip) (ip_to_num range) in
    let (reads, shows) = ==_iff (masked e (ip_to_num ip)) (masked e (ip_to_num range)) in
    let opened : ip_in_cidr ip cidr ≡ (masked e (ip_to_num ip) == masked e (ip_to_num range)) =
      rw (ip_in_cidr, parts, parsed) in
    (λ h. there (reads (sym opened ∙ h)), λ h. opened ∙ shows (back h))

-- A text that parseInt reads up to a character other than a dot, as a number of up to four digits or
-- as none: so it does with every IPv6 address, whose groups end at a colon.
abbrev pub IsUndotted : String → Type 0
IsUndotted s =
    (has_char 46 s ≡ false)
    × ((parse_int s ≡ none) ⊎ ((n : ℕ) × (parse_int s ≡ some (plus n)) × (n < 10000)))

IsUndotted-small : (s : String) → IsUndotted s → ip_to_num s < 10000
unfolding ip_to_num octets
IsUndotted-small s (undotted, inl missing) =
    rw (ip_to_num, split_at-without 46 s undotted, missing) (omega arith)
IsUndotted-small s (undotted, inr (n, read, small)) =
    rw (ip_to_num, split_at-without 46 s undotted, read) (omega arith)

-- A range without dots, as of IPv6, with at most 18 bits: its entry admits every client whose
-- address, less the prefix ::ffff:, has no dots either, so every IPv6 client.
pub is_ip_allowed-undotted :
    (client cidr range bits : String) (b : ℕ) (entries : List String)
    → split_at 47 cidr ≡ range ∷ bits ∷ []
    → has_char 47 cidr ≡ true
    → parse_int bits ≡ some (plus b)
    → b ≤ 18
    → IsUndotted range
    → IsUndotted (without_mapping client)
    → is_ip_allowed client (cidr ∷ entries) ≡ true
unfolding is_ip_allowed some_of
is_ip_allowed-undotted client cidr range bits b entries parts slash parsed few r c =
    let m : ℕ = 2 ^ (32 - b) in
    let ip = without_mapping client in
    let wide : 2 ^ 14 ≤ m = pow-le-pow_right (omega arith) {i = 14} {j = 32 - b} (omega arith) in
    let small = IsUndotted-small ip c in
    let small' = IsUndotted-small range r in
    let zero_ : ip_to_num ip / m ≡ 0 = div-eq_of_lt (omega arith) in
    let zero' : ip_to_num range / m ≡ 0 = div-eq_of_lt (omega arith) in
    let admitted : ip_in_cidr ip cidr ≡ true =
      (ip_in_cidr_iff ip cidr range bits b parts parsed (omega arith)).1 (zero_ ∙ sym zero') in
    rw (slash, admitted) (ground arith)

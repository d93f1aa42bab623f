-- ===== src/Targets/Mapped.antt =====
-- The number of calls that the check of an address takes.
use cluster_gate.Prelude.{ℕ, true, refl, inl, inr, String, Bool, ◌≡◌, ◌||◌, ◌==◌, suc, Option-cases}
use cluster_gate.Targets.{Platform}
use cluster_gate.Targets.Hosts.{all_chars, is_digit, embedded_ipv4}
use cluster_gate.Targets.Metadata.{is_metadata_ip, bare_address, is_metadata_within, metadata_test}
use cluster_gate.Targets.Dotted.{
  embedded_ipv4-IsDotted, IsDotted, IsDotted-has_char, unbracket-same, before-same,
}

-- toLowerCase leaves digits and full stops as they are.
abbrev pub KeepsDotted : Platform → Type 0
KeepsDotted os = (s : String) → all_chars (λ c. is_digit c || c == 46) s ≡ true → os.lower s ≡ s

module _ (os : Platform) (keeps : KeepsDotted os) where
  bare_address-same : (d : String) → IsDotted d → bare_address os d ≡ d
  unfolding bare_address
  bare_address-same d h =
      rw (keeps d h, unbracket-same d h) (before-same 37 d (IsDotted-has_char 37 d refl h))

  metadata_test-dotted :
      (f g : String → Bool) (d : String) → IsDotted d → metadata_test os f d ≡ metadata_test os g d
  unfolding metadata_test
  metadata_test-dotted f g d h =
      rw (metadata_test, bare_address-same d h, IsDotted-has_char 58 d refl h) refl

  metadata_test-same :
      (f g : String → Bool) (ip : String)
      → ((d : String) → IsDotted d → f d ≡ g d)
      → metadata_test os f ip ≡ metadata_test os g ip
  unfolding metadata_test
  metadata_test-same f g ip same = elim (Option-cases (embedded_ipv4 (bare_address os ip))) [
    | inl other ↦ rw (metadata_test, other) refl
    | inr (d, e) ↦ rw (metadata_test, e, same d (embedded_ipv4-IsDotted _ d e)) refl
  ]

  -- Two calls are enough: the address that is embedded in another embeds none.
  pub is_metadata_within-enough :
      (n : ℕ) (ip : String) → is_metadata_within os (suc (suc n)) ip ≡ is_metadata_ip os ip
  unfolding is_metadata_ip is_metadata_within
  is_metadata_within-enough n ip =
      metadata_test-same (is_metadata_within os (suc n)) (is_metadata_within os 1) ip
        (λ d h. metadata_test-dotted (is_metadata_within os n) (is_metadata_within os 0) d h)

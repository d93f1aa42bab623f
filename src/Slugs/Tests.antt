-- ===== src/Slugs/Tests.antt =====
-- Slugs of names.
use cluster_gate.Prelude.{none, some, true, false, refl, ◌≡◌}
use cluster_gate.Slugs.{slugify, looks_like_cuid}

slugs :
    (slugify (λ s. s) (some "my cool route!") ≡ some "my-cool-route")
    × (slugify (λ s. s) (some "  docs / api  ") ≡ some "docs-api")
    × (slugify (λ s. s) (some "!!") ≡ none)
    × (looks_like_cuid "cjld2cjxh0000qzrmn831i7rn" ≡ true)
    × (looks_like_cuid "my-cool-route" ≡ false)
unfolding slugify looks_like_cuid
slugs = (refl, refl, refl, refl, refl)

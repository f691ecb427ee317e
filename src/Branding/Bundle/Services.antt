-- ===== src/Branding/Bundle/Services.antt =====
-- The font services that pruning leaves, and the keys that it knows.
use server_components.Common.{
  ◌≡◌, ◌⊎◌, refl, subst, Bool, true, false, ◌||◌, not, inl, inr, List, [], ◌∷◌, any, keep, arith,
  Bytes, is_empty, bytes_eq, bytes_eq_refl, Bool-cases,
}
use server_components.Branding.Bundle.{BundleFontSource}
use server_components.Branding.Bundle.Pruning.{
  has, insert, erase, source_reason, keys_after, prune_sources,
}

-- One of the sources has the key.
abbrev pub names_source : Bytes → List BundleFontSource → Bool
names_source key sources = any (λ source. bytes_eq source.source_key key) sources

or_right : (a : Bool) {b : Bool} → b ≡ true → (a || b) ≡ true
or_right true h = refl
or_right false h = h

has-insert :
    (key k : Bytes) (keys : List Bytes)
    → has key (insert k keys) ≡ true
    → (bytes_eq k key || has key keys) ≡ true
unfolding insert has
has-insert key k keys h = ground arith

has-erase :
    (key k : Bytes) (keys : List Bytes) → has key (erase k keys) ≡ true → has key keys ≡ true
unfolding erase has
has-erase key k [] h = h
has-erase key k (other ∷ keys) h = ground (arith, has-erase key k keys)

-- A key that is erased again is not new.
has-inserted_erased :
    (key k : Bytes) (keys : List Bytes)
    → has key (erase k (insert k keys)) ≡ true
    → has key keys ≡ true
unfolding insert erase
has-inserted_erased key k keys h = elim (Bool-cases (has k keys)) [
  | inl present ↦ has-erase key k keys (
      subst (λ (ks : List Bytes). has key (keep (λ k'. not (bytes_eq k' k)) ks) ≡ true)
        (rw present refl) h)
  | inr missing ↦ has-erase key k keys (ground (arith, bytes_eq_refl k))
]

keys_after-has :
    (key : Bytes) (keys : List Bytes) (source : BundleFontSource)
    → has key (keys_after keys source) ≡ true
    → ((is_empty (source_reason keys source) ≡ true) × (bytes_eq source.source_key key ≡ true))
      ⊎ (has key keys ≡ true)
unfolding keys_after
keys_after-has key keys source h = elim (Bool-cases (is_empty (source_reason keys source))) [
  | inl good ↦ elim (Bool-cases (is_empty source.source_key)) [
    | inl empty ↦ inr (ground arith)
    | inr full ↦ elim (Bool-cases (bytes_eq source.source_key key)) [
      | inl same ↦ inl (good, same)
      | inr other ↦ inr (ground (arith, has-insert key source.source_key keys))
    ]
  ]
  | inr bad ↦ elim (Bool-cases (is_empty source.source_key)) [
    | inl empty ↦ inr (ground (arith, has-erase key source.source_key keys))
    | inr full ↦ inr (ground (arith, has-inserted_erased key source.source_key keys))
  ]
]

module _ (keys : List Bytes) (source : BundleFontSource) (sources : List BundleFontSource) where
  prune_sources-keys :
      (prune_sources keys (source ∷ sources)).0 ≡ (prune_sources (keys_after keys source) sources).0
  unfolding prune_sources
  prune_sources-keys = elim (Bool-cases (is_empty (source_reason keys source))) [
    | inl good ↦ rw good refl
    | inr bad ↦ rw bad refl
  ]

  prune_sources-kept :
      is_empty (source_reason keys source) ≡ true
      → (prune_sources keys (source ∷ sources)).1
        ≡ source ∷ (prune_sources (keys_after keys source) sources).1
  unfolding prune_sources
  prune_sources-kept good = rw good refl

  prune_sources-dropped :
      is_empty (source_reason keys source) ≡ false
      → (prune_sources keys (source ∷ sources)).1
        ≡ (prune_sources (keys_after keys source) sources).1
  unfolding prune_sources
  prune_sources-dropped bad = rw bad refl

-- A key that is left in the set is the key of a source that is kept, unless it was there before.
pub prune_sources-names :
    (key : Bytes) (keys : List Bytes) (sources : List BundleFontSource)
    → has key (prune_sources keys sources).0 ≡ true
    → (names_source key (prune_sources keys sources).1 ≡ true) ⊎ (has key keys ≡ true)
prune_sources-names key keys [] h = inr (unfold prune_sources in h)
prune_sources-names key keys (source ∷ sources) h =
    let later =
      prune_sources-names key (keys_after keys source) sources
        (rw (← prune_sources-keys keys source sources) h) in
    elim (Bool-cases (is_empty (source_reason keys source))) [
      | inl good ↦ elim later [
        | inl named ↦ inl (
            rw (prune_sources-kept keys source sources good)
              (or_right (bytes_eq source.source_key key) named))
        | inr present ↦ elim (keys_after-has key keys source present) [
          | inl (_, same) ↦ inl (rw (prune_sources-kept keys source sources good, same) refl)
          | inr before ↦ inr before
        ]
      ]
      | inr bad ↦ elim later [
        | inl named ↦ inl (rw (prune_sources-dropped keys source sources bad) named)
        | inr present ↦ elim (keys_after-has key keys source present) [
          | inl (good, _) ↦ absurd (ground (arith, good, bad))
          | inr before ↦ inr before
        ]
      ]
    ]

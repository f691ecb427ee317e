-- ===== src/Endpoints/CsrfGuard/Deciding.antt =====
-- Which requests the CSRF guard answers itself.
use server_components.Common.{
  ◌≡◌, refl, ap, ◌≢◌, ◌↔◌, inl, inr, Bool, true, false, ◌&&◌, not, [], ◌∷◌, arith, if◌then◌else◌,
  ◌==◌, length, Bool-cases, Bytes, bytes, is_empty,
}
use server_components.Endpoints.Requests.{Request}
use server_components.Endpoints.CsrfGuard.{get_cookie_value, constant_time_equal}

-- `sodium_memcmp` on texts of one length returns 0 exactly when they are the same.
abbrev pub ComparesEqual : (Bytes → Bytes → Bool) → Type 0
ComparesEqual memcmp = (a b : Bytes) → length a ≡ length b → (memcmp a b ≡ true) ↔ (a ≡ b)

-- What the request carries: the token of its cookie, and the one of its header.
abbrev pub cookie_token : Request → Bytes
cookie_token req = get_cookie_value (req.get_header_value (bytes "Cookie")) (bytes "csrft")

abbrev pub header_token : Request → Bytes
header_token req = req.get_header_value (bytes "X-CSRF-Token")

module _ (sodium_memcmp : Bytes → Bytes → Bool) (compares : ComparesEqual sodium_memcmp) where
  -- `ConstantTimeEqual` is equality of texts, also of empty ones and of different lengths.
  pub constant_time_equal_iff :
      (a b : Bytes) → (constant_time_equal sodium_memcmp a b ≡ true) ↔ (a ≡ b)
  unfolding constant_time_equal
  constant_time_equal_iff a b = elim (Bool-cases (length a == length b)) [
    | inr other ↦ rw other ((λ e. cc), (λ e. absurd (differ other (ap length e))))
    | inl same ↦ rw same (on_same_length a b (ground arith))
  ]
    where
      differ : (length a == length b) ≡ false → length a ≢ length b
      differ other e = ground arith

      on_same_length :
          (u v : Bytes)
          → length u ≡ length v
          → ((if is_empty u then true else sodium_memcmp u v) ≡ true) ↔ (u ≡ v)
      on_same_length [] [] e = ((λ h. refl), (λ h. refl))
      on_same_length [] (d ∷ v) e = absurd (omega arith)
      on_same_length (c ∷ u) v e = compares (c ∷ u) v e

  -- An acceptable pair of tokens: present, and the same.
  tokens_agree : Request → Bool
  tokens_agree req =
      not (is_empty (cookie_token req))
      && not (is_empty (header_token req))
      && constant_time_equal sodium_memcmp (cookie_token req) (header_token req)

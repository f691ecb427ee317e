-- ===== src/Endpoints/ProxyTrust.antt =====
-- components/platform/business_logic/auth/proxy_trust.cpp: the address of the viewer behind a proxy.
use server_components.Common.{
  ℕ, ◌≡◌, refl, ◌∙◌, Bool, true, false, ◌||◌, not, inl, inr, ◌⊎◌, Option, none, some, [], ◌∷◌, ◌++◌,
  if◌then◌else◌, length, take, Bytes, bytes, is_empty, bytes_eq, find_byte, find_byte_at,
  find_byte-none, take-append, Without,
}
use server_components.Foundation.Text.{string_to_lower, string_trim}
use server_components.Endpoints.Requests.{Request}
use server_components.Endpoints.OriginGuard.{get_env_with_fallback}

unfoldable pub is_trusting : Option Bytes → Bool
is_trusting none = false
is_trusting (some val) =
    if is_empty val
    then false
    else bytes_eq (string_to_lower val) (bytes "1") || bytes_eq (string_to_lower val) (bytes "true")

unfoldable pub proxy_trust_enabled : (Bytes → Option Bytes) → Bool
proxy_trust_enabled getenv =
    is_trusting
      (get_env_with_fallback getenv (bytes "HONUWARE_TRUST_PROXY") (bytes "KNOTTYYOGA_TRUST_PROXY"))

unfoldable pub resolve_viewer_scheme : (Bytes → Option Bytes) → Request → Bytes
resolve_viewer_scheme getenv req =
    if not (proxy_trust_enabled getenv)
    then []
    else string_trim (req.get_header_value (bytes "X-Forwarded-Proto"))

-- The part of a text before the first comma.
unfoldable pub before_comma : Bytes → Bytes
before_comma view = elim (find_byte b',' view) [ none ↦ view | some comma ↦ take comma view ]

unfoldable pub resolve_viewer_ip : (Bytes → Option Bytes) → Request → Bytes
resolve_viewer_ip getenv req =
    let forwarded = req.get_header_value (bytes "X-Forwarded-For") in
    if not (proxy_trust_enabled getenv)
    then []
    else if is_empty forwarded
    then []
    else string_trim (before_comma forwarded)

unfoldable pub resolve_client_ip : (Bytes → Option Bytes) → Request → Bytes
resolve_client_ip getenv req =
    let viewer = resolve_viewer_ip getenv req in
    if not (is_empty viewer) then viewer else req.remote_ip_address

before_comma-at :
    (view : Bytes) (i : ℕ) → find_byte b',' view ≡ some i → before_comma view ≡ take i view
unfolding before_comma
before_comma-at view i e = cc

before_comma-next : (s t : Bytes) → Without b',' s → before_comma (s ++ b',' ∷ t) ≡ s
before_comma-next s t h =
    before_comma-at (s ++ b',' ∷ t) (length s) (find_byte_at b',' s t h) ∙ take-append s (b',' ∷ t)

before_comma-whole : (s : Bytes) → Without b',' s → before_comma s ≡ s
unfolding before_comma
before_comma-whole s h = rw (before_comma, find_byte-none b',' s h) refl

-- Without a trusted proxy the address is that of the connection, whatever the request's headers say. With one it is the
-- first entry of X-Forwarded-For, trimmed, whether it stands alone or hops follow behind a comma, and that of the
-- connection if the entry is blank or the header is not there or empty.
pub resolve_client_ip_lem :
    (getenv : Bytes → Option Bytes) (req : Request)
    → (proxy_trust_enabled getenv ≡ false → resolve_client_ip getenv req ≡ req.remote_ip_address)
      × ((viewer hops : Bytes)
          → proxy_trust_enabled getenv ≡ true
          → Without b',' viewer
          → (req.get_header_value (bytes "X-Forwarded-For") ≡ viewer ++ b',' ∷ hops)
            ⊎ (req.get_header_value (bytes "X-Forwarded-For") ≡ viewer)
          → resolve_client_ip getenv req ≡ (
              if not (is_empty (string_trim viewer))
              then string_trim viewer
              else req.remote_ip_address))
unfolding resolve_client_ip resolve_viewer_ip
resolve_client_ip_lem getenv req = (
  λ off. rw off,
  λ viewer hops on plain entry. elim entry [
    | inl e ↦ rw (on, e, before_comma-next viewer hops plain, some_text viewer hops)
    | inr e ↦ rw (on, e, before_comma-whole viewer plain) (blank viewer)
  ],
)
  where
    blank :
        (s : Bytes)
        → (let found = if is_empty s then [] else string_trim s in
            if not (is_empty found) then found else req.remote_ip_address)
          ≡ (if not (is_empty (string_trim s)) then string_trim s else req.remote_ip_address)
    blank [] = unfold string_trim in refl
    blank (c ∷ s) = refl

    some_text : (s t : Bytes) → is_empty (s ++ b',' ∷ t) ≡ false
    some_text [] t = refl
    some_text (c ∷ s) t = refl

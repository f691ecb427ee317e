-- ===== src/Auth/Secrets.antt =====
-- Thresholds that are read from the secrets: `LoginGate::LookupInt64Secret`, and the same code in person.cpp.
use server_components.Common.Int.{ℤ}
use server_components.Common.{Option, none, some, if◌then◌else◌, Bytes, is_empty}
use server_components.Foundation.Numbers.{stoll}

-- `Secrets::SecretsHelperPtr`, which may be null, and what `LookupSecret` returns in the transaction.
abbrev pub Secrets : Type 0
Secrets = Option (Bytes → Bytes)

-- `try { return std::stoll(val); } catch (...) { return fallback; }`
unfoldable pub stoll_or : ℤ → Bytes → ℤ
stoll_or fallback val = elim (stoll val) [ some v ↦ v | none ↦ fallback ]

unfoldable pub lookup_int64_secret : Secrets → Bytes → ℤ → ℤ
lookup_int64_secret none key fallback = fallback
lookup_int64_secret (some lookup_secret) key fallback =
    if is_empty (lookup_secret key) then fallback else stoll_or fallback (lookup_secret key)
